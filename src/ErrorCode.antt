-- ===== src/ErrorCode.antt =====
-- code/base/error_code/rpc_error_code.h: the status codes of a response and their names.
pub mod Names
use light_rpc.Prelude.{ℕ, Bool, List, if◌then◌else◌, ◌==◌}
use light_rpc.Prelude.Eq.{Text, codes}

pub data RpcErrorCode : Type 0 where
  ok : RpcErrorCode
  client_request_timeout client_connection_disconnected client_network_error : RpcErrorCode
  client_not_running client_request_serialize_failed client_encode_failed : RpcErrorCode
  client_response_parse_failed : RpcErrorCode
  server_service_not_found server_internal_error server_busy : RpcErrorCode
  server_request_parse_failed server_response_serialize_failed : RpcErrorCode
  server_shutting_down : RpcErrorCode

-- `static_cast<int32_t>(code)`
abbrev pub number : RpcErrorCode → ℕ
number ok = 0
number client_request_timeout = 1001
number client_connection_disconnected = 1002
number client_network_error = 1003
number client_not_running = 1004
number client_request_serialize_failed = 1005
number client_encode_failed = 1006
number client_response_parse_failed = 1007
number server_service_not_found = 2001
number server_internal_error = 2002
number server_busy = 2003
number server_request_parse_failed = 2004
number server_response_serialize_failed = 2005
number server_shutting_down = 2006

-- `RpcErrorCodeToString`. Its argument may hold any `int32_t`, so the switch is over numbers.
pub rpc_error_code_to_string : ℕ → Text
rpc_error_code_to_string n =
    if n == number ok
    then codes "OK"
    else if n == number client_request_timeout
    then codes "CLIENT_REQUEST_TIMEOUT"
    else if n == number client_connection_disconnected
    then codes "CLIENT_CONNECTION_DISCONNECTED"
    else if n == number client_network_error
    then codes "CLIENT_NETWORK_ERROR"
    else if n == number client_not_running
    then codes "CLIENT_NOT_RUNNING"
    else if n == number client_request_serialize_failed
    then codes "CLIENT_REQUEST_SERIALIZE_FAILED"
    else if n == number client_encode_failed
    then codes "CLIENT_ENCODE_FAILED"
    else if n == number client_response_parse_failed
    then codes "CLIENT_RESPONSE_PARSE_FAILED"
    else if n == number server_service_not_found
    then codes "SERVER_SERVICE_NOT_FOUND"
    else if n == number server_internal_error
    then codes "SERVER_INTERNAL_ERROR"
    else if n == number server_busy
    then codes "SERVER_BUSY"
    else if n == number server_request_parse_failed
    then codes "SERVER_REQUEST_PARSE_FAILED"
    else if n == number server_response_serialize_failed
    then codes "SERVER_RESPONSE_SERIALIZE_FAILED"
    else if n == number server_shutting_down
    then codes "SERVER_SHUTTING_DOWN"
    else codes "UNKNOWN"
