-- ===== src/ErrorCode/Names.antt =====
-- The names of the error codes tell the codes apart.
use light_rpc.Prelude.{◌≡◌, ◌≢◌, refl, ap, Option, none, some, List, [], ◌∷◌, if◌then◌else◌}
use light_rpc.Prelude.Eq.{Text, codes, text_eq}
use light_rpc.ErrorCode.{
  RpcErrorCode, ok, client_request_timeout, client_connection_disconnected, client_network_error,
  client_not_running, client_request_serialize_failed, client_encode_failed,
  client_response_parse_failed, server_service_not_found, server_internal_error, server_busy,
  server_request_parse_failed, server_response_serialize_failed, server_shutting_down, number,
  rpc_error_code_to_string,
}

abbrev all_codes : List RpcErrorCode
all_codes =
    ok ∷ client_request_timeout ∷ client_connection_disconnected ∷ client_network_error
    ∷ client_not_running ∷ client_request_serialize_failed ∷ client_encode_failed
    ∷ client_response_parse_failed ∷ server_service_not_found ∷ server_internal_error ∷ server_busy
    ∷ server_request_parse_failed ∷ server_response_serialize_failed ∷ server_shutting_down ∷ []

find_name : Text → List RpcErrorCode → Option RpcErrorCode
find_name s [] = none
find_name s (c ∷ cs) =
    if text_eq (rpc_error_code_to_string (number c)) s then some c else find_name s cs

find_name_lem :
    (c : RpcErrorCode) → find_name (rpc_error_code_to_string (number c)) all_codes ≡ some c
unfolding find_name rpc_error_code_to_string text_eq
find_name_lem ok = refl
find_name_lem client_request_timeout = refl
find_name_lem client_connection_disconnected = refl
find_name_lem client_network_error = refl
find_name_lem client_not_running = refl
find_name_lem client_request_serialize_failed = refl
find_name_lem client_encode_failed = refl
find_name_lem client_response_parse_failed = refl
find_name_lem server_service_not_found = refl
find_name_lem server_internal_error = refl
find_name_lem server_busy = refl
find_name_lem server_request_parse_failed = refl
find_name_lem server_response_serialize_failed = refl
find_name_lem server_shutting_down = refl

unknown_name : find_name (codes "UNKNOWN") all_codes ≡ none
unfolding find_name rpc_error_code_to_string text_eq
unknown_name = refl

-- Two codes whose numbers are printed under one name are one code, and that name is not UNKNOWN.
pub names_distinct :
    (c d : RpcErrorCode)
    → rpc_error_code_to_string (number c) ≡ rpc_error_code_to_string (number d)
    → (c ≡ d) × (rpc_error_code_to_string (number c) ≢ codes "UNKNOWN")
names_distinct c d e = (
  cc (find_name_lem c, find_name_lem d, ap (λ s. find_name s all_codes) e),
  λ u. cc (find_name_lem c, unknown_name, ap (λ s. find_name s all_codes) u),
)
