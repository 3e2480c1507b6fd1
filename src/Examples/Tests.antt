-- ===== src/Examples/Tests.antt =====
-- Tests of the examples: messages as the list of their fields, and two calls.
use light_rpc.Prelude.{ℕ, true, List, [], ◌∷◌, ◌++◌, Option, none, some, length, take, drop}
use light_rpc.Prelude.Eq.{Text, codes}
use light_rpc.Examples.{
  Library, GetUserRequest, GetUserResponse, CreateUserRequest, CreateUserResponse, AddRequest,
  AddResponse, user_service, math_service,
}
use light_rpc.Rpc.{RpcRequest}
use light_rpc.Client.{begins, continues, connection}
use light_rpc.System.{
  System, Event, client_does, client_reads, server_reads, worker_takes, worker_ends,
}

-- A number and two texts.
abbrev fields : ℕ → Text → Text → List ℕ
fields n s t = n ∷ length s ∷ (s ++ t)

abbrev read_number : List ℕ → Option ℕ
read_number [] = none
read_number (n ∷ xs) = some n

abbrev read_user : List ℕ → Option GetUserResponse
read_user [] = none
read_user (n ∷ []) = none
read_user (n ∷ k ∷ xs) = some (record { user_id = n; name = take k xs; email = drop k xs })

abbrev read_new : List ℕ → Option CreateUserRequest
read_new [] = none
read_new (n ∷ []) = none
read_new (n ∷ k ∷ xs) = some (record { name = take k xs; email = drop k xs })

abbrev read_add : List ℕ → Option AddRequest
read_add [] = none
read_add (a ∷ []) = none
read_add (a ∷ b ∷ xs) = some (record { a = a; b = b })

abbrev read_id : List ℕ → Option GetUserRequest
read_id [] = none
read_id (n ∷ xs) = some (record { user_id = n })

abbrev read_new_id : List ℕ → Option CreateUserResponse
read_new_id [] = none
read_new_id (n ∷ xs) = some (record { user_id = n })

abbrev read_sum : List ℕ → Option AddResponse
read_sum [] = none
read_sum (n ∷ xs) = some (record { result = n })

abbrev lib : Library
lib = record {
  get_user_request = record {
    serialize = λ (m : GetUserRequest). some (m.user_id ∷ []);
    parse = read_id;
  };
  get_user_response = record {
    serialize = λ (m : GetUserResponse). some (fields m.user_id m.name m.email);
    parse = read_user;
  };
  create_user_request = record {
    serialize = λ (m : CreateUserRequest). some (fields 0 m.name m.email);
    parse = read_new;
  };
  create_user_response = record {
    serialize = λ (m : CreateUserResponse). some (m.user_id ∷ []);
    parse = read_new_id;
  };
  add_request = record { serialize = λ (m : AddRequest). some (m.a ∷ m.b ∷ []); parse = read_add };
  add_response = record { serialize = λ (m : AddResponse). some (m.result ∷ []); parse = read_sum };
  to_string = λ n. n ∷ [];
}

-- The first call and the last.
abbrev first_request : RpcRequest
first_request = record {
  service_name = user_service;
  method_name = codes "GetUser";
  request_id = 49 ∷ [];
  body = 1 ∷ [];
}

abbrev last_request : RpcRequest
last_request = record {
  service_name = math_service;
  method_name = codes "NonExistentMethod";
  request_id = 50 ∷ [];
  body = 1 ∷ 2 ∷ [];
}

-- Both calls are under way at once, and their answers are read together.
abbrev two_calls : List Event
two_calls =
    client_does (connection true)
    ∷ client_does (begins (49 ∷ []) 7)
    ∷ client_does (continues first_request 1000)
    ∷ client_does (begins (50 ∷ []) 8)
    ∷ client_does (continues last_request 1000)
    ∷ server_reads 1000
    ∷ worker_takes 0
    ∷ worker_ends 0 true
    ∷ worker_takes 0
    ∷ worker_ends 0 true
    ∷ client_reads 1000
    ∷ []
