-- ===== src/Examples/Outputs.antt =====
-- Examples: what the client's callbacks print of the example server's answers.
use light_rpc.Prelude.{
  ℕ, zero, suc, ◌+◌, ◌≤◌, ◌≡◌, refl, ap, Bool, true, false, List, [], ◌∷◌, ◌++◌, none, some, arith,
  Bool-cases, inl, inr,
}
use light_rpc.Prelude.Eq.{Text, codes, text_eq, text_eq_instance}
use light_rpc.Prelude.Assoc.{lookup, insert}
use light_rpc.Codec.Frame.{Survives}
use light_rpc.Service.{invoke, returned, register_method, typed_callback, make_method_key}
use light_rpc.TypedCall.{invoked_answers, invoked_missing, only_answer}
use light_rpc.Rpc.{RpcRequest, RpcResponse, empty_response}
use light_rpc.Examples.{
  Library, get_user, create_user, add, user_service, math_service, get_req, create_req, add_req,
  timeout_req, wait_connected, print_reply, register_methods, GetUserResponse, ExampleCall,
  get_user_call, create_user_call, add_call, missing_call, call_request, callback_prints,
  user_fields, new_user_fields, result_fields,
}

-- A connection that is up at one of the readings, and stays up, is found.
pub wait_connected_lem :
    (is_connected : ℕ → Bool) (timeout i m : ℕ)
    → ((j : ℕ) → is_connected j ≡ true → is_connected (suc j) ≡ true)
    → m ≤ timeout
    → is_connected (i + m) ≡ true
    → is_connected (wait_connected is_connected timeout i) ≡ true
unfolding wait_connected
wait_connected_lem is_connected zero i m stays h on =
    let e : i + m ≡ i = omega arith in stays i (rw e at on)
wait_connected_lem is_connected (suc timeout) i zero stays h on =
    let e : i + 0 ≡ i = omega arith in
    let up : is_connected i ≡ true = rw e at on in rw up (stays i up)
wait_connected_lem is_connected (suc timeout) i (suc m) stays h on =
    elim (Bool-cases (is_connected i)) [
      | inl up ↦ rw up (stays i up)
      | inr down ↦
          let e : i + suc m ≡ suc i + m = omega arith in
          rw down
            (wait_connected_lem is_connected timeout (suc i) m stays (omega arith) (rw e at on))
    ]

-- The messages of the example survive the library.
pub record Survive (lib : Library) : Type 0 where
  pub get_body : List ℕ
  pub get : Survives lib.get_user_request get_req get_body
  pub user_body : List ℕ
  pub user :
      Survives lib.get_user_response
        (record { user_id = 1; name = codes "John"; email = codes "john@example.com" })
        user_body
  pub create_body : List ℕ
  pub create : Survives lib.create_user_request create_req create_body
  pub new_user_body : List ℕ
  pub new_user : Survives lib.create_user_response (record { user_id = 2 }) new_user_body
  pub add_body : List ℕ
  pub add : Survives lib.add_request add_req add_body
  pub sum_body : List ℕ
  pub sum : Survives lib.add_response (record { result = 300 }) sum_body
  pub timeout_body : List ℕ
  pub timeout : Survives lib.add_request timeout_req timeout_body

module _ (lib : Library) where
  -- What the example's callbacks print of the server's answers.
  abbrev pub expected : ExampleCall → List Text
  expected get_user_call =
      (10 ∷ codes "=== GetUser Response ===")
      ∷ (codes "user_id: " ++ lib.to_string 1)
      ∷ codes "name:    John"
      ∷ codes "email:   john@example.com"
      ∷ []
  expected create_user_call =
      (10 ∷ codes "=== CreateUser Response ===") ∷ (codes "new user_id: " ++ lib.to_string 2) ∷ []
  expected add_call =
      (10 ∷ codes "=== Add Response ===") ∷ (codes "result: " ++ lib.to_string 300) ∷ []
  expected missing_call =
      (10 ∷ codes "=== NonExistentMethod Response ===")
      ∷ (codes "RPC failed: code="
          ++ (lib.to_string 2001 ++ codes ", msg=Service not found: MathService.NonExistentMethod"))
      ∷ []

  finds_get :
      lookup (make_method_key user_service (codes "GetUser")) (register_methods lib).methods
      ≡ some (typed_callback lib.get_user_request lib.get_user_response get_user)
  unfolding register_methods register_method insert lookup text_eq
  finds_get = refl

  finds_create :
      lookup (make_method_key user_service (codes "CreateUser")) (register_methods lib).methods
      ≡ some (typed_callback lib.create_user_request lib.create_user_response create_user)
  unfolding register_methods register_method insert lookup text_eq
  finds_create = refl

  finds_add :
      lookup (make_method_key math_service (codes "Add")) (register_methods lib).methods
      ≡ some (typed_callback lib.add_request lib.add_response add)
  unfolding register_methods register_method insert lookup text_eq
  finds_add = refl

  finds_none :
      lookup
        (make_method_key math_service (codes "NonExistentMethod"))
        (register_methods lib).methods
      ≡ none
  unfolding register_methods register_method insert lookup text_eq
  finds_none = refl

  -- What `Invoke` of the example server returns for the request of one of the calls is printed as
  -- `expected` says.
  pub answer_prints :
      (which : ExampleCall) (id : Text) (request : RpcRequest) (found : Bool)
      (response : RpcResponse)
      → Survive lib
      → call_request lib which id ≡ some request
      → invoke request empty_response (register_methods lib) ≡ returned found response
      → callback_prints lib which response ≡ expected which
  unfolding call_request callback_prints print_reply get_user create_user add
  answer_prints get_user_call id request found response v m i =
      let rsp : GetUserResponse = record {
        user_id = 1;
        name = codes "John";
        email = codes "john@example.com";
      } in
      let (known, k, e) =
        invoked_answers lib.get_user_request lib.get_user_response get_user user_service
          (codes "GetUser") id (register_methods lib) get_req rsp v.get_body v.user_body finds_get
          v.get refl v.user in
      ap
        (print_reply lib.to_string (codes "=== GetUser Response ===") (user_fields lib)
          (record { user_id = 0; name = []; email = [] }))
        (only_answer lib.get_user_request lib.get_user_response user_service (codes "GetUser") id
          (register_methods lib) get_req v.get_body request found true response known
          (record { code = 0; msg = codes "success"; response = some rsp }) v.get.written m i k e)
  answer_prints create_user_call id request found response v m i =
      let (known, k, e) =
        invoked_answers lib.create_user_request lib.create_user_response create_user user_service
          (codes "CreateUser") id (register_methods lib) create_req (record { user_id = 2 })
          v.create_body v.new_user_body finds_create v.create refl v.new_user in
      ap
        (print_reply lib.to_string (codes "=== CreateUser Response ===") (new_user_fields lib)
          (record { user_id = 0 }))
        (only_answer lib.create_user_request lib.create_user_response user_service
          (codes "CreateUser") id (register_methods lib) create_req v.create_body request found true
          response known
          (record { code = 0; msg = codes "success"; response = some (record { user_id = 2 }) })
          v.create.written m i k e)
  answer_prints add_call id request found response v m i =
      let (known, k, e) =
        invoked_answers lib.add_request lib.add_response add math_service (codes "Add") id
          (register_methods lib) add_req (record { result = 300 }) v.add_body v.sum_body finds_add
          v.add refl v.sum in
      ap
        (print_reply lib.to_string (codes "=== Add Response ===") (result_fields lib)
          (record { result = 0 }))
        (only_answer lib.add_request lib.add_response math_service (codes "Add") id
          (register_methods lib) add_req v.add_body request found true response known
          (record { code = 0; msg = codes "success"; response = some (record { result = 300 }) })
          v.add.written m i k e)
  answer_prints missing_call id request found response v m i =
      let (known, k, e) =
        invoked_missing lib.add_request lib.add_response math_service (codes "NonExistentMethod") id
          (register_methods lib) v.timeout_body finds_none in
      ap
        (print_reply lib.to_string (codes "=== NonExistentMethod Response ===") (result_fields lib)
          (record { result = 0 }))
        (only_answer lib.add_request lib.add_response math_service (codes "NonExistentMethod") id
          (register_methods lib) timeout_req v.timeout_body request found false response known
          (record {
            code = 2001;
            msg = codes "Service not found: MathService.NonExistentMethod";
            response = none;
          })
          v.timeout.written m i k e)
