-- ===== src/Service/Lookup.antt =====
-- RpcService: which registration a request finds. A key joins the two names by a dot.
use light_rpc.Prelude.{
  suc, ◌≡◌, ◌≢◌, refl, subst, [], ◌∷◌, ◌&&◌, ◌||◌, arith, if◌then◌else◌, append_assoc,
}
use light_rpc.Prelude.Eq.{Text, text_eq, text_eq_iff, text_eq_instance}
use light_rpc.Prelude.Assoc.{lookup-insert, length-insert}
use light_rpc.Rpc.{RpcRequest, RpcResponse}
use light_rpc.Service.{
  RpcService, ServiceCallback, make_method_key, register_method, has_service, service_count, invoke,
  after_callback,
}

abbrev pub DotFree : Text → Type 0
DotFree [] = Unit {0}
DotFree (c ∷ cs) = (c ≢ b'.') × DotFree cs

not-DotFree : (s m : Text) → ¬ DotFree (make_method_key s m)
not-DotFree [] m h = h.0 refl
not-DotFree (c ∷ s) m h = not-DotFree s m h.1

abbrev SameNames : Text → Text → Text → Text → Type 0
SameNames s m s' m' = (s ≡ s') × (m ≡ m')

make_method_key-injective :
    (s s' m m' : Text)
    → DotFree m
    → DotFree m'
    → make_method_key s m ≡ make_method_key s' m'
    → SameNames s m s' m'
make_method_key-injective [] [] m m' h h' e = (refl, ground arith)
make_method_key-injective [] (c ∷ s') m m' h h' e =
    absurd (not-DotFree s' m' (subst DotFree (ground arith) h))
make_method_key-injective (c ∷ s) [] m m' h h' e =
    absurd (not-DotFree s m (subst DotFree (ground arith) h'))
make_method_key-injective (c ∷ s) (c' ∷ s') m m' h h' e =
    ground (arith, make_method_key-injective s s' m m' h h')

key_of_names :
    (s s' m m' : Text)
    → DotFree m
    → DotFree m'
    → text_eq (make_method_key s m) (make_method_key s' m') ≡ (text_eq s s' && text_eq m m')
key_of_names s s' m m' h h' = ground (
  arith,
  text_eq_iff (make_method_key s m) (make_method_key s' m'),
  text_eq_iff s s',
  text_eq_iff m m',
  make_method_key-injective s s' m m' h h',
)

-- A registration and the requests. With method names that contain no dot, a request for the
-- registered service and method runs the new callback, and any other request is answered as before.
pub invoke-register_method :
    (s m : Text) (cb : ServiceCallback) (r : RpcService) (req : RpcRequest) (resp : RpcResponse)
    → DotFree m
    → DotFree req.method_name
    → invoke req resp (register_method s m cb r) ≡ (
        if text_eq s req.service_name && text_eq m req.method_name
        then after_callback req (cb req resp)
        else invoke req resp r)
unfolding invoke register_method
invoke-register_method s m cb r req resp h h' = ground (
  arith,
  lookup-insert (make_method_key s m) (make_method_key req.service_name req.method_name) cb
      r.methods,
  key_of_names s req.service_name m req.method_name h h',
)

-- Where a name may contain a dot, the key does not tell where the service name ends: registering
-- method `m` of service `s.t` also provides method `t.m` of service `s`, with the same callback.
pub invoke-register_method_dotted :
    (s t m : Text) (cb : ServiceCallback) (r : RpcService) (req : RpcRequest) (resp : RpcResponse)
    → req.service_name ≡ s
    → req.method_name ≡ make_method_key t m
    → invoke req resp (register_method (make_method_key s t) m cb r)
      ≡ after_callback req (cb req resp)
unfolding invoke register_method
invoke-register_method_dotted s t m cb r req resp es em = ground (
  arith,
  lookup-insert (make_method_key (make_method_key s t) m)
      (make_method_key req.service_name req.method_name) cb r.methods,
  text_eq_iff (make_method_key (make_method_key s t) m)
      (make_method_key req.service_name req.method_name),
  append_assoc s (b'.' ∷ t) (b'.' ∷ m),
)

-- `HasService` after a registration: true for the names of its key, and else as before; and the
-- count grows by one exactly where the key is new.
pub has_service-register_method :
    (s m s' m' : Text) (cb : ServiceCallback) (r : RpcService)
    → (has_service s' m' (register_method s m cb r)
        ≡ (text_eq (make_method_key s m) (make_method_key s' m') || has_service s' m' r))
      × (service_count (register_method s m cb r)
          ≡ (if has_service s m r then service_count r else suc (service_count r)))
unfolding has_service register_method service_count
has_service-register_method s m s' m' cb r = ground (
  arith,
  lookup-insert (make_method_key s m) (make_method_key s' m') cb r.methods,
  length-insert (make_method_key s m) cb r.methods,
)
