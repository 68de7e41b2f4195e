-- ===== src/Server/Laws.antt =====
-- What a request over HTTP is answered, and which service types the roles serve.
use go_r2ps_service.Base.{
  ◌^◌, ◌≡◌, refl, ◌∙◌, ◌⊎◌, inl, inr, String, Bool, false, ◌&&◌, ◌||◌, Option, none, some, List, [],
  ◌∷◌, any, take, is_some, ◌==◌, string_eq, arith, Bool-cases,
}
use go_r2ps_service.Base.Assoc.{Assoc, lookup, insert, lookup-insert}
use go_r2ps_service.Base.Exec.{Exec, ◌>>=◌, require, fail}
use go_r2ps_service.Base.Int.{ℤ}
use go_r2ps_service.Modes.{Role, wscd, wsca, has}
use go_r2ps_service.Protocol.{
  Bytes, illegal_request_data, unsupported_request_type, ServiceRequest, type_sign_ecdsa,
  type_p256_generate, type_agree_ecdh, type_hsm_list_keys, type_wka, type_wia, type_wi_revoke,
  type_wi_suspend,
}
use go_r2ps_service.Service.Dispatcher.{
  Dispatcher, Handler, Moment, State, EcdsaSignRequest, handler_map, is_registration,
  is_authentication, is_change,
}
use go_r2ps_service.Service.Dispatcher.Access.{IsAccepted, process-cases}
use go_r2ps_service.Service.Dispatcher.Process.{route, handle_service}
use go_r2ps_service.Service.Eudiw.{WalletProviderConfig, EudiwCodec}
use go_r2ps_service.Service.Handlers.{Backend, HandlerCodec}
use go_r2ps_service.Server.{handlers_of}
use go_r2ps_service.Server.Http.{HttpResponse, write_error, respond, r2ps_handler}

neither : (a b : Bool) → (a || b) ≡ false → (a ≡ false) × (b ≡ false)
neither a b h = (ground arith, ground arith)

missing : {A : Type 0} (o : Option A) → is_some o ≡ false → o ≡ none
missing none h = refl
missing (some a) h = absurd (cc h)

module _ {S : Type 0} where
  -- There is a handler for a type exactly if one of the list is of this type.
  handler_map-is_some :
      (kind : String) (m : Assoc String (Handler S)) (hs : List (Handler S))
      → is_some (lookup kind (handler_map m hs))
        ≡ (any (λ h. h.kind == kind) hs || is_some (lookup kind m))
  unfolding handler_map
  handler_map-is_some kind m [] = refl
  handler_map-is_some kind m (h ∷ hs) =
      ground (arith, handler_map-is_some kind (insert h.kind h m) hs, lookup-insert h.kind kind h m)

abbrev pub is_wscd_type : String → Bool
is_wscd_type kind =
    type_sign_ecdsa == kind
    || type_p256_generate == kind
    || type_agree_ecdh == kind
    || type_hsm_list_keys == kind

abbrev pub is_wsca_type : String → Bool
is_wsca_type kind =
    type_wka == kind || type_wia == kind || type_wi_revoke == kind || type_wi_suspend == kind

-- Whether a server of these roles has a handler for the type.
abbrev pub serves : List Role → String → Bool
serves roles kind = has wscd roles && is_wscd_type kind || has wsca roles && is_wsca_type kind

abbrev pub is_second_factor : String → Bool
is_second_factor kind = (is_registration kind || is_authentication kind) || is_change kind

module _ {S K I : Type 0} (parse_sign : Bytes → Option EcdsaSignRequest) (codec : HandlerCodec)
    (backend : Backend S) (eudiw : EudiwCodec I) (cfg : WalletProviderConfig S K I)
    (wka wia : ℤ → String → Bytes → Exec S String Bytes) where
  lookup-handlers_of :
      (roles : List Role) (kind : String)
      → is_some (
          lookup kind
            (handler_map [] (handlers_of parse_sign codec backend eudiw cfg wka wia roles)))
        ≡ serves roles kind
  unfolding lookup
  lookup-handlers_of roles kind =
      handler_map-is_some kind [] (handlers_of parse_sign codec backend eudiw cfg wka wia roles)
      ∙ elim (Bool-cases (has wscd roles)) [
        | inl d ↦ elim (Bool-cases (has wsca roles)) [
          | inl a ↦ rw (d, a) (ground arith)
          | inr a ↦ rw (d, a) (ground arith)
        ]
        | inr d ↦ elim (Bool-cases (has wsca roles)) [
          | inl a ↦ rw (d, a) (ground arith)
          | inr a ↦ rw (d, a) (ground arith)
        ]
      ]

  module _ {M : Type 0} (marshal_error : String → String → Bytes) (d : Dispatcher S M) (t : Moment)
      (stack : String) where
    -- What a request that is looked at is answered.
    pub record HasAnswered (roles : List Role) (body : Bytes) (s : State S)
        (r : Option HttpResponse × State S) : Type 0 where
      pub req : ServiceRequest
      pub accepted : IsAccepted d t body req
      pub routed : r ≡ respond marshal_error d t stack (route d t req s)
      pub unserved :
          is_second_factor req.kind ≡ false
          → serves roles req.kind ≡ false
          → r ≡ (
            some (write_error marshal_error 415 unsupported_request_type "unknown service type"),
            s,
          )

    unknown_type :
        (roles : List Role) (req : ServiceRequest) (s : State S)
        → d.handlers ≡ handler_map [] (handlers_of parse_sign codec backend eudiw cfg wka wia roles)
        → is_second_factor req.kind ≡ false
        → serves roles req.kind ≡ false
        → respond marshal_error d t stack (route d t req s) ≡ (
          some (write_error marshal_error 415 unsupported_request_type "unknown service type"),
          s,
        )
    unfolding route handle_service ◌>>=◌ require fail
    unknown_type roles req s handlers second unserved =
        let (first, change) =
          neither (is_registration req.kind || is_authentication req.kind) (is_change req.kind)
            second in
        rw (
          first,
          change,
          missing (lookup req.kind d.handlers)
              (rw handlers (lookup-handlers_of roles req.kind ∙ unserved)),
        )

    -- A server that has the handlers of its roles answers a body with 400 and changes nothing, or
    -- goes on with the first megabyte as an accepted request and answers what its route does. An
    -- accepted request of a type that is no second factor's and that none of the roles serves is
    -- answered 415, and nothing changes.
    pub r2ps_handler-cases :
        (roles : List Role) (body : Bytes) (s : State S)
        → d.handlers ≡ handler_map [] (handlers_of parse_sign codec backend eudiw cfg wka wia roles)
        → ((msg : String) × (r2ps_handler marshal_error d t stack (some body) s
              ≡ (some (write_error marshal_error 400 illegal_request_data msg), s)))
          ⊎ HasAnswered roles
              (take (2 ^ 20) body)
              s
              (r2ps_handler marshal_error d t stack (some body) s)
    unfolding r2ps_handler
    r2ps_handler-cases roles body s handlers = elim (process-cases d t (take (2 ^ 20) body) s) [
      | inl (req, accepted, e) ↦ inr (
          rw e (record {
            req = req;
            accepted = accepted;
            routed = refl;
            unserved = unknown_type roles req s handlers;
          }))
      | inr (msg, e) ↦ inl (msg, rw e)
    ]
