-- ===== src/Service/Dispatcher/Access.antt =====
-- Who gets past the checks of `Process`, `handle2FAChange` and `handleService`.
use go_r2ps_service.Base.{
  ◌≡◌, ◌≢◌, refl, ◌⊎◌, inl, inr, String, Bool, true, false, not, ◌||◌, Option, none, some, ◌==◌,
  string_eq, eq_iff, length, arith, ◌≤◌, leb→le, Bool-cases, Option-cases,
}
use go_r2ps_service.Base.Assoc.{lookup}
use go_r2ps_service.Base.Exec.{
  Result, ok, err, ◌>>=◌, require-elim, guard-elim, require, gets, guard, pure, fail,
}
use go_r2ps_service.Base.Int.{◌-ℤ◌, abs, seconds}
use go_r2ps_service.Base.Text.Base64
use go_r2ps_service.Crypto.Jws.{verify_jws}
use go_r2ps_service.Pake.Session.{Session, SessionStore, get, is_expired}
use go_r2ps_service.Protocol.{
  Bytes, ServiceRequest, ErrorCode, illegal_request_data, unauthorized, access_denied,
  protocol_version, unsupported_request_type,
}
use go_r2ps_service.Service.Dispatcher.{
  Dispatcher, Handler, Moment, State, Stop, refusal, find_session, mode_1fa,
}
use go_r2ps_service.Service.Dispatcher.Process.{
  verification_key, is_long_enough, is_fresh, read_request, process, route, require_session,
  handle_service, handle_2fa_change, handle_2fa, run_handler, authorize_service, is_bound_signing,
  sad_allows,
}

-- A session that lets a request through.
pub record Admits (t : Moment) (req : ServiceRequest) (sessions : SessionStore) (x : Session)
    : Type 0 where
  pub found : lookup req.tfa_session_id sessions ≡ some x
  pub unexpired : is_expired t.now x ≡ false
  pub verified : x.verified ≡ true
  pub in_context : x.context ≡ req.context

module _ {S M : Type 0} (d : Dispatcher S M) (t : Moment) where
  -- What a request must be, to be looked at.
  pub record IsAccepted (body : Bytes) (req : ServiceRequest) : Type 0 where
    pub payload : Bytes
    pub signed :
        (key : _) × (verification_key d t d.client_keys body ≡ some key)
        × (verify_jws d.jose body key ≡ some payload)
    pub parsed : d.codec.parse_request payload ≡ some req
    pub current : req.ver ≡ protocol_version
    pub nonce : (bytes : Bytes) × (Base64.decode req.nonce ≡ some bytes) × (16 ≤ length bytes)
    pub fresh : abs (t.now -ℤ seconds req.iat) ≤ d.iat_max_skew

  is_fresh→le :
      (req : ServiceRequest)
      → is_fresh d t req ≡ true
      → abs (t.now -ℤ seconds req.iat) ≤ d.iat_max_skew
  unfolding is_fresh
  is_fresh→le req h = leb→le _ _ h

  nonce_decoded :
      (o : Option Bytes)
      → is_long_enough d t o ≡ true
      → (bytes : Bytes) × (o ≡ some bytes) × (16 ≤ length bytes)
  nonce_decoded none h = cc
  nonce_decoded (some bytes) h = (bytes, refl, leb→le 16 (length bytes) h)

  -- A refusal with a code, that leaves the state as it was.
  abbrev pub RefusedWith : {A : Type 0} → ErrorCode → Result Stop A × State S → State S → Type 0
  RefusedWith code r s = (msg : String) × (r ≡ (err (refusal code msg), s))

  read_request-cases :
      (body : Bytes) (s : State S)
      → ((req : ServiceRequest) × IsAccepted body req × (read_request d t body s ≡ (ok req, s)))
        ⊎ RefusedWith illegal_request_data (read_request d t body s) s
  unfolding read_request pure gets ◌>>=◌
  read_request-cases body s =
      let P : Result Stop ServiceRequest × State S → Type 0 = λ r.
        ((req : ServiceRequest) × IsAccepted body req × (r ≡ (ok req, s)))
        ⊎ RefusedWith illegal_request_data r s in
      require-elim s P _ _ _ (inr (_, refl)) λ key k.
        require-elim s P _ _ _ (inr (_, refl)) λ payload v.
          require-elim s P _ _ _ (inr (_, refl)) λ req p.
            guard-elim s P _ _ _ (λ _. inr (_, refl))
              λ current.
                guard-elim s P _ _ _ (λ _. inr (_, refl))
                  λ nonce.
                    guard-elim s P (is_fresh d t req) _ _ (λ _. inr (_, refl))
                      λ fresh. inl (
                        req,
                        record {
                          payload = payload;
                          signed = (key, k, v);
                          parsed = p;
                          current = (eq_iff req.ver protocol_version).0 current;
                          nonce = nonce_decoded (Base64.decode req.nonce) nonce;
                          fresh = is_fresh→le req fresh;
                        },
                        refl,
                      )

  -- Either the body is a fresh signed request of this version and the dispatcher goes on with it,
  -- or it is refused as ILLEGAL_REQUEST_DATA and nothing has changed.
  pub process-cases :
      (body : Bytes) (s : State S)
      → ((req : ServiceRequest) × IsAccepted body req × (process d t body s ≡ route d t req s))
        ⊎ RefusedWith illegal_request_data (process d t body s) s
  unfolding process ◌>>=◌
  process-cases body s = elim (read_request-cases body s) [
    | inl (req, accepted, e) ↦ inl (req, accepted, rw e)
    | inr (msg, e) ↦ inr (msg, rw e)
  ]

  find_session→found :
      (id : String) (s : State S) (x : Session)
      → find_session t id s ≡ some x
      → (lookup id s.sessions ≡ some x) × (is_expired t.now x ≡ false)
  unfolding find_session get
  find_session→found id s x h = ground arith

  -- A refusal for want of a session, that leaves the state as it was.
  abbrev pub Denied : {A : Type 0} → Result Stop A × State S → State S → Type 0
  Denied r s = RefusedWith unauthorized r s ⊎ RefusedWith access_denied r s

  require_session-cases :
      (req : ServiceRequest) (s : State S)
      → ((x : Session) × Admits t req s.sessions x × (require_session d t req s ≡ (ok x, s)))
        ⊎ Denied (require_session d t req s) s
  unfolding require_session pure gets ◌>>=◌
  require_session-cases req s =
      let P : Result Stop Session × State S → Type 0 =
        λ r. ((x : Session) × Admits t req s.sessions x × (r ≡ (ok x, s))) ⊎ Denied r s in
      require-elim s P _ _ _ (inr (inl (_, refl))) λ x found.
        guard-elim s P _ _ _ (λ _. inr (inl (_, refl)))
          λ verified.
            guard-elim s P _ _ _ (λ _. inr (inr (_, refl)))
              λ context. inl (
                x,
                record {
                  found = (find_session→found req.tfa_session_id s x found).0;
                  unexpired = (find_session→found req.tfa_session_id s x found).1;
                  verified = verified;
                  in_context = (eq_iff x.context req.context).0 context;
                },
                refl,
              )

  -- A change of credentials goes on only with a session that admits it; it is refused otherwise,
  -- and nothing has changed.
  pub handle_2fa_change-cases :
      (req : ServiceRequest) (s : State S)
      → ((x : Session) × Admits t req s.sessions x
          × (handle_2fa_change d t req s ≡ handle_2fa d t req s))
        ⊎ Denied (handle_2fa_change d t req s) s
  unfolding handle_2fa_change ◌>>=◌
  handle_2fa_change-cases req s = elim (require_session-cases req s) [
    | inl (x, admits, e) ↦ inl (x, admits, rw e)
    | inr (inl (msg, e)) ↦ inr (inl (msg, rw e))
    | inr (inr (msg, e)) ↦ inr (inr (msg, rw e))
  ]

  -- The session admits the request, and its task allows what is to be signed.
  abbrev pub Permits : ServiceRequest → State S → Session → Type 0
  Permits req s x =
      Admits t req s.sessions x
      × (is_bound_signing d t req x ≡ true
          → sad_allows d t x.task (d.codec.parse_sign req.payload) ≡ true)

  permitted : (a b : Bool) → (not a || b) ≡ true → a ≡ true → b ≡ true
  permitted a b h e = ground arith

  authorize_service-cases :
      (req : ServiceRequest) (s : State S)
      → ((x : Session) × Permits req s x × (authorize_service d t req s ≡ (ok tt, s)))
        ⊎ Denied (authorize_service d t req s) s
  unfolding authorize_service ◌>>=◌ require guard pure fail
  authorize_service-cases req s =
      let P : Result Stop (Unit {0}) × State S → Type 0 =
        λ r. ((x : Session) × Permits req s x × (r ≡ (ok tt, s))) ⊎ Denied r s in
      elim (require_session-cases req s) [
        | inl (x, admits, e) ↦
            rw e
              (elim (Bool-cases (
                not (is_bound_signing d t req x)
                || sad_allows d t x.task (d.codec.parse_sign req.payload))) [
                  | inl allowed ↦ inl (x, (admits, permitted _ _ allowed), rw allowed)
                  | inr bound ↦ inr (
                      inr (
                        "tbs_hash not authorized by session task (SAD binding violation)",
                        rw bound,
                      ))
                ])
        | inr (inl (msg, e)) ↦ inr (inl (msg, rw e))
        | inr (inr (msg, e)) ↦ inr (inr (msg, rw e))
      ]

  require_session-Admits :
      (req : ServiceRequest) (s : State S) (x : Session)
      → Admits t req s.sessions x
      → require_session d t req s ≡ (ok x, s)
  unfolding require_session find_session get ◌>>=◌ gets require guard pure
  require_session-Admits req s x a =
      rw (a.found, a.unexpired, a.verified, (eq_iff x.context req.context).1 a.in_context)

  required : (a b : Bool) → (a ≡ true → b ≡ true) → (not a || b) ≡ true
  required true b h = h refl
  required false b h = refl

  authorize_service-Permits :
      (req : ServiceRequest) (s : State S) (x : Session)
      → Permits req s x
      → authorize_service d t req s ≡ (ok tt, s)
  unfolding authorize_service ◌>>=◌ guard pure
  authorize_service-Permits req s x (admits, sad) = rw (
    require_session-Admits req s x admits,
    required (is_bound_signing d t req x) (sad_allows d t x.task (d.codec.parse_sign req.payload))
        sad,
  )

  -- The handler of the request asks for a second factor, and no session permits the request.
  abbrev pub Unpermitted : ServiceRequest → State S → Type 0
  Unpermitted req s =
      (h : Handler S) × (lookup req.kind d.handlers ≡ some h)
      × (h.mode ≢ mode_1fa)
      × ((x : Session) → ¬ (Permits req s x))

  refused-Unpermitted :
      (h : Handler S) (req : ServiceRequest) (s : State S) (code : ErrorCode) (msg : String)
      → lookup req.kind d.handlers ≡ some h
      → (h.mode == mode_1fa) ≡ false
      → authorize_service d t req s ≡ (err (refusal code msg), s)
      → Unpermitted req s
  refused-Unpermitted h req s code msg found two e = (
    h,
    found,
    λ one. cc (two, (eq_iff h.mode mode_1fa).1 one),
    λ x permits. cc (e, authorize_service-Permits req s x permits),
  )

  -- A service request goes to the handler of its type exactly if there is one and it asks for one
  -- factor only, or a session permits the request. Otherwise it is refused and nothing has changed:
  -- with UNAUTHORIZED or ACCESS_DENIED if there is a handler, and with UNSUPPORTED_REQUEST_TYPE if
  -- there is none.
  pub handle_service-cases :
      (req : ServiceRequest) (s : State S)
      → ((h : Handler S) × (lookup req.kind d.handlers ≡ some h)
          × ((h.mode ≡ mode_1fa) ⊎ ((x : Session) × Permits req s x))
          × (handle_service d t req s ≡ run_handler d t h req s))
        ⊎ (Unpermitted req s × Denied (handle_service d t req s) s)
        ⊎ ((lookup req.kind d.handlers ≡ none)
            × RefusedWith unsupported_request_type (handle_service d t req s) s)
  unfolding handle_service ◌>>=◌ require guard pure fail
  handle_service-cases req s = elim (Option-cases (lookup req.kind d.handlers)) [
    | inl missing ↦ inr (inr (missing, ("unknown service type", rw missing)))
    | inr (h, found) ↦ elim (Bool-cases (h.mode == mode_1fa)) [
      | inl one ↦ inl (h, found, inl ((eq_iff h.mode mode_1fa).0 one), rw (found, one))
      | inr two ↦ elim (authorize_service-cases req s) [
        | inl (x, permits, e) ↦ inl (h, found, inr (x, permits), rw (found, two, e))
        | inr (inl (msg, e)) ↦ inr (
            inl (
              refused-Unpermitted h req s unauthorized msg found two e,
              inl (msg, rw (found, two, e)),
            ))
        | inr (inr (msg, e)) ↦ inr (
            inl (
              refused-Unpermitted h req s access_denied msg found two e,
              inr (msg, rw (found, two, e)),
            ))
      ]
    ]
  ]
