-- ===== src/Service/Handlers/Signing.antt =====
-- What a signature needs, from the request to the backend.
use go_r2ps_service.Base.{
  ◌≡◌, refl, sym, ap, ◌∙◌, ◌⊎◌, ◌≢◌, inl, inr, String, true, Option, some, ◌==◌, string_eq, eq_iff,
  arith, Bool-cases, length,
}
use go_r2ps_service.Base.Assoc.{lookup}
use go_r2ps_service.Base.Exec.{Result, ok, err, ◌>>=◌, require-elim, guard-elim, fail}
use go_r2ps_service.Base.Text.Base64
use go_r2ps_service.Pake.Session.{Session}
use go_r2ps_service.Protocol.{Bytes, ServiceRequest, type_sign_ecdsa}
use go_r2ps_service.Service.Sad.{validate_sad}
use go_r2ps_service.Service.Dispatcher.{
  Dispatcher, Handler, Moment, State, EcdsaSignRequest, mode_1fa, mode_2fa,
}
use go_r2ps_service.Service.Dispatcher.Access.{Admits, handle_service-cases}
use go_r2ps_service.Service.Dispatcher.Process.{
  handle_service, run_handler, is_bound_signing, sad_allows,
}
use go_r2ps_service.Service.Handlers.{
  Backend, ecdsa_handler, sign_hash, validate_kid, is_signing_length,
}

-- A hash that the backend has signed with the key of the request.
pub record HasSigned {S : Type 0} (parse_sign : Bytes → Option EcdsaSignRequest)
    (backend : Backend S) (payload : Bytes) (w : S) (signature : Bytes) : Type 0 where
  pub sign_req : EcdsaSignRequest
  pub hash : Bytes
  pub parsed : parse_sign payload ≡ some sign_req
  pub decoded : Base64.decode sign_req.tbs_hash ≡ some hash
  pub valid_kid : validate_kid sign_req.kid ≡ true
  pub valid_length : is_signing_length (length hash) ≡ true
  pub signed : (backend.sign sign_req.kid hash w).0 ≡ ok signature

module _ {S : Type 0} (parse_sign : Bytes → Option EcdsaSignRequest) (backend : Backend S) where
  sign_hash-eq-ok :
      (payload : Bytes) (w : S) (signature : Bytes)
      → (sign_hash parse_sign backend payload w).0 ≡ ok signature
      → HasSigned parse_sign backend payload w signature
  unfolding sign_hash
  sign_hash-eq-ok payload w signature =
      let P : Result String Bytes × S → Type 0 =
        λ r. r.0 ≡ ok signature → HasSigned parse_sign backend payload w signature in
      require-elim w P _ _ _ (λ h. cc (h))
        λ sign_req parsed.
          require-elim w P _ _ _ (λ h. cc (h))
            λ hash decoded.
              guard-elim w P _ _ _ (λ _ h. cc (h))
                λ kid.
                  guard-elim w P _ _ _ (λ _ h. cc (h))
                    λ size signed. record {
                      sign_req = sign_req;
                      hash = hash;
                      parsed = parsed;
                      decoded = decoded;
                      valid_kid = kid;
                      valid_length = size;
                      signed = signed;
                    }

modes_apart : mode_2fa ≢ mode_1fa
modes_apart e = ground (arith, eq_iff mode_2fa mode_1fa)

module _ {S M : Type 0} (d : Dispatcher S M) (t : Moment) where
  run_handler-eq-ok :
      (h : Handler S) (req : ServiceRequest) (s : State S) (b : Bytes)
      → (run_handler d t h req s).0 ≡ ok b
      → (bytes : Bytes) × ((h.handle t.now req.client_id req.payload s.world).0 ≡ ok bytes)
  unfolding run_handler ◌>>=◌ fail
  run_handler-eq-ok h req s b e = go (h.handle t.now req.client_id req.payload s.world).0 refl
    where
      go :
          (r : Result String Bytes)
          → (h.handle t.now req.client_id req.payload s.world).0 ≡ r
          → (bytes : Bytes) × ((h.handle t.now req.client_id req.payload s.world).0 ≡ ok bytes)
      go (ok bytes) q = (bytes, q)
      go (err m) q = ground (arith, e)

  allowed :
      (req : ServiceRequest) (x : Session) (sign_req : EcdsaSignRequest) (hash : Bytes)
      → req.kind ≡ type_sign_ecdsa
      → d.codec.parse_sign req.payload ≡ some sign_req
      → Base64.decode sign_req.tbs_hash ≡ some hash
      → (is_bound_signing d t req x ≡ true
          → sad_allows d t x.task (d.codec.parse_sign req.payload) ≡ true)
      → (x.task ≡ "") ⊎ (validate_sad d.sha256 x.task hash ≡ true)
  allowed req x sign_req hash kind parsed decoded sad = elim (Bool-cases (x.task == "")) [
    | inl free ↦ inl ((eq_iff x.task "").0 free)
    | inr bound ↦ inr (rw (parsed, decoded) at (sad (rw (kind, bound) refl)))
  ]

  -- With the ECDSA handler installed, a signing request is answered only for a session that admits
  -- it, only after the backend has signed the decoded hash with the key of the request, and only if
  -- the session has no task or the task allows this very hash.
  pub handle_service-HasSigned :
      (backend : Backend S) (req : ServiceRequest) (s : State S) (b : Bytes)
      → req.kind ≡ type_sign_ecdsa
      → lookup type_sign_ecdsa d.handlers ≡ some (ecdsa_handler d.codec.parse_sign backend)
      → (handle_service d t req s).0 ≡ ok b
      → (x : Session) × Admits t req s.sessions x
        × (signature : Bytes) × (h : HasSigned d.codec.parse_sign backend req.payload s.world
            signature)
        × ((x.task ≡ "") ⊎ (validate_sad d.sha256 x.task h.hash ≡ true))
  handle_service-HasSigned backend req s b kind installed done =
      elim (handle_service-cases d t req s) [
        | inl (h, found, inl one, e) ↦
            let same : h ≡ ecdsa_handler d.codec.parse_sign backend = cc (found, installed, kind) in
            absurd (modes_apart (sym (ap (λ k. k.mode) same) ∙ one))
        | inl (h, found, inr (x, permits), e) ↦
            let same : h ≡ ecdsa_handler d.codec.parse_sign backend = cc (found, installed, kind) in
            let (signature, ran) = run_handler-eq-ok h req s b (rw e at done) in
            let signed =
              sign_hash-eq-ok d.codec.parse_sign backend req.payload s.world signature
                (rw same at ran) in
            (
              x,
              permits.0,
              signature,
              signed,
              allowed req x signed.sign_req signed.hash kind signed.parsed signed.decoded permits.1,
            )
        | inr (inl (_, inl (msg, e))) ↦ ground (arith, rw e at done)
        | inr (inl (_, inr (msg, e))) ↦ ground (arith, rw e at done)
        | inr (inr (missing, (msg, e))) ↦ ground (arith, rw e at done)
      ]
