-- ===== src/Service/Eudiw/Issue/Wka.antt =====
-- What a key attestation rests on, over the in-memory store.
use go_r2ps_service.Base.{
  ◌≡◌, ◌≢◌, refl, ap, ◌∙◌, inl, inr, String, true, some, List, [], ◌∷◌, string_eq, Bool-cases, All,
}
use go_r2ps_service.Base.Exec.{Result, ok, err, pure, read-elim, guard-elim, >>=-elim, require-elim}
use go_r2ps_service.Store.Memory.{MemoryStore, memory_store, next_index}
use go_r2ps_service.Store.Memory.Status.{IsDense}
use go_r2ps_service.Base.Int.{ℤ}
use go_r2ps_service.Protocol.{Bytes}
use go_r2ps_service.Crypto.Jwt.{JoseSigner, sign_jwt}
use go_r2ps_service.Service.Handlers.{validate_kid}
use go_r2ps_service.Service.Eudiw.{
  WalletProviderConfig, Failure, refused, crashed, EudiwAttestationRequest, EudiwCodec,
}
use go_r2ps_service.Service.Eudiw.Jwk.{Decompress}
use go_r2ps_service.Service.Eudiw.Issue.{
  attest, attest_keys, resolve_key_jwk, wka_payload, issue_wka, attestation_request,
}
use go_r2ps_service.Service.Eudiw.Issue.Index.{
  HasTaken, taken-HasTaken, checked_request-eq-ok, index_taken, take_index_lem,
}

abbrev pub in_front : Result Failure String → List String → List String
in_front (ok jwk) jwks = jwk ∷ jwks
in_front (err e) jwks = jwks

module _ {K I : Type 0} (codec : EudiwCodec I) (signer : JoseSigner K)
    (unmarshal_compressed : Decompress) (cfg : WalletProviderConfig MemoryStore K I) where
  -- The keys of a list that can be resolved, in its order.
  abbrev pub resolvable : List String → MemoryStore → List String
  resolvable [] m = []
  resolvable (kid ∷ kids) m =
      in_front (resolve_key_jwk codec signer unmarshal_compressed cfg kid m) (resolvable kids m)

  abbrev ValidKids : List String → Type 0
  ValidKids kids = All (λ kid. validate_kid kid ≡ true) kids

  attest-eq-ok :
      (r : Result Failure String) (rest : Result Failure (List String)) {jwks : List String}
      → attest r rest ≡ ok jwks
      → (more : List String) × (rest ≡ ok more) × (jwks ≡ in_front r more)
  attest-eq-ok (ok jwk) (ok more) h = (more, refl, cc h)
  attest-eq-ok (ok jwk) (err e) h = cc h
  attest-eq-ok (err (refused msg)) (ok more) h = (more, refl, cc h)
  attest-eq-ok (err (refused msg)) (err e) h = cc h
  attest-eq-ok (err crashed) rest h = cc h

  attest_keys-eq-ok :
      (kids : List String) (m : MemoryStore) {jwks : List String}
      → attest_keys codec signer unmarshal_compressed cfg kids m ≡ ok jwks
      → ValidKids kids × (jwks ≡ resolvable kids m)
  unfolding attest_keys
  attest_keys-eq-ok [] m h = (tt, cc h)
  attest_keys-eq-ok (kid ∷ kids) m h = elim (Bool-cases (validate_kid kid)) [
    | inl v ↦
        let (more, rest, front) =
          attest-eq-ok (resolve_key_jwk codec signer unmarshal_compressed cfg kid m)
            (attest_keys codec signer unmarshal_compressed cfg kids m) (rw v at h) in
        let (valid, same) = attest_keys-eq-ok kids m rest in
        (
          (v, valid),
          front ∙ ap (in_front (resolve_key_jwk codec signer unmarshal_compressed cfg kid m)) same,
        )
    | inr n ↦ cc (rw n at h)
  ]

  -- A WKA that was issued.
  pub record HasIssuedWka (now : ℤ) (client_id : String) (req_data : Bytes) (m n : MemoryStore)
      (answer : Bytes) : Type 0 where
    pub req : EudiwAttestationRequest
    pub parsed : codec.parse_attestation req_data ≡ some req
    pub version : req.ver ≡ "draft-008"
    pub valid : ValidKids req.keys_to_attest
    pub some_key : resolvable req.keys_to_attest m ≢ []
    pub payload : Bytes
    pub marshalled :
        codec.marshal_wka (
          wka_payload codec signer unmarshal_compressed cfg now
            (resolvable req.keys_to_attest m)
            (next_index "ka" m))
        ≡ some payload
    pub jwt : String
    pub signed :
        sign_jwt signer payload cfg.signing_key "keyattestation+jwt" cfg.x5c_chain ≡ some jwt
    pub answered : answer ≡ codec.marshal_wka_response jwt
    pub taken_index : HasTaken client_id "ka" m n

  pub issue_wka-HasIssuedWka :
      (now : ℤ) (client_id : String) (req_data : Bytes) (m : MemoryStore) (answer : Bytes)
      → cfg.store ≡ memory_store
      → IsDense m
      → (issue_wka codec signer unmarshal_compressed cfg now client_id req_data m).0 ≡ ok answer
      → HasIssuedWka now client_id req_data m
          (issue_wka codec signer unmarshal_compressed cfg now client_id req_data m).1
          answer
  unfolding issue_wka attestation_request pure
  issue_wka-HasIssuedWka now client_id req_data m answer store dense =
      let P : Result Failure Bytes × MemoryStore → Type 0 =
        λ r. r.0 ≡ ok answer → HasIssuedWka now client_id req_data m r.1 answer in
      read-elim m P _ _ (λ e q h. cc h)
        λ req found.
          read-elim m P _ _ (λ e q h. cc h)
            λ jwks attested.
              guard-elim m P _ _ _ (λ _ h. cc h)
                λ some_key.
                  >>=-elim m P _ _ (λ e t q h. cc h)
                    λ idx n q.
                      require-elim n P _ _ _ (λ h. cc h)
                        λ payload marshalled.
                          require-elim n P _ _ _ (λ h. cc h)
                            λ jwt signed h.
                              let (valid, same) = attest_keys-eq-ok req.keys_to_attest m attested in
                              let (parsed, version, some_kid) =
                                checked_request-eq-ok (codec.parse_attestation req_data) found in
                              let at = index_taken q (
                                take_index_lem codec signer unmarshal_compressed cfg client_id "ka"
                                  m store) in
                              record {
                                req = req;
                                parsed = parsed;
                                version = version;
                                valid = valid;
                                some_key = λ e. cc (rw (same ∙ e) at some_key);
                                payload = payload;
                                marshalled = rw (at.0, same) at marshalled;
                                jwt = jwt;
                                signed = signed;
                                answered = cc h;
                                taken_index = rw at.1 (taken-HasTaken client_id "ka" m dense);
                              }
