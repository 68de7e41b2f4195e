-- ===== src/Service/Eudiw/Issue/Wia.antt =====
-- What a wallet instance attestation rests on, over the in-memory store.
use go_r2ps_service.Base.{◌≡◌, String, true, some, List, [], ◌∷◌, string_eq}
use go_r2ps_service.Base.Exec.{Result, ok, err, pure, read-elim, guard-elim, >>=-elim, require-elim}
use go_r2ps_service.Store.Memory.{MemoryStore, memory_store, next_index}
use go_r2ps_service.Store.Memory.Status.{IsDense}
use go_r2ps_service.Base.Int.{ℤ}
use go_r2ps_service.Protocol.{Bytes}
use go_r2ps_service.Crypto.Jwt.{JoseSigner, sign_jwt}
use go_r2ps_service.Service.Handlers.{validate_kid}
use go_r2ps_service.Service.Eudiw.{
  WalletProviderConfig, Failure, refused, crashed, EudiwAttestationRequest, EudiwCodec,
}
use go_r2ps_service.Service.Eudiw.Jwk.{Decompress}
use go_r2ps_service.Service.Eudiw.Issue.{resolve_key_jwk, attestation_request}
use go_r2ps_service.Service.Eudiw.Issue.{first_key, resolved, wia_payload, issue_wia}
use go_r2ps_service.Service.Eudiw.Issue.Index.{
  HasTaken, taken-HasTaken, checked_request-eq-ok, index_taken, take_index_lem,
}

module _ {K I : Type 0} (codec : EudiwCodec I) (signer : JoseSigner K)
    (unmarshal_compressed : Decompress) (cfg : WalletProviderConfig MemoryStore K I) where
  -- A WIA that was issued.
  pub record HasIssuedWia (now : ℤ) (client_id : String) (req_data : Bytes) (m n : MemoryStore)
      (answer : Bytes) : Type 0 where
    pub req : EudiwAttestationRequest
    pub parsed : codec.parse_attestation req_data ≡ some req
    pub version : req.ver ≡ "draft-008"
    pub kid : String
    pub rest : List String
    pub first : req.keys_to_attest ≡ kid ∷ rest
    pub valid : validate_kid kid ≡ true
    pub cnf : String
    pub found : resolve_key_jwk codec signer unmarshal_compressed cfg kid m ≡ ok cnf
    pub payload : Bytes
    pub marshalled :
        codec.marshal_wia
          (wia_payload codec signer unmarshal_compressed cfg now client_id cnf (next_index "wia" m))
        ≡ some payload
    pub jwt : String
    pub signed :
        sign_jwt signer payload cfg.signing_key "oauth-client-attestation+jwt" cfg.x5c_chain
        ≡ some jwt
    pub answered : answer ≡ codec.marshal_wia_response jwt
    pub taken_index : HasTaken client_id "wia" m n

  first_key-eq-ok :
      (kids : List String) {kid : String}
      → first_key kids ≡ ok kid
      → (rest : List String) × (kids ≡ kid ∷ rest)
  first_key-eq-ok [] q = cc q
  first_key-eq-ok (k ∷ kids) q = (kids, cc q)

  resolved-eq-ok : (r : Result Failure String) {jwk : String} → resolved r ≡ ok jwk → r ≡ ok jwk
  resolved-eq-ok (ok jwk) q = q
  resolved-eq-ok (err (refused msg)) q = cc q
  resolved-eq-ok (err crashed) q = cc q

  pub issue_wia-HasIssuedWia :
      (now : ℤ) (client_id : String) (req_data : Bytes) (m : MemoryStore) (answer : Bytes)
      → cfg.store ≡ memory_store
      → IsDense m
      → (issue_wia codec signer unmarshal_compressed cfg now client_id req_data m).0 ≡ ok answer
      → HasIssuedWia now client_id req_data m
          (issue_wia codec signer unmarshal_compressed cfg now client_id req_data m).1
          answer
  unfolding issue_wia attestation_request pure
  issue_wia-HasIssuedWia now client_id req_data m answer store dense =
      let P : Result Failure Bytes × MemoryStore → Type 0 =
        λ r. r.0 ≡ ok answer → HasIssuedWia now client_id req_data m r.1 answer in
      read-elim m P _ _ (λ e q h. cc h)
        λ req checked.
          read-elim m P _ _ (λ e q h. cc h)
            λ kid named.
              guard-elim m P _ _ _ (λ _ h. cc h)
                λ valid.
                  read-elim m P _ _ (λ e q h. cc h)
                    λ cnf found.
                      >>=-elim m P _ _ (λ e t q h. cc h)
                        λ idx n q.
                          require-elim n P _ _ _ (λ h. cc h)
                            λ payload marshalled.
                              require-elim n P _ _ _ (λ h. cc h)
                                λ jwt signed h.
                                  let (rest, first) = first_key-eq-ok req.keys_to_attest named in
                                  let (parsed, version, _) =
                                    checked_request-eq-ok (codec.parse_attestation req_data)
                                      checked in
                                  let at = index_taken q (
                                    take_index_lem codec signer unmarshal_compressed cfg client_id
                                      "wia" m store) in
                                  record {
                                    req = req;
                                    parsed = parsed;
                                    version = version;
                                    kid = kid;
                                    rest = rest;
                                    first = first;
                                    valid = valid;
                                    cnf = cnf;
                                    found = resolved-eq-ok _ found;
                                    payload = payload;
                                    marshalled = rw at.0 at marshalled;
                                    jwt = jwt;
                                    signed = signed;
                                    answered = cc h;
                                    taken_index = rw at.1 (taken-HasTaken client_id "wia" m dense);
                                  }
