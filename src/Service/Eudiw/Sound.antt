-- ===== src/Service/Eudiw/Sound.antt =====
-- Every handler of the wallet provider, and the generation of a key, keeps the in-memory store sound.
use go_r2ps_service.Base.{
  ℕ, ◌%◌, ◌≤◌, ◌≡◌, refl, sym, ap, subst, ◌∙◌, String, Bool, true, false, Option, none, some, arith,
  ltb, string_eq, Option-cases, inl, inr,
}
use go_r2ps_service.Base.Assoc.{lookup}
use go_r2ps_service.Base.Exec.{
  Result, ◌>>=◌, pure, fail, require, read-elim, guard-elim, >>=-elim, require-elim,
}
use go_r2ps_service.Base.Int.{ℤ}
use go_r2ps_service.Protocol.{Bytes}
use go_r2ps_service.Crypto.Jwt.{JoseSigner}
use go_r2ps_service.Store.{status_suspended, status_invalid}
use go_r2ps_service.Store.Memory.{MemoryStore, memory_store, or_zero}
use go_r2ps_service.Store.Memory.Sound.{
  IsSound, IsKnown, allocate_index-IsSound, record_wua-IsSound, put_public_key-IsSound,
}
use go_r2ps_service.Service.Eudiw.{WalletProviderConfig, Failure, EudiwCodec}
use go_r2ps_service.Service.Handlers.{Backend, HandlerCodec, generate_key}
use go_r2ps_service.Service.Eudiw.Jwk.{Decompress}
use go_r2ps_service.Service.Eudiw.Issue.{issue_wka, issue_wia}
use go_r2ps_service.Service.Eudiw.Issue.Index.{taken, take_index_lem, index_taken}
use go_r2ps_service.Service.Eudiw.Revoke.{revoke, suspend}
use go_r2ps_service.Service.Eudiw.Revoke.Each.{overwritten}
use go_r2ps_service.Service.Eudiw.Revoke.Statuses.{HasSet, revoke_lem, suspend_lem}

taken-IsSound :
    (client_id category : String) (m : MemoryStore)
    → IsSound m
    → IsSound (taken client_id category m)
taken-IsSound client_id category m s =
    record_wua-IsSound client_id category _ _ (allocate_index-IsSound category m s)

pub known_small : (o : Option ℕ) → IsKnown o → or_zero 0 o % 4 ≡ or_zero 0 o
known_small none k = refl
known_small (some status) k = omega (arith, k)

overwritten-IsKnown :
    (b : Bool) (status : ℕ) (old : Option ℕ)
    → status ≤ status_suspended
    → IsKnown old
    → IsKnown (overwritten b status old)
overwritten-IsKnown true status none le k = tt
overwritten-IsKnown true status (some old) le k = le
overwritten-IsKnown false status old le k = k

HasSet-IsSound :
    (client_id : String) (status : ℕ) {m n : MemoryStore}
    → status ≤ status_suspended
    → HasSet client_id status m n
    → IsSound m
    → IsSound n
HasSet-IsSound client_id status {m} {n} le h s = record {
  dense = λ j i.
      h.kept.same_places j i
      ∙ s.dense j i
      ∙ ap (λ c. ltb i (or_zero 0 (lookup j c))) (sym h.kept.same_counters);
  unique = h.kept.unique s.unique;
  known = λ j i. rw (h.statuses j i) (overwritten-IsKnown _ status _ le (s.known j i));
}

module _ {K I : Type 0} (codec : EudiwCodec I) (signer : JoseSigner K)
    (unmarshal_compressed : Decompress) (cfg : WalletProviderConfig MemoryStore K I) where
  pub issue_wka-IsSound :
      (now : ℤ) (client_id : String) (req_data : Bytes) (m : MemoryStore)
      → cfg.store ≡ memory_store
      → IsSound m
      → IsSound (issue_wka codec signer unmarshal_compressed cfg now client_id req_data m).1
  unfolding issue_wka pure
  issue_wka-IsSound now client_id req_data m store s =
      let P : Result Failure Bytes × MemoryStore → Type 0 = λ r. IsSound r.1 in
      read-elim m P _ _ (λ e q. s)
        λ req found.
          read-elim m P _ _ (λ e q. s)
            λ jwks attested.
              guard-elim m P _ _ _ (λ _. s)
                λ some_key.
                  >>=-elim m P _ _
                    (λ e n q. cc (
                      q,
                      take_index_lem codec signer unmarshal_compressed cfg client_id "ka" m store,
                    ))
                    λ idx n q.
                      let (_, same) = index_taken q (
                        take_index_lem codec signer unmarshal_compressed cfg client_id "ka" m
                          store) in
                      let t : IsSound n = rw same (taken-IsSound client_id "ka" m s) in
                      require-elim n P _ _ _ t
                        λ payload marshalled. require-elim n P _ _ _ t λ jwt signed. t

  pub issue_wia-IsSound :
      (now : ℤ) (client_id : String) (req_data : Bytes) (m : MemoryStore)
      → cfg.store ≡ memory_store
      → IsSound m
      → IsSound (issue_wia codec signer unmarshal_compressed cfg now client_id req_data m).1
  unfolding issue_wia pure
  issue_wia-IsSound now client_id req_data m store s =
      let P : Result Failure Bytes × MemoryStore → Type 0 = λ r. IsSound r.1 in
      read-elim m P _ _ (λ e q. s)
        λ req found.
          read-elim m P _ _ (λ e q. s)
            λ kid named.
              guard-elim m P _ _ _ (λ _. s)
                λ valid.
                  read-elim m P _ _ (λ e q. s)
                    λ cnf found.
                      >>=-elim m P _ _
                        (λ e n q. cc (
                          q,
                          take_index_lem codec signer unmarshal_compressed cfg client_id "wia" m
                              store,
                        ))
                        λ idx n q.
                          let (_, same) = index_taken q (
                            take_index_lem codec signer unmarshal_compressed cfg client_id "wia" m
                              store) in
                          let t : IsSound n = rw same (taken-IsSound client_id "wia" m s) in
                          require-elim n P _ _ _ t
                            λ payload marshalled. require-elim n P _ _ _ t λ jwt signed. t

module _ {K I : Type 0} (codec : EudiwCodec I) (cfg : WalletProviderConfig MemoryStore K I) where
  pub revoke-IsSound :
      (req_data : Bytes) (client_id : String) (m : MemoryStore)
      → cfg.store ≡ memory_store
      → IsSound m
      → IsSound (revoke codec cfg req_data client_id m).1
  unfolding revoke ◌>>=◌ require fail
  revoke-IsSound req_data client_id m store s = elim (Option-cases (codec.parse_reason req_data)) [
    | inl bad ↦ rw bad s
    | inr (reason, parsed) ↦
        HasSet-IsSound client_id status_invalid (omega arith)
          (revoke_lem codec cfg req_data client_id reason m store parsed).1 s
  ]

  pub suspend-IsSound :
      (req_data : Bytes) (client_id : String) (m : MemoryStore)
      → cfg.store ≡ memory_store
      → IsSound m
      → IsSound (suspend codec cfg req_data client_id m).1
  unfolding suspend ◌>>=◌ require fail
  suspend-IsSound req_data client_id m store s = elim (Option-cases (codec.parse_reason req_data)) [
    | inl bad ↦ rw bad s
    | inr (reason, parsed) ↦
        HasSet-IsSound client_id status_suspended (omega arith)
          (suspend_lem codec cfg req_data client_id reason m store parsed).1 s
  ]

module _ (hsm : Backend MemoryStore) where
  -- An HSM that keeps its keys to itself leaves the store alone.
  abbrev pub KeepsStore : Type 0
  KeepsStore = (curve : String) (m : MemoryStore) → (hsm.generate_ec_key curve m).1 ≡ m

  pub generate_key-IsSound :
      (keys : HandlerCodec) (now : ℤ) (client_id : String) (payload : Bytes) (m : MemoryStore)
      → KeepsStore
      → IsSound m
      → IsSound (generate_key keys hsm (some memory_store) now client_id payload m).1
  unfolding generate_key pure
  generate_key-IsSound keys now client_id payload m apart s =
      let P : Result String Bytes × MemoryStore → Type 0 = λ r. IsSound r.1 in
      require-elim m P _ _ _ s λ curve parsed.
        >>=-elim m P _ _ (λ e n q. subst IsSound (sym (apart curve m) ∙ ap (λ r. r.1) q) s)
          λ pair n q.
            let t : IsSound n = subst IsSound (sym (apart curve m) ∙ ap (λ r. r.1) q) s in
            >>=-elim n P _ _ (λ e v f. absurd (cc (ap (λ r. r.0) f)))
              λ _ v f. subst IsSound (ap (λ r. r.1) f) (put_public_key-IsSound _ n t)
