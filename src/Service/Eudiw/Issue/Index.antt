-- ===== src/Service/Eudiw/Issue/Index.antt =====
-- What both attestations rest on, over the in-memory store: a request that was checked, and a status
-- index that was not in use before.
use go_r2ps_service.Base.{
  ℕ, ◌≡◌, ◌≢◌, refl, sym, inl, inr, String, Option, none, some, [], ◌∷◌, ◌++◌, ◌==◌, string_eq,
  eq_iff, Bool-cases, eq_self,
}
use go_r2ps_service.Base.Assoc.{lookup-insert}
use go_r2ps_service.Base.Exec.{Result, ok, ◌>>=◌, pure}
use go_r2ps_service.Store.{status_valid}
use go_r2ps_service.Store.Memory.{
  MemoryStore, memory_store, allocate_index, record_wua, joined, next_index,
}
use go_r2ps_service.Store.Memory.Status.{
  status_at, written, IsDense, get_status-allocate_index, HasUniqueKeys,
  allocate_index-HasUniqueKeys, allocate_index_fresh,
}
use go_r2ps_service.Crypto.Jwt.{JoseSigner}
use go_r2ps_service.Service.Eudiw.{
  WalletProviderConfig, Failure, EudiwAttestationRequest, EudiwCodec,
}
use go_r2ps_service.Service.Eudiw.Jwk.{Decompress}
use go_r2ps_service.Service.Eudiw.Issue.{take_index, checked_request, has_keys, etsi_version}
use go_r2ps_service.Service.Eudiw.Revoke.Each.{indices_of}

-- From `m` to `n` the client has got the next index of the category.
pub record HasTaken (client_id category : String) (m n : MemoryStore) : Type 0 where
  pub fresh : status_at category (next_index category m) m ≡ none
  pub valid : status_at category (next_index category m) n ≡ some status_valid
  pub recorded :
      indices_of client_id category n
      ≡ indices_of client_id category m ++ next_index category m ∷ []
  pub others :
      (j : String) (i : ℕ)
      → status_at j i n
        ≡ written category (next_index category m) status_valid j i (status_at j i m)
  pub dense : IsDense n
  pub unique : HasUniqueKeys m → HasUniqueKeys n

abbrev pub taken : String → String → MemoryStore → MemoryStore
taken client_id category m =
    (record_wua client_id category (next_index category m) (allocate_index category m).1).1

pub taken-HasTaken :
    (client_id category : String) (m : MemoryStore)
    → IsDense m
    → HasTaken client_id category m (taken client_id category m)
unfolding record_wua allocate_index
taken-HasTaken client_id category m d =
    let (fresh, _, valid, dense) = allocate_index_fresh category m d in
    record {
      fresh = fresh;
      valid = valid;
      recorded = rw (
        lookup-insert (joined client_id category) (joined client_id category)
            (indices_of client_id category m ++ next_index category m ∷ []) m.client_indices,
        eq_self (joined client_id category),
      );
      others = λ j i. (get_status-allocate_index category m j i).1;
      dense = dense;
      unique = allocate_index-HasUniqueKeys category m;
    }

pub checked_request-eq-ok :
    (o : Option EudiwAttestationRequest) {req : EudiwAttestationRequest}
    → checked_request o ≡ ok req
    → (o ≡ some req) × (req.ver ≡ "draft-008") × (req.keys_to_attest ≢ [])
checked_request-eq-ok none h = cc h
checked_request-eq-ok (some r) {req} h = elim (Bool-cases (r.ver == etsi_version)) [
  | inl v ↦ elim (Bool-cases (has_keys r.keys_to_attest)) [
    | inl k ↦
        let same : r ≡ req = cc (rw (v, k) at h) in
        rw (sym same) (refl, (eq_iff r.ver etsi_version).0 v, λ e. cc (rw e at k))
    | inr k ↦ cc (rw (v, k) at h)
  ]
  | inr n ↦ cc (rw n at h)
]

pub index_taken :
    {r : Result Failure ℕ × MemoryStore} {i j : ℕ} {m n : MemoryStore}
    → r ≡ (ok i, m)
    → r ≡ (ok j, n)
    → (i ≡ j) × (m ≡ n)
index_taken p q = (cc (p, q), cc (p, q))

module _ {K I : Type 0} (codec : EudiwCodec I) (signer : JoseSigner K)
    (unmarshal_compressed : Decompress) (cfg : WalletProviderConfig MemoryStore K I) where
  pub take_index_lem :
      (client_id category : String) (m : MemoryStore)
      → cfg.store ≡ memory_store
      → take_index codec signer unmarshal_compressed cfg client_id category m
        ≡ (ok (next_index category m), taken client_id category m)
  unfolding take_index ◌>>=◌ pure allocate_index record_wua
  take_index_lem client_id category m store = rw store
