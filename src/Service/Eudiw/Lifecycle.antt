-- ===== src/Service/Eudiw/Lifecycle.antt =====
-- An attestation from its issue over its revocation to the published status list.
use go_r2ps_service.Base.{
  ℕ, ◌%◌, ◌≡◌, refl, ◌∙◌, String, true, some, List, [], ◌∷◌, ◌++◌, arith, nat_beq_iff,
}
use go_r2ps_service.Base.Exec.{Result, ok}
use go_r2ps_service.Base.Int.{ℤ}
use go_r2ps_service.Protocol.{Bytes}
use go_r2ps_service.Crypto.Jwt.{JoseSigner}
use go_r2ps_service.Store.{status_invalid}
use go_r2ps_service.Store.Memory.{
  MemoryStore, memory_store, next_index, category_statuses, get_all_statuses,
}
use go_r2ps_service.Store.Memory.Status.{status_at, IsDense, HasUniqueKeys}
use go_r2ps_service.StatusList.{
  Config, Library, serve, compressed_reply, subject, split_path, trim_prefix,
}
use go_r2ps_service.StatusList.Published.{published, bitstring_of-published}
use go_r2ps_service.Service.Eudiw.{WalletProviderConfig, Failure, EudiwCodec}
use go_r2ps_service.Service.Eudiw.Jwk.{Decompress}
use go_r2ps_service.Service.Eudiw.Issue.{issue_wka, issue_wia}
use go_r2ps_service.Service.Eudiw.Issue.Index.{HasTaken}
use go_r2ps_service.Service.Eudiw.Issue.Wka.{issue_wka-HasIssuedWka}
use go_r2ps_service.Service.Eudiw.Issue.Wia.{issue_wia-HasIssuedWia}
use go_r2ps_service.Service.Eudiw.Revoke.{revoke}
use go_r2ps_service.Service.Eudiw.Revoke.Each.{is_listed, is_revocable, indices_of}
use go_r2ps_service.Service.Eudiw.Revoke.Statuses.{HasSet, revoke_lem}

is_listed_last : (i : ℕ) (idxs : List ℕ) → is_listed i (idxs ++ i ∷ []) ≡ true
is_listed_last i [] = ground (arith, nat_beq_iff i i)
is_listed_last i (j ∷ idxs) = ground (arith, is_listed_last i idxs)

-- An index that the client has taken gets the status that is set for the client.
taken-HasSet :
    (client_id category : String) (status : ℕ) (m n o : MemoryStore)
    → is_revocable category ≡ true
    → HasTaken client_id category m n
    → HasSet client_id status n o
    → status_at category (next_index category m) o ≡ some status
taken-HasSet client_id category status m n o c t h =
    h.statuses category (next_index category m)
    ∙ rw
        (
          c,
          t.recorded,
          is_listed_last (next_index category m) (indices_of client_id category m),
          t.valid,
        )
        refl

-- The reply for a path of the category is a list over a bitstring that has the status at `idx`.
abbrev pub Publishes :
    {K : Type 0}
    → Library
    → JoseSigner K
    → Config K
    → ℤ
    → String
    → String
    → String
    → MemoryStore
    → ℕ
    → ℕ
    → Type 0
Publishes lib signer list_cfg now path category list_id o idx status =
    (bitstring : Bytes) × (serve lib signer memory_store list_cfg now path o
      ≡ compressed_reply lib signer memory_store list_cfg now
          (subject lib signer memory_store list_cfg category list_id) (lib.deflate bitstring))
    × (published idx bitstring ≡ status % 4)

Publishes-status :
    {K : Type 0} (lib : Library) (signer : JoseSigner K) (list_cfg : Config K) (now : ℤ)
    (path category list_id : String) (o : MemoryStore) (idx status : ℕ)
    → split_path (trim_prefix "/statuslists/" path) ≡ some (category, list_id)
    → HasUniqueKeys o
    → status_at category idx o ≡ some status
    → Publishes lib signer list_cfg now path category list_id o idx status
unfolding serve get_all_statuses
Publishes-status lib signer list_cfg now path category list_id o idx status parts u at =
    let (bitstring, built, reads) =
      bitstring_of-published (category_statuses category o) (u category) in
    (bitstring, rw (parts, built), rw at at (reads idx))

module _ {K I : Type 0} (codec : EudiwCodec I) (signer : JoseSigner K)
    (unmarshal_compressed : Decompress) (cfg : WalletProviderConfig MemoryStore K I) (lib : Library)
    (list_cfg : Config K) where
  abbrev revoked_after :
      (ℤ → String → Bytes → MemoryStore → Result Failure Bytes × MemoryStore)
      → ℤ
      → String
      → Bytes
      → Bytes
      → MemoryStore
      → MemoryStore
  revoked_after issue now client_id req_data revoke_data m =
      (revoke codec cfg revoke_data client_id (issue now client_id req_data m).1).1

  -- A key attestation that was issued, and whose client then revokes, is published as revoked: in
  -- the list of the category "ka" its index, which is the next index of the category at the issue,
  -- reads 1. This is so for a store with dense indices and unique keys, at any time and list name.
  pub issue_wka-revoke-Publishes :
      (now then : ℤ) (client_id : String) (req_data revoke_data answer : Bytes)
      (reason path list_id : String) (m : MemoryStore)
      → cfg.store ≡ memory_store
      → IsDense m
      → HasUniqueKeys m
      → (issue_wka codec signer unmarshal_compressed cfg now client_id req_data m).0 ≡ ok answer
      → codec.parse_reason revoke_data ≡ some reason
      → split_path (trim_prefix "/statuslists/" path) ≡ some ("ka", list_id)
      → Publishes lib signer list_cfg then path "ka" list_id
          (revoked_after
            (issue_wka codec signer unmarshal_compressed cfg)
            now
            client_id
            req_data
            revoke_data
            m)
          (next_index "ka" m)
          status_invalid
  issue_wka-revoke-Publishes now then client_id req_data revoke_data answer reason path list_id m
        store dense unique issued parsed parts =
      let t =
        (issue_wka-HasIssuedWka codec signer unmarshal_compressed cfg now client_id req_data m
          answer store dense issued).taken_index in
      let n = (issue_wka codec signer unmarshal_compressed cfg now client_id req_data m).1 in
      let (_, h) = revoke_lem codec cfg revoke_data client_id reason n store parsed in
      Publishes-status lib signer list_cfg then path "ka" list_id _ (next_index "ka" m)
        status_invalid parts (h.kept.unique (t.unique unique))
        (taken-HasSet client_id "ka" status_invalid m n _ refl t h)

  -- The same for a wallet instance attestation and the list of the category "wia".
  pub issue_wia-revoke-Publishes :
      (now then : ℤ) (client_id : String) (req_data revoke_data answer : Bytes)
      (reason path list_id : String) (m : MemoryStore)
      → cfg.store ≡ memory_store
      → IsDense m
      → HasUniqueKeys m
      → (issue_wia codec signer unmarshal_compressed cfg now client_id req_data m).0 ≡ ok answer
      → codec.parse_reason revoke_data ≡ some reason
      → split_path (trim_prefix "/statuslists/" path) ≡ some ("wia", list_id)
      → Publishes lib signer list_cfg then path "wia" list_id
          (revoked_after
            (issue_wia codec signer unmarshal_compressed cfg)
            now
            client_id
            req_data
            revoke_data
            m)
          (next_index "wia" m)
          status_invalid
  issue_wia-revoke-Publishes now then client_id req_data revoke_data answer reason path list_id m
        store dense unique issued parsed parts =
      let t =
        (issue_wia-HasIssuedWia codec signer unmarshal_compressed cfg now client_id req_data m
          answer store dense issued).taken_index in
      let n = (issue_wia codec signer unmarshal_compressed cfg now client_id req_data m).1 in
      let (_, h) = revoke_lem codec cfg revoke_data client_id reason n store parsed in
      Publishes-status lib signer list_cfg then path "wia" list_id _ (next_index "wia" m)
        status_invalid parts (h.kept.unique (t.unique unique))
        (taken-HasSet client_id "wia" status_invalid m n _ refl t h)
