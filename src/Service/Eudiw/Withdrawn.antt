-- ===== src/Service/Eudiw/Withdrawn.antt =====
-- What the holders of status lists see of a revocation, in the course of the service.
use go_r2ps_service.Base.{
  ℕ, ◌≡◌, refl, ◌∙◌, String, Bool, true, false, ◌&&◌, Option, none, some, is_some, ltb,
  if◌then◌else◌,
}
use go_r2ps_service.Protocol.{Bytes}
use go_r2ps_service.Crypto.Jwt.{JoseSigner}
use go_r2ps_service.Store.{status_invalid}
use go_r2ps_service.Store.Memory.{MemoryStore, memory_store, next_index, category_statuses, or_zero}
use go_r2ps_service.StatusList.{bitstring_of}
use go_r2ps_service.StatusList.Published.{published}
use go_r2ps_service.Admin.{AdminLibrary}
use go_r2ps_service.Service.Handlers.{Backend, HandlerCodec}
use go_r2ps_service.Service.Eudiw.{WalletProviderConfig, EudiwCodec}
use go_r2ps_service.Service.Eudiw.Jwk.{Decompress}
use go_r2ps_service.Service.Eudiw.Reach.{Reachable, Reachable-IsSound, Reachable-published}
use go_r2ps_service.Service.Eudiw.Sound.{KeepsStore}
use go_r2ps_service.Service.Eudiw.Revoke.{revoke}
use go_r2ps_service.Service.Eudiw.Revoke.Each.{overwritten, indices_of, is_listed, is_revocable}
use go_r2ps_service.Service.Eudiw.Revoke.Statuses.{revoke_lem}

or_zero-overwritten :
    (b there : Bool) (status : ℕ) (old : Option ℕ)
    → is_some old ≡ there
    → or_zero 0 (overwritten b status old) ≡ (if b && there then status else or_zero 0 old)
or_zero-overwritten true there status none e = rw (← e)
or_zero-overwritten true there status (some old) e = rw (← e)
or_zero-overwritten false there status old e = refl

-- An allocated index of "ka" or "wia" that the store has recorded for the client.
abbrev pub is_of_client : String → String → MemoryStore → ℕ → Bool
is_of_client client_id category m idx =
    (is_revocable category && is_listed idx (indices_of client_id category m))
    && ltb idx (next_index category m)

module _ {K I : Type 0} (codec : EudiwCodec I) (signer : JoseSigner K)
    (unmarshal_compressed : Decompress) (cfg : WalletProviderConfig MemoryStore K I)
    (lib : AdminLibrary) (keys : HandlerCodec) (hsm : Backend MemoryStore) where
  -- In every store that the service can come to, over the in-memory store and an HSM that does not
  -- write to it, a request to revoke that can be read sets the published status of each index of
  -- the client to 1, in the lists of both categories, and leaves every other one, of any category,
  -- as it was published before.
  pub Reachable-revoke-published :
      (req_data : Bytes) (client_id reason category : String) (m : MemoryStore)
      → cfg.store ≡ memory_store
      → KeepsStore hsm
      → codec.parse_reason req_data ≡ some reason
      → Reachable codec signer unmarshal_compressed cfg lib keys hsm m
      → (before : Bytes) × (after : Bytes) × (bitstring_of (category_statuses category m)
          ≡ some before)
        × (bitstring_of (category_statuses category (revoke codec cfg req_data client_id m).1)
            ≡ some after)
        × ((idx : ℕ)
            → published idx after ≡ (
                if is_of_client client_id category m idx
                then status_invalid
                else published idx before))
  Reachable-revoke-published req_data client_id reason category m store apart parsed r =
      let n = (revoke codec cfg req_data client_id m).1 in
      let s =
        Reachable-IsSound codec signer unmarshal_compressed cfg lib keys hsm store apart m r in
      let h = (revoke_lem codec cfg req_data client_id reason m store parsed).1 in
      let (before, built, reads) =
        Reachable-published codec signer unmarshal_compressed cfg lib keys hsm store apart m
          category r in
      let (after, rebuilt, rereads) =
        Reachable-published codec signer unmarshal_compressed cfg lib keys hsm store apart n
          category (Reachable.revocation req_data client_id m r) in
      (
        before,
        after,
        built,
        rebuilt,
        λ idx.
            rereads idx
            ∙ rw (h.statuses category idx, reads idx)
                (or_zero-overwritten
                  (is_revocable category && is_listed idx (indices_of client_id category m))
                  (ltb idx (next_index category m)) status_invalid _ (s.dense category idx)),
      )
