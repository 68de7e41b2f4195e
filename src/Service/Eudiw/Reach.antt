-- ===== src/Service/Eudiw/Reach.antt =====
-- The store in the course of the service: keys are made and exported, attestations are issued, revoked
-- and suspended, and the admin API is called, in any order and with any outcome.
use go_r2ps_service.Base.{ℕ, ◌≡◌, ◌∙◌, String, some, string_eq}
use go_r2ps_service.Base.Int.{ℤ}
use go_r2ps_service.Protocol.{Bytes}
use go_r2ps_service.Crypto.Jwt.{JoseSigner}
use go_r2ps_service.Store.Memory.{
  MemoryStore, memory_store, new_memory_store, category_statuses, or_zero,
}
use go_r2ps_service.Store.Memory.Status.{status_at}
use go_r2ps_service.Store.Memory.Sound.{IsSound, IsSound-new}
use go_r2ps_service.StatusList.{bitstring_of}
use go_r2ps_service.StatusList.Published.{published, bitstring_of-published}
use go_r2ps_service.Admin.{AdminLibrary, Route, handle}
use go_r2ps_service.Admin.Sound.{handle-IsSound}
use go_r2ps_service.Service.Eudiw.{WalletProviderConfig, EudiwCodec}
use go_r2ps_service.Service.Handlers.{Backend, HandlerCodec, generate_key}
use go_r2ps_service.Service.Eudiw.Jwk.{Decompress}
use go_r2ps_service.Service.Eudiw.Issue.{issue_wka, issue_wia}
use go_r2ps_service.Service.Eudiw.Sound.{
  KeepsStore, issue_wka-IsSound, issue_wia-IsSound, revoke-IsSound, suspend-IsSound,
  generate_key-IsSound, known_small,
}
use go_r2ps_service.Service.Eudiw.Revoke.{revoke, suspend}

module _ {K I : Type 0} (codec : EudiwCodec I) (signer : JoseSigner K)
    (unmarshal_compressed : Decompress) (cfg : WalletProviderConfig MemoryStore K I)
    (lib : AdminLibrary) (keys : HandlerCodec) (hsm : Backend MemoryStore) where
  -- The stores that the service can come to from the empty one. A key generation, an attestation, a
  -- revocation or a suspension may end in any way; a call of the admin API is one that got past the
  -- authentication.
  pub data Reachable : MemoryStore → Type 0 where
    start : Reachable new_memory_store
    keygen :
        (now : ℤ) (client_id : String) (payload : Bytes) (m : MemoryStore)
        → Reachable m
        → Reachable (generate_key keys hsm (some memory_store) now client_id payload m).1
    wka :
        (now : ℤ) (client_id : String) (req_data : Bytes) (m : MemoryStore)
        → Reachable m
        → Reachable (issue_wka codec signer unmarshal_compressed cfg now client_id req_data m).1
    wia :
        (now : ℤ) (client_id : String) (req_data : Bytes) (m : MemoryStore)
        → Reachable m
        → Reachable (issue_wia codec signer unmarshal_compressed cfg now client_id req_data m).1
    revocation :
        (req_data : Bytes) (client_id : String) (m : MemoryStore)
        → Reachable m
        → Reachable (revoke codec cfg req_data client_id m).1
    suspension :
        (req_data : Bytes) (client_id : String) (m : MemoryStore)
        → Reachable m
        → Reachable (suspend codec cfg req_data client_id m).1
    administration :
        (route : Route) (m : MemoryStore)
        → Reachable m
        → Reachable (handle lib memory_store route m).1

  -- In every store that the service can come to, over the in-memory store and an HSM that does not
  -- write to it, the indices of a category that have a status are exactly those below its counter,
  -- each stands once, and every status is valid, invalid or suspended.
  pub Reachable-IsSound :
      cfg.store ≡ memory_store → KeepsStore hsm → (m : MemoryStore) → Reachable m → IsSound m
  Reachable-IsSound store apart _ start = IsSound-new
  Reachable-IsSound store apart _ (keygen now client_id payload m r) =
      generate_key-IsSound hsm keys now client_id payload m apart
        (Reachable-IsSound store apart m r)
  Reachable-IsSound store apart _ (wka now client_id req_data m r) =
      issue_wka-IsSound codec signer unmarshal_compressed cfg now client_id req_data m store
        (Reachable-IsSound store apart m r)
  Reachable-IsSound store apart _ (wia now client_id req_data m r) =
      issue_wia-IsSound codec signer unmarshal_compressed cfg now client_id req_data m store
        (Reachable-IsSound store apart m r)
  Reachable-IsSound store apart _ (revocation req_data client_id m r) =
      revoke-IsSound codec cfg req_data client_id m store (Reachable-IsSound store apart m r)
  Reachable-IsSound store apart _ (suspension req_data client_id m r) =
      suspend-IsSound codec cfg req_data client_id m store (Reachable-IsSound store apart m r)
  Reachable-IsSound store apart _ (administration route m r) =
      handle-IsSound lib route m (Reachable-IsSound store apart m r)

  -- In every store that the service can come to, over the in-memory store and an HSM that does not
  -- write to it, the list of a category can be built, and an index reads as its very status, one that
  -- was never allocated as 0.
  pub Reachable-published :
      cfg.store ≡ memory_store
      → KeepsStore hsm
      → (m : MemoryStore) (category : String) → Reachable m
      → (bitstring : Bytes) × (bitstring_of (category_statuses category m) ≡ some bitstring)
        × ((idx : ℕ) → published idx bitstring ≡ or_zero 0 (status_at category idx m))
  Reachable-published store apart m category r =
      let s = Reachable-IsSound store apart m r in
      let (bitstring, built, reads) =
        bitstring_of-published (category_statuses category m) (s.unique category) in
      (bitstring, built, λ idx. reads idx ∙ known_small _ (s.known category idx))
