-- ===== src/Service/Eudiw/Revoke.antt =====
-- The handlers that revoke and suspend a wallet instance: they write the status of every index that
-- was recorded for the client.
pub mod Each
pub mod Statuses
use go_r2ps_service.Base.{ℕ, suc, ◌+◌, String, List, [], ◌∷◌}
use go_r2ps_service.Base.Exec.{Result, ok, err, Exec, ◌>>=◌, pure, read, require}
use go_r2ps_service.Base.Int.{ℤ}
use go_r2ps_service.Protocol.{Bytes, type_wi_revoke, type_wi_suspend}
use go_r2ps_service.Store.{StoreError, Store, status_invalid, status_suspended}
use go_r2ps_service.Service.Dispatcher.{Handler, mode_1fa}
use go_r2ps_service.Service.Eudiw.{WalletProviderConfig, WiStatusResponse, EudiwCodec}

abbrev pub counted : {S : Type 0} → Result StoreError (Unit {0}) × S → (S → ℕ × S) → ℕ × S
counted (ok _, s) f = let r = f s in (suc r.0, r.1)
counted (err e, s) f = f s

abbrev pub categories : List String
categories = "ka" ∷ "wia" ∷ []

abbrev pub or_text : {A S : Type 0} → String → Result StoreError A × S → Result String A × S
or_text msg (ok a, s) = (ok a, s)
or_text msg (err e, s) = (err msg, s)

module _ {S : Type 0} (store : Store S) where
  -- The inner loop: an index whose status cannot be set is not counted.
  unfoldable pub set_each : String → ℕ → List ℕ → S → ℕ × S
  set_each category status [] s = (0, s)
  set_each category status (idx ∷ rest) s =
      counted (store.set_status category idx status s) (set_each category status rest)

  -- `revokeAll`, and the same loops in the handler that suspends.
  unfoldable pub set_in : String → ℕ → List String → Exec S StoreError ℕ
  unfolding set_each
  set_in client_id status [] = pure 0
  set_in client_id status (category ∷ rest) = do
    indices ← read (store.get_client_indices client_id category)
    n ← λ s. let r = set_each category status indices s in (ok r.0, r.1)
    more ← set_in client_id status rest
    pure (n + more)

  unfoldable pub revoke_all : String → ℕ → Exec S StoreError ℕ
  unfolding set_in
  revoke_all client_id status = set_in client_id status categories

module _ {S K I : Type 0} (codec : EudiwCodec I) (cfg : WalletProviderConfig S K I) where
  -- `WIRevokeHandler.Handle`.
  unfoldable pub revoke : Bytes → String → Exec S String Bytes
  revoke req_data client_id = do
    reason ← require (codec.parse_reason req_data) "parse revoke request"
    n ← λ s. or_text "revoke wallet instance" (revoke_all cfg.store client_id status_invalid s)
    pure (codec.marshal_revoked (record { indices = n; message = "wallet instance revoked" }))

  -- `WISuspendHandler.Handle`.
  unfoldable pub suspend : Bytes → String → Exec S String Bytes
  suspend req_data client_id = do
    reason ← require (codec.parse_reason req_data) "parse suspend request"
    n ← λ s. or_text "get indices" (revoke_all cfg.store client_id status_suspended s)
    pure (codec.marshal_suspended (record { indices = n; message = "wallet instance suspended" }))

  abbrev pub revoke_handler : Handler S
  revoke_handler = record {
    kind = type_wi_revoke;
    mode = mode_1fa;
    handle = λ now client_id payload. revoke payload client_id;
  }

  abbrev pub suspend_handler : Handler S
  suspend_handler = record {
    kind = type_wi_suspend;
    mode = mode_1fa;
    handle = λ now client_id payload. suspend payload client_id;
  }
