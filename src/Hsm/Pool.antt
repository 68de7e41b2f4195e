-- ===== src/Hsm/Pool.antt =====
-- The backend as a whole: how its pool is opened and closed, and its operations over the pool.
pub mod Sessions
use go_r2ps_service.Base.{
  ℕ, zero, suc, ◌-◌, String, Bool, true, false, Option, none, some, List, [], ◌∷◌, ◌++◌, ◌==◌,
  string_eq, if◌then◌else◌,
}
use go_r2ps_service.Base.Exec.{Result, ok, err, Exec, ◌>>=◌, ◌>>◌, pure, fail, require, guard}
use go_r2ps_service.Base.Int.{ℤ, pos, negsuc}
use go_r2ps_service.Protocol.{Bytes}
use go_r2ps_service.Hsm.{Pkcs11, Pkcs11Config, Primitives}
use go_r2ps_service.Hsm.Operations.{
  PoolState, with_session, generate_on, sign_on, ecdh_on, list_on, attempt,
}

-- What is undone when a step of the set-up fails.
abbrev pub or_undo : {T A : Type 0} → (T → T) → Exec T String A → Exec T String A
or_undo undo m t = let r = m t in elim (r.0) [ ok a ↦ (ok a, r.1) | err e ↦ (err e, undo r.1) ]

-- `poolSize`, which is 4 unless a positive size is configured.
abbrev pub pool_size_of : ℤ → ℕ
pool_size_of (pos zero) = 4
pool_size_of (pos (suc n)) = suc n
pool_size_of (negsuc n) = 4

module _ {T : Type 0} (lib : Pkcs11 T) (p : Primitives) where
  abbrev pub has_label : String → Option String → Bool
  has_label label none = false
  has_label label (some found) = found == label

  -- The loop over the slots; a slot whose token cannot be read is passed over.
  pub find_slot : String → List ℕ → Exec T String ℕ
  find_slot label [] = fail "token not found"
  find_slot label (slot ∷ slots) = do
    found ← attempt lib p (lib.get_token_label slot)
    if has_label label found then pure slot else find_slot label slots

  abbrev pub slot_of : Pkcs11Config → Exec T String ℕ
  slot_of cfg = if cfg.token_label == "" then pure cfg.slot_id else (do
    slots ← or_undo lib.finalize lib.get_slot_list
    or_undo lib.finalize (find_slot cfg.token_label slots))

  abbrev pub close_all : List ℕ → T → T
  close_all [] t = t
  close_all (session ∷ rest) t = close_all rest (lib.close_session session t)

  abbrev pub give_up : ℕ → List ℕ → T → T
  give_up first opened t = lib.finalize (lib.logout first (close_all opened t))

  -- The loop that opens the sessions behind the first one.
  unfoldable pub open_more : ℕ → ℕ → ℕ → List ℕ → Exec T String (List ℕ)
  open_more slot first zero opened = pure opened
  open_more slot first (suc n) opened = do
    session ← or_undo (give_up first opened) (lib.open_session slot)
    open_more slot first n (opened ++ session ∷ [])

  -- `NewPKCS11Backend`, which gives the pool; `load` says whether the module can be loaded.
  unfoldable pub new_pkcs11_backend : (String → Bool) → Pkcs11Config → Exec T String (List ℕ)
  unfolding find_slot
  new_pkcs11_backend load cfg = do
    guard (load cfg.module_path) "failed to load PKCS#11 module"
    lib.initialize
    slot ← slot_of cfg
    first ← or_undo lib.finalize (lib.open_session slot)
    or_undo (λ t. lib.finalize (lib.close_session first t)) (lib.login first cfg.pin)
    open_more slot first (pool_size_of cfg.pool_size - 1) (first ∷ [])

  abbrev pub logout_first : List ℕ → T → T
  logout_first [] t = t
  logout_first (first ∷ _) t = lib.logout first t

  -- `Close`: the sessions that are free are closed, and then the first of them is logged out.
  unfoldable pub close : PoolState T → PoolState T
  close s = record {
    free = [];
    token = lib.finalize (logout_first s.free (close_all s.free s.token));
  }

  -- The operations of `PKCS11Backend`.
  unfoldable pub generate_ec_key : Bool → Bytes → String → Exec (PoolState T) String (Bytes × Bytes)
  generate_ec_key cancelled kid_bytes curve_name =
      with_session cancelled (generate_on lib p kid_bytes curve_name)

  unfoldable pub sign : Bool → String → Bytes → Exec (PoolState T) String Bytes
  sign cancelled kid hash = with_session cancelled (sign_on lib p kid hash)

  unfoldable pub ecdh : Bool → String → Bytes → Exec (PoolState T) String Bytes
  ecdh cancelled kid peer = with_session cancelled (ecdh_on lib p kid peer)

  unfoldable pub list_keys :
      Bool → ℕ → List String → Exec (PoolState T) String (List (Bytes × (String × Bytes)))
  list_keys cancelled rounds curves = with_session cancelled (list_on lib p rounds curves)
