-- ===== src/Base/Assoc/Unique.antt =====
-- Maps in which each key stands once: every write and removal keeps them so, and keeping some of
-- the entries then keeps some of the bindings.
use go_r2ps_service.Base.{
  ◌≡◌, refl, ◌≢◌, Bool, Option, none, some, [], ◌∷◌, arith, Eq, ◌==◌, if◌then◌else◌, keep,
  Bool-cases, subst, sym, inl, inr,
}
use go_r2ps_service.Base.Assoc.{Assoc, lookup, insert, delete}

abbrev pub Absent {ℓ κ} : {K : Type ℓ} {V : Type κ} → K → Assoc K V → Type ℓ
Absent k [] = Unit
Absent k ((j, v) ∷ m) = (j ≢ k) × Absent k m

abbrev pub Unique {ℓ κ} : {K : Type ℓ} {V : Type κ} → Assoc K V → Type ℓ
Unique [] = Unit
Unique ((k, v) ∷ m) = Absent k m × Unique m

abbrev pub keep_if {ℓ} : {V : Type ℓ} → (V → Bool) → Option V → Option V
keep_if p none = none
keep_if p (some v) = if p v then some v else none

module _ {ℓ κ} {K : Type ℓ} {V : Type κ} ⦃e : Eq K⦄ where
  Absent-insert : (k j : K) (v : V) (m : Assoc K V) → j ≢ k → Absent k m → Absent k (insert j v m)
  unfolding insert
  Absent-insert k j v [] h a = (h, tt)
  Absent-insert k j v ((i, w) ∷ m) h a = elim (Bool-cases (i == j)) [
    | inl same ↦ rw same (h, a.1)
    | inr other ↦ rw other (a.0, Absent-insert k j v m h a.1)
  ]

  pub insert-Unique : (k : K) (v : V) (m : Assoc K V) → Unique m → Unique (insert k v m)
  unfolding insert
  insert-Unique k v [] u = (tt, tt)
  insert-Unique k v ((i, w) ∷ m) u = elim (Bool-cases (i == k)) [
    | inl same ↦ rw same (rw ((e.equal_iff i k).0 same) at u)
    | inr other ↦ rw other (
      Absent-insert i k v m (λ q. cc (other, (e.equal_iff i k).1 (sym q))) u.0,
      insert-Unique k v m u.1,
    )
  ]

  Absent-delete : (k j : K) (m : Assoc K V) → Absent k m → Absent k (delete j m)
  unfolding delete
  Absent-delete k j [] a = tt
  Absent-delete k j ((i, w) ∷ m) a = elim (Bool-cases (i == j)) [
    | inl same ↦ rw same (Absent-delete k j m a.1)
    | inr other ↦ rw other (a.0, Absent-delete k j m a.1)
  ]

  pub delete-Unique : (k : K) (m : Assoc K V) → Unique m → Unique (delete k m)
  unfolding delete
  delete-Unique k [] u = tt
  delete-Unique k ((i, w) ∷ m) u = elim (Bool-cases (i == k)) [
    | inl same ↦ rw same (delete-Unique k m u.1)
    | inr other ↦ rw other (Absent-delete i k m u.0, delete-Unique k m u.1)
  ]

  pub lookup-Absent : (k : K) (m : Assoc K V) → Absent k m → lookup k m ≡ none
  unfolding lookup
  lookup-Absent k [] a = refl
  lookup-Absent k ((i, w) ∷ m) a = ground (arith, e.equal_iff i k, lookup-Absent k m a.1)

  -- What is kept is exactly the bindings whose value passes the test.
  pub lookup-keep :
      (p : V → Bool) (k : K) (m : Assoc K V)
      → Unique m
      → lookup k (keep (λ b. p b.1) m) ≡ keep_if p (lookup k m)
  unfolding lookup
  lookup-keep p k [] u = refl
  lookup-keep p k ((i, w) ∷ m) u = ground (
    arith,
    e.equal_iff i k,
    lookup-keep p k m u.1,
    λ (q : i ≡ k). lookup-Absent k m (subst (λ t. Absent t m) q u.0),
  )

module _ {ℓ κ} {K : Type ℓ} {V : Type κ} (p : K × V → Bool) where
  Absent-keep : (k : K) (m : Assoc K V) → Absent k m → Absent k (keep p m)
  Absent-keep k [] a = tt
  Absent-keep k ((i, w) ∷ m) a = elim (Bool-cases (p (i, w))) [
    | inl kept ↦ rw kept (a.0, Absent-keep k m a.1)
    | inr gone ↦ rw gone (Absent-keep k m a.1)
  ]

  pub keep-Unique : (m : Assoc K V) → Unique m → Unique (keep p m)
  keep-Unique [] u = tt
  keep-Unique ((i, w) ∷ m) u = elim (Bool-cases (p (i, w))) [
    | inl kept ↦ rw kept (Absent-keep i m u.0, keep-Unique m u.1)
    | inr gone ↦ rw gone (keep-Unique m u.1)
  ]
