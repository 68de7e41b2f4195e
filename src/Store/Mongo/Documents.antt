-- ===== src/Store/Mongo/Documents.antt =====
-- The documents of the statuses collection as a set: what a cursor delivers, what the map built from
-- it holds, and what an insertion and an update do to the set.
use go_r2ps_service.Base.{
  ℕ, ◌≡◌, ◌≢◌, ◌↔◌, ◌⊎◌, inl, inr, refl, ap, ◌∙◌, String, ◌&&◌, true, Option, none, some, ◌==◌,
  string_eq, nat_eq, eq_iff, nat_beq, nat_beq_iff, arith, Bool-cases,
}
use go_r2ps_service.Base.Assoc.{Assoc, lookup, insert, lookup-insert}
use go_r2ps_service.Base.Exec.{ok, err}
use go_r2ps_service.Store.{StoreError, unavailable}
use go_r2ps_service.Store.Memory.Status.{written}
use go_r2ps_service.Store.Mongo.{StatusEntry, Cursor, at_index, collect_statuses}

abbrev pub entry : String → ℕ → ℕ → StatusEntry
entry category idx status = record { category = category; idx = idx; status = status }

-- A document that a cursor answers before it ends or fails.
abbrev pub Delivered : StatusEntry → Cursor StatusEntry → Type 0
Delivered x Cursor.end = ⊥
Delivered x Cursor.broken = ⊥
Delivered x (Cursor.next none c) = ⊥
Delivered x (Cursor.next (some d) c) = (x ≡ d) ⊎ Delivered x c

-- A cursor that comes to its end.
abbrev pub Ends : Cursor StatusEntry → Type 0
Ends Cursor.end = Unit
Ends Cursor.broken = ⊥
Ends (Cursor.next none c) = ⊥
Ends (Cursor.next (some d) c) = Ends c

-- The entry of a map at an index: what it was, where no document of this index was delivered, or the
-- status of one that was.
abbrev pub Holds : Assoc ℕ ℕ → Cursor StatusEntry → Assoc ℕ ℕ → ℕ → Type 0
Holds m c r i =
    (((d : StatusEntry) → Delivered d c → d.idx ≢ i) × (lookup i r ≡ lookup i m))
    ⊎ ((d : StatusEntry) × Delivered d c × (d.idx ≡ i) × (lookup i r ≡ some d.status))

Holds-insert :
    (m : Assoc ℕ ℕ) (d : StatusEntry) (c : Cursor StatusEntry) (r : Assoc ℕ ℕ) (i : ℕ)
    → Holds (insert d.idx d.status m) c r i
    → Holds m (Cursor.next (some d) c) r i
Holds-insert m d c r i (inr (x, later, at, held)) = inr (x, inr later, at, held)
Holds-insert m d c r i (inl (others, same)) = elim (Bool-cases (nat_beq d.idx i)) [
  | inl here ↦
      inr (
        d,
        inl refl,
        (nat_beq_iff d.idx i).0 here,
        same ∙ lookup-insert d.idx i d.status m ∙ rw here,
      )
  | inr there ↦ inl (
    (λ x e. elim e [
      | inl first ↦ rw first (λ at. cc (there, (nat_beq_iff d.idx i).1 at))
      | inr later ↦ others x later
    ]),
    same ∙ lookup-insert d.idx i d.status m ∙ rw there,
  )
]

-- A map that is built from a cursor was built to its end, of what it delivered in any order.
pub collect_statuses-Holds :
    (m : Assoc ℕ ℕ) (c : Cursor StatusEntry) (r : Assoc ℕ ℕ)
    → collect_statuses m c ≡ ok r
    → Ends c × ((i : ℕ) → Holds m c r i)
unfolding collect_statuses
collect_statuses-Holds m Cursor.end r q =
    (tt, λ i. inl ((λ d e. absurd e), let same : r ≡ m = cc q in rw same))
collect_statuses-Holds m Cursor.broken r q = absurd (cc q)
collect_statuses-Holds m (Cursor.next none c) r q = absurd (cc q)
collect_statuses-Holds m (Cursor.next (some d) c) r q =
    let (ends, holds) = collect_statuses-Holds (insert d.idx d.status m) c r q in
    (ends, λ i. Holds-insert m d c r i (holds i))

pub collect_statuses_failed :
    (m : Assoc ℕ ℕ) (c : Cursor StatusEntry) (e : StoreError)
    → collect_statuses m c ≡ err e
    → e ≡ unavailable
unfolding collect_statuses
collect_statuses_failed m Cursor.end e q = cc
collect_statuses_failed m Cursor.broken e q = cc
collect_statuses_failed m (Cursor.next none c) e q = cc
collect_statuses_failed m (Cursor.next (some d) c) e q =
    collect_statuses_failed (insert d.idx d.status m) c e q

-- The filter of a place.
pub at_index_iff :
    (category : String) (idx : ℕ) (d : StatusEntry)
    → (at_index category idx d ≡ true) ↔ ((d.category ≡ category) × (d.idx ≡ idx))
at_index_iff category idx d = (
  λ h. ground (arith, eq_iff d.category category),
  λ h. ground (arith, eq_iff d.category category),
)

module _ (category : String) (idx value : ℕ) (j : String) (i status : ℕ) (old : Option ℕ) where
  -- A new document at a place where there is none.
  pub added_iff :
      (category ≡ j → idx ≡ i → old ≡ none)
      → ((old ≡ some status) ⊎ (entry j i status ≡ entry category idx value))
        ↔ (written category idx value j i old ≡ some status)
  added_iff fresh = elim (Bool-cases (category == j && nat_beq idx i)) [
    | inl here ↦
        let at : (category ≡ j) × (idx ≡ i) = ground (arith, eq_iff category j) in
        let missing = fresh at.0 at.1 in
        rw here (
          (λ h. elim h [
            | inl found ↦ absurd (cc (missing, found))
            | inr same ↦ cc (ap (λ d. d.status) same)
          ]),
          λ h. let v : value ≡ status = cc h in inr (rw (at.0, at.1, v)),
        )
    | inr there ↦ rw there (
      (λ h. elim h [
        | inl found ↦ found
        | inr same ↦
            let c : j ≡ category = ap (λ d. d.category) same in
            let k : i ≡ idx = ap (λ d. d.idx) same in
            absurd (ground (arith, eq_iff category j, c, k, there))
      ]),
      λ found. inl found,
    )
  ]

  -- The document at a place, replaced by one with another status.
  pub replaced_iff :
      (before : ℕ)
      → (category ≡ j → idx ≡ i → old ≡ some before)
      → (((old ≡ some status) × (entry j i status ≢ entry category idx before))
          ⊎ (entry j i status ≡ entry category idx value))
        ↔ (written category idx value j i old ≡ some status)
  replaced_iff before held = elim (Bool-cases (category == j && nat_beq idx i)) [
    | inl here ↦
        let at : (category ≡ j) × (idx ≡ i) = ground (arith, eq_iff category j) in
        let found = held at.0 at.1 in
        rw here (
          (λ h. elim h [
            | inl (kept, other) ↦
                let v : status ≡ before = cc (kept, found) in absurd (other (rw (at.0, at.1, v)))
            | inr same ↦ cc (ap (λ d. d.status) same)
          ]),
          λ h. let v : value ≡ status = cc h in inr (rw (at.0, at.1, v)),
        )
    | inr there ↦ rw there (
      (λ h. elim h [
        | inl (kept, other) ↦ kept
        | inr same ↦
            let c : j ≡ category = ap (λ d. d.category) same in
            let k : i ≡ idx = ap (λ d. d.idx) same in
            absurd (ground (arith, eq_iff category j, c, k, there))
      ]),
      λ kept. inl (
        kept,
        λ same.
            let c : j ≡ category = ap (λ d. d.category) same in
            let k : i ≡ idx = ap (λ d. d.idx) same in
            absurd (ground (arith, eq_iff category j, c, k, there)),
      ),
    )
  ]
