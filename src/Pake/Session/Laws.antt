-- ===== src/Pake/Session/Laws.antt =====
-- What the session store promises: it is a partial map from identifiers to sessions, in which an
-- expired session cannot be seen; and cleaning up is invisible.
use go_r2ps_service.Base.{
  ◌+◌, ◌≡◌, refl, ◌≢◌, ◌⊎◌, String, true, false, Option, none, some, arith, ◌==◌, string_eq, eq_iff,
  if◌then◌else◌, not, length-keep-le, Option-cases, inl, inr,
}
use go_r2ps_service.Base.Int.{ℤ, ◌≤ℤ◌}
use go_r2ps_service.Base.Assoc.{lookup, insert, lookup-insert, lookup-delete}
use go_r2ps_service.Base.Assoc.Unique.{
  Unique, insert-Unique, delete-Unique, keep-Unique, lookup-keep,
}
use go_r2ps_service.Pake.Session.{
  Session, SessionStore, create, get, is_expired, unless_expired, mark_verified, remove,
  clean_expired, count,
}

-- Each identifier stands once, and every session stands under its own identifier.
pub record IsWellFormed (s : SessionStore) : Type 0 where
  pub unique : Unique s
  pub own_id : (id : String) (x : Session) → lookup id s ≡ some x → x.id ≡ id

insert-own_id :
    (s : SessionStore) (y : Session) (k : String)
    → y.id ≡ k
    → ((id : String) (x : Session) → lookup id s ≡ some x → x.id ≡ id)
    → (id : String) (x : Session) → lookup id (insert k y s) ≡ some x
    → x.id ≡ id
insert-own_id s y k own h id x found = ground (arith, lookup-insert k id y s, eq_iff k id, h id x)

pub create-IsWellFormed :
    (x : Session) (s t : SessionStore) → create x s ≡ some t → IsWellFormed s → IsWellFormed t
unfolding create
create-IsWellFormed x s t e w = elim (Option-cases (lookup x.id s)) [
  | inl absent ↦
      let stored : insert x.id x s ≡ t = ground arith in
      rw (← stored) (record {
        unique = insert-Unique x.id x s w.unique;
        own_id = insert-own_id s x x.id refl w.own_id;
      })
  | inr (y, present) ↦ cc (present)
]

pub mark_verified-IsWellFormed :
    (id : String) (s t : SessionStore)
    → mark_verified id s ≡ some t
    → IsWellFormed s
    → IsWellFormed t
unfolding mark_verified
mark_verified-IsWellFormed id s t e w = elim (Option-cases (lookup id s)) [
  | inl absent ↦ cc (absent)
  | inr (y, present) ↦
      let stored : insert id (record y { verified = true }) s ≡ t = ground arith in
      rw (← stored) (record {
        unique = insert-Unique id (record y { verified = true }) s w.unique;
        own_id = insert-own_id s (record y { verified = true }) id (w.own_id id y present) w.own_id;
      })
]

pub remove-IsWellFormed :
    (id : String) (s : SessionStore) → IsWellFormed s → IsWellFormed (remove id s)
unfolding remove
remove-IsWellFormed id s w = record {
  unique = delete-Unique id s w.unique;
  own_id = λ k x found. ground (arith, lookup-delete id k s, w.own_id k x);
}

pub clean_expired-IsWellFormed :
    (now : ℤ) (s : SessionStore) → IsWellFormed s → IsWellFormed (clean_expired now s).0
unfolding clean_expired
clean_expired-IsWellFormed now s w = record {
  unique = keep-Unique (λ e. not (is_expired now e.1)) s w.unique;
  own_id = λ k x found.
      ground (arith, lookup-keep (λ x. not (is_expired now x)) k s w.unique, w.own_id k x);
}

-- Creation succeeds exactly on a new identifier, and then adds one session and nothing else.
pub get-create :
    (x : Session) (s : SessionStore)
    → ((lookup x.id s ≢ none) × (create x s ≡ none))
      ⊎ ((lookup x.id s ≡ none)
          × (t : SessionStore) × (create x s ≡ some t)
          × ((now : ℤ) (id : String)
              → get now id t ≡ (if x.id == id then unless_expired now (some x) else get now id s)))
unfolding create get
get-create x s = elim (Option-cases (lookup x.id s)) [
  | inl absent ↦
      inr
        (absent, insert x.id x s, ground arith, λ now id. ground (arith, lookup-insert x.id id x s))
  | inr (y, present) ↦ inl ((λ e. cc), ground arith)
]

abbrev pub mark : Option Session → Option Session
mark none = none
mark (some x) = some (record x { verified = true })

-- A session that has been verified is seen as it was, with the mark, until it expires; no other
-- session changes.
pub get-mark_verified :
    (id : String) (s t : SessionStore) (now : ℤ) (j : String)
    → mark_verified id s ≡ some t
    → get now j t ≡ (if id == j then mark (get now j s) else get now j s)
unfolding mark_verified get
get-mark_verified id s t now j e = elim (Option-cases (lookup id s)) [
  | inl absent ↦ cc (absent)
  | inr (y, present) ↦
      let stored : insert id (record y { verified = true }) s ≡ t = ground arith in
      rw (← stored)
        (ground (arith, lookup-insert id j (record y { verified = true }) s, eq_iff id j))
]

-- A removed session cannot be seen, and no other session changes.
pub get-remove :
    (id : String) (s : SessionStore) (now : ℤ) (j : String)
    → get now j (remove id s) ≡ (if id == j then none else get now j s)
unfolding remove get
get-remove id s now j = ground (arith, lookup-delete id j s)

-- In a well-formed store, cleaning up at one time changes nothing that can be seen at that time or
-- later.
pub get-clean_expired :
    (s : SessionStore) (now later : ℤ) (id : String)
    → IsWellFormed s
    → now ≤ℤ later
    → get later id (clean_expired now s).0 ≡ get later id s
unfolding clean_expired get
get-clean_expired s now later id w h =
    ground (arith, lookup-keep (λ x. not (is_expired now x)) id s w.unique)

-- The reported number is the number of sessions that went, and of those that are left none has
-- expired.
pub count-clean_expired :
    (s : SessionStore) (now : ℤ) (id : String) (x : Session)
    → IsWellFormed s
    → lookup id (clean_expired now s).0 ≡ some x
    → (count (clean_expired now s).0 + (clean_expired now s).1 ≡ count s)
      × (is_expired now x ≡ false)
unfolding clean_expired count
count-clean_expired s now id x w found = (
  omega (arith, length-keep-le (λ (e : String × Session). not (is_expired now e.1)) s),
  ground (arith, lookup-keep (λ x. not (is_expired now x)) id s w.unique),
)
