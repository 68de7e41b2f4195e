-- ===== src/Hsm/Pool/Sessions.antt =====
-- No session of the pool is lost or handed out twice.
use go_r2ps_service.Base.{
  ℕ, suc, ◌+◌, ◌≡◌, refl, ap, ◌⊎◌, inl, inr, String, Bool, true, false, List, [], ◌∷◌, ◌++◌, arith,
  nat_beq, if◌then◌else◌,
}
use go_r2ps_service.Base.Exec.{Result, ok, err, Exec, next, ◌>>=◌}
use go_r2ps_service.Hsm.Keys.{finally}
use go_r2ps_service.Hsm.Operations.{
  on_token, PoolState, acquire, take_session, release, with_session,
}

abbrev pub occurrences : ℕ → List ℕ → ℕ
occurrences x [] = 0
occurrences x (y ∷ ys) = if nat_beq x y then suc (occurrences x ys) else occurrences x ys

occurrences-append :
    (x : ℕ) (xs ys : List ℕ) → occurrences x (xs ++ ys) ≡ occurrences x xs + occurrences x ys
occurrences-append x [] ys = omega arith
occurrences-append x (z ∷ zs) ys = ground (arith, occurrences-append x zs ys)

-- The pool while requests take sessions and give them back, in any order; the second list holds the
-- sessions that are in use.
pub data Running {T : Type 0} (all : List ℕ) : PoolState T → List ℕ → Type 0 where
  start : (t : T) → Running all (record { free = all; token = t }) []
  acquired :
      (cancelled : Bool) (s : PoolState T) (held : List ℕ) (session : ℕ)
      → Running all s held
      → (acquire cancelled s).0 ≡ ok session
      → Running all (acquire cancelled s).1 (session ∷ held)
  refused :
      (cancelled : Bool) (s : PoolState T) (held : List ℕ) (e : String)
      → Running all s held
      → (acquire cancelled s).0 ≡ err e
      → Running all (acquire cancelled s).1 held
  called :
      (s : PoolState T) (held : List ℕ) (t : T)
      → Running all s held
      → Running all (record s { token = t }) held
  released :
      (s : PoolState T) (before after : List ℕ) (session : ℕ)
      → Running all s (before ++ session ∷ after)
      → Running all (release session s) (before ++ after)

module _ {T : Type 0} where
  take_session-ok :
      (cancelled : Bool) (free : List ℕ) (t : T) {session : ℕ}
      → (take_session cancelled free t).0 ≡ ok session
      → free ≡ session ∷ (take_session cancelled free t).1.free
  take_session-ok cancelled [] t e = cc e
  take_session-ok true (x ∷ rest) t e = cc e
  take_session-ok false (x ∷ rest) t {session} e =
      let same : x ≡ session = cc e in ap (λ y. y ∷ rest) same

  take_session-err :
      (cancelled : Bool) (free : List ℕ) (t : T) {msg : String}
      → (take_session cancelled free t).0 ≡ err msg
      → (take_session cancelled free t).1.free ≡ free
  take_session-err cancelled [] t e = refl
  take_session-err true (x ∷ rest) t e = refl
  take_session-err false (x ∷ rest) t e = cc e

  -- Whatever requests take and give back, each session of the pool is at any time as often free or
  -- in use, taken together, as it was in the pool at the start: for a pool of different sessions, none
  -- is ever in use twice, and none is lost.
  pub Running-occurrences :
      (all : List ℕ) (s : PoolState T) (held : List ℕ)
      → Running all s held
      → (x : ℕ) → occurrences x s.free + occurrences x held ≡ occurrences x all
  unfolding release acquire
  Running-occurrences all _ _ (start t) x = omega arith
  Running-occurrences all _ _ (acquired cancelled s held session r e) x = ground (
    arith,
    Running-occurrences all s held r x,
    ap (occurrences x) (take_session-ok cancelled s.free s.token e),
  )
  Running-occurrences all _ _ (refused cancelled s held msg r e) x =
      rw (take_session-err cancelled s.free s.token e) (Running-occurrences all s held r x)
  Running-occurrences all _ _ (called s held t r) x = Running-occurrences all s held r x
  Running-occurrences all _ _ (released s before after session r) x = ground (
    arith,
    Running-occurrences all s (before ++ session ∷ after) r x,
    occurrences-append x before (session ∷ after),
    occurrences-append x before after,
    occurrences-append x s.free (session ∷ []),
  )

  -- An operation that gets a session puts it back behind the others, however it ends, and one that
  -- gets none leaves the pool as it is.
  pub with_session-free :
      {A : Type 0} (cancelled : Bool) (body : ℕ → Exec T String A) (s : PoolState T)
      → ((with_session cancelled body s).1.free ≡ s.free)
        ⊎ ((session : ℕ) × (rest : List ℕ) × (s.free ≡ session ∷ rest)
            × ((with_session cancelled body s).1.free ≡ rest ++ session ∷ []))
  unfolding with_session acquire release ◌>>=◌
  with_session-free {A} cancelled body s = go cancelled s.free s.token
    where
      run : Result String ℕ × PoolState T → Result String A × PoolState T
      run r = next r.0 (λ session. finally (release session) (on_token (body session))) r.1

      go :
          (cancelled : Bool) (free : List ℕ) (t : T)
          → ((run (take_session cancelled free t)).1.free ≡ free)
            ⊎ ((session : ℕ) × (rest : List ℕ) × (free ≡ session ∷ rest)
                × ((run (take_session cancelled free t)).1.free ≡ rest ++ session ∷ []))
      go cancelled [] t = inl refl
      go true (x ∷ rest) t = inl refl
      go false (x ∷ rest) t = inr (x, rest, refl, refl)
