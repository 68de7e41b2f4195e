-- ===== src/Pake/Counter/Lockout.antt =====
-- When the attempt counter locks an account, and that accounts do not disturb one another.
use go_r2ps_service.Base.{
  ℕ, ◌+◌, ◌≡◌, ◌∙◌, refl, ◌≢◌, String, true, not, ◌&&◌, none, some, List, [], ◌∷◌, arith, ◌==◌,
  string_eq, eq_iff, eq_self, if◌then◌else◌, length, leb, Bool-cases, inl, inr,
}
use go_r2ps_service.Base.Int.{ℤ, ltb_ℤ, ◌+ℤ◌}
use go_r2ps_service.Base.Assoc.{lookup, lookup-insert, lookup-delete}
use go_r2ps_service.Pake.Counter.{
  AttemptRecord, AttemptCounter, counter_key, check, record_or_new, failed_once, record_failure,
  record_success,
}

-- Failures of one account, one after the other, at the given times.
abbrev pub fail_all : List ℤ → String → String → String → AttemptCounter → AttemptCounter
fail_all [] client kid context c = c
fail_all (t ∷ ts) client kid context c =
    fail_all ts client kid context (record_failure t client kid context c).0

abbrev pub last : ℤ → List ℤ → ℤ
last t [] = t
last t (u ∷ us) = last u us

module _ (client kid context : String) where
  abbrev key : String
  key = counter_key client kid context

  lookup-record_failure :
      (t : ℤ) (c : AttemptCounter)
      → lookup key (record_failure t client kid context c).0.attempts
        ≡ some (failed_once c t (record_or_new (lookup key c.attempts)))
  unfolding record_failure
  lookup-record_failure t c = rw (
    lookup-insert key key (failed_once c t (record_or_new (lookup key c.attempts))) c.attempts,
    eq_self key,
  )

  limits-fail_all :
      (ts : List ℤ) (c : AttemptCounter)
      → ((fail_all ts client kid context c).max_fails ≡ c.max_fails)
        × ((fail_all ts client kid context c).lockout ≡ c.lockout)
  unfolding record_failure
  limits-fail_all [] c = (refl, refl)
  limits-fail_all (t ∷ ts) c = limits-fail_all ts (record_failure t client kid context c).0

  failures-fail_all :
      (ts : List ℤ) (t : ℤ) (c : AttemptCounter) (r : AttemptRecord)
      → lookup key c.attempts ≡ some r
      → (leb c.max_fails r.failures ≡ true → r.locked_at ≡ t)
      → (q : AttemptRecord) × (lookup key (fail_all ts client kid context c).attempts ≡ some q)
        × (q.failures ≡ length ts + r.failures)
        × (leb c.max_fails q.failures ≡ true → q.locked_at ≡ last t ts)
  unfolding record_or_new
  failures-fail_all [] t c r found at = (r, found, omega arith, at)
  failures-fail_all (u ∷ us) t c r found at =
      let next = failed_once c u r in
      let c' = (record_failure u client kid context c).0 in
      let step : lookup key c'.attempts ≡ some next = ground (arith, lookup-record_failure u c) in
      let limit : c'.max_fails ≡ c.max_fails = (limits-fail_all (u ∷ []) c).0 in
      let later = failures-fail_all us u c' next step (λ h. ground (arith, limit)) in
      (later.0, later.1, omega (arith, later.2), λ h. later.3 (rw limit h))

  locked_at-failed_once :
      (t : ℤ) (c : AttemptCounter) (r : AttemptRecord)
      → leb (record_failure t client kid context c).0.max_fails (failed_once c t r).failures ≡ true
      → (failed_once c t r).locked_at ≡ t
  unfolding record_failure
  locked_at-failed_once t c r h = rw h

  check_known :
      (now : ℤ) (c : AttemptCounter) (r : AttemptRecord)
      → lookup key c.attempts ≡ some r
      → (check now client kid context c).1
        ≡ not (leb c.max_fails r.failures && ltb_ℤ now (r.locked_at +ℤ c.lockout))
  unfolding check
  check_known now c r found = rw found (ground arith)

-- The test of a lock, where the time of the lock is known only for a full count.
not_locked :
    (m n n' : ℕ) (now at at' lockout : ℤ)
    → n ≡ n'
    → (leb m n ≡ true → at ≡ at')
    → not (leb m n && ltb_ℤ now (at +ℤ lockout)) ≡ not (leb m n' && ltb_ℤ now (at' +ℤ lockout))
not_locked m n n' now at at' lockout e h = elim (Bool-cases (leb m n)) [
  | inl full ↦ rw (full, ← e, full, h full)
  | inr room ↦ rw (room, ← e, room)
]

-- From a counter that knows nothing of an account, after failures at the times `t ∷ ts`, the next
-- check refuses exactly if there were at least `max_fails` of them and the lock-out, counted from
-- the last one, is still running.
pub check-fail_all :
    (client kid context : String) (c : AttemptCounter) (t : ℤ) (ts : List ℤ) (now : ℤ)
    → lookup (counter_key client kid context) c.attempts ≡ none
    → (check now client kid context (fail_all (t ∷ ts) client kid context c)).1
      ≡ not (leb c.max_fails (length (t ∷ ts)) && ltb_ℤ now (last t ts +ℤ c.lockout))
check-fail_all client kid context c t ts now fresh =
    let k = counter_key client kid context in
    let r = failed_once c t (record_or_new (lookup k c.attempts)) in
    let one : r.failures ≡ 1 = unfold record_or_new in rw fresh in
    let limits = limits-fail_all client kid context (t ∷ ts) c in
    let (q, found, number, at) =
      failures-fail_all client kid context ts t (record_failure t client kid context c).0 r
        (lookup-record_failure client kid context t c)
        (locked_at-failed_once client kid context t c _) in
    check_known client kid context now (fail_all (t ∷ ts) client kid context c) q found
    ∙ rw (limits.0, limits.1)
        (not_locked c.max_fails q.failures (length (t ∷ ts)) now q.locked_at (last t ts) c.lockout
          (omega arith) (unfold record_failure in at))

-- A success, or a lock that has run out, makes the counter forget the account.
pub lookup-record_success :
    (client kid context j : String) (c : AttemptCounter)
    → lookup j (record_success client kid context c).attempts
      ≡ (if counter_key client kid context == j then none else lookup j c.attempts)
unfolding record_success
lookup-record_success client kid context j c =
    lookup-delete (counter_key client kid context) j c.attempts

-- Two counters with the same limits that know the same of an account answer alike.
check-ext :
    (client kid context : String) (now : ℤ) (c d : AttemptCounter)
    → c.max_fails ≡ d.max_fails
    → c.lockout ≡ d.lockout
    → lookup (counter_key client kid context) c.attempts
      ≡ lookup (counter_key client kid context) d.attempts
    → (check now client kid context c).1 ≡ (check now client kid context d).1
unfolding check
check-ext client kid context now c d m l e = ground arith

lookup-check_other :
    (now : ℤ) (client kid context j : String) (c : AttemptCounter)
    → counter_key client kid context ≢ j
    → ((check now client kid context c).0.max_fails ≡ c.max_fails)
      × ((check now client kid context c).0.lockout ≡ c.lockout)
      × (lookup j (check now client kid context c).0.attempts ≡ lookup j c.attempts)
unfolding check
lookup-check_other now client kid context j c apart = ground (
  arith,
  lookup-delete (counter_key client kid context) j c.attempts,
  eq_iff (counter_key client kid context) j,
)

-- What happens to one account is invisible to every account with another key.
pub check_other :
    (client kid context client' kid' context' : String) (now t : ℤ) (c : AttemptCounter)
    → counter_key client kid context ≢ counter_key client' kid' context'
    → ((check now client' kid' context' (record_failure t client kid context c).0).1
        ≡ (check now client' kid' context' c).1)
      × ((check now client' kid' context' (record_success client kid context c)).1
          ≡ (check now client' kid' context' c).1)
      × ((check now client' kid' context' (check t client kid context c).0).1
          ≡ (check now client' kid' context' c).1)
check_other client kid context client' kid' context' now t c apart =
    let k = counter_key client kid context in
    let j = counter_key client' kid' context' in
    let same = check-ext client' kid' context' now in
    let kept = lookup-check_other t client kid context j c apart in
    (
      same (record_failure t client kid context c).0 c (unfold record_failure in refl)
          (unfold record_failure in refl)
          (unfold record_failure in
            ground (
              arith,
              lookup-insert k j (failed_once c t (record_or_new (lookup k c.attempts))) c.attempts,
              eq_iff k j,
            )),
      same (record_success client kid context c) c (unfold record_success in refl)
          (unfold record_success in refl)
          (ground (arith, lookup-record_success client kid context j c, eq_iff k j)),
      same (check t client kid context c).0 c kept.0 kept.1 kept.2,
    )
