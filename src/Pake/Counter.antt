-- ===== src/Pake/Counter.antt =====
-- internal/pake/counter.go: failed attempts for each (client, kid, context), with a lock-out. The
-- clock reading of an operation is an argument.
pub mod Lockout
use Prim.Native.String.{◌++◌ as text_append}
use go_r2ps_service.Base.{
  ℕ, suc, String, Bool, true, false, Option, none, some, List, if◌then◌else◌, leb, string_eq,
}
use go_r2ps_service.Base.Int.{ℤ, negsuc, seconds, ltb_ℤ, ◌+ℤ◌}
use go_r2ps_service.Base.Assoc.{Assoc, lookup, insert, delete}

pub record AttemptRecord : Type 0 where
  pub failures : ℕ
  pub locked_at : ℤ

pub record AttemptCounter : Type 0 where
  pub attempts : Assoc String AttemptRecord
  pub max_fails : ℕ
  pub lockout : ℤ

unfoldable pub new_attempt_counter : ℕ → ℤ → AttemptCounter
new_attempt_counter m l = record { attempts = List.[]; max_fails = m; lockout = l }

abbrev pub counter_key : String → String → String → String
counter_key client kid context =
    text_append client (text_append "|" (text_append kid (text_append "|" context)))

-- What `Check` finds: nothing to stop the client, a lock, or a lock that has run out.
pub data Verdict : Type 0 where
  open_account locked lapsed : Verdict

abbrev pub verdict : AttemptCounter → ℤ → Option AttemptRecord → Verdict
verdict c now none = open_account
verdict c now (some r) =
    if leb c.max_fails r.failures
    then (if ltb_ℤ now (r.locked_at +ℤ c.lockout) then locked else lapsed)
    else open_account

abbrev act_on : AttemptCounter → String → Verdict → AttemptCounter × Bool
act_on c key open_account = (c, true)
act_on c key locked = (c, false)
act_on c key lapsed = (record c { attempts = delete key c.attempts }, true)

-- `false` is the error "account locked: too many failed attempts".
unfoldable pub check : ℤ → String → String → String → AttemptCounter → AttemptCounter × Bool
check now client kid context c =
    let key = counter_key client kid context in act_on c key (verdict c now (lookup key c.attempts))

-- The zero `time.Time`: the first of January of the year 1.
pub zero_time : ℤ
zero_time = seconds (negsuc 62_135_596_799)

-- The record of a key, or the new one that is put there.
pub record_or_new : Option AttemptRecord → AttemptRecord
record_or_new (some r) = r
record_or_new none = record { failures = 0; locked_at = zero_time }

abbrev pub failed_once : AttemptCounter → ℤ → AttemptRecord → AttemptRecord
failed_once c now r = record {
  failures = suc r.failures;
  locked_at = if leb c.max_fails (suc r.failures) then now else r.locked_at;
}

-- `false` is the error that the account is now locked; the callers drop it.
unfoldable pub record_failure :
    ℤ → String → String → String → AttemptCounter → AttemptCounter × Bool
record_failure now client kid context c =
    let key = counter_key client kid context in
    let r = failed_once c now (record_or_new (lookup key c.attempts)) in
    (
      record c { attempts = insert key r c.attempts },
      if leb c.max_fails r.failures then false else true,
    )

unfoldable pub record_success : String → String → String → AttemptCounter → AttemptCounter
record_success client kid context c = record c {
  attempts = delete (counter_key client kid context) c.attempts;
}
