-- ===== src/Pake/Session.antt =====
-- internal/pake/session.go: the session store. The clock reading of an operation is an argument;
-- a lock is held over each operation, so that operations are atomic steps. The program never
-- writes through the pointer that `Get` returns, and reads of it only fields that never change
-- after `Create`, or `Verified` at once; so `get` returns a copy.
pub mod Laws
use go_r2ps_service.Base.{
  ℕ, String, Bool, true, false, Option, none, some, List, if◌then◌else◌, length, keep, not, ◌-◌,
}
use go_r2ps_service.Base.Int.{ℤ, ltb_ℤ}
use go_r2ps_service.Base.Assoc.{Assoc, lookup, insert, delete}
use go_r2ps_service.Base.{string_eq}
use go_r2ps_service.Protocol.{Bytes}

pub record Session : Type 0 where
  pub id : String
  pub client_id : String
  pub context : String
  pub session_key : Bytes
  pub client_mac : Bytes
  pub expires_at : ℤ
  pub verified : Bool
  pub task : String

abbrev pub SessionStore : Type 0
SessionStore = Assoc String Session

abbrev pub new_session_store : SessionStore
new_session_store = List.[]

abbrev pub store_absent : SessionStore → Session → Option Session → Option SessionStore
store_absent s x none = some (insert x.id x s)
store_absent s x (some y) = none

-- `none` is the error for an identifier that exists.
unfoldable pub create : Session → SessionStore → Option SessionStore
create x s = store_absent s x (lookup x.id s)

-- `time.Now().After(sess.ExpiresAt)`.
abbrev pub is_expired : ℤ → Session → Bool
is_expired now x = ltb_ℤ x.expires_at now

abbrev pub unless_expired : ℤ → Option Session → Option Session
unless_expired now none = none
unless_expired now (some x) = if is_expired now x then none else some x

unfoldable pub get : ℤ → String → SessionStore → Option Session
get now id s = unless_expired now (lookup id s)

abbrev pub set_verified : SessionStore → String → Option Session → Option SessionStore
set_verified s id none = none
set_verified s id (some x) = some (insert id (record x { verified = true }) s)

-- `none` is the error for an identifier that is not there.
unfoldable pub mark_verified : String → SessionStore → Option SessionStore
mark_verified id s = set_verified s id (lookup id s)

unfoldable pub remove : String → SessionStore → SessionStore
remove id s = delete id s

unfoldable pub clean_expired : ℤ → SessionStore → SessionStore × ℕ
clean_expired now s =
    let kept = keep (λ e. not (is_expired now e.1)) s in (kept, length s - length kept)

unfoldable pub count : SessionStore → ℕ
count s = length s
