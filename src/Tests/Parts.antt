-- ===== src/Tests/Parts.antt =====
-- The theorems on the parts, at small inputs.
use go_r2ps_service.Base.{
  ◌≡◌, ◌≢◌, ◌↔◌, refl, String, true, false, none, some, [], ◌∷◌, string_eq, bytes_eq, bytes_beq,
  arith, not, ◌&&◌, Any, All, List, ℕ,
}
use go_r2ps_service.Base.Assoc.{lookup, insert}
use go_r2ps_service.Base.Exec.{ok}
use go_r2ps_service.Base.Int.{pos, ◌+ℤ◌, ltb_ℤ}
use go_r2ps_service.Base.Text.{codes}
use go_r2ps_service.Base.Text.Hex
use go_r2ps_service.Base.Text.Split
use go_r2ps_service.Base.Text.Split.{trim_space, NotIn, join}
use go_r2ps_service.Pake.Counter.{AttemptCounter, check}
use go_r2ps_service.Pake.Counter.Lockout.{fail_all, check-fail_all}
use go_r2ps_service.Pake.Session.{
  SessionStore, create, get, clean_expired, new_session_store, mark_verified,
}
use go_r2ps_service.Pake.Session.Laws.{IsWellFormed, create-IsWellFormed, get-clean_expired}
use go_r2ps_service.Protocol.{Bytes}
use go_r2ps_service.Service.Dispatcher.Sessions.Reach.{new_session_store-IsWellFormed}
use go_r2ps_service.Service.Sad.{validate_sad}
use go_r2ps_service.Service.Sad.Parse.{task_of, AreHashes, IsUnreadable}
use go_r2ps_service.Service.Sad.Validate.{Covers, validate_sad-task_of_iff, validate_sad_unreadable}
use go_r2ps_service.Store.Memory.{new_memory_store, allocate_index, MemoryStore}
use go_r2ps_service.WebAuthn.AuthData.{
  AuthenticatorData, parse_authenticator_data, verify_rp_id_hash,
}
use go_r2ps_service.WebAuthn.Verify.{verify_assertion}
use go_r2ps_service.WebAuthn.Verify.Assertion.{
  IsProof, verify_assertion_iff, verify_assertion_replay,
}
use go_r2ps_service.Tests.Demo

abbrev two_fails : AttemptCounter
two_fails = record { attempts = []; max_fails = 2; lockout = pos 900 }

no_record : lookup "c|k|x" two_fails.attempts ≡ none
unfolding lookup
no_record = refl

check-fail_all_example :
    (check (pos 20) "c" "k" "x" (fail_all (pos 0 ∷ (pos 10 ∷ [])) "c" "k" "x" two_fails)).1
    ≡ not (true && ltb_ℤ (pos 20) (pos 10 +ℤ pos 900))
check-fail_all_example =
    check-fail_all "c" "k" "x" two_fails (pos 0) (pos 10 ∷ []) (pos 20) no_record

abbrev left : Bytes
left = 1 ∷ (2 ∷ [])

abbrev right : Bytes
right = 1 ∷ (3 ∷ [])

abbrev zero_task : String
zero_task = "sign:0000000000000000000000000000000000000000000000000000000000000000"

zero_task-codes : codes zero_task ≡ task_of (Demo.zero_hash ∷ [])
unfolding task_of Hex.encode Split.join
zero_task-codes = refl

zero_hash-AreHashes : AreHashes (Demo.zero_hash ∷ [])
zero_hash-AreHashes = ((ground arith, refl), tt)

validate_sad-task_of_iff_example :
    (validate_sad (λ b. []) zero_task Demo.zero_hash ≡ true)
    ↔ Any (Covers (λ b. []) Demo.zero_hash) (Demo.zero_hash ∷ [])
validate_sad-task_of_iff_example =
    validate_sad-task_of_iff (λ b. []) zero_task Demo.zero_hash [] Demo.zero_hash zero_task-codes
      zero_hash-AreHashes

abbrev bad_parts : List (List ℕ)
bad_parts = codes "zz" ∷ (codes "00" ∷ [])

bad_parts-IsUnreadable : All IsUnreadable bad_parts
unfolding Hex.decode trim_space
bad_parts-IsUnreadable =
    (λ h e. absurd (cc e), ((λ h e. let same : h ≡ 0 ∷ [] = cc e in rw same (ground arith)), tt))

bad_parts-NotIn : All (NotIn b',') bad_parts
bad_parts-NotIn = ground arith

validate_sad_unreadable_example : validate_sad (λ b. []) "sign:zz,00" Demo.zero_hash ≡ true
unfolding join
validate_sad_unreadable_example =
    validate_sad_unreadable (λ b. []) "sign:zz,00" bad_parts Demo.zero_hash refl bad_parts-NotIn
      bad_parts-IsUnreadable

abbrev one_status : MemoryStore
one_status = (allocate_index "wua" new_memory_store).1

abbrev one_session : SessionStore
one_session = ("s", Demo.session false) ∷ []

one_session-IsWellFormed : IsWellFormed one_session
unfolding create lookup insert
one_session-IsWellFormed =
    create-IsWellFormed (Demo.session false) new_session_store one_session refl
      new_session_store-IsWellFormed

get-clean_expired_example :
    get (pos 9) "s" (clean_expired (pos 5) one_session).0 ≡ get (pos 9) "s" one_session
get-clean_expired_example =
    get-clean_expired one_session (pos 5) (pos 9) "s" one_session-IsWellFormed (omega arith)

abbrev marked_session : SessionStore
marked_session = ("s", Demo.session true) ∷ []

marked : mark_verified "s" one_session ≡ some marked_session
unfolding mark_verified lookup insert
marked = refl

abbrev authenticator_data : AuthenticatorData
authenticator_data = record {
  rp_id_hash = Demo.zero_hash;
  flags = 5;
  sign_count = 1;
  aaguid = [];
  credential_id = [];
  public_key = none;
}

verify_assertion_iff_example :
    (verify_assertion Demo.primitives Demo.assertion Demo.credential "c" "rp" ("https://o" ∷ [])
      ≡ ok authenticator_data)
    ↔ IsProof Demo.primitives Demo.assertion Demo.credential "c" "rp"
        ("https://o" ∷ [])
        authenticator_data
verify_assertion_iff_example =
    verify_assertion_iff Demo.primitives Demo.assertion Demo.credential "c" "rp" ("https://o" ∷ [])
      authenticator_data

assertion_run :
    verify_assertion Demo.primitives Demo.assertion Demo.credential "c" "rp" ("https://o" ∷ [])
    ≡ ok authenticator_data
unfolding verify_assertion parse_authenticator_data verify_rp_id_hash bytes_beq
assertion_run = refl

verify_assertion_replay_example :
    verify_assertion Demo.primitives Demo.assertion
      (record Demo.credential { sign_count = 1 })
      "d"
      "rp"
      ("https://o" ∷ [])
    ≢ ok authenticator_data
verify_assertion_replay_example =
    verify_assertion_replay Demo.primitives Demo.assertion Demo.credential "c" "d" "rp"
      ("https://o" ∷ []) authenticator_data authenticator_data assertion_run (omega arith)
