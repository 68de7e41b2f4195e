-- ===== src/Service/Dispatcher/Sessions/Reach.antt =====
-- What holds of the sessions of a running dispatcher: states reachable by requests and by the
-- periodic clean-up, in any order.
use go_r2ps_service.Base.{
  ◌≡◌, ◌≢◌, ◌⊎◌, inl, inr, String, true, false, none, some, ◌==◌, string_eq, eq_iff, arith,
  Bool-cases, Option-cases, if◌then◌else◌,
}
use go_r2ps_service.Base.Assoc.{lookup, insert, lookup-insert, lookup-delete}
use go_r2ps_service.Base.Int.{ℤ}
use go_r2ps_service.Pake.Opaque
use go_r2ps_service.Pake.Session.{
  Session, SessionStore, create, get, mark_verified, remove, clean_expired, new_session_store,
}
use go_r2ps_service.Pake.Session.Laws.{
  IsWellFormed, create-IsWellFormed, mark_verified-IsWellFormed, remove-IsWellFormed,
  clean_expired-IsWellFormed,
}
use go_r2ps_service.Protocol.{Bytes, ServiceRequest}
use go_r2ps_service.Service.Dispatcher.{Dispatcher, Moment, State}
use go_r2ps_service.Service.Dispatcher.Access.{IsAccepted}
use go_r2ps_service.Service.Dispatcher.Process.{process}
use go_r2ps_service.Service.Dispatcher.Sessions.{
  HasFactor, SessionChange, kept, pended, dropped, confirmed, proved,
}
use go_r2ps_service.Service.Dispatcher.Sessions.Step.{process-SessionChange}

lookup-create :
    (x : Session) (s u : SessionStore) (id : String)
    → create x s ≡ some u
    → lookup id u ≡ (if x.id == id then some x else lookup id s)
unfolding create
lookup-create x s u id e = elim (Option-cases (lookup x.id s)) [
  | inl absent ↦
      let stored : insert x.id x s ≡ u = ground arith in rw (← stored) (lookup-insert x.id id x s)
  | inr (y, present) ↦ cc (present)
]

lookup-remove :
    (id j : String) (s : SessionStore)
    → lookup j (remove id s) ≡ (if id == j then none else lookup j s)
unfolding remove
lookup-remove id j s = lookup-delete id j s

lookup-mark_verified :
    (id j : String) (s u : SessionStore)
    → mark_verified id s ≡ some u
    → id ≢ j
    → lookup j u ≡ lookup j s
unfolding mark_verified
lookup-mark_verified id j s u e apart = elim (Option-cases (lookup id s)) [
  | inl absent ↦ cc (absent)
  | inr (y, present) ↦
      let stored : insert id (record y { verified = true }) s ≡ u = ground arith in
      rw (← stored)
        (ground (arith, lookup-insert id j (record y { verified = true }) s, eq_iff id j))
]

module _ {S M : Type 0} (d : Dispatcher S M) (t : Moment) where
  SessionChange-IsWellFormed :
      (req : ServiceRequest) (s : State S) (u : SessionStore)
      → SessionChange d t req s u
      → IsWellFormed s.sessions
      → IsWellFormed u
  SessionChange-IsWellFormed req s u (kept e) w = rw e w
  SessionChange-IsWellFormed req s u (pended x _ e) w = create-IsWellFormed x s.sessions u e w
  SessionChange-IsWellFormed req s u (dropped x _ _ _ e) w =
      rw e (remove-IsWellFormed req.tfa_session_id s.sessions w)
  SessionChange-IsWellFormed req s u (confirmed x _ _ _ e) w =
      mark_verified-IsWellFormed req.tfa_session_id s.sessions u e w
  SessionChange-IsWellFormed req s u (proved x _ _ _ e) w = create-IsWellFormed x s.sessions u e w

  pub process-IsWellFormed :
      (body : Bytes) (s : State S)
      → IsWellFormed s.sessions
      → IsWellFormed (process d t body s).1.sessions
  process-IsWellFormed body s w = elim (process-SessionChange d t body s) [
    | inl e ↦ rw e w
    | inr (req, accepted, change) ↦ SessionChange-IsWellFormed req s _ change w
  ]

  -- The login that made a session verified: the MAC that OPAQUE expects of the client, for that
  -- same session.
  abbrev pub HasLoggedIn : ServiceRequest → State S → String → Type 0
  HasLoggedIn req s id =
      (req.tfa_session_id ≡ id)
      × (y : Session) × (get t.now id s.sessions ≡ some y)
      × (ke3 : Bytes) × (Opaque.auth_finalize d.opaque_server ke3 y.client_mac ≡ true)

  change_verified :
      (req : ServiceRequest) (s : State S) (u : SessionStore) (id : String) (x : Session)
      → SessionChange d t req s u
      → lookup id u ≡ some x
      → x.verified ≡ true
      → ((y : Session) → lookup id s.sessions ≡ some y → y.verified ≡ false)
      → HasLoggedIn req s id ⊎ (HasFactor d t req s × (x.client_id ≡ req.client_id))
  change_verified req s u id x (kept e) found v before = ground (arith, before x)
  change_verified req s u id x (pended y p e) found v before =
      ground (arith, before x, lookup-create y s.sessions u id e, p.unverified)
  change_verified req s u id x (dropped y k f r e) found v before =
      ground (arith, before x, lookup-remove req.tfa_session_id id s.sessions)
  change_verified req s u id x (confirmed y k f r e) found v before =
      elim (Bool-cases (req.tfa_session_id == id)) [
        | inl same ↦
            let own : req.tfa_session_id ≡ id = (eq_iff req.tfa_session_id id).0 same in
            inl (own, y, rw own at f, k, r)
        | inr apart ↦
            let other : req.tfa_session_id ≢ id =
              λ h. ground (arith, eq_iff req.tfa_session_id id) in
            ground
              (arith, before x, lookup-mark_verified req.tfa_session_id id s.sessions u e other)
      ]
  change_verified req s u id x (proved y own life factor e) found v before =
      elim (Bool-cases (y.id == id)) [
        | inl same ↦ inr (factor, ground (arith, lookup-create y s.sessions u id e))
        | inr apart ↦ ground (arith, before x, lookup-create y s.sessions u id e)
      ]

  -- A session that a request leaves verified, and that was not there or not verified before, is
  -- one of two: the request has finished the OPAQUE login of this very session with the expected
  -- MAC, or it has proved the FIDO2 factor of its client and the session belongs to that client.
  pub process_verified :
      (body : Bytes) (s : State S) (id : String) (x : Session)
      → lookup id (process d t body s).1.sessions ≡ some x
      → x.verified ≡ true
      → ((y : Session) → lookup id s.sessions ≡ some y → y.verified ≡ false)
      → (req : ServiceRequest) × IsAccepted d t body req
        × (HasLoggedIn req s id ⊎ (HasFactor d t req s × (x.client_id ≡ req.client_id)))
  process_verified body s id x found v before = elim (process-SessionChange d t body s) [
    | inl e ↦ ground (arith, before x)
    | inr (req, accepted, change) ↦
        (req, accepted, change_verified req s _ id x change found v before)
  ]

-- The states that a dispatcher can be in, from one that has no session.
pub data Reachable {S M : Type 0} (d : Dispatcher S M) : State S → Type 0 where
  started : (s : State S) → s.sessions ≡ new_session_store → Reachable d s
  after_request :
      (s : State S) (t : Moment) (body : Bytes) → Reachable d s → Reachable d (process d t body s).1
  after_cleanup :
      (s : State S) (now : ℤ)
      → Reachable d s
      → Reachable d (record s { sessions = (clean_expired now s.sessions).0 })

pub new_session_store-IsWellFormed : IsWellFormed new_session_store
unfolding lookup
new_session_store-IsWellFormed = record { unique = tt; own_id = λ id x found. cc (found) }

-- In every reachable state each session identifier stands once, and each session stands under its
-- own identifier.
pub Reachable-IsWellFormed :
    {S M : Type 0} (d : Dispatcher S M) (s : State S) → Reachable d s → IsWellFormed s.sessions
Reachable-IsWellFormed d _ (started s e) = rw e new_session_store-IsWellFormed
Reachable-IsWellFormed d _ (after_request s' t body r) =
    process-IsWellFormed d t body s' (Reachable-IsWellFormed d s' r)
Reachable-IsWellFormed d _ (after_cleanup s' now r) =
    clean_expired-IsWellFormed now s'.sessions (Reachable-IsWellFormed d s' r)
