-- ===== src/Service/Dispatcher/Sessions/Factor.antt =====
-- The FIDO2 operations take one step of the session store.
use go_r2ps_service.Base.{
  ◌≡◌, refl, inl, inr, String, true, some, string_eq, eq_iff, arith, Option-cases, List, [], ◌∷◌,
}
use go_r2ps_service.Base.Exec.{
  Result, ok, err, Exec, ◌>>=◌, require-elim, guard-elim, >>=-assoc-elim, pure-elim, fail-elim,
  modify-elim,
}
use go_r2ps_service.Protocol.{Bytes, ServiceRequest}
use go_r2ps_service.Store.{WebAuthnCredential}
use go_r2ps_service.WebAuthn.Outcome.{Fault, rejected, panicked, exhausted}
use go_r2ps_service.WebAuthn.AuthData.{AuthenticatorData}
use go_r2ps_service.WebAuthn.Token.{ChallengeToken, decrypt}
use go_r2ps_service.Service.Dispatcher.{
  Dispatcher, Fido2Handler, Moment, State, Stop, Act, count_failure, in_world,
}
use go_r2ps_service.Service.Dispatcher.Fido2
use go_r2ps_service.Service.Dispatcher.Quiet.{Quiet, >>=-Quiet, require-Quiet, sign_response-Quiet}

module _ {S M : Type 0} (d : Dispatcher S M) (t : Moment) (req : ServiceRequest) where
  module _ (f : Fido2Handler S) where
    pub reg_challenge-Quiet : Quiet (Fido2.reg_challenge d f t req)
    unfolding Fido2.reg_challenge
    reg_challenge-Quiet = >>=-Quiet _ _ (require-Quiet _ _) (λ token. sign_response-Quiet d t req _)

    pub decoded-elim :
        {B : Type 0} (s : State S) (P : Result Stop B × State S → Type 0) (text msg : String)
        (k : Bytes → Act S B)
        → ((stop : Stop) → P (err stop, s))
        → ((bytes : Bytes) → P (k bytes s))
        → P ((Fido2.decoded d f t req text msg >>= k) s)
    unfolding Fido2.decoded
    decoded-elim s P text msg k p q = require-elim s P _ _ _ (p _) (λ bytes _. q bytes)

    abbrev pub IsOpened : ChallengeToken → Type 0
    IsOpened token =
        ((bytes : Bytes) × (decrypt f.token_encryptor t.now bytes ≡ some token))
        × (token.client_id ≡ req.client_id)
        × (token.context ≡ req.context)

    is_bound→eq :
        (token : ChallengeToken)
        → Fido2.is_bound token req ≡ true
        → (token.client_id ≡ req.client_id) × (token.context ≡ req.context)
    is_bound→eq token h =
        ground (arith, eq_iff token.client_id req.client_id, eq_iff token.context req.context)

    pub open_token-elim :
        {B : Type 0} (s : State S) (P : Result Stop B × State S → Type 0) (text : String)
        (k : ChallengeToken → Act S B)
        → ((stop : Stop) → P (err stop, s))
        → ((token : ChallengeToken) → IsOpened token → P (k token s))
        → P ((Fido2.open_token d f t req text >>= k) s)
    unfolding Fido2.open_token
    open_token-elim s P text k p q = >>=-assoc-elim s P _ _ _ (
        decoded-elim s P _ _ _ p λ bytes. >>=-assoc-elim s P _ _ _ (
          require-elim s P _ _ _ (p _) λ token opened. >>=-assoc-elim s P _ _ _ (
            guard-elim s P _ _ _ (λ _. p _)
              λ bound. pure-elim s P _ _ (
                q token
                  ((bytes, opened), (is_bound→eq token bound).0, (is_bound→eq token bound).1)))))

    reject_assertion-elim :
        {A B : Type 0} (s : State S) (P : Result Stop B × State S → Type 0) (stop : Stop)
        (k : A → Act S B)
        → ((stop : Stop) (s' : State S) → s'.sessions ≡ s.sessions → P (err stop, s'))
        → P ((Fido2.reject_assertion d f t req stop >>= k) s)
    unfolding Fido2.reject_assertion count_failure
    reject_assertion-elim s P stop k p =
        >>=-assoc-elim s P _ _ _ (modify-elim s P _ _ (fail-elim _ P _ _ (p _ _ refl)))

    pub select_from-elim :
        {B : Type 0} (s : State S) (P : Result Stop B × State S → Type 0) (id : Bytes)
        (creds : List WebAuthnCredential) (k : WebAuthnCredential → Act S B)
        → ((stop : Stop) (s' : State S) → s'.sessions ≡ s.sessions → P (err stop, s'))
        → ((cred : WebAuthnCredential) → Fido2.find_credential id creds ≡ some cred → P (k cred s))
        → P ((Fido2.select_from d f t req id creds >>= k) s)
    unfolding Fido2.select_from
    select_from-elim s P id [] k p q = reject_assertion-elim s P _ k p
    select_from-elim s P id (c ∷ cs) k p q =
        elim (Option-cases (Fido2.find_credential id (c ∷ cs))) [
          | inl missing ↦ rw missing (reject_assertion-elim s P _ k p)
          | inr (cred, found) ↦ rw found (pure-elim s P _ _ (q cred found))
        ]

    pub asserted-elim :
        {B : Type 0} (s : State S) (P : Result Stop B × State S → Type 0)
        (r : Result Fault AuthenticatorData) (k : AuthenticatorData → Act S B)
        → ((stop : Stop) (s' : State S) → s'.sessions ≡ s.sessions → P (err stop, s'))
        → ((ad : AuthenticatorData) → r ≡ ok ad → P (k ad s))
        → P ((Fido2.asserted d f t req r >>= k) s)
    asserted-elim s P (ok ad) k p q = pure-elim s P _ _ (q ad refl)
    asserted-elim s P (err rejected) k p q = reject_assertion-elim s P _ k p
    asserted-elim s P (err panicked) k p q = fail-elim s P _ _ (p _ s refl)
    asserted-elim s P (err exhausted) k p q = fail-elim s P _ _ (p _ s refl)

pub in_world-elim :
    {S E A B : Type 0} (s : State S) (P : Result Stop B × State S → Type 0) (m : Exec S E A)
    (k : Result E A → Act S B)
    → ((r : Result E A) (w : S) → P (k r (record s { world = w })))
    → P ((in_world m >>= k) s)
unfolding ◌>>=◌
in_world-elim s P m k q = q _ _
