-- ===== src/WebAuthn/Verify/Assertion.antt =====
-- What an accepted assertion shows, and that a counted one is not accepted twice.
use go_r2ps_service.Base.{
  ℕ, ◌/◌, ◌%◌, ◌<◌, ◌≡◌, ◌≢◌, ◌↔◌, ◌⊎◌, true, some, List, ◌++◌, arith, Any, string_eq, bytes_eq,
  bytes_beq_iff, eq_iff, String,
}
use go_r2ps_service.Base.Bits.Test.{and_one, and_four}
use go_r2ps_service.Base.Search.{any→Any, Any→any}
use go_r2ps_service.Base.Text.{utf8}
use go_r2ps_service.Protocol.{Bytes}
use go_r2ps_service.Base.Exec.{ok}
use go_r2ps_service.WebAuthn.Outcome.{ensure-eq-ok, >>=-eq-ok, some_or-eq-ok}
use go_r2ps_service.WebAuthn.AuthData.{
  AuthenticatorData, flag_up, flag_uv, has_flag, parse_authenticator_data, verify_rp_id_hash,
}
use go_r2ps_service.WebAuthn.Verify.{
  ClientData, Credential, AssertionData, Primitives, is_count_fresh, verify_assertion,
}

-- What the ten checks of the ceremony come to, of what the browser and the authenticator have sent:
-- bit 0 of the flags is the user's presence, bit 2 their verification.
pub record IsProof (p : Primitives) (a : AssertionData) (c : Credential) (challenge rp_id : String)
    (origins : List String) (ad : AuthenticatorData) : Type 0 where
  pub client_data : ClientData
  pub parsed : p.parse_client_data a.client_data_json ≡ some client_data
  pub kind : client_data.kind ≡ "webauthn.get"
  pub challenged : client_data.challenge ≡ challenge
  pub origin : Any (λ o. client_data.origin ≡ o) origins
  pub data_parsed : parse_authenticator_data p.is_on_curve a.authenticator_data ≡ ok ad
  pub relying_party : ad.rp_id_hash ≡ p.sha256 (utf8 rp_id)
  pub present : ad.flags % 2 ≡ 1
  pub user_verified : ad.flags / 4 % 2 ≡ 1
  pub signed :
      p.ecdsa_verify c.public_key
        (p.sha256 (a.authenticator_data ++ p.sha256 a.client_data_json))
        a.signature
      ≡ true
  pub counted : ((ad.sign_count ≡ 0) × (c.sign_count ≡ 0)) ⊎ (c.sign_count < ad.sign_count)

has_flag-flag_up_iff : (flags : ℕ) → (has_flag flags flag_up ≡ true) ↔ (flags % 2 ≡ 1)
has_flag-flag_up_iff flags =
    (λ h. ground (arith, and_one flags), λ h. ground (arith, and_one flags))

has_flag-flag_uv_iff : (flags : ℕ) → (has_flag flags flag_uv ≡ true) ↔ (flags / 4 % 2 ≡ 1)
has_flag-flag_uv_iff flags =
    (λ h. ground (arith, and_four flags), λ h. ground (arith, and_four flags))

is_count_fresh_iff :
    (given stored : ℕ)
    → (is_count_fresh given stored ≡ true) ↔ (((given ≡ 0) × (stored ≡ 0)) ⊎ (stored < given))
is_count_fresh_iff given stored = (λ h. ground arith, λ h. ground arith)

verify_rp_id_hash_iff :
    (sha256 : Bytes → Bytes) (ad : AuthenticatorData) (rp_id : String)
    → (verify_rp_id_hash sha256 ad rp_id ≡ true) ↔ (ad.rp_id_hash ≡ sha256 (utf8 rp_id))
unfolding verify_rp_id_hash
verify_rp_id_hash_iff sha256 ad rp_id = bytes_beq_iff ad.rp_id_hash (sha256 (utf8 rp_id))

-- An assertion is accepted only if all of the checks hold.
pub verify_assertion_sound :
    (p : Primitives) (a : AssertionData) (c : Credential) (challenge rp_id : String)
    (origins : List String) (ad : AuthenticatorData)
    → verify_assertion p a c challenge rp_id origins ≡ ok ad
    → IsProof p a c challenge rp_id origins ad
unfolding verify_assertion
verify_assertion_sound p a c challenge rp_id origins ad h =
    let (cd, e0, h0) = >>=-eq-ok _ _ h in
    let (e1, h1) = ensure-eq-ok _ _ h0 in
    let (e2, h2) = ensure-eq-ok _ _ h1 in
    let (e3, h3) = ensure-eq-ok _ _ h2 in
    let (ad', e4, h4) = >>=-eq-ok _ _ h3 in
    let (e5, h5) = ensure-eq-ok _ _ h4 in
    let (e6, h6) = ensure-eq-ok _ _ h5 in
    let (e7, h7) = ensure-eq-ok _ _ h6 in
    let (e8, h8) = ensure-eq-ok _ _ h7 in
    let (e9, h9) = ensure-eq-ok _ _ h8 in
    let same : ad' ≡ ad = ground arith in
    rw (← same) (record {
      client_data = cd;
      parsed = some_or-eq-ok _ _ e0;
      kind = (eq_iff _ _).0 e1;
      challenged = (eq_iff _ _).0 e2;
      origin = any→Any _ _ (λ o. (eq_iff cd.origin o).0) origins e3;
      data_parsed = e4;
      relying_party = (verify_rp_id_hash_iff p.sha256 ad' rp_id).0 e5;
      present = (has_flag-flag_up_iff ad'.flags).0 e6;
      user_verified = (has_flag-flag_uv_iff ad'.flags).0 e7;
      signed = e8;
      counted = (is_count_fresh_iff ad'.sign_count c.sign_count).0 e9;
    })

-- And if all of them hold, it is.
verify_assertion_complete :
    (p : Primitives) (a : AssertionData) (c : Credential) (challenge rp_id : String)
    (origins : List String) (ad : AuthenticatorData)
    → IsProof p a c challenge rp_id origins ad
    → verify_assertion p a c challenge rp_id origins ≡ ok ad
unfolding verify_assertion
verify_assertion_complete p a c challenge rp_id origins ad t = rw (
  t.parsed,
  (eq_iff _ _).1 t.kind,
  (eq_iff _ _).1 t.challenged,
  Any→any _ _ (λ o. (eq_iff t.client_data.origin o).1) origins t.origin,
  t.data_parsed,
  (verify_rp_id_hash_iff p.sha256 ad rp_id).1 t.relying_party,
  (has_flag-flag_up_iff ad.flags).1 t.present,
  (has_flag-flag_uv_iff ad.flags).1 t.user_verified,
  t.signed,
  (is_count_fresh_iff ad.sign_count c.sign_count).1 t.counted,
)

-- An assertion is accepted exactly if its client data is of the type "webauthn.get" with the expected
-- challenge and an allowed origin, its authenticator data is for the relying party and shows a user
-- present and verified, the signature is over the hash of this data and of the hash of the client
-- data, and the count is greater than the stored one, or both are 0.
pub verify_assertion_iff :
    (p : Primitives) (a : AssertionData) (c : Credential) (challenge rp_id : String)
    (origins : List String) (ad : AuthenticatorData)
    → (verify_assertion p a c challenge rp_id origins ≡ ok ad)
      ↔ IsProof p a c challenge rp_id origins ad
verify_assertion_iff p a c challenge rp_id origins ad = (
  verify_assertion_sound p a c challenge rp_id origins ad,
  verify_assertion_complete p a c challenge rp_id origins ad,
)

-- Once its count has been stored, an accepted assertion is refused, whatever the challenge, unless
-- the authenticator does not count.
pub verify_assertion_replay :
    (p : Primitives) (a : AssertionData) (c : Credential) (challenge challenge' rp_id : String)
    (origins : List String) (ad ad' : AuthenticatorData)
    → verify_assertion p a c challenge rp_id origins ≡ ok ad
    → 0 < ad.sign_count
    → verify_assertion p a (record c { sign_count = ad.sign_count }) challenge' rp_id origins
      ≢ ok ad'
verify_assertion_replay p a c challenge challenge' rp_id origins ad ad' first counts again =
    let one = verify_assertion_sound p a c challenge rp_id origins ad first in
    let two =
      verify_assertion_sound p a (record c { sign_count = ad.sign_count }) challenge' rp_id origins
        ad' again in
    let same : ad ≡ ad' = ground (arith, one.data_parsed, two.data_parsed) in
    ground (arith, same, two.counted)
