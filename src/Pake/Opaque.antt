-- ===== src/Pake/Opaque.antt =====
-- internal/pake/opaque.go: the wrapper round the OPAQUE library, which is a parameter. `M` is the
-- type of the library's messages and records.
use go_r2ps_service.Base.{Bool, Option, none, some}
use go_r2ps_service.Protocol.{Bytes}

pub record ClientRecord (M : Type 0) : Type 0 where
  pub registration_record : M
  pub credential_identifier : Bytes

-- What `server.GenerateKE2` returns: KE2, the MAC to expect from the client, and the secret.
pub record LoginOutput (M : Type 0) : Type 0 where
  pub ke2 : M
  pub client_mac : Bytes
  pub session_secret : Bytes

pub record OpaqueLibrary (M : Type 0) : Type 0 where
  pub deserialize_request : Bytes → Option M
  pub deserialize_record : Bytes → Option M
  pub deserialize_ke1 : Bytes → Option M
  pub deserialize_ke3 : Bytes → Option M
  pub serialize : M → Bytes
  pub respond : M → Bytes → Option M
  pub generate_ke2 : M → ClientRecord M → Option (LoginOutput M)
  pub login_finish : M → Bytes → Bool
  pub get_fake_record : Bytes → ClientRecord M

infixl 5 ◌>>=◌
abbrev ◌>>=◌ {ℓ κ} : {A : Type ℓ} {B : Type κ} → Option A → (A → Option B) → Option B
none >>= f = none
some a >>= f = f a

module _ {M : Type 0} (o : OpaqueLibrary M) where
  -- `RegistrationResponse`.
  unfoldable pub registration_response : Bytes → Bytes → Option Bytes
  registration_response request credential_id = do
    req ← o.deserialize_request request
    resp ← o.respond req credential_id
    some (o.serialize resp)

  -- `AuthEvaluate`: the bytes of KE2, the expected client MAC and the session secret.
  unfoldable pub auth_evaluate : Bytes → ClientRecord M → Option (Bytes × Bytes × Bytes)
  auth_evaluate ke1_bytes client = do
    ke1 ← o.deserialize_ke1 ke1_bytes
    output ← o.generate_ke2 ke1 client
    some (o.serialize output.ke2, output.client_mac, output.session_secret)

  abbrev pub finish_with : Bytes → Option M → Bool
  finish_with mac none = Bool.false
  finish_with mac (some ke3) = o.login_finish ke3 mac

  -- `AuthFinalize`; `false` is an error.
  unfoldable pub auth_finalize : Bytes → Bytes → Bool
  auth_finalize ke3_bytes expected_client_mac =
      finish_with expected_client_mac (o.deserialize_ke3 ke3_bytes)
