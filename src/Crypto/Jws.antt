-- ===== src/Crypto/Jws.antt =====
-- internal/crypto/jws.go over go-jose, which is a parameter: `M` is the type of its objects.
use go_r2ps_service.Base.{String, Option, none, some, List, [], ◌∷◌, ◌==◌, string_eq, if◌then◌else◌}
use go_r2ps_service.Protocol.{Bytes}
use go_r2ps_service.WebAuthn.AuthData.{PublicKey}

-- `key_ids` are the protected kid headers of the signatures, empty where there is none.
pub record JoseLibrary (M : Type 0) : Type 0 where
  pub parse_signed : Bytes → Option M
  pub key_ids : M → List String
  pub verify : M → PublicKey → Option Bytes
  pub sign : Bytes → Option Bytes

module _ {M : Type 0} (j : JoseLibrary M) where
  abbrev pub verify_parsed : PublicKey → Option M → Option Bytes
  verify_parsed key none = none
  verify_parsed key (some jws) = j.verify jws key

  -- `VerifyJWS`.
  unfoldable pub verify_jws : Bytes → PublicKey → Option Bytes
  verify_jws compact key = verify_parsed key (j.parse_signed compact)

  abbrev pub first_kid : List String → Option (Option String)
  first_kid [] = none
  first_kid (kid ∷ _) = some (if kid == "" then none else some kid)

  abbrev pub kid_of_parsed : Option M → Option (Option String)
  kid_of_parsed none = none
  kid_of_parsed (some jws) = first_kid (j.key_ids jws)

  -- `PeekJWSHeaders`, of which the callers read the "kid" header; `none` is an error.
  unfoldable pub peek_kid : Bytes → Option (Option String)
  peek_kid compact = kid_of_parsed (j.parse_signed compact)
