-- ===== src/Crypto/Jwt.antt =====
-- internal/crypto/jws.go: what is signed, over the signer of go-jose, which is a parameter: `K` is
-- the type of its keys.
use go_r2ps_service.Base.{String, Option, none, some, List, [], ◌∷◌, ◌==◌, string_eq, if◌then◌else◌}
use go_r2ps_service.Protocol.{Bytes}

-- The curves of crypto/elliptic; P-224 is the one without an algorithm here.
pub data Curve : Type 0 where
  p224 p256 p384 p521 : Curve

pub data SignatureAlgorithm : Type 0 where
  es256 es384 es512 : SignatureAlgorithm

pub record SignerOptions : Type 0 where
  pub typ : String
  pub kid : Option String
  pub x5c : Option (List Bytes)

pub record JoseSigner (K : Type 0) : Type 0 where
  pub curve : K → Curve
  pub sign : SignatureAlgorithm → K → SignerOptions → Bytes → Option String

-- `ecAlgorithm`.
abbrev pub ec_algorithm : Curve → Option SignatureAlgorithm
ec_algorithm p224 = none
ec_algorithm p256 = some es256
ec_algorithm p384 = some es384
ec_algorithm p521 = some es512

abbrev pub nonempty : String → Option String
nonempty s = if s == "" then none else some s

abbrev pub nonempty_chain : List Bytes → Option (List Bytes)
nonempty_chain [] = none
nonempty_chain (c ∷ cs) = some (c ∷ cs)

-- `opts` are the variadic arguments of `SignJWS`, of which the first may name a type.
abbrev pub typ_of : List String → String
typ_of [] = "JOSE"
typ_of (typ ∷ _) = if typ == "" then "JOSE" else typ

module _ {K : Type 0} (j : JoseSigner K) where
  abbrev pub sign_with : K → SignerOptions → Bytes → Option SignatureAlgorithm → Option String
  sign_with key options payload none = none
  sign_with key options payload (some alg) = j.sign alg key options payload

  -- `SignJWS`.
  unfoldable pub sign_jws : Bytes → K → String → List String → Option String
  sign_jws payload key kid opts =
      sign_with key (record { typ = typ_of opts; kid = nonempty kid; x5c = none }) payload
        (ec_algorithm (j.curve key))

  -- `SignJWT`.
  unfoldable pub sign_jwt : Bytes → K → String → List Bytes → Option String
  sign_jwt payload key typ chain =
      sign_with key (record { typ = typ; kid = none; x5c = nonempty_chain chain }) payload
        (ec_algorithm (j.curve key))
