-- ===== src/WebAuthn/Token.antt =====
-- internal/webauthn/token.go: the encrypted, stateless challenge token. AES-GCM and JSON are
-- parameters.
use go_r2ps_service.Base.{
  ℕ, ◌+◌, ◌≤◌, ◌≡◌, refl, ap, String, Bool, true, false, not, Option, none, some, [], ◌∷◌, ◌++◌,
  arith, leb, Option-cases, inl, inr, length, length-append, take, drop, if◌then◌else◌,
}
use go_r2ps_service.Base.Int.{ℤ, ltb_ℤ, ◌-ℤ◌, seconds}
use go_r2ps_service.Protocol.{Bytes}

pub record ChallengeToken : Type 0 where
  pub iat : ℤ
  pub client_id : String
  pub context : String
  pub challenge : String

-- `cipher.AEAD` under the token key, and the JSON form of a token.
pub record TokenCipher : Type 0 where
  pub nonce_size : ℕ
  pub seal : Bytes → Bytes → Bytes
  pub unseal : Bytes → Bytes → Option Bytes
  pub marshal_token : ChallengeToken → Option Bytes
  pub parse_token : Bytes → Option ChallengeToken

pub record TokenEncryptor : Type 0 where
  pub gcm : TokenCipher
  pub ttl : ℤ

infixl 5 ◌>>=◌ ◌>>◌
abbrev ◌>>=◌ {ℓ κ} : {A : Type ℓ} {B : Type κ} → Option A → (A → Option B) → Option B
none >>= f = none
some a >>= f = f a

abbrev ◌>>◌ {ℓ κ} : {A : Type ℓ} {B : Type κ} → Option A → Option B → Option B
m >> n = m >>= λ _. n

abbrev check : Bool → Option (Unit {0})
check true = some tt
check false = none

module _ (e : TokenEncryptor) where
  -- `Encrypt`, with the nonce that was drawn: nonce || ciphertext.
  unfoldable pub encrypt : Bytes → ChallengeToken → Option Bytes
  encrypt nonce token = do
    plaintext ← e.gcm.marshal_token token
    some (nonce ++ e.gcm.seal nonce plaintext)

  -- `Decrypt` at a time.
  unfoldable pub decrypt : ℤ → Bytes → Option ChallengeToken
  decrypt now bytes = do
    check (leb (e.gcm.nonce_size + 1) (length bytes))
    plaintext ← e.gcm.unseal (take e.gcm.nonce_size bytes) (drop e.gcm.nonce_size bytes)
    token ← e.gcm.parse_token plaintext
    check (not (ltb_ℤ e.ttl (now -ℤ seconds token.iat)))
    some token

-- What AES-GCM and encoding/json promise: opening undoes sealing, under a nonce of the right size;
-- a sealed text is not empty; and parsing undoes marshalling.
pub record IsSound (c : TokenCipher) : Type 0 where
  pub unseal-seal : (n p : Bytes) → length n ≡ c.nonce_size → c.unseal n (c.seal n p) ≡ some p
  pub seal_nonempty : (n p : Bytes) → 1 ≤ length (c.seal n p)
  pub parse-marshal :
      (t : ChallengeToken) (p : Bytes) → c.marshal_token t ≡ some p → c.parse_token p ≡ some t

take-append : (xs ys : Bytes) → take (length xs) (xs ++ ys) ≡ xs
take-append [] ys = refl
take-append (x ∷ xs) ys = ap (λ t. x ∷ t) (take-append xs ys)

drop-append : (xs ys : Bytes) → drop (length xs) (xs ++ ys) ≡ ys
drop-append [] ys = refl
drop-append (x ∷ xs) ys = drop-append xs ys

-- Under a sound cipher and a nonce of its size, a token comes back from its encryption until its
-- time to live is over, and not afterwards.
pub decrypt-encrypt :
    (e : TokenEncryptor) (nonce : Bytes) (token : ChallengeToken) (bytes : Bytes) (now : ℤ)
    → IsSound e.gcm
    → length nonce ≡ e.gcm.nonce_size
    → encrypt e nonce token ≡ some bytes
    → decrypt e now bytes ≡ (if ltb_ℤ e.ttl (now -ℤ seconds token.iat) then none else some token)
unfolding encrypt decrypt
decrypt-encrypt e nonce token bytes now s size h = elim (Option-cases (e.gcm.marshal_token token)) [
  | inl fails ↦ cc (fails)
  | inr (p, marshalled) ↦
      let sealed : nonce ++ e.gcm.seal nonce p ≡ bytes = ground arith in
      let room : leb (length nonce + 1) (length (nonce ++ e.gcm.seal nonce p)) ≡ true =
        ground (arith, length-append nonce (e.gcm.seal nonce p), s.seal_nonempty nonce p) in
      rw
        (
          ← sealed,
          ← size,
          room,
          take-append nonce (e.gcm.seal nonce p),
          drop-append nonce (e.gcm.seal nonce p),
          s.unseal-seal nonce p size,
          s.parse-marshal token p marshalled,
        )
        (ground arith)
]
