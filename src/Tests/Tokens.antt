-- ===== src/Tests/Tokens.antt =====
-- The theorem on challenge tokens, with a toy cipher that puts a zero before the text, and a toy
-- form for one token.
use go_r2ps_service.Base.{
  ◌≡◌, refl, Bool, true, ◌&&◌, Option, none, some, [], ◌∷◌, ◌==◌, string_eq, eq_iff, arith,
  if◌then◌else◌,
}
use go_r2ps_service.Base.Int.{pos, ◌-ℤ◌, seconds, ltb_ℤ, int_beq, int_beq_iff}
use go_r2ps_service.Protocol.{Bytes}
use go_r2ps_service.WebAuthn.Token.{
  ChallengeToken, TokenCipher, TokenEncryptor, IsSound, encrypt, decrypt, decrypt-encrypt,
}

abbrev token : ChallengeToken
token = record { iat = pos 100; client_id = "alice"; context = "hsm"; challenge = "c" }

abbrev is_token : ChallengeToken → Bool
is_token t =
    int_beq (pos 100) t.iat
    && ("alice" == t.client_id && ("hsm" == t.context && "c" == t.challenge))

abbrev unseal : Bytes → Bytes → Option Bytes
unseal nonce [] = none
unseal nonce (x ∷ text) = some text

abbrev cipher : TokenCipher
cipher = record {
  nonce_size = 1;
  seal = λ nonce text. 0 ∷ text;
  unseal = unseal;
  marshal_token = λ t. if is_token t then some (7 ∷ []) else none;
  parse_token = λ text. some token;
}

is_token→eq :
    (t : ChallengeToken) (p : Bytes)
    → (if is_token t then some (7 ∷ []) else none) ≡ some p
    → token ≡ t
is_token→eq t p h =
    let marked : is_token t ≡ true = ground arith in
    let one : pos 100 ≡ t.iat = ground (arith, int_beq_iff (pos 100) t.iat) in
    let two : "alice" ≡ t.client_id = ground (arith, eq_iff "alice" t.client_id) in
    let three : "hsm" ≡ t.context = ground (arith, eq_iff "hsm" t.context) in
    let four : "c" ≡ t.challenge = ground (arith, eq_iff "c" t.challenge) in
    cc (one, two, three, four)

cipher-IsSound : IsSound cipher
cipher-IsSound = record {
  unseal-seal = λ n p size. refl;
  seal_nonempty = λ n p. omega arith;
  parse-marshal = λ t p h. cc (is_token→eq t p h);
}

abbrev encryptor : TokenEncryptor
encryptor = record { gcm = cipher; ttl = pos 60_000_000_000 }

encrypted : encrypt encryptor (9 ∷ []) token ≡ some (9 ∷ (0 ∷ (7 ∷ [])))
unfolding encrypt
encrypted = refl

decrypt-encrypt_example : decrypt encryptor (pos 150_000_000_000) (9 ∷ (0 ∷ (7 ∷ []))) ≡ (
    if ltb_ℤ (pos 60_000_000_000) (pos 150_000_000_000 -ℤ seconds (pos 100))
    then none
    else some token)
decrypt-encrypt_example =
    decrypt-encrypt encryptor (9 ∷ []) token (9 ∷ (0 ∷ (7 ∷ []))) (pos 150_000_000_000)
      cipher-IsSound refl encrypted
