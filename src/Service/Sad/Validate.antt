-- ===== src/Service/Sad/Validate.antt =====
-- What a signature needs: the decision of `ValidateSAD` against a description of it.
use go_r2ps_service.Base.{
  ◌≡◌, ◌↔◌, All, ℕ, ◌++◌, ◌⊎◌, Bool, true, ◌&&◌, String, List, [], ◌∷◌, arith, length, nat_beq, any,
  Any, Bool-cases, inl, inr,
}
use go_r2ps_service.Base.Search.{any→Any, Any→any}
use go_r2ps_service.Base.Text.{codes}
use go_r2ps_service.Base.Text.Split.{join, NotIn}
use go_r2ps_service.Protocol.{Bytes}
use go_r2ps_service.Service.Sad.{bytes_equal_constant, is_listed, validate_sad}
use go_r2ps_service.Service.Sad.Compare.{bytes_equal_constant_iff}
use go_r2ps_service.Service.Sad.Parse.{
  task_of, parse_sad_task-task_of, AreHashes, IsUnreadable, parse_sad_task_unreadable,
}

module _ (sha256 : Bytes → Bytes) where
  -- A listed hash is the hash to be signed, or a SHA-256 commitment to it.
  abbrev pub Covers : Bytes → Bytes → Type 0
  Covers tbs_hash auth = (auth ≡ tbs_hash) ⊎ ((length auth ≡ 32) × (auth ≡ sha256 tbs_hash))

  commitment_iff :
      (tbs auth : Bytes)
      → ((nat_beq (length auth) 32 && bytes_equal_constant auth (sha256 tbs)) ≡ true)
        ↔ ((length auth ≡ 32) × (auth ≡ sha256 tbs))
  commitment_iff tbs auth = (
    λ h. ground (arith, bytes_equal_constant_iff auth (sha256 tbs)),
    λ h. ground (arith, bytes_equal_constant_iff auth (sha256 tbs)),
  )

  Any-inl : (tbs : Bytes) (xs : List Bytes) → Any (λ a. a ≡ tbs) xs → Any (Covers tbs) xs
  Any-inl tbs [] h = h
  Any-inl tbs (x ∷ xs) (inl e) = inl (inl e)
  Any-inl tbs (x ∷ xs) (inr h) = inr (Any-inl tbs xs h)

  Any-inr :
      (tbs : Bytes) (xs : List Bytes)
      → Any (λ a. (length a ≡ 32) × (a ≡ sha256 tbs)) xs
      → Any (Covers tbs) xs
  Any-inr tbs [] h = h
  Any-inr tbs (x ∷ xs) (inl e) = inl (inr e)
  Any-inr tbs (x ∷ xs) (inr h) = inr (Any-inr tbs xs h)

  Any-split :
      (tbs : Bytes) (xs : List Bytes)
      → Any (Covers tbs) xs
      → Any (λ a. a ≡ tbs) xs ⊎ Any (λ a. (length a ≡ 32) × (a ≡ sha256 tbs)) xs
  Any-split tbs [] h = absurd h
  Any-split tbs (x ∷ xs) (inl (inl e)) = inl (inl e)
  Any-split tbs (x ∷ xs) (inl (inr e)) = inr (inl e)
  Any-split tbs (x ∷ xs) (inr h) = elim (Any-split tbs xs h) [
    | inl a ↦ inl (inr a)
    | inr b ↦ inr (inr b)
  ]

  -- The two loops find a listed hash that covers the hash to be signed, if there is one.
  pub is_listed_iff :
      (tbs : Bytes) (hashes : List Bytes)
      → (is_listed sha256 tbs hashes ≡ true) ↔ Any (Covers tbs) hashes
  is_listed_iff tbs hashes = (sound, complete)
    where
      same : Bytes → Bool
      same auth = bytes_equal_constant auth tbs

      commits : Bytes → Bool
      commits auth = nat_beq (length auth) 32 && bytes_equal_constant auth (sha256 tbs)

      sound : is_listed sha256 tbs hashes ≡ true → Any (Covers tbs) hashes
      sound h = elim (Bool-cases (any same hashes)) [
        | inl hit ↦
            Any-inl tbs hashes (any→Any same _ (λ a. (bytes_equal_constant_iff a tbs).0) hashes hit)
        | inr miss ↦
            Any-inr tbs hashes
              (any→Any commits _ (λ a. (commitment_iff tbs a).0) hashes (rw miss at h))
      ]

      complete : Any (Covers tbs) hashes → is_listed sha256 tbs hashes ≡ true
      complete h = elim (Any-split tbs hashes h) [
        | inl a ↦ rw (Any→any same _ (λ x. (bytes_equal_constant_iff x tbs).1) hashes a)
        | inr b ↦ elim (Bool-cases (any same hashes)) [
          | inl hit ↦ rw hit
          | inr miss ↦ rw miss (Any→any commits _ (λ x. (commitment_iff tbs x).1) hashes b)
        ]
      ]

-- A session whose task was written from one or more byte strings of SHA-2 lengths may sign exactly
-- what one of them is, or what a 32-byte one of them is the SHA-256 of.
pub validate_sad-task_of_iff :
    (sha256 : Bytes → Bytes) (task : String) (h : Bytes) (hs : List Bytes) (tbs_hash : Bytes)
    → codes task ≡ task_of (h ∷ hs)
    → AreHashes (h ∷ hs)
    → (validate_sad sha256 task tbs_hash ≡ true) ↔ Any (Covers sha256 tbs_hash) (h ∷ hs)
unfolding validate_sad
validate_sad-task_of_iff sha256 task h hs tbs e a =
    rw (e, parse_sad_task-task_of h hs a) (is_listed_iff sha256 tbs (h ∷ hs))

-- A task "sign:" with any parts between commas of which none is the hexadecimal form of a byte string
-- of a SHA-2 length, white space around it aside, binds nothing: every hash may be signed.
pub validate_sad_unreadable :
    (sha256 : Bytes → Bytes) (task : String) (parts : List (List ℕ)) (tbs_hash : Bytes)
    → codes task ≡ codes "sign:" ++ join b',' parts
    → All (NotIn b',') parts
    → All IsUnreadable parts
    → validate_sad sha256 task tbs_hash ≡ true
unfolding validate_sad
validate_sad_unreadable sha256 task parts tbs e apart bad =
    rw (e, parse_sad_task_unreadable parts apart bad)
