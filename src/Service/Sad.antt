-- ===== src/Service/Sad.antt =====
-- internal/service/sad.go: the binding of a session to the hashes that it may sign. SHA-256 is a
-- parameter. `none` for a list of hashes is the source's nil.
pub mod Compare
pub mod Parse
pub mod Validate
use Prim.Native.Nat.{bit_or, bit_xor}
use go_r2ps_service.Base.{
  ℕ, String, Bool, true, false, ◌&&◌, ◌||◌, Option, none, some, List, [], ◌∷◌, nat_beq,
  if◌then◌else◌, length, any,
}
use go_r2ps_service.Base.Text.{codes}
use go_r2ps_service.Base.Text.Split.{split, trim_space, strip_prefix}
use go_r2ps_service.Base.Text.Hex
use go_r2ps_service.Protocol.{Bytes}

abbrev pub sad_task_prefix : List ℕ
sad_task_prefix = codes "sign:"

-- The lengths of SHA-256, SHA-384 and SHA-512 hashes.
abbrev pub is_hash_length : ℕ → Bool
is_hash_length n = nat_beq n 32 || nat_beq n 48 || nat_beq n 64

abbrev pub add_decoded : Option Bytes → List Bytes → List Bytes
add_decoded none rest = rest
add_decoded (some h) rest = if is_hash_length (length h) then h ∷ rest else rest

-- One part of the list: an empty one is skipped, and so is one that is no hash.
pub add_part : List ℕ → List Bytes → List Bytes
unfolding Hex.decode
add_part [] rest = rest
add_part (c ∷ p) rest = add_decoded (Hex.decode (c ∷ p)) rest

-- The loop over the parts.
pub collect : List (List ℕ) → List Bytes
unfolding add_part trim_space
collect [] = []
collect (p ∷ ps) = add_part (trim_space p) (collect ps)

abbrev pub unless_empty : List Bytes → Option (List Bytes)
unless_empty [] = none
unless_empty (h ∷ hs) = some (h ∷ hs)

abbrev pub parse_hash_list : Option (List ℕ) → Option (List Bytes)
parse_hash_list none = none
parse_hash_list (some []) = none
parse_hash_list (some (c ∷ cs)) = unless_empty (collect (split b',' (c ∷ cs)))

-- `ParseSADTask`.
unfoldable pub parse_sad_task : List ℕ → Option (List Bytes)
unfolding collect split strip_prefix
parse_sad_task task = parse_hash_list (strip_prefix sad_task_prefix task)

-- The loop of `bytesEqualConstant`, over two lists of one length.
pub fold_difference : ℕ → Bytes → Bytes → ℕ
fold_difference result [] b = result
fold_difference result (x ∷ a) [] = result
fold_difference result (x ∷ a) (y ∷ b) = fold_difference (bit_or result (bit_xor x y)) a b

-- `bytesEqualConstant`.
unfoldable pub bytes_equal_constant : Bytes → Bytes → Bool
unfolding fold_difference
bytes_equal_constant a b =
    if nat_beq (length a) (length b) then nat_beq (fold_difference 0 a b) 0 else false

module _ (sha256 : Bytes → Bytes) where
  -- Both loops of `ValidateSAD`: the hash itself, then a commitment to it.
  abbrev pub is_listed : Bytes → List Bytes → Bool
  is_listed tbs_hash hashes =
      any (λ auth. bytes_equal_constant auth tbs_hash) hashes
      || any (λ auth. nat_beq (length auth) 32 && bytes_equal_constant auth (sha256 tbs_hash))
          hashes

  abbrev pub allows : Bytes → Option (List Bytes) → Bool
  allows tbs_hash none = true
  allows tbs_hash (some hashes) = is_listed tbs_hash hashes

  -- `ValidateSAD`; `false` is the error of a binding violation.
  unfoldable pub validate_sad : String → Bytes → Bool
  validate_sad session_task tbs_hash = allows tbs_hash (parse_sad_task (codes session_task))
