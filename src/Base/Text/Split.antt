-- ===== src/Base/Text/Split.antt =====
-- Splitting at a separator, trimming, and prefixes, over code points.
use go_r2ps_service.Base.{
  ℕ, ◌≡◌, refl, ap, ◌≢◌, false, Option, none, some, List, [], ◌∷◌, ◌++◌, arith, nat_beq,
  if◌then◌else◌, All,
}
use mathlib.Core.List.{reverse, reverse_aux, reverse-reverse}
use go_r2ps_service.Base.Text.{is_space}

-- The first part of `strings.Split`, and the parts behind it.
split_first : ℕ → List ℕ → List ℕ × List (List ℕ)
split_first sep [] = ([], [])
split_first sep (c ∷ cs) =
    let rest = split_first sep cs in
    if nat_beq c sep then ([], rest.0 ∷ rest.1) else (c ∷ rest.0, rest.1)

-- `strings.Split` at a separator of one character.
unfoldable pub split : ℕ → List ℕ → List (List ℕ)
unfolding split_first
split sep s = let parts = split_first sep s in parts.0 ∷ parts.1

unfoldable pub trim_left : List ℕ → List ℕ
trim_left [] = []
trim_left (c ∷ cs) = let rest = trim_left cs in if is_space c then rest else c ∷ cs

-- `strings.TrimSpace`.
unfoldable pub trim_space : List ℕ → List ℕ
unfolding trim_left is_space
trim_space s = reverse (trim_left (reverse (trim_left s)))

-- `strings.HasPrefix` with `strings.TrimPrefix`: what stands behind the prefix, if it is there.
unfoldable pub strip_prefix : List ℕ → List ℕ → Option (List ℕ)
strip_prefix [] s = some s
strip_prefix (p ∷ ps) [] = none
strip_prefix (p ∷ ps) (c ∷ cs) = if nat_beq p c then strip_prefix ps cs else none

-- Parts joined with the separator between them.
unfoldable pub join : ℕ → List (List ℕ) → List ℕ
join sep [] = []
join sep (p ∷ []) = p
join sep (p ∷ (q ∷ ps)) = p ++ (sep ∷ join sep (q ∷ ps))

abbrev pub NotIn : ℕ → List ℕ → Type 0
NotIn c = All (λ d. d ≢ c)

split_first-append :
    (sep : ℕ) (p s : List ℕ)
    → NotIn sep p
    → split_first sep (p ++ (sep ∷ s)) ≡ (p, (split_first sep s).0 ∷ (split_first sep s).1)
unfolding split_first
split_first-append sep [] s h = ground arith
split_first-append sep (c ∷ p) s h = ground (arith, split_first-append sep p s h.1)

split_first_self : (sep : ℕ) (p : List ℕ) → NotIn sep p → split_first sep p ≡ (p, [])
unfolding split_first
split_first_self sep [] h = refl
split_first_self sep (c ∷ p) h = ground (arith, split_first_self sep p h.1)

-- Splitting undoes joining, for parts that hold no separator.
pub split-join :
    (sep : ℕ) (p : List ℕ) (ps : List (List ℕ))
    → NotIn sep p
    → All (NotIn sep) ps
    → split sep (join sep (p ∷ ps)) ≡ p ∷ ps
unfolding split join
split-join sep p [] h hs = rw (split_first_self sep p h)
split-join sep p (q ∷ ps) h hs =
    rw (split_first-append sep p (join sep (q ∷ ps)) h)
      (ap (λ t. p ∷ t) (split-join sep q ps hs.0 hs.1))

pub strip_prefix-append : (p s : List ℕ) → strip_prefix p (p ++ s) ≡ some s
unfolding strip_prefix
strip_prefix-append [] s = refl
strip_prefix-append (c ∷ p) s = ground (arith, strip_prefix-append p s)

abbrev pub NoSpace : List ℕ → Type 0
NoSpace = All (λ c. is_space c ≡ false)

trim_left-NoSpace : (s : List ℕ) → NoSpace s → trim_left s ≡ s
unfolding trim_left
trim_left-NoSpace [] h = refl
trim_left-NoSpace (c ∷ s) h = rw (h.0)

NoSpace-reverse_aux : (s t : List ℕ) → NoSpace s → NoSpace t → NoSpace (reverse_aux s t)
NoSpace-reverse_aux [] t h k = k
NoSpace-reverse_aux (c ∷ s) t h k = NoSpace-reverse_aux s (c ∷ t) h.1 (h.0, k)

-- A text with no white space is its own trimmed form.
pub trim_space-NoSpace : (s : List ℕ) → NoSpace s → trim_space s ≡ s
unfolding trim_space
trim_space-NoSpace s h =
    rw (trim_left-NoSpace s h, trim_left-NoSpace (reverse s) (NoSpace-reverse_aux s [] h tt))
      (reverse-reverse s)
