-- ===== src/Service/Sad/Parse.antt =====
-- Reading a task: what comes out is hashes, and a task written from hashes gives them back.
use go_r2ps_service.Base.{
  ℕ, ◌≡◌, refl, ◌∙◌, true, false, Option, none, some, List, [], ◌∷◌, ◌++◌, arith, All, length, map,
  Bool-cases, Option-cases, inl, inr, ◌≢◌,
}
use go_r2ps_service.Base.Text.Split.{
  split, trim_space, strip_prefix, join, split-join, trim_space-NoSpace, NotIn,
}
use go_r2ps_service.Base.Text.Hex
use go_r2ps_service.Base.Text.Hex.{IsBytes, decode-encode, encode-NotIn, encode-NoSpace}
use go_r2ps_service.Protocol.{Bytes}
use go_r2ps_service.Service.Sad.{
  sad_task_prefix, is_hash_length, add_decoded, add_part, collect, unless_empty, parse_hash_list,
  parse_sad_task,
}

abbrev pub IsHash : Bytes → Type 0
IsHash h = is_hash_length (length h) ≡ true

add_part-All : (p : List ℕ) (rest : List Bytes) → All IsHash rest → All IsHash (add_part p rest)
unfolding add_part
add_part-All [] rest h = h
add_part-All (c ∷ p) rest h = elim (Option-cases (Hex.decode (c ∷ p))) [
  | inl bad ↦ rw bad h
  | inr (bs, good) ↦ rw good (elim (Bool-cases (is_hash_length (length bs))) [
    | inl fits ↦ rw fits (fits, h)
    | inr odd ↦ rw odd h
  ])
]

collect-All : (ps : List (List ℕ)) → All IsHash (collect ps)
unfolding collect
collect-All [] = tt
collect-All (p ∷ ps) = add_part-All (trim_space p) (collect ps) (collect-All ps)

-- Whatever the task says, an authorised hash has the length of a SHA-2 hash, and there is at least
-- one of them.
pub parse_sad_task-All :
    (task : List ℕ) (hashes : List Bytes)
    → parse_sad_task task ≡ some hashes
    → All IsHash hashes × (hashes ≢ [])
unfolding parse_sad_task
parse_sad_task-All task hashes e = go (strip_prefix sad_task_prefix task) e
  where
    settle :
        (hs : List Bytes)
        → All IsHash hs
        → unless_empty hs ≡ some hashes
        → All IsHash hashes × (hashes ≢ [])
    settle [] a e = cc
    settle (h ∷ hs) a e = let same : h ∷ hs ≡ hashes = ground arith in rw (← same) (a, λ p. cc)

    go : (o : Option (List ℕ)) → parse_hash_list o ≡ some hashes → All IsHash hashes × (hashes ≢ [])
    go none e = cc
    go (some []) e = cc
    go (some (c ∷ cs)) e =
        settle (collect (split b',' (c ∷ cs))) (collect-All (split b',' (c ∷ cs))) e

-- The task that names the given hashes: "sign:" and their hexadecimal forms, with commas.
unfoldable pub task_of : List Bytes → List ℕ
task_of hashes = sad_task_prefix ++ join b',' (map Hex.encode hashes)

abbrev pub AreHashes : List Bytes → Type 0
AreHashes = All (λ h. IsBytes h × IsHash h)

-- Skipping what is empty, the two tests for an empty list are one.
parse_hash_list-some :
    (s : List ℕ) → parse_hash_list (some s) ≡ unless_empty (collect (split b',' s))
unfolding collect split
parse_hash_list-some [] = refl
parse_hash_list-some (c ∷ cs) = refl

add_part-encode :
    (x : ℕ) (bs : Bytes) (rest : List Bytes)
    → IsBytes (x ∷ bs)
    → IsHash (x ∷ bs)
    → add_part (Hex.encode (x ∷ bs)) rest ≡ (x ∷ bs) ∷ rest
add_part-encode x bs rest byte fits = decoded ∙ rw (decode-encode (x ∷ bs) byte, fits)
  where
    decoded :
        add_part (Hex.encode (x ∷ bs)) rest ≡ add_decoded (Hex.decode (Hex.encode (x ∷ bs))) rest
    decoded = unfold add_part Hex.encode in refl

collect-encode : (hashes : List Bytes) → AreHashes hashes → collect (map Hex.encode hashes) ≡ hashes
collect-encode [] h = unfold collect in refl
collect-encode ([] ∷ hs) h = cc (h.0.1)
collect-encode ((x ∷ bs) ∷ hs) ((byte, fits), h) =
    step
    ∙ rw
        (
          trim_space-NoSpace (Hex.encode (x ∷ bs)) (encode-NoSpace (x ∷ bs) byte),
          collect-encode hs h,
        )
        (add_part-encode x bs hs byte fits)
  where
    step :
        collect (map Hex.encode ((x ∷ bs) ∷ hs))
        ≡ add_part (trim_space (Hex.encode (x ∷ bs))) (collect (map Hex.encode hs))
    step = unfold collect in refl

encode-All-NotIn :
    (hashes : List Bytes) → AreHashes hashes → All (NotIn b',') (map Hex.encode hashes)
encode-All-NotIn [] h = tt
encode-All-NotIn (x ∷ hs) h = (encode-NotIn x h.0.0, encode-All-NotIn hs h.1)

parse_sad_task_prefixed :
    (s : List ℕ) → parse_sad_task (sad_task_prefix ++ s) ≡ parse_hash_list (some s)
unfolding parse_sad_task
parse_sad_task_prefixed s = refl

-- A task that was written from one or more byte strings of SHA-2 lengths is read back as just
-- those, in their order.
pub parse_sad_task-task_of :
    (h : Bytes) (hs : List Bytes)
    → AreHashes (h ∷ hs)
    → parse_sad_task (task_of (h ∷ hs)) ≡ some (h ∷ hs)
parse_sad_task-task_of h hs a =
    let list = join b',' (map Hex.encode (h ∷ hs)) in
    let prefix : parse_sad_task (task_of (h ∷ hs)) ≡ parse_hash_list (some list) =
      unfold task_of in parse_sad_task_prefixed list in
    prefix
    ∙ parse_hash_list-some list
    ∙ rw (
      split-join b',' (Hex.encode h) (map Hex.encode hs) (encode-NotIn h a.0.0)
          (encode-All-NotIn hs a.1),
      collect-encode (h ∷ hs) a,
    )

-- A part of a task that is the hexadecimal form of no byte string of a SHA-2 length.
abbrev pub IsUnreadable : List ℕ → Type 0
IsUnreadable part =
    (h : Bytes)
    → Hex.decode (trim_space part) ≡ some h
    → (length h ≢ 32) × (length h ≢ 48) × (length h ≢ 64)

not_hash_length : (n : ℕ) → (n ≢ 32) × (n ≢ 48) × (n ≢ 64) → is_hash_length n ≡ false
not_hash_length n apart = ground arith

add_part_unreadable :
    (q : List ℕ) (rest : List Bytes)
    → ((h : Bytes) → Hex.decode q ≡ some h → (length h ≢ 32) × (length h ≢ 48) × (length h ≢ 64))
    → add_part q rest ≡ rest
unfolding add_part
add_part_unreadable [] rest bad = refl
add_part_unreadable (c ∷ q) rest bad = elim (Option-cases (Hex.decode (c ∷ q))) [
  | inl none_read ↦ rw none_read
  | inr (h, found) ↦ rw (found, not_hash_length (length h) (bad h found))
]

collect_unreadable : (parts : List (List ℕ)) → All IsUnreadable parts → collect parts ≡ []
unfolding collect
collect_unreadable [] bad = refl
collect_unreadable (p ∷ ps) bad =
    add_part_unreadable (trim_space p) (collect ps) bad.0 ∙ collect_unreadable ps bad.1

pub parse_sad_task_unreadable :
    (parts : List (List ℕ))
    → All (NotIn b',') parts
    → All IsUnreadable parts
    → parse_sad_task (sad_task_prefix ++ join b',' parts) ≡ none
parse_sad_task_unreadable [] apart bad = unfold parse_sad_task join in refl
parse_sad_task_unreadable (p ∷ ps) apart bad =
    parse_sad_task_prefixed (join b',' (p ∷ ps))
    ∙ parse_hash_list-some (join b',' (p ∷ ps))
    ∙ rw (split-join b',' p ps apart.0 apart.1, collect_unreadable (p ∷ ps) bad)
