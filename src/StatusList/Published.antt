-- ===== src/StatusList/Published.antt =====
-- What a reader of a published status list sees.
use Prim.Native.Nat.{bit_or}
use go_r2ps_service.Base.{
  ℕ, zero, suc, ◌*◌, ◌/◌, ◌%◌, ◌^◌, ◌≤◌, ◌<◌, ◌≡◌, ◌≢◌, refl, sym, subst, ap, ◌∙◌, false,
  Bool-cases, eq_of_ne, Bool-cases, inl, inr, Option, none, some, List, [], ◌∷◌, arith, ltb,
  nat_beq, nat_beq_iff, nat_eq, length, get_elem?, get_or, set, replicate, length-set,
  if◌then◌else◌, All,
}
use go_r2ps_service.Base.Assoc.{Assoc, lookup}
use go_r2ps_service.Base.Assoc.Unique.{Absent, Unique, lookup-Absent}
use go_r2ps_service.Base.Bits.Fields.{above, field, field-bit_or, field-shift, above_shift}
use go_r2ps_service.Protocol.{Bytes}
use go_r2ps_service.Store.Memory.{or_zero}
use go_r2ps_service.StatusList.{max_index_from, byte_len, put_status, put_statuses, bitstring_of}

-- The two bits of an index: the lowest bits of a byte are those of its first entry.
abbrev pub published : ℕ → Bytes → ℕ
published idx bitstring = get_or bitstring (idx / 4) 0 / 2 ^ (2 * (idx % 4)) % 4

abbrev Fits : Bytes → ℕ → Type 0
Fits bitstring idx = idx / 4 < length bitstring

get_elem-get_or : (bs : Bytes) (i : ℕ) → i < length bs → get_elem? bs i ≡ some (get_or bs i 0)
get_elem-get_or [] i h = absurd (omega arith)
get_elem-get_or (b ∷ bs) zero h = refl
get_elem-get_or (b ∷ bs) (suc i) h = get_elem-get_or bs i (omega arith)

get_or-set :
    (bs : Bytes) (i j v : ℕ)
    → i < length bs
    → get_or (set bs i v) j 0 ≡ (if nat_beq i j then v else get_or bs j 0)
get_or-set [] i j v h = absurd (omega arith)
get_or-set (b ∷ bs) zero zero v h = refl
get_or-set (b ∷ bs) zero (suc j) v h = ground arith
get_or-set (b ∷ bs) (suc i) zero v h = ground arith
get_or-set (b ∷ bs) (suc i) (suc j) v h = ground (arith, get_or-set bs i j v (omega arith))

abbrev shifted : ℕ → ℕ → ℕ
shifted idx status = status % 4 * 2 ^ (2 * (idx % 4)) % 256

-- One byte, at an index that it holds.
field_after_or :
    (idx i status old : ℕ)
    → idx / 4 ≡ i / 4
    → (i ≡ idx → field (i % 4) old ≡ 0)
    → field (i % 4) (bit_or old (shifted idx status))
      ≡ (if nat_beq idx i then status % 4 else field (i % 4) old)
field_after_or idx i status old same empty = ground (
  arith,
  field-shift (i % 4) (idx % 4) status (omega arith) (omega arith),
  field-bit_or (i % 4) old (shifted idx status),
  empty,
)

published-field :
    (idx : ℕ) (bs : Bytes) → published idx bs ≡ field (idx % 4) (get_or bs (idx / 4) 0)
published-field idx bs = rw (above_shift (idx % 4) (get_or bs (idx / 4) 0) (omega arith))

put_status_lem :
    (idx status : ℕ) (bs : Bytes)
    → Fits bs idx
    → (out : Bytes) × (put_status idx status bs ≡ some out)
      × (length out ≡ length bs)
      × ((i : ℕ)
          → (i ≡ idx → published i bs ≡ 0)
          → published i out ≡ (if nat_beq idx i then status % 4 else published i bs))
unfolding put_status
put_status_lem idx status bs fits =
    let at : (idx * 2 / 8 ≡ idx / 4) × (idx * 2 % 8 ≡ 2 * (idx % 4)) = (omega arith, omega arith) in
    let old = get_or bs (idx / 4) 0 in
    let out = set bs (idx / 4) (bit_or old (shifted idx status)) in
    (
      out,
      rw (at.0, at.1, get_elem-get_or bs (idx / 4) fits),
      length-set bs (idx / 4) (bit_or old (shifted idx status)),
      λ i empty.
          rw
            (
              published-field i out,
              published-field i bs,
              get_or-set bs (idx / 4) (i / 4) (bit_or old (shifted idx status)) fits,
            )
            (elim (Bool-cases (nat_beq (idx / 4) (i / 4))) [
              | inl same ↦
                  let e = (nat_beq_iff (idx / 4) (i / 4)).0 same in
                  rw same (
                    rw e (
                      field_after_or idx i status (get_or bs (i / 4) 0) e
                        λ q. sym (published-field i bs) ∙ empty q))
              | inr other ↦ rw other (ground arith)
            ]),
    )

-- What is published for an index: its own status, if it has one in the entries.
abbrev seen : Option ℕ → ℕ → ℕ
seen none old = old
seen (some status) old = status % 4

Fits-kept :
    (bs cs : Bytes)
    → length cs ≡ length bs
    → (entries : List (ℕ × ℕ)) → All (λ e. Fits bs e.0) entries
    → All (λ e. Fits cs e.0) entries
Fits-kept bs cs same [] fits = tt
Fits-kept bs cs same (e ∷ rest) fits =
    (omega (arith, same, fits.0), Fits-kept bs cs same rest fits.1)

put_statuses_lem :
    (entries : Assoc ℕ ℕ) (bs : Bytes)
    → Unique entries
    → All (λ e. Fits bs e.0) entries
    → ((i : ℕ) → lookup i entries ≢ none → published i bs ≡ 0)
    → (out : Bytes) × (put_statuses entries (some bs) ≡ some out)
      × (length out ≡ length bs)
      × ((i : ℕ) → published i out ≡ seen (lookup i entries) (published i bs))
unfolding put_statuses lookup
put_statuses_lem [] bs u fits empty = (bs, refl, refl, λ i. refl)
put_statuses_lem ((idx, status) ∷ rest) bs u fits empty =
    let (one, done, len, at) = put_status_lem idx status bs fits.0 in
    let apart : (i : ℕ) → lookup i rest ≢ none → nat_beq idx i ≡ false = λ i found.
      eq_of_ne idx i λ same. found (lookup-Absent i rest (subst (λ k. Absent k rest) same u.0)) in
    let keeps : (i : ℕ) → nat_beq idx i ≡ false → published i one ≡ published i bs =
      λ i other. rw other at (at i λ same. ground (arith, same, other)) in
    let (out, rest_done, rest_len, rest_at) =
      put_statuses_lem rest one u.1 (Fits-kept bs one len rest fits.1)
        λ i found. keeps i (apart i found) ∙ empty i (rw (apart i found) found) in
    (
      out,
      ap (put_statuses rest) done ∙ rest_done,
      rest_len ∙ len,
      λ i. elim (Bool-cases (nat_beq idx i)) [
        | inl same ↦
            let e = (nat_beq_iff idx i).0 same in
            rest_at i
            ∙ rw (same, lookup-Absent i rest (subst (λ k. Absent k rest) e u.0))
                (rw same at (at i λ _. empty i (rw same λ gone. cc gone)))
        | inr other ↦ rest_at i ∙ rw (other, keeps i other) refl
      ],
    )

abbrev Covers : ℕ → List (ℕ × ℕ) → Type 0
Covers m entries = All (λ e. e.0 ≤ m) entries

max_index_from_lem :
    (m : ℕ) (entries : List (ℕ × ℕ))
    → (m ≤ max_index_from m entries) × Covers (max_index_from m entries) entries
max_index_from_lem m [] = (omega arith, tt)
max_index_from_lem m ((idx, status) ∷ rest) =
    let (le, covers) = max_index_from_lem (if ltb m idx then idx else m) rest in
    (ground (arith, le), (ground (arith, le), covers))

above-zero : (k : ℕ) → above k 0 ≡ 0
above-zero zero = refl
above-zero (suc k) = above-zero k

get_or-replicate : (n i : ℕ) → get_or {A = ℕ} (replicate n 0) i 0 ≡ 0
get_or-replicate zero i = refl
get_or-replicate (suc n) zero = refl
get_or-replicate (suc n) (suc i) = get_or-replicate n i

published-replicate : (i n : ℕ) → published i (replicate n 0) ≡ 0
published-replicate i n =
    published-field i (replicate n 0) ∙ rw (get_or-replicate n (i / 4), above-zero (i % 4))

length-replicate : (n : ℕ) → length (replicate {A = ℕ} n 0) ≡ n
length-replicate zero = refl
length-replicate (suc n) = ap suc (length-replicate n)

covered_fit :
    (entries bound : List (ℕ × ℕ))
    → Covers (max_index_from 0 bound) entries
    → All (λ e. Fits (replicate (byte_len bound) 0) e.0) entries
covered_fit [] bound c = tt
covered_fit ((idx, status) ∷ rest) bound c =
    (ground (arith, length-replicate (byte_len bound), c.0), covered_fit rest bound c.1)

seen-or_zero : (o : Option ℕ) (p : ℕ) → p ≡ 0 → seen o p ≡ or_zero 0 o % 4
seen-or_zero none p e = e
seen-or_zero (some status) p e = refl

-- A status list can be built from every map of statuses: no write is out of range, and each index
-- reads as the low two bits of its status, one without a status as 0, in whatever order the map is
-- walked.
pub bitstring_of-published :
    (entries : Assoc ℕ ℕ)
    → Unique entries
    → (bitstring : Bytes) × (bitstring_of entries ≡ some bitstring)
      × ((idx : ℕ) → published idx bitstring ≡ or_zero 0 (lookup idx entries) % 4)
unfolding bitstring_of
bitstring_of-published entries u =
    let (bs, done, _, at) =
      put_statuses_lem entries (replicate (byte_len entries) 0) u
        (covered_fit entries entries (max_index_from_lem 0 entries).1)
        λ i _. published-replicate i (byte_len entries) in
    (
      bs,
      done,
      λ idx.
          at idx ∙ seen-or_zero (lookup idx entries) _ (published-replicate idx (byte_len entries)),
    )
