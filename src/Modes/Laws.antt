-- ===== src/Modes/Laws.antt =====
-- Which roles a mode text gives.
use go_r2ps_service.Base.{
  bytes_beq, bytes_beq_iff, ℕ, ◌≡◌, ◌≢◌, refl, sym, ap, ◌∙◌, inl, inr, String, Bool, true, false,
  ◌||◌, some, List, [], ◌∷◌, ◌++◌, any, ◌==◌, bytes_eq, arith, Bool-cases, Option-cases,
}
use go_r2ps_service.Base.Exec.{Result, ok, err}
use go_r2ps_service.Base.Text.{codes}
use go_r2ps_service.Base.Text.Split.{split, trim_space}
use go_r2ps_service.Modes.{
  Role, wscd, wsca, admin, role_text, role_beq, has, add_role, add_roles, part_roles, valid_role,
  valid_roles, parse_parts, some_roles, parse_roles,
}

-- A part of the text names a role if it is the role's text or "all", white space around it aside.
abbrev pub names : Role → List ℕ → Bool
names r part = trim_space part == codes "all" || trim_space part == codes (role_text r)

has-append : (r : Role) (rs ss : List Role) → has r (rs ++ ss) ≡ (has r rs || has r ss)
has-append r [] ss = refl
has-append r (q ∷ rs) ss = ground (arith, has-append r rs ss)

role_beq-eq : (r q : Role) → role_beq r q ≡ true → r ≡ q
role_beq-eq wscd wscd e = refl
role_beq-eq wscd wsca e = cc e
role_beq-eq wscd admin e = cc e
role_beq-eq wsca wscd e = cc e
role_beq-eq wsca wsca e = refl
role_beq-eq wsca admin e = cc e
role_beq-eq admin wscd e = cc e
role_beq-eq admin wsca e = cc e
role_beq-eq admin admin e = refl

has-add_role : (r q : Role) (rs : List Role) → has r (add_role q rs) ≡ (has r rs || role_beq r q)
has-add_role r q rs = elim (Bool-cases (has q rs)) [
  | inl there ↦ elim (Bool-cases (role_beq r q)) [
    | inl same ↦ rw (there, same) (rw (role_beq-eq r q same) (ground (arith, there)))
    | inr other ↦ rw (there, other) (ground arith)
  ]
  | inr new ↦ rw new (has-append r rs (q ∷ []) ∙ ground arith)
]

has-add_roles :
    (r : Role) (more rs : List Role) → has r (add_roles more rs) ≡ (has r rs || has r more)
has-add_roles r [] rs = ground arith
has-add_roles r (q ∷ more) rs =
    has-add_roles r more (add_role q rs) ∙ rw (has-add_role r q rs) (ground arith)

-- A text names a role, and so does "all".
abbrev text_names : Role → List ℕ → Bool
text_names r text = text == codes "all" || text == codes (role_text r)

empty_names : (r : Role) → text_names r [] ≡ false
unfolding bytes_beq
empty_names wscd = refl
empty_names wsca = refl
empty_names admin = refl

all_names : (r : Role) → has r valid_roles ≡ text_names r (codes "all")
unfolding bytes_beq
all_names wscd = refl
all_names wsca = refl
all_names admin = refl

role_names : (q r : Role) → has r (q ∷ []) ≡ text_names r (codes (role_text q))
unfolding bytes_beq
role_names wscd wscd = refl
role_names wscd wsca = refl
role_names wscd admin = refl
role_names wsca wscd = refl
role_names wsca wsca = refl
role_names wsca admin = refl
role_names admin wscd = refl
role_names admin wsca = refl
role_names admin admin = refl

valid_role-eq : (text : List ℕ) {r : Role} → valid_role text ≡ some r → text ≡ codes (role_text r)
valid_role-eq text {r} h = elim (Bool-cases (text == codes "wscd")) [
  | inl a ↦
      let e : Role.wscd ≡ r = cc (rw a at h) in
      (bytes_beq_iff text (codes "wscd")).0 a ∙ ap (λ q. codes (role_text q)) e
  | inr a ↦ elim (Bool-cases (text == codes "wsca")) [
    | inl b ↦
        let e : Role.wsca ≡ r = cc (rw (a, b) at h) in
        (bytes_beq_iff text (codes "wsca")).0 b ∙ ap (λ q. codes (role_text q)) e
    | inr b ↦ elim (Bool-cases (text == codes "admin")) [
      | inl c ↦
          let e : Role.admin ≡ r = cc (rw (a, b, c) at h) in
          (bytes_beq_iff text (codes "admin")).0 c ∙ ap (λ q. codes (role_text q)) e
      | inr c ↦ cc (rw (a, b, c) at h)
    ]
  ]
]

has-part_roles :
    (r : Role) (text : List ℕ) (more : List Role)
    → part_roles text ≡ some more
    → has r more ≡ text_names r text
has-part_roles r text more h = elim (Bool-cases (text == [])) [
  | inl a ↦
      let e : [] ≡ more = cc (rw a at h) in
      rw ((bytes_beq_iff text []).0 a, sym e) (sym (empty_names r))
  | inr a ↦ elim (Bool-cases (text == codes "all")) [
    | inl b ↦
        let e : valid_roles ≡ more = cc (rw (a, b) at h) in
        rw ((bytes_beq_iff text (codes "all")).0 b, sym e) (all_names r)
    | inr b ↦ elim (Option-cases (valid_role text)) [
      | inl bad ↦ cc (rw (a, b, bad) at h)
      | inr (q, good) ↦
          let e : q ∷ [] ≡ more = cc (rw (a, b, good) at h) in
          rw (valid_role-eq text good, sym e) (role_names q r)
    ]
  ]
]

parse_parts-has :
    (ps : List (List ℕ)) (rs out : List Role) (r : Role)
    → parse_parts ps rs ≡ ok out
    → has r out ≡ (has r rs || any (names r) ps)
unfolding parse_parts
parse_parts-has [] rs out r h = (let e : rs ≡ out = cc h in rw (sym e) (ground arith))
parse_parts-has (p ∷ ps) rs out r h = elim (Option-cases (part_roles (trim_space p))) [
  | inl bad ↦ cc (rw bad at h)
  | inr (more, good) ↦
      parse_parts-has ps (add_roles more rs) out r (rw good at h)
      ∙ rw (has-add_roles r more rs, has-part_roles r (trim_space p) more good) (ground arith)
]

all_split : (r : Role) → any (names r) (split b',' (codes "all")) ≡ has r valid_roles
unfolding split trim_space bytes_beq
all_split wscd = refl
all_split wsca = refl
all_split admin = refl

some_roles-eq-ok :
    (x : Result String (List Role)) {rs : List Role}
    → some_roles x ≡ ok rs
    → (x ≡ ok rs) × (rs ≢ [])
some_roles-eq-ok (err e) h = cc h
some_roles-eq-ok (ok []) h = cc h
some_roles-eq-ok (ok (r ∷ more)) {rs} h = (h, λ e. cc (h, e))

-- If a mode text is accepted, the server has a role exactly if one of the comma-separated parts of
-- the text names it, by its own text or as "all", and it has at least one role.
pub parse_roles-has :
    (s : String) (rs : List Role)
    → parse_roles s ≡ ok rs
    → (rs ≢ []) × ((r : Role) → has r rs ≡ any (names r) (split b',' (trim_space (codes s))))
unfolding parse_roles
parse_roles-has s rs h =
    let text = trim_space (codes s) in
    elim (Bool-cases (text == [])) [
      | inl a ↦ cc (rw a at h)
      | inr a ↦ elim (Bool-cases (text == codes "all")) [
        | inl b ↦
            let e : valid_roles ≡ rs = cc (rw (a, b) at h) in
            (
              (λ empty. cc (e, empty)),
              λ r. rw ((bytes_beq_iff text (codes "all")).0 b, sym e) (sym (all_split r)),
            )
        | inr b ↦
            let (parsed, found) =
              some_roles-eq-ok (parse_parts (split b',' text) []) (rw (a, b) at h) in
            (found, λ r. parse_parts-has (split b',' text) [] rs r parsed)
      ]
    ]
