-- ===== src/Modes.antt =====
-- internal/modes/modes.go: the roles that a server process takes, and how its mode text is read.
pub mod Laws
use go_r2ps_service.Base.{
  ℕ, String, Bool, true, false, Option, none, some, List, [], ◌∷◌, ◌++◌, map, any, keep, ◌==◌,
  bytes_eq, if◌then◌else◌,
}
use go_r2ps_service.Base.Exec.{Result, ok, err}
use go_r2ps_service.Base.Text.{codes}
use go_r2ps_service.Base.Text.Split.{split, trim_space}

pub data Role : Type 0 where
  wscd wsca admin : Role

abbrev pub role_text : Role → String
role_text wscd = "wscd"
role_text wsca = "wsca"
role_text admin = "admin"

abbrev pub role_beq : Role → Role → Bool
role_beq wscd wscd = true
role_beq wsca wsca = true
role_beq admin admin = true
role_beq _ _ = false

-- `ValidRoles`.
abbrev pub valid_roles : List Role
valid_roles = wscd ∷ (wsca ∷ (admin ∷ []))

-- `Role.IsValid`, which says which role a text is.
abbrev pub valid_role : List ℕ → Option Role
valid_role text =
    if text == codes "wscd"
    then some wscd
    else if text == codes "wsca"
    then some wsca
    else if text == codes "admin"
    then some admin
    else none

-- `RoleSet.Has`; a set is the list of its roles.
abbrev pub has : Role → List Role → Bool
has r rs = any (role_beq r) rs

-- `RoleSet.List`, which is sorted by the texts.
abbrev pub sorted_roles : List Role → List Role
sorted_roles rs = keep (λ r. has r rs) (admin ∷ (wsca ∷ (wscd ∷ [])))

-- `RoleSet.Strings`.
abbrev pub role_strings : List Role → List String
role_strings rs = map role_text (sorted_roles rs)

-- `if !seen[r] { roles = append(roles, r); seen[r] = true }`.
abbrev pub add_role : Role → List Role → List Role
add_role r rs = if has r rs then rs else rs ++ r ∷ []

abbrev pub add_roles : List Role → List Role → List Role
add_roles [] rs = rs
add_roles (r ∷ more) rs = add_roles more (add_role r rs)

abbrev pub part_roles : List ℕ → Option (List Role)
part_roles text =
    if text == []
    then some []
    else if text == codes "all"
    then some valid_roles
    else elim (valid_role text) [ none ↦ none | some r ↦ some (r ∷ []) ]

-- A part that is no role ends the loop.
abbrev pub or_invalid :
    Option (List Role) → (List Role → Result String (List Role)) → Result String (List Role)
or_invalid none f = err "invalid role"
or_invalid (some more) f = f more

-- The loop over the parts of the text.
unfoldable pub parse_parts : List (List ℕ) → List Role → Result String (List Role)
parse_parts [] rs = ok rs
parse_parts (p ∷ ps) rs =
    or_invalid (part_roles (trim_space p)) (λ more. parse_parts ps (add_roles more rs))

abbrev pub some_roles : Result String (List Role) → Result String (List Role)
some_roles (err e) = err e
some_roles (ok []) = err "no valid roles specified"
some_roles (ok (r ∷ rs)) = ok (r ∷ rs)

abbrev pub parse_trimmed : List ℕ → Result String (List Role)
parse_trimmed text =
    if text == []
    then err "mode cannot be empty"
    else if text == codes "all"
    then ok valid_roles
    else some_roles (parse_parts (split b',' text) [])

-- `ParseRoles`.
unfoldable pub parse_roles : String → Result String (List Role)
parse_roles s = parse_trimmed (trim_space (codes s))
