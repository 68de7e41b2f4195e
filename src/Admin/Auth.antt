-- ===== src/Admin/Auth.antt =====
-- internal/authmw/middleware.go: the middlewares that check a token. go-tokenauth is a parameter:
-- what it validates, and which permissions a TAC has.
use go_r2ps_service.Base.{
  String, Bool, not, ◌&&◌, Option, none, some, List, [], ◌∷◌, ◌==◌, bytes_eq, if◌then◌else◌, ℕ,
}
use go_r2ps_service.Base.Text.{utf8}
use go_r2ps_service.StatusList.{after_prefix}

pub record TokenResult : Type 0 where
  pub user_id : String
  pub tac : String

pub record TokenLibrary : Type 0 where
  pub validate : String → Option TokenResult
  pub has_admin : String → Bool
  pub has_all : String → String → Bool

-- The header that the middlewares read, and what one of them has stored in the context.
pub record HttpRequest : Type 0 where
  pub authorization : String
  pub context : Option TokenResult

-- `writeError`: the text of the error is left out.
abbrev pub HttpHandler : Type 0 → Type 0 → Type 0
HttpHandler S R = HttpRequest → S → R × S

abbrev pub Middleware : Type 0 → Type 0 → Type 0
Middleware S R = HttpHandler S R → HttpHandler S R

-- What stands behind "Bearer ", if the header starts with that.
unfoldable pub bearer_token : HttpRequest → Option String
bearer_token r = after_prefix "Bearer " r.authorization

abbrev pub check_dev_token : String → String → Option TokenResult
check_dev_token token provided =
    if utf8 provided == utf8 token then some (record { user_id = "dev-admin"; tac = "a" }) else none

abbrev pub permits : TokenLibrary → String → TokenResult → Bool
permits lib required result =
    not (not (lib.has_admin result.tac) && not (lib.has_all result.tac required))

module _ {S R : Type 0} (write_error : ℕ → R) where
  abbrev pub pass_on : HttpHandler S R → HttpRequest → Option TokenResult → S → R × S
  pass_on next r none s = (write_error 401, s)
  pass_on next r (some result) s = next (record r { context = some result }) s

  abbrev pub authenticated :
      (String → Option TokenResult) → HttpHandler S R → HttpRequest → Option String → S → R × S
  authenticated check next r none s = (write_error 401, s)
  authenticated check next r (some raw) s = pass_on next r (check raw) s

  -- `TokenAuth`.
  unfoldable pub token_auth : TokenLibrary → Middleware S R
  token_auth lib next r s = authenticated lib.validate next r (bearer_token r) s

  -- `DevTokenAuth`.
  unfoldable pub dev_token_auth : String → Middleware S R
  dev_token_auth token next r s = authenticated (check_dev_token token) next r (bearer_token r) s

  abbrev pub with_context :
      TokenLibrary → String → HttpHandler S R → HttpRequest → Option TokenResult → S → R × S
  with_context lib required next r none s = (write_error 401, s)
  with_context lib required next r (some result) s =
      if permits lib required result then next r s else (write_error 403, s)

  -- `RequireTAC`.
  unfoldable pub require_tac : TokenLibrary → String → Middleware S R
  require_tac lib required next r s = with_context lib required next r r.context s

module _ {S R : Type 0} where
  -- `Chain`.
  unfoldable pub chain : List (Middleware S R) → HttpHandler S R → HttpHandler S R
  chain [] final = final
  chain (m ∷ ms) final = m (chain ms final)
