-- ===== src/Admin/Access.antt =====
-- Who may do what through the admin API.
use go_r2ps_service.Base.{
  ◌≡◌, ◌≢◌, refl, ◌⊎◌, inl, inr, String, true, false, Option, none, some, [], ◌∷◌, arith, ◌==◌,
  string_eq, eq_iff, Bool-cases, Option-cases, if◌then◌else◌,
}
use go_r2ps_service.Store.{Store}
use go_r2ps_service.Admin.Auth.{
  TokenResult, TokenLibrary, HttpRequest, bearer_token, token_auth, dev_token_auth, require_tac,
  check_dev_token, permits, chain, authenticated,
}
use go_r2ps_service.Admin.{
  AdminLibrary, Options, Reply, Route, admin_error, handle, required, serve, list_statuses,
  get_status, set_status, get_client_indices, get_usage, allocate_index, list_keys, get_key,
}

-- The token of a request, if it is a good one.
abbrev pub checked_by : TokenLibrary → Options → String → Option TokenResult
checked_by tokens o = if o.validator then tokens.validate else check_dev_token o.dev_token

abbrev pub on_token : (String → Option TokenResult) → Option String → Option TokenResult
on_token check none = none
on_token check (some raw) = check raw

abbrev pub verified : TokenLibrary → Options → HttpRequest → Option TokenResult
verified tokens o r = on_token (checked_by tokens o) (bearer_token r)

abbrev pub HasAuth : Options → Type 0
HasAuth o = (o.validator ≡ true) ⊎ (o.dev_token ≢ "")

-- The routes that may change the store.
abbrev pub Writes : Route → Type 0
Writes route = (required route ≡ "w") ⊎ (required route ≡ "i")

abbrev pub Permitted : TokenLibrary → Route → TokenResult → Type 0
Permitted tokens route result =
    (tokens.has_admin result.tac ≡ true) ⊎ (tokens.has_all result.tac (required route) ≡ true)

module _ {S : Type 0} (lib : AdminLibrary) (tokens : TokenLibrary) (store : Store S) where
  -- The permission that a route needs, on the result of a check of the token.
  abbrev judged : Route → S → Option TokenResult → Reply × S
  judged route s none = (admin_error 401, s)
  judged route s (some result) =
      if permits tokens (required route) result
      then handle lib store route s
      else (admin_error 403, s)

  judged_by :
      (check : String → Option TokenResult) (route : Route) (r : HttpRequest) (s : S)
      (raw : Option String)
      → authenticated admin_error check
          (chain
            (require_tac admin_error tokens (required route) ∷ [])
            (λ r s. handle lib store route s))
          r
          raw
          s
        ≡ judged route s (on_token check raw)
  unfolding chain require_tac
  judged_by check route r s none = refl
  judged_by check route r s (some raw) = elim (Option-cases (check raw)) [
    | inl bad ↦ rw bad
    | inr (result, good) ↦ rw good
  ]

  serve-judged :
      (o : Options) (route : Route) (r : HttpRequest) (s : S)
      → HasAuth o
      → serve lib tokens store o route r s ≡ judged route s (verified tokens o r)
  unfolding serve token_auth dev_token_auth chain
  serve-judged o route r s auth = elim (Bool-cases o.validator) [
    | inl v ↦ rw v (judged_by tokens.validate route r s (bearer_token r))
    | inr n ↦ elim (Bool-cases (o.dev_token == "")) [
      | inl empty ↦ elim auth [
        | inl v ↦ cc (v, n)
        | inr token ↦ absurd (token ((eq_iff o.dev_token "").0 empty))
      ]
      | inr token ↦
          rw (n, token) (judged_by (check_dev_token o.dev_token) route r s (bearer_token r))
    ]
  ]

  -- Read routes leave the store as it is.
  handle_keeps : (route : Route) (s : S) → ((handle lib store route s).1 ≡ s) ⊎ Writes route
  unfolding handle
  handle_keeps (list_statuses _) s = inl refl
  handle_keeps (get_status _ _) s = inl refl
  handle_keeps (set_status _ _ _) s = inr (inl refl)
  handle_keeps (get_client_indices _ _) s = inl refl
  handle_keeps (get_usage _ _) s = inl refl
  handle_keeps (allocate_index _) s = inr (inr refl)
  handle_keeps (list_keys _) s = inl refl
  handle_keeps (get_key _) s = inl refl

  permits-Permitted :
      (route : Route) (result : TokenResult)
      → permits tokens (required route) result ≡ true
      → Permitted tokens route result
  permits-Permitted route result p = elim (Bool-cases (tokens.has_admin result.tac)) [
    | inl admin ↦ inl admin
    | inr other ↦ inr (ground (arith, p, other))
  ]

  -- With authentication set up, a request is answered 401 if its bearer token is missing or bad, 403
  -- if its token is good but has neither the admin permission nor the one that the route needs, and
  -- is handled otherwise. In the first two cases the store stays as it is.
  pub serve-cases :
      (o : Options) (route : Route) (r : HttpRequest) (s : S)
      → HasAuth o
      → ((verified tokens o r ≡ none) × (serve lib tokens store o route r s ≡ (admin_error 401, s)))
        ⊎ ((result : TokenResult) × (verified tokens o r ≡ some result)
            × (permits tokens (required route) result ≡ false)
            × (serve lib tokens store o route r s ≡ (admin_error 403, s)))
        ⊎ ((result : TokenResult) × (verified tokens o r ≡ some result)
            × Permitted tokens route result
            × (serve lib tokens store o route r s ≡ handle lib store route s))
  serve-cases o route r s auth =
      rw (serve-judged o route r s auth) (elim (Option-cases (verified tokens o r)) [
        | inl bad ↦ inl (bad, rw bad)
        | inr (result, good) ↦ elim (Bool-cases (permits tokens (required route) result)) [
          | inl p ↦ inr (inr (result, good, permits-Permitted route result p, rw (good, p)))
          | inr n ↦ inr (inl (result, good, n, rw (good, n)))
        ]
      ])

  -- With authentication set up, a request changes the store only on a route that writes a status or
  -- allocates an index, and only with a good token that has the admin permission or, for these
  -- routes, the permission "w" or "i".
  pub serve_keeps :
      (o : Options) (route : Route) (r : HttpRequest) (s : S)
      → HasAuth o
      → ((serve lib tokens store o route r s).1 ≡ s)
        ⊎ (Writes route
            × (result : TokenResult) × (verified tokens o r ≡ some result)
            × Permitted tokens route result)
  serve_keeps o route r s auth = elim (serve-cases o route r s auth) [
    | inl (_, e) ↦ inl (rw e)
    | inr (inl (_, _, _, e)) ↦ inl (rw e)
    | inr (inr (result, good, p, e)) ↦ elim (handle_keeps route s) [
      | inl same ↦ inl (rw e same)
      | inr w ↦ inr (w, result, good, p)
    ]
  ]
