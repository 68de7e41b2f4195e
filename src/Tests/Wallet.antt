-- ===== src/Tests/Wallet.antt =====
-- A wallet provider with toy libraries, from an issue to the published list, and the admin API.
use go_r2ps_service.Base.{
  ℕ, ◌≡◌, ◌⊎◌, inl, refl, String, Bool, true, false, none, some, [], ◌∷◌, arith, replicate, ◌%◌,
  ◌==◌, string_eq, nat_eq, if◌then◌else◌,
}
use go_r2ps_service.Base.Assoc.{Assoc, lookup, insert}
use go_r2ps_service.Base.Assoc.Unique.{Unique}
use go_r2ps_service.Base.Exec.{ok, ◌>>=◌, pure, fail, read, require, guard}
use go_r2ps_service.Base.Int.{pos}
use go_r2ps_service.Base.Text.{utf8}
use go_r2ps_service.Protocol.{Bytes}
use go_r2ps_service.Crypto.Jwt.{JoseSigner, p256, sign_jwt}
use go_r2ps_service.Store.{PublicKeyInfo, status_invalid}
use go_r2ps_service.Store.Memory.{
  MemoryStore, memory_store, new_memory_store, next_index, or_zero, category_statuses,
  get_public_key, put_public_key, set_status, get_client_indices, allocate_index, record_wua,
}
use go_r2ps_service.Store.Memory.Status.{status_at, IsDense, HasUniqueKeys}
use go_r2ps_service.Store.Memory.Sound.{IsSound}
use go_r2ps_service.StatusList.{
  Config, Library, split_path, trim_prefix, after_prefix, bitstring_of,
}
use go_r2ps_service.StatusList.Published.{published, bitstring_of-published}
use go_r2ps_service.Service.Handlers.{Backend, HandlerCodec, generate_key, validate_kid}
use go_r2ps_service.Service.Eudiw.{WalletProviderConfig, EudiwCodec, EudiwAttestationRequest}
use go_r2ps_service.Service.Eudiw.Jwk.{Decompress, pub_key_to_jwk}
use go_r2ps_service.Service.Eudiw.Issue.{
  issue_wka, issue_wia, attestation_request, attest_keys, resolve_key_jwk, take_index,
}
use go_r2ps_service.Service.Eudiw.Revoke.{revoke, revoke_all, set_in, set_each}
use go_r2ps_service.Service.Eudiw.Revoke.Statuses.{HasSet, revoke_lem}
use go_r2ps_service.Service.Eudiw.Lifecycle.{
  Publishes, issue_wka-revoke-Publishes, issue_wia-revoke-Publishes,
}
use go_r2ps_service.Service.Eudiw.Reach.{Reachable, Reachable-IsSound, Reachable-published}
use go_r2ps_service.Service.Eudiw.Withdrawn.{is_of_client, Reachable-revoke-published}
use go_r2ps_service.Admin.{AdminLibrary, Options, Route, serve, handle, required, admin_error}
use go_r2ps_service.Admin.Auth.{TokenLibrary, TokenResult, HttpRequest, permits}
use go_r2ps_service.Admin.Access.{verified, Permitted, Writes, serve-cases, serve_keeps}

abbrev point : Bytes
point = 4 ∷ replicate 64 7

abbrev key : PublicKeyInfo
key = record {
  kid = "k1";
  curve = "P-256";
  pub_key = point;
  creation_time = pos 0;
  client_id = "alice";
}

abbrev wallet_store : MemoryStore
wallet_store = record {
  counters = [];
  statuses = [];
  client_indices = [];
  usage = [];
  public_keys = ("k1", key) ∷ [];
  records = [];
  webauthn = [];
}

abbrev request : EudiwAttestationRequest
request = record { keys_to_attest = "k1" ∷ ("gone" ∷ []); ver = "draft-008" }

abbrev pub codec : EudiwCodec String
codec = record {
  parse_attestation = λ b. some request;
  parse_reason = λ b. some "lost";
  marshal_wka = λ p. some [];
  marshal_wia = λ p. some [];
  marshal_wka_response = λ jwt. utf8 jwt;
  marshal_wia_response = λ jwt. utf8 jwt;
  marshal_revoked = λ r. [];
  marshal_suspended = λ r. [];
}

abbrev signer : JoseSigner Bool
signer = record { curve = λ k. p256; sign = λ alg k o b. some "jwt" }

abbrev decompress : Decompress
decompress curve b = none

abbrev pub cfg : WalletProviderConfig MemoryStore Bool String
cfg = record {
  signing_key = true;
  x5c_chain = [];
  wallet_link = "";
  wallet_name = "w";
  wallet_version = "1";
  wallet_solution_certification_info = "";
  key_storage_level = [];
  user_auth_level = [];
  certification = "";
  status_list_base_uri = "https://wp.example.com/statuslists";
  wka_ttl = pos 0;
  wia_ttl = pos 0;
  status_maintenance_period = pos 0;
  store = memory_store;
}

abbrev list_cfg : Config Bool
list_cfg = record {
  signing_key = true;
  x5c_chain = [];
  base_uri = "https://wp.example.com";
  ttl = pos 0;
}

abbrev lib : Library
lib = record { deflate = λ b. some b; marshal = λ p. some [] }

wallet_store-IsDense : IsDense wallet_store
unfolding lookup
wallet_store-IsDense category idx = ground arith

wallet_store-HasUniqueKeys : HasUniqueKeys wallet_store
unfolding lookup
wallet_store-HasUniqueKeys category = tt

abbrev answer : Bytes
answer = utf8 "jwt"

wka_issued : (issue_wka codec signer decompress cfg (pos 5) "alice" [] wallet_store).0 ≡ ok answer
unfolding issue_wka attestation_request attest_keys resolve_key_jwk take_index pub_key_to_jwk ◌>>=◌
    pure fail read require guard validate_kid lookup get_public_key allocate_index record_wua
    sign_jwt
wka_issued = refl

wia_issued : (issue_wia codec signer decompress cfg (pos 5) "alice" [] wallet_store).0 ≡ ok answer
unfolding issue_wia attestation_request resolve_key_jwk take_index pub_key_to_jwk ◌>>=◌ pure fail
    read require guard validate_kid lookup get_public_key allocate_index record_wua sign_jwt
wia_issued = refl

ka_path : split_path (trim_prefix "/statuslists/" "/statuslists/ka/0") ≡ some ("ka", "0")
unfolding split_path trim_prefix after_prefix
ka_path = refl

wia_path : split_path (trim_prefix "/statuslists/" "/statuslists/wia/0") ≡ some ("wia", "0")
unfolding split_path trim_prefix after_prefix
wia_path = refl

abbrev revoked_store : MemoryStore
revoked_store =
    (revoke codec cfg [] "alice"
      (issue_wka codec signer decompress cfg (pos 5) "alice" [] wallet_store).1).1

issue_wka-revoke-Publishes_example :
    Publishes lib signer list_cfg
      (pos 9)
      "/statuslists/ka/0"
      "ka"
      "0"
      revoked_store
      (next_index "ka" wallet_store)
      status_invalid
issue_wka-revoke-Publishes_example =
    issue_wka-revoke-Publishes codec signer decompress cfg lib list_cfg (pos 5) (pos 9) "alice" []
      [] answer "lost" "/statuslists/ka/0" "0" wallet_store refl wallet_store-IsDense
      wallet_store-HasUniqueKeys wka_issued refl ka_path

issue_wia-revoke-Publishes_example :
    Publishes lib signer list_cfg
      (pos 9)
      "/statuslists/wia/0"
      "wia"
      "0"
      (revoke codec cfg [] "alice"
        (issue_wia codec signer decompress cfg (pos 5) "alice" [] wallet_store).1).1
      (next_index "wia" wallet_store)
      status_invalid
issue_wia-revoke-Publishes_example =
    issue_wia-revoke-Publishes codec signer decompress cfg lib list_cfg (pos 5) (pos 9) "alice" []
      [] answer "lost" "/statuslists/wia/0" "0" wallet_store refl wallet_store-IsDense
      wallet_store-HasUniqueKeys wia_issued refl wia_path

revoke_lem_example :
    ((revoke codec cfg [] "alice" wallet_store).0 ≡ ok [])
    × HasSet "alice" status_invalid wallet_store (revoke codec cfg [] "alice" wallet_store).1
revoke_lem_example = revoke_lem codec cfg [] "alice" "lost" wallet_store refl refl

abbrev admin_lib : AdminLibrary
admin_lib = record { atoi = λ s. some (pos 0); parse_status = λ b. some 2 }

abbrev key_codec : HandlerCodec
key_codec = record {
  parse_keygen = λ b. some "P-256";
  marshal_created_key = λ curve. utf8 curve;
  parse_ecdh = λ b. none;
  parse_list_keys = λ b. none;
  marshal_key_info = λ keys. [];
}

abbrev hsm : Backend MemoryStore
hsm = record {
  sign = λ kid hash m. (ok hash, m);
  generate_ec_key = λ curve m. (ok ("k1", point), m);
  ecdh = λ kid peer m. (ok peer, m);
  list_keys = λ curves m. ok [];
}

-- A client makes a key, has it attested and revokes; then a second index is suspended by an
-- administrator.
abbrev keyed_store : MemoryStore
keyed_store = (generate_key key_codec hsm (some memory_store) (pos 0) "alice" [] new_memory_store).1

abbrev attested_store : MemoryStore
attested_store = (issue_wka codec signer decompress cfg (pos 5) "alice" [] keyed_store).1

abbrev withdrawn_store : MemoryStore
withdrawn_store = (revoke codec cfg [] "alice" attested_store).1

abbrev allocated_store : MemoryStore
allocated_store = (handle admin_lib memory_store (Route.allocate_index "ka") withdrawn_store).1

abbrev changed_store : MemoryStore
changed_store = (handle admin_lib memory_store (Route.set_status "ka" "1" []) allocated_store).1

attested_store-Reachable :
    Reachable codec signer decompress cfg admin_lib key_codec hsm attested_store
attested_store-Reachable =
    Reachable.wka (pos 5) "alice" [] keyed_store
      (Reachable.keygen (pos 0) "alice" [] new_memory_store Reachable.start)

changed_store-Reachable :
    Reachable codec signer decompress cfg admin_lib key_codec hsm changed_store
changed_store-Reachable = Reachable.administration (Route.set_status "ka" "1" []) allocated_store (
    Reachable.administration (Route.allocate_index "ka") withdrawn_store
      (Reachable.revocation [] "alice" attested_store attested_store-Reachable))

-- The attestation took an index, which the revocation wrote.
withdrawn_store-status_at :
    (status_at "ka" 0 attested_store ≡ some 0)
    × (status_at "ka" 0 withdrawn_store ≡ some status_invalid)
unfolding generate_key issue_wka attestation_request attest_keys resolve_key_jwk take_index
    pub_key_to_jwk ◌>>=◌ pure fail read require guard validate_kid lookup get_public_key
    allocate_index record_wua sign_jwt new_memory_store put_public_key insert revoke set_in
    revoke_all set_each set_status get_client_indices
withdrawn_store-status_at = (refl, refl)

Reachable-IsSound_example : IsSound changed_store
Reachable-IsSound_example =
    Reachable-IsSound codec signer decompress cfg admin_lib key_codec hsm refl (λ curve m. refl)
      changed_store changed_store-Reachable

Reachable-published_example :
    (bitstring : Bytes) × (bitstring_of (category_statuses "ka" changed_store) ≡ some bitstring)
    × ((idx : ℕ) → published idx bitstring ≡ or_zero 0 (status_at "ka" idx changed_store))
Reachable-published_example =
    Reachable-published codec signer decompress cfg admin_lib key_codec hsm refl (λ curve m. refl)
      changed_store "ka" changed_store-Reachable

Reachable-revoke-published_example :
    (before : Bytes) × (after : Bytes) × (bitstring_of (category_statuses "ka" attested_store)
      ≡ some before)
    × (bitstring_of (category_statuses "ka" withdrawn_store) ≡ some after)
    × ((idx : ℕ)
        → published idx after ≡ (
            if is_of_client "alice" "ka" attested_store idx
            then status_invalid
            else published idx before))
Reachable-revoke-published_example =
    Reachable-revoke-published codec signer decompress cfg admin_lib key_codec hsm [] "alice" "lost"
      "ka" attested_store refl (λ curve m. refl) refl attested_store-Reachable

abbrev entries : Assoc ℕ ℕ
entries = (5, 2) ∷ ((0, 1) ∷ [])

entries-Unique : Unique entries
entries-Unique = (((λ e. omega (arith, e)), tt), (tt, tt))

bitstring_of-published_example :
    (bitstring : Bytes) × (bitstring_of entries ≡ some bitstring)
    × ((idx : ℕ) → published idx bitstring ≡ or_zero 0 (lookup idx entries) % 4)
bitstring_of-published_example = bitstring_of-published entries entries-Unique

abbrev tokens : TokenLibrary
tokens = record {
  validate = λ s. some (record { user_id = s; tac = "w" });
  has_admin = λ t. t == "a";
  has_all = λ t needed. t == needed;
}

abbrev options : Options
options = record { validator = true; dev_token = "" }

abbrev http_request : HttpRequest
http_request = record { authorization = "Bearer t"; context = none }

abbrev route : Route
route = Route.set_status "ka" "0" []

serve-cases_example :
    ((verified tokens options http_request ≡ none)
      × (serve admin_lib tokens memory_store options route http_request wallet_store
          ≡ (admin_error 401, wallet_store)))
    ⊎ ((result : TokenResult) × (verified tokens options http_request ≡ some result)
        × (permits tokens (required route) result ≡ false)
        × (serve admin_lib tokens memory_store options route http_request wallet_store
            ≡ (admin_error 403, wallet_store)))
    ⊎ ((result : TokenResult) × (verified tokens options http_request ≡ some result)
        × Permitted tokens route result
        × (serve admin_lib tokens memory_store options route http_request wallet_store
            ≡ handle admin_lib memory_store route wallet_store))
serve-cases_example =
    serve-cases admin_lib tokens memory_store options route http_request wallet_store (inl refl)

serve_keeps_example :
    ((serve admin_lib tokens memory_store options route http_request wallet_store).1 ≡ wallet_store)
    ⊎ (Writes route
        × (result : TokenResult) × (verified tokens options http_request ≡ some result)
        × Permitted tokens route result)
serve_keeps_example =
    serve_keeps admin_lib tokens memory_store options route http_request wallet_store (inl refl)
