-- ===== src/Services/Credentials.antt =====
-- src/cfproxy/services/credential_service.py: the upstream credentials of a user.
pub mod Deleted
use cloudflare_manual_dns.Db.{Datetime, UpstreamCredential, ScopedToken, Database}
use cloudflare_manual_dns.Upstream.Client.{
  Headers, forward_request, read_page, next_page, list_all_records, verify_upstream,
}
use cloudflare_manual_dns.Upstream.Auth.{
  rules_key, oauth_at_key, cache_get_json, cache_set_json, cache_del, utcnow, encrypt_secret,
  resolve_upstream_auth,
}
use cloudflare_manual_dns.Proxy.Listing.{to_items}
use cloudflare_manual_dns.Runtime.{
  committed, Env, M, pure, raise, lift, or_raise, get_world, ◌>>=◌, ◌>>◌,
}
use cloudflare_manual_dns.Common.{
  ℕ, zero, suc, ◌+◌, ◌-◌, ◌*◌, ◌/◌, ◌%◌, ◌^◌, ◌≤◌, ◌<◌, ◌≡◌, refl, sym, ap, ◌∙◌, ◌≢◌, ◌↔◌, ◌⊎◌, inl,
  inr, Bool, true, false, not, ◌&&◌, ◌||◌, Option, none, some, List, [], ◌∷◌, ◌++◌, map, arith, ltb,
  leb, nat_eq, if◌then◌else◌, nat_eq_iff, Bool-cases, Option-cases, both_true, length, take, drop,
  length-append, length-take, length-drop, take-append-drop, take-nil, take_ge, drop_ge, take-add,
  All, Any, All-append, In, all, find_first, select, change, find_first-In, find_first-none,
  select-In, change-In, In-append_last, find_first-append, none_first, find_first-head, ℤ, pos_part,
  neg_part, sub_ℕ, ◌+ℤ◌, ◌-ℤ◌, ◌*ℤ◌, neg, ltb_ℤ, leb_ℤ, eq_ℤ, floor_div, pos, negsuc, Str, codes,
  ◌==◌, eq_refl, eq_iff, ne_of_eq, eq_of_ne, mem_str, mem_str_iff, has_char, count_char, ends_with,
  cons_head, split, join, is_space, lstrip_by, keep, rstrip_by, strip, is_ascii, lower_char,
  upper_char, is_alnum_char, Codec, lower, upper, isalnum, digits_from, show_ℕ, digits_value,
  int_literal, parse_int, split-cons, join-split, join-label, ends_with_sound, Json, Items, Fields,
  truthy, lookup, or_else, get, items, field_count, py_eq, py_eq_items, py_eq_fields, mem_json,
  null, bool, int, str, arr, obj, nil, cons, end, field, Exception, Result, and_then, >>=-eq-ok,
  ok_injective, Returns, Returns-if, Returns-bind, Exec, dict_fields, dict_fields-ok, value_error,
  unicode_error, attribute_error, key_error, type_error, http_error, runtime_error,
  lock_unavailable, not_found, invalid_token, credential_not_found, token_not_found, unauthorized,
  not_authenticated, invalid_jwt, invalid_hash, integrity_error, out_of_fuel, ok, raised,
}

-- redis.py: `zones_key`
abbrev pub zones_key : Str → Str
zones_key cred_id = codes "zones:" ++ cred_id

-- `select(UpstreamCredential).where(id == ..., user_id == ...)`
unfoldable pub find_owned : Str → Str → List UpstreamCredential → Option UpstreamCredential
find_owned user_id id [] = none
find_owned user_id id (c ∷ cs) =
    if c.id == id && c.user_id == user_id then some c else find_owned user_id id cs

unfoldable pub get_owned_credential : Str → Str → M UpstreamCredential
get_owned_credential user_id credential_id = do
  w ← get_world
  or_raise (credential_not_found credential_id) (find_owned user_id credential_id w.db.credentials)

-- The session's changes, committed.
abbrev pub commit : (Database → Database) → M (Unit {0})
commit f w = (ok tt, record w { trace = committed ∷ w.trace; db = f w.db })

-- The unique columns `user_id` and `label`.
abbrev pub labelled : Str → Str → UpstreamCredential → Bool
labelled user_id label c = c.user_id == user_id && c.label == label

abbrev pub unless_labelled : Option UpstreamCredential → Result (Unit {0})
unless_labelled none = ok tt
unless_labelled (some c) = raised integrity_error

-- An argument that is missing or empty is false.
unfoldable pub given : Option Str → Bool
given none = false
given (some []) = false
given (some (d ∷ s)) = true

abbrev pub text_of : Option Str → Str
text_of none = []
text_of (some s) = s

unfoldable pub owned_by : Str → List UpstreamCredential → List UpstreamCredential
owned_by user_id [] = []
owned_by user_id (c ∷ cs) =
    let rest = owned_by user_id cs in if c.user_id == user_id then c ∷ rest else rest

unfoldable pub list_credentials : Str → M (List UpstreamCredential)
list_credentials user_id = do w ← get_world; pure (owned_by user_id w.db.credentials)

-- The row of this id, changed.
unfoldable pub change_credential :
    Str
    → (UpstreamCredential → UpstreamCredential)
    → List UpstreamCredential
    → List UpstreamCredential
change_credential id f [] = []
change_credential id f (c ∷ cs) = (if c.id == id then f c else c) ∷ change_credential id f cs

unfoldable pub remove_credential : Str → List UpstreamCredential → List UpstreamCredential
remove_credential id [] = []
remove_credential id (c ∷ cs) =
    let rest = remove_credential id cs in if c.id == id then rest else c ∷ rest

-- A token of the credential that is still active is revoked.
unfoldable pub depends : Str → ScopedToken → Bool
depends credential_id t = t.upstream_credential_id == credential_id && t.status == codes "active"

abbrev pub revoked : Datetime → ScopedToken → ScopedToken
revoked now t = record t {
  status = codes "revoked";
  revoked_at = some now;
  version = suc t.version;
}

unfoldable pub revoke_dependents : Str → Datetime → List ScopedToken → List ScopedToken
revoke_dependents credential_id now [] = []
revoke_dependents credential_id now (t ∷ ts) =
    (if depends credential_id t then revoked now t else t) ∷ revoke_dependents credential_id now ts

-- `json.dumps({"email": ..., "key": ...})`
abbrev pub key_pair : Str → Str → Json
key_pair email key = obj (field (codes "email") (str email) (field (codes "key") (str key) end))

-- `result.get("email")` of a dict, where it is true; the column takes a text alone.
unfoldable pub email_of : Json → Option Str → Result (Option Str)
email_of (obj fs) old = new_email (get (codes "email") fs)
  where
    new_email : Json → Result (Option Str)
    new_email (str (d ∷ s)) = ok (some (d ∷ s))
    new_email v = if truthy v then raised type_error else ok old
email_of v old = ok old

module _ (env : Env) where
  -- What is encrypted, by the type of the credential.
  unfoldable pub secret_plain : Str → Option Str → Option Str → Option Str → Result Str
  secret_plain cred_type api_token global_key cf_account_email =
      if not (cred_type == codes "token" || cred_type == codes "global_key")
      then raised (value_error (codes "unsupported cred_type"))
      else if cred_type == codes "token"
      then (if given api_token
          then ok (text_of api_token)
          else raised (value_error (codes "api_token is required")))
      else if given global_key && given cf_account_email
      then ok (env.dumps (key_pair (text_of cf_account_email) (text_of global_key)))
      else raised (value_error (codes "global_key and cf_account_email are required"))

  unfoldable pub register_credential :
      Str → Str → Str → Option Str → Option Str → Option Str → M UpstreamCredential
  register_credential user_id label cred_type api_token global_key cf_account_email = do
    secret ← lift (secret_plain cred_type api_token global_key cf_account_email)
    secret_enc ← encrypt_secret env secret
    now ← utcnow env
    w ← get_world
    let credential : UpstreamCredential = record {
      id = env.new_uuid w.trace 0;
      user_id = user_id;
      label = label;
      cred_type = cred_type;
      secret_enc = some secret_enc;
      access_token_enc = none;
      refresh_token_enc = none;
      token_expires_at = none;
      oauth_scopes = none;
      key_version = 1;
      cred_version = 1;
      cf_account_email = cf_account_email;
      verify_status = none;
      verified_at = none;
      created_at = now;
    }
    lift (unless_labelled (find_first (labelled user_id label) w.db.credentials))
    commit (λ db. record db { credentials = db.credentials ++ credential ∷ [] })
    pure credential

  -- The row with the outcome of the call, from the envelope's fields.
  unfoldable pub verified : Fields → Datetime → Option Str → UpstreamCredential → UpstreamCredential
  verified envelope now email c = record c {
    verify_status =
        some (if truthy (get (codes "success") envelope) then codes "active" else codes "invalid");
    verified_at = some now;
    cf_account_email = email;
  }

  unfoldable pub verify_credential : Str → Str → M UpstreamCredential
  verify_credential user_id credential_id = do
    credential ← get_owned_credential user_id credential_id
    auth_headers ← resolve_upstream_auth env credential
    v ← verify_upstream env auth_headers
    envelope ← lift (dict_fields v)
    now ← utcnow env
    email ← lift (email_of (get (codes "result") envelope) credential.cf_account_email)
    commit (λ db. record db {
      credentials = change_credential credential_id (verified envelope now email) db.credentials;
    })
    get_owned_credential user_id credential_id

  -- The cached rules of the tokens that are revoked.
  unfoldable pub drop_rules : Str → List ScopedToken → M (Unit {0})
  drop_rules credential_id [] = pure tt
  drop_rules credential_id (t ∷ ts) =
      let rest = drop_rules credential_id ts in
      if depends credential_id t
      then cache_del env (rules_key t.lookup_id t.version) >> rest
      else rest

  -- What is done once the owner is known; the clock is read once, and each key is deleted by itself.
  unfoldable pub erase_credential : Str → M (Unit {0})
  erase_credential credential_id = do
    w ← get_world
    now ← utcnow env
    drop_rules credential_id w.db.tokens
    cache_del env (oauth_at_key credential_id)
    cache_del env (zones_key credential_id)
    commit (λ db. record db {
      tokens = revoke_dependents credential_id now db.tokens;
      credentials = remove_credential credential_id db.credentials;
    })

  unfoldable pub delete_credential : Str → Str → M (Unit {0})
  delete_credential user_id credential_id =
      get_owned_credential user_id credential_id >>= λ _. erase_credential credential_id

  -- The loop over the zones, on fuel.
  unfoldable pub zones_from : ℕ → Headers → ℕ → List Json → M (List Json)
  zones_from zero auth_headers page zones = raise out_of_fuel
  zones_from (suc fuel) auth_headers page zones = do
    response ←
        forward_request env (codes "GET") (codes "/client/v4/zones") []
          ((codes "page", show_ℕ page) ∷ (codes "per_page", codes "50") ∷ []) none auth_headers
    (new, total) ← lift (read_page env response)
    next_page (leb_ℤ total (pos page)) (zones ++ new)
        (zones_from fuel auth_headers (suc page) (zones ++ new))

  abbrev fetch_zones : ℕ → UpstreamCredential → Str → M Json
  fetch_zones fuel credential key = do
    auth_headers ← resolve_upstream_auth env credential
    zones ← zones_from fuel auth_headers 1 []
    cache_set_json env key (arr (to_items zones))
    pure (arr (to_items zones))

  -- A cached `null` is a miss too.
  abbrev cached_zones : ℕ → UpstreamCredential → Str → Option Json → M Json
  cached_zones fuel credential key none = fetch_zones fuel credential key
  cached_zones fuel credential key (some null) = fetch_zones fuel credential key
  cached_zones fuel credential key (some v) = pure v

  unfoldable pub list_credential_zones : ℕ → Str → Str → M Json
  list_credential_zones fuel user_id credential_id = do
    credential ← get_owned_credential user_id credential_id
    cached ← cache_get_json env (zones_key credential_id)
    cached_zones fuel credential (zones_key credential_id) cached

  unfoldable pub list_credential_zone_records :
      ℕ → Str → Str → Str → List (Str × Str) → M (List Json)
  list_credential_zone_records fuel user_id credential_id zone_id params = do
    credential ← get_owned_credential user_id credential_id
    auth_headers ← resolve_upstream_auth env credential
    list_all_records env fuel zone_id params auth_headers
