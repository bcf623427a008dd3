-- ===== src/Services/Login.antt =====
-- src/cfproxy/services/oauth_service.py: the login at Cloudflare, from the redirect to the session.
pub mod Kept
pub mod SingleUse
pub mod Stored
pub mod Authenticated
pub mod Tests
use cloudflare_manual_dns.Db.{Datetime, User, UpstreamCredential}
use cloudflare_manual_dns.Db.Users.{has_sub, write_user}
use cloudflare_manual_dns.Upstream.Client.{subscript, or_key_error}
use cloudflare_manual_dns.Upstream.Auth.{
  find_key, drop_key, cache_set_json, utcnow, encodable, encrypt_secret, expiry, as_text,
}
use cloudflare_manual_dns.Auth.OauthCf.{
  is_null, draw_urlsafe, make_pkce, build_authorize_url, exchange_code, validate_id_token,
}
use cloudflare_manual_dns.Core.Security.{create_jwt}
use cloudflare_manual_dns.Services.Credentials.{commit, given, labelled}
use cloudflare_manual_dns.Runtime.{uncached, Env, M, pure, raise, lift, get_world, ◌>>=◌, ◌>>◌}
use cloudflare_manual_dns.Common.{
  ℕ, zero, suc, ◌+◌, ◌-◌, ◌*◌, ◌/◌, ◌%◌, ◌^◌, ◌≤◌, ◌<◌, ◌≡◌, refl, sym, ap, ◌∙◌, ◌≢◌, ◌↔◌, ◌⊎◌, inl,
  inr, Bool, true, false, not, ◌&&◌, ◌||◌, Option, none, some, List, [], ◌∷◌, ◌++◌, map, arith, ltb,
  leb, nat_eq, if◌then◌else◌, nat_eq_iff, Bool-cases, Option-cases, both_true, length, take, drop,
  length-append, length-take, length-drop, take-append-drop, take-nil, take_ge, drop_ge, take-add,
  All, Any, All-append, In, all, find_first, select, change, find_first-In, find_first-none,
  select-In, change-In, In-append_last, ℤ, pos_part, neg_part, sub_ℕ, ◌+ℤ◌, ◌-ℤ◌, ◌*ℤ◌, neg, ltb_ℤ,
  leb_ℤ, eq_ℤ, floor_div, pos, negsuc, Str, codes, ◌==◌, eq_refl, eq_iff, ne_of_eq, eq_of_ne,
  mem_str, mem_str_iff, has_char, count_char, ends_with, cons_head, split, join, is_space,
  lstrip_by, keep, rstrip_by, strip, is_ascii, lower_char, upper_char, is_alnum_char, Codec, lower,
  upper, isalnum, digits_from, show_ℕ, digits_value, int_literal, parse_int, split-cons, join-split,
  join-label, ends_with_sound, Json, Items, Fields, truthy, lookup, or_else, get, items,
  field_count, py_eq, py_eq_items, py_eq_fields, mem_json, null, bool, int, str, arr, obj, nil,
  cons, end, field, Exception, Result, and_then, >>=-eq-ok, ok_injective, Returns, Returns-if,
  Returns-bind, Exec, dict_fields, value_error, unicode_error, attribute_error, key_error,
  type_error, http_error, runtime_error, lock_unavailable, not_found, invalid_token,
  credential_not_found, token_not_found, unauthorized, not_authenticated, invalid_jwt, invalid_hash,
  integrity_error, out_of_fuel, ok, raised,
}

-- redis.py: `oauth_state_key`
abbrev pub oauth_state_key : Str → Str
oauth_state_key state = codes "oauth_state:" ++ state

abbrev pub oauth_credential_label : Str
oauth_credential_label = codes "cloudflare-oauth"

abbrev pub login_state : Str → Str → Json
login_state verifier nonce =
    obj (field (codes "verifier") (str verifier) (field (codes "nonce") (str nonce) end))

-- A nullable text column.
abbrev pub nullable : Json → Result (Option Str)
nullable null = ok none
nullable v = and_then (as_text v) λ s. ok (some s)

-- The outcome of `json.loads`.
abbrev pub decoded_json : Option Json → M Json
decoded_json none = raise (value_error (codes "JSONDecodeError"))
decoded_json (some v) = pure v

abbrev pub is_none {ℓ} : {A : Type ℓ} → Option A → Bool
is_none none = true
is_none (some a) = false

-- The row of the user: a new one, or the old one with the email of the claims, if they have one.
unfoldable pub user_row : Str → Str → Option Str → Datetime → Option User → User
user_row id cf_sub email now none = record {
  id = id;
  email = email;
  password_hash = none;
  auth_provider = codes "cloudflare_oauth";
  cf_sub = some cf_sub;
  is_active = true;
  created_at = now;
  updated_at = now;
}
user_row id cf_sub email now (some u) =
    if given email then record u { email = email; updated_at = now } else u

-- The row of the credential before its secrets are written.
unfoldable pub credential_row :
    Str → Str → Option Str → Datetime → Option UpstreamCredential → UpstreamCredential
credential_row id user_id scope now none = record {
  id = id;
  user_id = user_id;
  label = oauth_credential_label;
  cred_type = codes "oauth";
  secret_enc = none;
  access_token_enc = none;
  refresh_token_enc = none;
  token_expires_at = none;
  oauth_scopes = scope;
  key_version = 1;
  cred_version = 1;
  cf_account_email = none;
  verify_status = none;
  verified_at = none;
  created_at = now;
}
credential_row id user_id scope now (some c) = record c {
  oauth_scopes = (if given scope then scope else c.oauth_scopes);
  cred_version = suc c.cred_version;
}

unfoldable pub store_credential :
    Bool → UpstreamCredential → List UpstreamCredential → List UpstreamCredential
store_credential is_new c cs =
    if is_new then cs ++ c ∷ [] else change (λ x. x.id == c.id) (λ _. c) cs

module _ (env : Env) where
  unfoldable pub start_cf_oauth_login : M Str
  start_cf_oauth_login = do
    (verifier, challenge) ← make_pkce env
    state ← draw_urlsafe env 32
    nonce ← draw_urlsafe env 16
    cache_set_json env (oauth_state_key state) (login_state verifier nonce)
    pure (build_authorize_url env state nonce challenge)

  -- GETDEL; an error of the store is `none`.
  unfoldable pub cache_getdel : Str → M (Option Str)
  cache_getdel key w =
      if env.cache_answers w.trace
      then (
        ok (find_key key w.cache),
        record w { trace = uncached key ∷ w.trace; cache = drop_key key w.cache },
      )
      else (ok none, w)

  abbrev pub stored_state : Option Str → M Json
  stored_state none = pure null
  stored_state (some raw) = decoded_json (env.loads raw)

  -- `_consume_oauth_state`; `null` is `None`.
  unfoldable pub consume_oauth_state : Str → M Json
  consume_oauth_state state = cache_getdel (oauth_state_key state) >>= stored_state

  -- `encrypt_secret(v)` for a value that is not empty; the old ciphertext stays otherwise.
  abbrev pub encrypted_or : Option Str → Json → M (Option Str)
  encrypted_or old v =
      if truthy v
      then (do
        plaintext ← lift (encodable v)
        ciphertext ← encrypt_secret env plaintext
        pure (some ciphertext))
      else pure old

  -- `claims["sub"]` and `claims.get("email")`
  unfoldable pub login_claims : Fields → Result (Str × Option Str)
  login_claims claims =
      and_then (and_then (or_key_error (lookup (codes "sub") claims)) as_text)
        λ cf_sub. and_then (nullable (get (codes "email") claims)) λ email. ok (cf_sub, email)

  -- The credential of the consent, with its secrets, and whether it is a new one.
  unfoldable pub login_credential : Fields → Datetime → User → M (Bool × UpstreamCredential)
  login_credential tokens now user = do
    w ← get_world
    let old = find_first (labelled user.id oauth_credential_label) w.db.credentials
    expires ← lift (expiry now (get (codes "expires_in") tokens))
    scope ← lift (nullable (get (codes "scope") tokens))
    let row = credential_row (env.new_uuid w.trace 1) user.id scope now old
    access_enc ← encrypted_or row.access_token_enc (get (codes "access_token") tokens)
    refresh_enc ← encrypted_or row.refresh_token_enc (get (codes "refresh_token") tokens)
    pure (
      is_none old,
      record row {
        access_token_enc = access_enc;
        refresh_token_enc = refresh_enc;
        token_expires_at = expires;
      },
    )

  abbrev pub commit_login : User → List User → Bool × UpstreamCredential → M User
  commit_login user users (is_new, credential) =
      commit (λ db. record db {
        users = users;
        credentials = store_credential is_new credential db.credentials;
      })
      >> pure user

  abbrev pub store_both : Fields → Datetime → User → List User → M User
  store_both tokens now user users = login_credential tokens now user >>= commit_login user users

  abbrev pub upsert : Fields → Datetime → Option User → User → M User
  upsert tokens now old user w =
      (lift (write_user (is_none old) user w.db.users) >>= store_both tokens now user) w

  -- The user of the claims and the credential of the consent are stored, in one commit.
  abbrev pub store_for : Fields → Str × Option Str → M User
  store_for tokens (cf_sub, email) w =
      let now : Datetime = record { aware = true; seconds = env.now w.trace } in
      let old = find_first (has_sub cf_sub) w.db.users in
      upsert tokens now old (user_row (env.new_uuid w.trace 0) cf_sub email now old) w

  unfoldable pub store_login : Fields → Fields → M User
  store_login tokens claims = lift (login_claims claims) >>= store_for tokens

  abbrev pub open_session : User → M (User × Str)
  open_session user = create_jwt env user.id >>= λ jwt. pure (user, jwt)

  abbrev pub with_claims : Fields → Fields → M (User × Str)
  with_claims tokens claims = store_login tokens claims >>= open_session

  abbrev pub with_tokens : Str → Json → Fields → M (User × Str)
  with_tokens code stored tokens =
      if not (truthy (get (codes "id_token") tokens))
      then raise (value_error (codes "token response is missing id_token"))
      else lift (subscript stored (codes "nonce")) >>= λ nonce.
          validate_id_token env (get (codes "id_token") tokens) nonce
            (get (codes "access_token") tokens) (str code)
          >>= with_claims tokens

  abbrev pub with_verifier : Str → Json → Str → M (User × Str)
  with_verifier code stored verifier = exchange_code env code verifier >>= λ tokens.
      lift (dict_fields tokens) >>= with_tokens code stored

  abbrev pub with_state : Str → Json → M (User × Str)
  with_state code stored =
      if is_null stored
      then raise (value_error (codes "invalid or expired oauth state"))
      else lift (and_then (subscript stored (codes "verifier")) as_text)
        >>= with_verifier code stored

  unfoldable pub handle_cf_oauth_callback : Str → Str → M (User × Str)
  handle_cf_oauth_callback code state = consume_oauth_state state >>= with_state code
