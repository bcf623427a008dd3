-- ===== src/Routers/Account.antt =====
-- src/cfproxy/routers/auth.py: local accounts, and the login at Cloudflare.
pub mod RoundTrip
pub mod Unique
use cloudflare_manual_dns.Core.Envelopes.{Reply, make_response}
use cloudflare_manual_dns.Core.Security.{
  hash_password, verify_password, create_jwt, get_current_user,
}
use cloudflare_manual_dns.Db.{Datetime, User, Database}
use cloudflare_manual_dns.Db.Users.{has_email, write_user}
use cloudflare_manual_dns.Services.Credentials.{commit}
use cloudflare_manual_dns.Services.Login.{start_cf_oauth_login, handle_cf_oauth_callback}
use cloudflare_manual_dns.Routers.Replies.{bearer_token, user_response_data, or_bad_request}
use cloudflare_manual_dns.Runtime.{Env, World, M, pure, raise, lift, get_world, ◌>>=◌, ◌>>◌}
use cloudflare_manual_dns.Common.{
  ℕ, zero, suc, ◌+◌, ◌-◌, ◌*◌, ◌/◌, ◌%◌, ◌^◌, ◌≤◌, ◌<◌, ◌≡◌, refl, sym, ap, ◌∙◌, ◌≢◌, ◌↔◌, ◌⊎◌, inl,
  inr, Bool, true, false, not, ◌&&◌, ◌||◌, Option, none, some, List, [], ◌∷◌, ◌++◌, map, arith, ltb,
  leb, nat_eq, if◌then◌else◌, nat_eq_iff, Bool-cases, Option-cases, both_true, length, take, drop,
  length-append, length-take, length-drop, take-append-drop, take-nil, take_ge, drop_ge, take-add,
  All, Any, All-append, In, all, find_first, select, change, find_first-In, find_first-none,
  select-In, change-In, In-append_last, ℤ, pos_part, neg_part, sub_ℕ, ◌+ℤ◌, ◌-ℤ◌, ◌*ℤ◌, neg, ltb_ℤ,
  leb_ℤ, eq_ℤ, floor_div, pos, negsuc, Str, codes, ◌==◌, eq_refl, eq_iff, ne_of_eq, eq_of_ne,
  mem_str, mem_str_iff, has_char, count_char, ends_with, cons_head, split, join, is_space,
  lstrip_by, keep, rstrip_by, strip, is_ascii, lower_char, upper_char, is_alnum_char, Codec, lower,
  upper, isalnum, digits_from, show_ℕ, digits_value, int_literal, parse_int, split-cons, join-split,
  join-label, ends_with_sound, Json, Items, Fields, truthy, lookup, or_else, get, items,
  field_count, py_eq, py_eq_items, py_eq_fields, mem_json, null, bool, int, str, arr, obj, nil,
  cons, end, field, Exception, Result, and_then, >>=-eq-ok, ok_injective, Returns, Returns-if,
  Returns-bind, Exec, dict_fields, value_error, unicode_error, attribute_error, key_error,
  type_error, http_error, runtime_error, lock_unavailable, not_found, invalid_token,
  credential_not_found, token_not_found, unauthorized, not_authenticated, invalid_jwt, invalid_hash,
  integrity_error, out_of_fuel, ok, raised,
}

-- `RegisterRequest`, and `LoginRequest`
pub record AccountRequest : Type 0 where
  pub email : Str
  pub password : Str

pub record Redirect : Type 0 where
  pub status_code : ℕ
  pub url : Str

abbrev pub local_user : Str → Str → Str → Datetime → User
local_user id email password_hash now = record {
  id = id;
  email = some email;
  password_hash = some password_hash;
  auth_provider = codes "local";
  cf_sub = none;
  is_active = true;
  created_at = now;
  updated_at = now;
}

-- Every refusal of a login is this one.
abbrev pub refused_login : Reply
refused_login = make_response 401 (codes "Invalid email or password") null

abbrev pub logged_in : User × Str → M Reply
logged_in (user, jwt) =
    pure (make_response 200 (codes "Cloudflare login successful") (bearer_token jwt))

module _ (env : Env) where
  -- `session.add(user)` and the commit, where the unique columns let it be.
  abbrev pub add_user : User → M (Unit {0})
  add_user user = do
    w ← get_world
    users ← lift (write_user true user w.db.users)
    commit (λ db. record db { users = users })

  abbrev pub register_new : AccountRequest → Option User → M Reply
  register_new body (some u) = pure (make_response 409 (codes "Email already registered") null)
  register_new body none = do
    password_hash ← hash_password env body.password
    w ← get_world
    let now : Datetime = record { aware = true; seconds = env.now w.trace }
    let user = local_user (env.new_uuid w.trace 0) body.email password_hash now
    add_user user
    pure (make_response 201 (codes "User registered") (user_response_data env user))

  unfoldable pub register : AccountRequest → M Reply
  register body w = register_new body (find_first (has_email body.email) w.db.users) w

  abbrev pub login_with : User → Bool → M Reply
  login_with u false = pure refused_login
  login_with u true = do
    jwt ← create_jwt env u.id
    pure (make_response 200 (codes "Login successful") (bearer_token jwt))

  abbrev pub login_by_hash : Str → User → Option Str → M Reply
  login_by_hash password u none = pure refused_login
  login_by_hash password u (some h) =
      if not u.is_active
      then pure refused_login
      else verify_password env password h >>= login_with u

  abbrev pub login_as : Str → Option User → M Reply
  login_as password none = pure refused_login
  login_as password (some u) = login_by_hash password u u.password_hash

  unfoldable pub login : AccountRequest → M Reply
  login body w = login_as body.password (find_first (has_email body.email) w.db.users) w

  unfoldable pub read_me : Option Str → M Reply
  read_me bearer = do
    user ← get_current_user env bearer
    pure (make_response 200 (codes "Current user") (user_response_data env user))

  unfoldable pub cf_login : M Redirect
  cf_login = do url ← start_cf_oauth_login env; pure (record { status_code = 302; url = url })

  unfoldable pub cf_callback : Str → Str → M Reply
  cf_callback code state = or_bad_request (handle_cf_oauth_callback env code state >>= logged_in)
