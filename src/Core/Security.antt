-- ===== src/Core/Security.antt =====
-- src/cfproxy/core/security.py: passwords, the JWT of a session, and the user behind a request.
pub mod Current
pub mod Session
use cloudflare_manual_dns.Db.{User, Database}
use cloudflare_manual_dns.Upstream.Auth.{utcnow, as_text}
use cloudflare_manual_dns.Runtime.{
  Env, World, M, pure, raise, lift, or_raise, get_world, ◌>>=◌, ◌>>◌,
}
use cloudflare_manual_dns.Common.{
  ℕ, zero, suc, ◌+◌, ◌-◌, ◌*◌, ◌/◌, ◌%◌, ◌^◌, ◌≤◌, ◌<◌, ◌≡◌, refl, sym, ap, ◌∙◌, ◌≢◌, ◌↔◌, ◌⊎◌, inl,
  inr, Bool, true, false, not, ◌&&◌, ◌||◌, Option, none, some, List, [], ◌∷◌, ◌++◌, map, arith, ltb,
  leb, nat_eq, if◌then◌else◌, nat_eq_iff, Bool-cases, Option-cases, both_true, length, take, drop,
  length-append, length-take, length-drop, take-append-drop, take-nil, take_ge, drop_ge, take-add,
  All, Any, All-append, In, all, find_first, select, change, find_first-In, find_first-none,
  select-In, ℤ, pos_part, neg_part, sub_ℕ, ◌+ℤ◌, ◌-ℤ◌, ◌*ℤ◌, neg, ltb_ℤ, leb_ℤ, eq_ℤ, floor_div,
  pos, negsuc, Str, codes, ◌==◌, eq_refl, eq_iff, ne_of_eq, eq_of_ne, mem_str, mem_str_iff,
  has_char, count_char, ends_with, cons_head, split, join, is_space, lstrip_by, keep, rstrip_by,
  strip, is_ascii, lower_char, upper_char, is_alnum_char, Codec, lower, upper, isalnum, digits_from,
  show_ℕ, digits_value, int_literal, parse_int, split-cons, join-split, join-label, ends_with_sound,
  Json, Items, Fields, truthy, lookup, or_else, get, items, field_count, py_eq, py_eq_items,
  py_eq_fields, mem_json, null, bool, int, str, arr, obj, nil, cons, end, field, Exception, Result,
  and_then, >>=-eq-ok, ok_injective, Returns, Returns-if, Returns-bind, Exec, dict_fields,
  value_error, unicode_error, attribute_error, key_error, type_error, http_error, runtime_error,
  lock_unavailable, not_found, invalid_token, unauthorized, not_authenticated, invalid_jwt,
  invalid_hash, integrity_error, out_of_fuel, ok, raised,
}

-- The claims of a session: whose it is, when it was issued and when it ends.
unfoldable pub claims_of : Str → ℕ → ℕ → Json
claims_of sub now ttl = obj (
    field (codes "sub") (str sub)
      (field (codes "iat") (int (pos now)) (field (codes "exp") (int (pos (now + ttl))) end)))

-- `select(User).where(User.id == ...)`
abbrev pub find_user : Str → List User → Option User
find_user id = find_first λ u. u.id == id

abbrev pub expire : {A : Type 0} → Result A × World → Result A × World
expire (raised invalid_jwt, w) = (raised (not_authenticated (codes "Invalid or expired token")), w)
expire (raised e, w) = (raised e, w)
expire (ok a, w) = (ok a, w)

-- `except jwt.PyJWTError`
abbrev pub or_expired : {A : Type 0} → M A → M A
or_expired m w = expire (m w)

abbrev pub if_active : Option User → M User
if_active none = raise (not_authenticated (codes "Invalid or inactive user"))
if_active (some u) =
    if u.is_active then pure u else raise (not_authenticated (codes "Invalid or inactive user"))

-- The user of the claims. A subject that is no text has no row.
unfoldable pub user_of_claims : Json → M User
user_of_claims payload = do
  claims ← lift (dict_fields payload)
  let sub = get (codes "sub") claims
  if not (truthy sub)
      then raise (not_authenticated (codes "Invalid token"))
      else (do id ← lift (as_text sub); w ← get_world; if_active (find_user id w.db.users))

module _ (env : Env) where
  unfoldable pub hash_password : Str → M Str
  hash_password pw w = (ok (env.hash_password w.trace pw), w)

  -- A mismatch is false; a hash that cannot be read is an exception.
  unfoldable pub verify_password : Str → Str → M Bool
  verify_password pw h = or_raise invalid_hash (env.password_matches h pw)

  unfoldable pub create_jwt : Str → M Str
  create_jwt sub = do
    now ← utcnow env
    pure (env.jwt_encode (claims_of sub now.seconds env.jwt_ttl_seconds) env.jwt_secret)

  unfoldable pub decode_jwt : Str → M Json
  decode_jwt token w = or_raise invalid_jwt (env.jwt_decode w.trace token env.jwt_secret) w

  -- `credentials` is the bearer token of the header, if it has one.
  unfoldable pub get_current_user : Option Str → M User
  get_current_user none = raise (not_authenticated (codes "Not authenticated"))
  get_current_user (some token) = or_expired (decode_jwt token) >>= user_of_claims
