-- ===== src/Auth/ProxyAuth.antt =====
-- src/cfproxy/auth/proxy_auth.py: a scoped token is resolved into the context of its request, with
-- the rules from the cache or the database.
pub mod Resolved
pub mod Cached
use cloudflare_manual_dns.Authz.Scope.{Rule}
use cloudflare_manual_dns.Core.Crypto.{parse_scoped_token, verify_token}
use cloudflare_manual_dns.Db.{Datetime, UpstreamCredential, ScopedToken, ScopeRule, before}
use cloudflare_manual_dns.Upstream.Client.{characters, field_names}
use cloudflare_manual_dns.Upstream.Auth.{
  rules_key, cache_get_json, cache_set_json, utcnow, find_credential,
}
use cloudflare_manual_dns.Proxy.Audit.{ProxyAuthContext}
use cloudflare_manual_dns.Proxy.Listing.{to_items}
use cloudflare_manual_dns.Runtime.{Env, M, pure, raise, lift, get_world, ◌>>=◌, ◌>>◌}
use cloudflare_manual_dns.Common.{
  ℕ, zero, suc, ◌+◌, ◌-◌, ◌*◌, ◌/◌, ◌%◌, ◌^◌, ◌≤◌, ◌<◌, ◌≡◌, refl, sym, ap, ◌∙◌, ◌≢◌, ◌↔◌, ◌⊎◌, inl,
  inr, Bool, true, false, not, ◌&&◌, ◌||◌, Option, none, some, List, [], ◌∷◌, ◌++◌, map, arith, ltb,
  leb, nat_eq, if◌then◌else◌, nat_eq_iff, Bool-cases, Option-cases, both_true, length, take, drop,
  length-append, length-take, length-drop, take-append-drop, take-nil, take_ge, drop_ge, take-add,
  All, Any, All-append, In, all, ℤ, pos_part, neg_part, sub_ℕ, ◌+ℤ◌, ◌-ℤ◌, ◌*ℤ◌, neg, ltb_ℤ, leb_ℤ,
  eq_ℤ, floor_div, pos, negsuc, Str, codes, ◌==◌, eq_refl, eq_iff, ne_of_eq, eq_of_ne, mem_str,
  mem_str_iff, has_char, count_char, ends_with, cons_head, split, join, is_space, lstrip_by, keep,
  rstrip_by, strip, is_ascii, lower_char, upper_char, is_alnum_char, Codec, lower, upper, isalnum,
  digits_from, show_ℕ, digits_value, int_literal, parse_int, split-cons, join-split, join-label,
  ends_with_sound, Json, Items, Fields, truthy, lookup, or_else, get, items, field_count, py_eq,
  py_eq_items, py_eq_fields, mem_json, null, bool, int, str, arr, obj, nil, cons, end, field,
  Exception, Result, and_then, >>=-eq-ok, ok_injective, Returns, Returns-if, Returns-bind, Exec,
  dict_fields, value_error, unicode_error, attribute_error, key_error, type_error, http_error,
  runtime_error, lock_unavailable, not_found, invalid_token, unauthorized, out_of_fuel, ok, raised,
}

abbrev pub optional_text : Option Str → Json
optional_text none = null
optional_text (some s) = str s

abbrev pub texts : List Str → Json
texts ss = arr (to_items (map str ss))

abbrev pub optional_texts : Option (List Str) → Json
optional_texts none = null
optional_texts (some ss) = texts ss

-- `_rule_to_cache_dict`
unfoldable pub rule_to_cache_dict : Rule → Json
rule_to_cache_dict r = obj (
    field (codes "zone_id") (str r.zone_id) (
      field (codes "name_pattern") (optional_text r.name_pattern) (
        field (codes "name_match") (str r.name_match) (
          field (codes "record_types") (texts r.record_types) (
            field (codes "record_ids") (optional_texts r.record_ids) (
              field (codes "allow_read") (bool r.allow_read) (
                field (codes "allow_create") (bool r.allow_create) (
                  field (codes "allow_write") (bool r.allow_write)
                    (field (codes "allow_delete") (bool r.allow_delete) end)))))))))

-- The attributes of the namespace: one that is missing, or of another type than the rules have, is
-- an exception here already.
unfoldable pub as_str : Option Json → Result Str
as_str (some (str s)) = ok s
as_str _ = raised attribute_error

unfoldable pub as_bool : Option Json → Result Bool
as_bool (some (bool b)) = ok b
as_bool _ = raised attribute_error

unfoldable pub as_optional_str : Option Json → Result (Option Str)
as_optional_str (some null) = ok none
as_optional_str (some (str s)) = ok (some s)
as_optional_str _ = raised attribute_error

unfoldable pub as_strs : List Json → Result (List Str)
as_strs [] = ok []
as_strs (str s ∷ vs) = and_then (as_strs vs) λ ss. ok (s ∷ ss)
as_strs (v ∷ vs) = raised attribute_error

unfoldable pub as_texts : Option Json → Result (List Str)
as_texts (some (arr vs)) = as_strs (items vs)
as_texts _ = raised attribute_error

unfoldable pub as_optional_texts : Option Json → Result (Option (List Str))
as_optional_texts (some null) = ok none
as_optional_texts v = and_then (as_texts v) λ ss. ok (some ss)

unfoldable pub rule_of_fields : Fields → Result Rule
rule_of_fields fs = and_then (as_str (lookup (codes "zone_id") fs)) λ zone_id.
    and_then (as_optional_str (lookup (codes "name_pattern") fs)) λ name_pattern.
      and_then (as_str (lookup (codes "name_match") fs)) λ name_match.
        and_then (as_texts (lookup (codes "record_types") fs)) λ record_types.
          and_then (as_optional_texts (lookup (codes "record_ids") fs)) λ record_ids.
            and_then (as_bool (lookup (codes "allow_read") fs)) λ allow_read.
              and_then (as_bool (lookup (codes "allow_create") fs)) λ allow_create.
                and_then (as_bool (lookup (codes "allow_write") fs)) λ allow_write.
                  and_then (as_bool (lookup (codes "allow_delete") fs)) λ allow_delete. ok (record {
                    zone_id = zone_id;
                    name_pattern = name_pattern;
                    name_match = name_match;
                    record_types = record_types;
                    record_ids = record_ids;
                    allow_read = allow_read;
                    allow_create = allow_create;
                    allow_write = allow_write;
                    allow_delete = allow_delete;
                  })

-- `_cache_dict_to_rule`: `**data` wants a dict.
unfoldable pub cache_dict_to_rule : Json → Result Rule
cache_dict_to_rule (obj fs) = rule_of_fields fs
cache_dict_to_rule _ = raised type_error

unfoldable pub rules_of_items : List Json → Result (List Rule)
rules_of_items [] = ok []
rules_of_items (v ∷ vs) =
    and_then (cache_dict_to_rule v) λ r. and_then (rules_of_items vs) λ rs. ok (r ∷ rs)

-- What a comprehension takes from a value.
unfoldable pub elements : Json → Result (List Json)
elements (arr vs) = ok (items vs)
elements (obj fs) = ok (field_names fs)
elements (str s) = ok (characters s)
elements _ = raised type_error

-- `select(ScopeRule).where(ScopeRule.scoped_token_id == ...)`
unfoldable pub rules_of_token : Str → List ScopeRule → List Rule
rules_of_token token_id [] = []
rules_of_token token_id (r ∷ rs) =
    let rest = rules_of_token token_id rs in
    if r.scoped_token_id == token_id then r.rule ∷ rest else rest

-- `select(ScopedToken).where(ScopedToken.lookup_id == ...)`; the column is unique.
unfoldable pub find_by_lookup : Str → List ScopedToken → Option ScopedToken
find_by_lookup lookup_id [] = none
find_by_lookup lookup_id (t ∷ ts) =
    if t.lookup_id == lookup_id then some t else find_by_lookup lookup_id ts

-- `expires_at is not None and expires_at < now`
unfoldable pub is_expired : Option Datetime → Datetime → Result Bool
is_expired none now = ok false
is_expired (some expires_at) now = before expires_at now

module _ (env : Env) where
  unfoldable pub rules_from_db : ScopedToken → M (List Rule)
  rules_from_db token = do
    w ← get_world
    let rules = rules_of_token token.id w.db.rules
    cache_set_json env (rules_key token.lookup_id token.version)
        (arr (to_items (map rule_to_cache_dict rules)))
    pure rules

  -- A cached `null` is a miss too.
  abbrev pub rules_from_cache : ScopedToken → Option Json → M (List Rule)
  rules_from_cache token none = rules_from_db token
  rules_from_cache token (some null) = rules_from_db token
  rules_from_cache token (some v) = lift (and_then (elements v) rules_of_items)

  -- `_load_rules`
  unfoldable pub load_rules : ScopedToken → M (List Rule)
  load_rules token = do
    cached ← cache_get_json env (rules_key token.lookup_id token.version)
    rules_from_cache token cached

  abbrev pub with_credential : ScopedToken → Option UpstreamCredential → M (Option ProxyAuthContext)
  with_credential token none = pure none
  with_credential token (some credential) = do
    rules ← load_rules token
    pure (some (record { token = token; rules = rules; credential = credential }))

  abbrev pub unless_expired : ScopedToken → Bool → M (Option ProxyAuthContext)
  unless_expired token true = pure none
  unless_expired token false = do
    w ← get_world
    with_credential token (find_credential token.upstream_credential_id w.db.credentials)

  unfoldable pub check_token : Str → ScopedToken → M (Option ProxyAuthContext)
  check_token full_token token =
      if not (verify_token env full_token token.token_hash)
      then pure none
      else if not (token.status == codes "active")
      then pure none
      else (do
        now ← utcnow env
        expired ← lift (is_expired token.expires_at now)
        unless_expired token expired)

  abbrev pub with_token : Str → Option ScopedToken → M (Option ProxyAuthContext)
  with_token full_token none = pure none
  with_token full_token (some token) = check_token full_token token

  abbrev pub with_parts : Str → Option (Str × Str) → M (Option ProxyAuthContext)
  with_parts full_token none = pure none
  with_parts full_token (some (lookup_id, secret)) = do
    w ← get_world
    with_token full_token (find_by_lookup lookup_id w.db.tokens)

  unfoldable pub resolve_scoped_token : Str → M (Option ProxyAuthContext)
  resolve_scoped_token full_token = with_parts full_token (parse_scoped_token env.codec full_token)

-- `s.partition(" ")`, without the separator
unfoldable pub partition_space : Str → Str × Str
partition_space [] = ([], [])
partition_space (d ∷ s) =
    let rest = partition_space s in if nat_eq d b' ' then ([], s) else (d ∷ rest.0, rest.1)

abbrev pub or_empty : Option Str → Str
or_empty none = []
or_empty (some s) = s

abbrev pub or_unauthorized : Option ProxyAuthContext → M ProxyAuthContext
or_unauthorized none = raise unauthorized
or_unauthorized (some context) = pure context

-- `require_scoped_token`, of the value of the header `Authorization`
unfoldable pub require_scoped_token : Env → Option Str → M ProxyAuthContext
require_scoped_token env authorization =
    let (scheme, full_token) = partition_space (or_empty authorization) in
    if not (lower env.codec scheme == codes "bearer") || full_token == []
    then raise unauthorized
    else resolve_scoped_token env full_token >>= or_unauthorized
