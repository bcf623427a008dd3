-- ===== src/Services/Tokens.antt =====
-- src/cfproxy/services/token_service.py: minting, rotating and revoking the scoped tokens of a user.
pub mod Revoked
pub mod Resolves
pub mod Validated
pub mod Zones
use cloudflare_manual_dns.Authz.Pattern.{validate_name_pattern}
use cloudflare_manual_dns.Authz.Scope.{Rule}
use cloudflare_manual_dns.Core.Crypto.{GeneratedToken, generate_scoped_token}
use cloudflare_manual_dns.Db.{Datetime, UpstreamCredential, ScopedToken, ScopeRule, Database}
use cloudflare_manual_dns.Upstream.Client.{
  Headers, forward_request, raise_for_status, json, subscript,
}
use cloudflare_manual_dns.Upstream.Auth.{
  rules_key, find_key, cache_del, utcnow, encodable, resolve_upstream_auth,
}
use cloudflare_manual_dns.Services.Credentials.{get_owned_credential, commit, revoked}
use cloudflare_manual_dns.Auth.ProxyAuth.{rules_of_token}
use cloudflare_manual_dns.Runtime.{
  HttpResponse, Env, World, M, pure, raise, lift, or_raise, get_world, ◌>>=◌, ◌>>◌,
}
use cloudflare_manual_dns.Common.{
  ℕ, zero, suc, ◌+◌, ◌-◌, ◌*◌, ◌/◌, ◌%◌, ◌^◌, ◌≤◌, ◌<◌, ◌≡◌, refl, sym, ap, ◌∙◌, ◌≢◌, ◌↔◌, ◌⊎◌, inl,
  inr, Bool, true, false, not, ◌&&◌, ◌||◌, Option, none, some, List, [], ◌∷◌, ◌++◌, map, arith, ltb,
  leb, nat_eq, if◌then◌else◌, nat_eq_iff, Bool-cases, Option-cases, both_true, length, take, drop,
  length-append, length-take, length-drop, take-append-drop, take-nil, take_ge, drop_ge, take-add,
  All, Any, All-append, In, all, find_first, select, change, find_first-In, find_first-none,
  select-In, change-In, In-append_last, ℤ, pos_part, neg_part, sub_ℕ, ◌+ℤ◌, ◌-ℤ◌, ◌*ℤ◌, neg, ltb_ℤ,
  leb_ℤ, eq_ℤ, floor_div, pos, negsuc, Str, codes, ◌==◌, eq_refl, eq_iff, ne_of_eq, eq_of_ne,
  mem_str, mem_str_iff, has_char, count_char, ends_with, cons_head, split, join, is_space,
  lstrip_by, keep, rstrip_by, strip, is_ascii, lower_char, upper_char, is_alnum_char, Codec, lower,
  upper, isalnum, digits_from, show_ℕ, digits_value, int_literal, parse_int, split-cons, join-split,
  join-label, ends_with_sound, Json, Items, Fields, truthy, lookup, or_else, get, items,
  field_count, py_eq, py_eq_items, py_eq_fields, mem_json, null, bool, int, str, arr, obj, nil,
  cons, end, field, Exception, Result, and_then, >>=-eq-ok, ok_injective, Returns, Returns-if,
  Returns-bind, Exec, dict_fields, value_error, unicode_error, attribute_error, key_error,
  type_error, http_error, runtime_error, lock_unavailable, not_found, invalid_token,
  credential_not_found, token_not_found, unauthorized, not_authenticated, invalid_jwt, invalid_hash,
  integrity_error, out_of_fuel, ok, raised,
}

-- A rule of a request to mint a token.
pub record RuleInput : Type 0 where
  pub rule : Rule
  pub content_lock : Option Str

pub record Minted : Type 0 where
  pub id : Str
  pub name : Str
  pub token : Str
  pub token_prefix : Str
  pub status : Str
  pub version : ℕ
  pub expires_at : Option Datetime
  pub created_at : Datetime

pub record Rotated : Type 0 where
  pub id : Str
  pub token : Str
  pub token_prefix : Str
  pub version : ℕ

-- The zone names that the call has resolved so far, and the credential's headers.
pub record Memo : Type 0 where
  pub zone_names : List (Str × Json)
  pub auth_headers : Option Headers

abbrev pub has_pattern : Rule → Bool
has_pattern r = elim r.name_pattern [ none ↦ false | some [] ↦ false | some (d ∷ s) ↦ true ]

abbrev pub has_ids : Rule → Bool
has_ids r = elim r.record_ids [ none ↦ false | some [] ↦ false | some (i ∷ ids) ↦ true ]

abbrev pub pattern_of : Rule → Str
pattern_of r = elim r.name_pattern [ none ↦ [] | some p ↦ p ]

-- `select(ScopedToken).where(id == ..., user_id == ...)`
unfoldable pub find_owned_token : Str → Str → List ScopedToken → Option ScopedToken
find_owned_token user_id id [] = none
find_owned_token user_id id (t ∷ ts) =
    if t.id == id && t.user_id == user_id then some t else find_owned_token user_id id ts

unfoldable pub get_owned_scoped_token : Str → Str → M ScopedToken
get_owned_scoped_token user_id token_id = do
  w ← get_world
  or_raise (token_not_found token_id) (find_owned_token user_id token_id w.db.tokens)

unfoldable pub tokens_of_user : Str → List ScopedToken → List ScopedToken
tokens_of_user user_id [] = []
tokens_of_user user_id (t ∷ ts) =
    let rest = tokens_of_user user_id ts in if t.user_id == user_id then t ∷ rest else rest

unfoldable pub list_scoped_tokens : Str → M (List ScopedToken)
list_scoped_tokens user_id = do w ← get_world; pure (tokens_of_user user_id w.db.tokens)

pub record ScopedTokenDetail : Type 0 where
  pub token : ScopedToken
  pub rules : List ScopeRule

unfoldable pub get_scoped_token_detail : Str → Str → M ScopedTokenDetail
get_scoped_token_detail user_id token_id = do
  token ← get_owned_scoped_token user_id token_id
  w ← get_world
  pure (record { token = token; rules = select (λ r. r.scoped_token_id == token.id) w.db.rules })

-- The row of this id, changed.
unfoldable pub change_token :
    Str → (ScopedToken → ScopedToken) → List ScopedToken → List ScopedToken
change_token id f [] = []
change_token id f (t ∷ ts) = (if t.id == id then f t else t) ∷ change_token id f ts

abbrev pub rotated : GeneratedToken → ScopedToken → ScopedToken
rotated g t = record t {
  lookup_id = g.lookup_id;
  token_prefix = g.token_prefix;
  token_hash = g.token_hash;
  version = suc t.version;
}

module _ (env : Env) where
  -- The name in the response to the GET of a zone.
  unfoldable pub read_zone_name : HttpResponse → Result Json
  read_zone_name r =
      if nat_eq r.status_code 404
      then raised (value_error (codes "zone not found upstream"))
      else and_then (raise_for_status env r) λ _.
        and_then (json r)
          λ v. and_then (subscript v (codes "result")) λ z. subscript z (codes "name")

  abbrev pub resolve_named : Str → Headers → Memo → Option Json → M (Json × Memo)
  resolve_named zone_id auth_headers memo (some name) = pure (name, memo)
  resolve_named zone_id auth_headers memo none = do
    response ←
        forward_request env (codes "GET") (codes "/client/v4/zones/" ++ zone_id) [] [] none
          auth_headers
    name ← lift (read_zone_name response)
    pure (name, record memo { zone_names = (zone_id, name) ∷ memo.zone_names })

  -- `_resolve_zone_name`
  unfoldable pub resolve_zone_name : Str → Headers → Memo → M (Json × Memo)
  resolve_zone_name zone_id auth_headers memo =
      resolve_named zone_id auth_headers memo (find_key zone_id memo.zone_names)

  abbrev pub headers_once : UpstreamCredential → Option Headers → M Headers
  headers_once credential none = resolve_upstream_auth env credential
  headers_once credential (some auth_headers) = pure auth_headers

  -- One round of the loop.
  unfoldable pub validate_rule : UpstreamCredential → Rule → Memo → M Memo
  validate_rule credential r memo =
      if not (has_pattern r) && not (has_ids r)
      then raise (value_error (codes "each scope rule requires a name_pattern or record_ids"))
      else if has_pattern r
      then (do
        auth_headers ← headers_once credential memo.auth_headers
        (name, named) ←
            resolve_zone_name r.zone_id auth_headers
              (record memo { auth_headers = some auth_headers })
        zone_name ← lift (encodable name)
        lift (validate_name_pattern env.codec (pattern_of r) r.name_match zone_name)
        pure named)
      else pure memo

  unfoldable pub validate_rules : UpstreamCredential → List RuleInput → Memo → M (Unit {0})
  validate_rules credential [] memo = pure tt
  validate_rules credential (r ∷ rules) memo = do
    next ← validate_rule credential r.rule memo
    validate_rules credential rules next

  -- `_validate_scope_rules`
  unfoldable pub validate_scope_rules : UpstreamCredential → List RuleInput → M (Unit {0})
  validate_scope_rules credential [] =
      raise (value_error (codes "at least one scope rule is required"))
  validate_scope_rules credential (r ∷ rules) =
      validate_rules credential (r ∷ rules) (record { zone_names = []; auth_headers = none })

  abbrev pub new_token :
      Str → Str → Str → Option Datetime → Str → GeneratedToken → Datetime → ScopedToken
  new_token user_id name credential_id expires_at id g now = record {
    id = id;
    user_id = user_id;
    upstream_credential_id = credential_id;
    name = name;
    lookup_id = g.lookup_id;
    token_prefix = g.token_prefix;
    token_hash = g.token_hash;
    version = 1;
    status = codes "active";
    expires_at = expires_at;
    last_used_at = none;
    created_at = now;
    revoked_at = none;
  }

  -- The rows of the rules; their ids are drawn behind the token's.
  unfoldable pub rule_rows : World → Str → Datetime → ℕ → List RuleInput → List ScopeRule
  rule_rows w token_id now n [] = []
  rule_rows w token_id now n (r ∷ rules) =
      record {
        id = env.new_uuid w.trace n;
        scoped_token_id = token_id;
        rule = r.rule;
        content_lock = r.content_lock;
        created_at = now;
      }
      ∷ rule_rows w token_id now (suc n) rules

  unfoldable pub mint_scoped_token : Str → Str → Str → List RuleInput → Option Datetime → M Minted
  mint_scoped_token user_id name credential_id rules expires_at = do
    credential ← get_owned_credential user_id credential_id
    validate_scope_rules credential rules
    g ← generate_scoped_token env
    now ← utcnow env
    w ← get_world
    let token = new_token user_id name credential_id expires_at (env.new_uuid w.trace 0) g now
    commit (λ db. record db {
      tokens = db.tokens ++ token ∷ [];
      rules = db.rules ++ rule_rows w token.id now 1 rules;
    })
    pure (record {
      id = token.id;
      name = name;
      token = g.full;
      token_prefix = token.token_prefix;
      status = token.status;
      version = token.version;
      expires_at = expires_at;
      created_at = now;
    })

  -- The row of the token gets a new lookup id, hash and version, and its cached rules go.
  unfoldable pub give_token : Str → ScopedToken → M Rotated
  give_token token_id old = do
    g ← generate_scoped_token env
    commit (λ db. record db { tokens = change_token token_id (rotated g) db.tokens })
    cache_del env (rules_key old.lookup_id old.version)
    pure (record {
      id = old.id;
      token = g.full;
      token_prefix = g.token_prefix;
      version = suc old.version;
    })

  unfoldable pub rotate_scoped_token : Str → Str → M Rotated
  rotate_scoped_token user_id token_id =
      get_owned_scoped_token user_id token_id >>= give_token token_id

  unfoldable pub revoke_scoped_token : Str → Str → M (Unit {0})
  revoke_scoped_token user_id token_id = do
    old ← get_owned_scoped_token user_id token_id
    now ← utcnow env
    commit (λ db. record db { tokens = change_token token_id (revoked now) db.tokens })
    cache_del env (rules_key old.lookup_id old.version)
