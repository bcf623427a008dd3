-- ===== src/Routers/ScopedTokens.antt =====
-- src/cfproxy/routers/tokens.py: the scoped tokens of the user of the request.
pub mod Foreign
use cloudflare_manual_dns.Core.Envelopes.{Reply, make_response}
use cloudflare_manual_dns.Core.Security.{get_current_user}
use cloudflare_manual_dns.Db.{Datetime, User}
use cloudflare_manual_dns.Services.Tokens
use cloudflare_manual_dns.Services.Tokens.{RuleInput}
use cloudflare_manual_dns.Routers.Replies.{
  listed, token_response_data, detail_response_data, minted_response_data, rotated_response_data,
  or_not_found, or_bad_request,
}
use cloudflare_manual_dns.Runtime.{Env, World, M, pure, ◌>>=◌, ◌>>◌}
use cloudflare_manual_dns.Common.{
  ℕ, zero, suc, ◌+◌, ◌-◌, ◌*◌, ◌/◌, ◌%◌, ◌^◌, ◌≤◌, ◌<◌, ◌≡◌, refl, sym, ap, ◌∙◌, ◌≢◌, ◌↔◌, ◌⊎◌, inl,
  inr, Bool, true, false, not, ◌&&◌, ◌||◌, Option, none, some, List, [], ◌∷◌, ◌++◌, map, arith, ltb,
  leb, nat_eq, if◌then◌else◌, nat_eq_iff, Bool-cases, Option-cases, both_true, length, take, drop,
  length-append, length-take, length-drop, take-append-drop, take-nil, take_ge, drop_ge, take-add,
  All, Any, All-append, In, all, find_first, select, change, find_first-In, find_first-none,
  select-In, change-In, In-append_last, ℤ, pos_part, neg_part, sub_ℕ, ◌+ℤ◌, ◌-ℤ◌, ◌*ℤ◌, neg, ltb_ℤ,
  leb_ℤ, eq_ℤ, floor_div, pos, negsuc, Str, codes, ◌==◌, eq_refl, eq_iff, ne_of_eq, eq_of_ne,
  mem_str, mem_str_iff, has_char, count_char, ends_with, cons_head, split, join, is_space,
  lstrip_by, keep, rstrip_by, strip, is_ascii, lower_char, upper_char, is_alnum_char, Codec, lower,
  upper, isalnum, digits_from, show_ℕ, digits_value, int_literal, parse_int, split-cons, join-split,
  join-label, ends_with_sound, Json, Items, Fields, truthy, lookup, or_else, get, items,
  field_count, py_eq, py_eq_items, py_eq_fields, mem_json, null, bool, int, str, arr, obj, nil,
  cons, end, field, Exception, Result, and_then, >>=-eq-ok, ok_injective, Returns, Returns-if,
  Returns-bind, Exec, dict_fields, value_error, unicode_error, attribute_error, key_error,
  type_error, http_error, runtime_error, lock_unavailable, not_found, invalid_token,
  credential_not_found, token_not_found, unauthorized, not_authenticated, invalid_jwt, invalid_hash,
  integrity_error, out_of_fuel, ok, raised,
}

-- `ScopedTokenCreateRequest`
pub record TokenRequest : Type 0 where
  pub name : Str
  pub upstream_credential_id : Str
  pub expires_at : Option Datetime
  pub scope_rules : List RuleInput

module _ (env : Env) where
  unfoldable pub mint_scoped_token : Option Str → TokenRequest → M Reply
  mint_scoped_token bearer body = do
    user ← get_current_user env bearer
    or_bad_request (
        or_not_found env (do
          minted ←
              Tokens.mint_scoped_token env user.id body.name body.upstream_credential_id
                body.scope_rules body.expires_at
          pure (make_response 201 (codes "Scoped token minted") (minted_response_data env minted))))

  unfoldable pub list_scoped_tokens : Option Str → M Reply
  list_scoped_tokens bearer = do
    user ← get_current_user env bearer
    tokens ← Tokens.list_scoped_tokens user.id
    pure
        (make_response 200 (codes "Scoped tokens listed") (listed (token_response_data env) tokens))

  abbrev pub show_detail : Str → User → M Reply
  show_detail token_id user = or_not_found env (do
    detail ← Tokens.get_scoped_token_detail user.id token_id
    pure (make_response 200 (codes "Scoped token detail") (detail_response_data env detail)))

  unfoldable pub get_scoped_token : Option Str → Str → M Reply
  get_scoped_token bearer token_id = get_current_user env bearer >>= show_detail token_id

  abbrev pub rotate_for : Str → User → M Reply
  rotate_for token_id user = or_not_found env (do
    rotated ← Tokens.rotate_scoped_token env user.id token_id
    pure (make_response 200 (codes "Scoped token rotated") (rotated_response_data env rotated)))

  unfoldable pub rotate_scoped_token : Option Str → Str → M Reply
  rotate_scoped_token bearer token_id = get_current_user env bearer >>= rotate_for token_id

  abbrev pub revoke_for : Str → User → M Reply
  revoke_for token_id user = or_not_found env (do
    Tokens.revoke_scoped_token env user.id token_id
    pure (make_response 200 (codes "Scoped token revoked") null))

  unfoldable pub revoke_scoped_token : Option Str → Str → M Reply
  revoke_scoped_token bearer token_id = get_current_user env bearer >>= revoke_for token_id
