-- ===== src/Routers/Upstreams.antt =====
-- src/cfproxy/routers/credentials.py: the upstream credentials of the user of the request.
pub mod Concealed
use cloudflare_manual_dns.Core.Envelopes.{Reply, make_response}
use cloudflare_manual_dns.Core.Security.{get_current_user}
use cloudflare_manual_dns.Db.{User, UpstreamCredential}
use cloudflare_manual_dns.Proxy.Listing.{to_items}
use cloudflare_manual_dns.Services.Credentials
use cloudflare_manual_dns.Routers.Replies.{
  listed, credential_response_data, or_not_found, or_bad_request,
}
use cloudflare_manual_dns.Runtime.{Env, World, M, pure, ◌>>=◌, ◌>>◌}
use cloudflare_manual_dns.Common.{
  ℕ, zero, suc, ◌+◌, ◌-◌, ◌*◌, ◌/◌, ◌%◌, ◌^◌, ◌≤◌, ◌<◌, ◌≡◌, refl, sym, ap, ◌∙◌, ◌≢◌, ◌↔◌, ◌⊎◌, inl,
  inr, Bool, true, false, not, ◌&&◌, ◌||◌, Option, none, some, List, [], ◌∷◌, ◌++◌, map, arith, ltb,
  leb, nat_eq, if◌then◌else◌, nat_eq_iff, Bool-cases, Option-cases, both_true, length, take, drop,
  length-append, length-take, length-drop, take-append-drop, take-nil, take_ge, drop_ge, take-add,
  All, Any, All-append, In, all, find_first, select, change, find_first-In, find_first-none,
  select-In, change-In, In-append_last, ℤ, pos_part, neg_part, sub_ℕ, ◌+ℤ◌, ◌-ℤ◌, ◌*ℤ◌, neg, ltb_ℤ,
  leb_ℤ, eq_ℤ, floor_div, pos, negsuc, Str, codes, ◌==◌, eq_refl, eq_iff, ne_of_eq, eq_of_ne,
  mem_str, mem_str_iff, has_char, count_char, ends_with, cons_head, split, join, is_space,
  lstrip_by, keep, rstrip_by, strip, is_ascii, lower_char, upper_char, is_alnum_char, Codec, lower,
  upper, isalnum, digits_from, show_ℕ, digits_value, int_literal, parse_int, split-cons, join-split,
  join-label, ends_with_sound, Json, Items, Fields, truthy, lookup, or_else, get, items,
  field_count, py_eq, py_eq_items, py_eq_fields, mem_json, null, bool, int, str, arr, obj, nil,
  cons, end, field, Exception, Result, and_then, >>=-eq-ok, ok_injective, Returns, Returns-if,
  Returns-bind, Exec, dict_fields, value_error, unicode_error, attribute_error, key_error,
  type_error, http_error, runtime_error, lock_unavailable, not_found, invalid_token,
  credential_not_found, token_not_found, unauthorized, not_authenticated, invalid_jwt, invalid_hash,
  integrity_error, out_of_fuel, ok, raised,
}

-- `UpstreamCredentialCreateRequest`
pub record CredentialRequest : Type 0 where
  pub label : Str
  pub cred_type : Str
  pub api_token : Option Str
  pub global_key : Option Str
  pub cf_account_email : Option Str

-- The query parameters that are given.
abbrev pub record_params : Option Str → Option Str → List (Str × Str)
record_params type name = given_as (codes "type") type ++ given_as (codes "name") name
  where
    given_as : Str → Option Str → List (Str × Str)
    given_as k none = []
    given_as k (some v) = (k, v) ∷ []

module _ (env : Env) where
  unfoldable pub create_credential : Option Str → CredentialRequest → M Reply
  create_credential bearer body = do
    user ← get_current_user env bearer
    or_bad_request (do
      credential ←
          Credentials.register_credential env user.id body.label body.cred_type body.api_token
            body.global_key body.cf_account_email
      pure (
          make_response 201 (codes "Upstream credential registered")
            (credential_response_data env credential)))

  abbrev pub show_credentials : User → M Reply
  show_credentials user = do
    credentials ← Credentials.list_credentials user.id
    pure (
        make_response 200 (codes "Upstream credentials listed")
          (listed (credential_response_data env) credentials))

  unfoldable pub list_credentials : Option Str → M Reply
  list_credentials bearer = get_current_user env bearer >>= show_credentials

  unfoldable pub delete_credential : Option Str → Str → M Reply
  delete_credential bearer credential_id = do
    user ← get_current_user env bearer
    or_not_found env (do
      Credentials.delete_credential env user.id credential_id
      pure (make_response 200 (codes "Upstream credential deleted") null))

  unfoldable pub verify_credential : Option Str → Str → M Reply
  verify_credential bearer credential_id = do
    user ← get_current_user env bearer
    or_not_found env (do
      credential ← Credentials.verify_credential env user.id credential_id
      pure (
          make_response 200 (codes "Upstream credential verified")
            (credential_response_data env credential)))

  -- `fuel` bounds the loop over the pages.
  unfoldable pub list_zones : ℕ → Option Str → Str → M Reply
  list_zones fuel bearer credential_id = do
    user ← get_current_user env bearer
    or_not_found env (do
      zones ← Credentials.list_credential_zones env fuel user.id credential_id
      pure (make_response 200 (codes "Zones listed") zones))

  unfoldable pub list_zone_records : ℕ → Option Str → Str → Str → Option Str → Option Str → M Reply
  list_zone_records fuel bearer credential_id zone_id type name = do
    user ← get_current_user env bearer
    or_not_found env (do
      records ←
          Credentials.list_credential_zone_records env fuel user.id credential_id zone_id
            (record_params type name)
      pure (make_response 200 (codes "DNS records listed") (arr (to_items records))))
