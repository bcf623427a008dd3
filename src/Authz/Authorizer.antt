-- ===== src/Authz/Authorizer.antt =====
-- `AuthDecision` and `authorize_dns_request` of src/cfproxy/authz/authorizer.py. The fetch is an
-- action of the caller's, on any state.
pub mod Equal
pub mod Sound
pub mod Denied
pub mod Request
pub mod ByMethod
use cloudflare_manual_dns.Authz.Scope.{
  Need, read, create, write, delete, Rule, match_rules, is_lock_exempt, merge_patch_image,
}
use cloudflare_manual_dns.Common.{
  ℕ, zero, suc, ◌+◌, ◌-◌, ◌*◌, ◌/◌, ◌%◌, ◌^◌, ◌≤◌, ◌<◌, ◌≡◌, refl, sym, ap, ◌∙◌, ◌≢◌, ◌↔◌, ◌⊎◌, inl,
  inr, Bool, true, false, not, ◌&&◌, ◌||◌, Option, none, some, List, [], ◌∷◌, ◌++◌, map, arith, ltb,
  leb, nat_eq, if◌then◌else◌, nat_eq_iff, Bool-cases, Option-cases, both_true, length, take, drop,
  length-append, length-take, length-drop, take-append-drop, All, Any, All-append, In, all, ℤ,
  pos_part, neg_part, sub_ℕ, ◌+ℤ◌, ◌-ℤ◌, ◌*ℤ◌, neg, ltb_ℤ, leb_ℤ, eq_ℤ, floor_div, pos, negsuc, Str,
  codes, ◌==◌, eq_refl, eq_iff, ne_of_eq, eq_of_ne, mem_str, mem_str_iff, has_char, count_char,
  ends_with, cons_head, split, join, is_space, lstrip_by, keep, rstrip_by, strip, is_ascii,
  lower_char, upper_char, is_alnum_char, Codec, lower, upper, isalnum, digits_from, show_ℕ,
  split-cons, join-split, join-label, ends_with_sound, Json, Items, Fields, truthy, lookup, or_else,
  get, items, field_count, py_eq, py_eq_items, py_eq_fields, mem_json, null, bool, int, str, arr,
  obj, nil, cons, end, field, Exception, Result, ◌>>=◌, >>=-eq-ok, ok_injective, Returns,
  Returns-if, Returns-bind, Exec, value_error, unicode_error, attribute_error, key_error,
  type_error, http_error, runtime_error, lock_unavailable, not_found, ok, raised,
}

-- `(http_status, cf_code, message)`
pub record CfError : Type 0 where
  pub status : ℕ
  pub code : ℕ
  pub message : Str

pub record AuthDecision : Type 0 where
  pub allowed : Bool
  pub needs_lock : Bool
  pub error : Option CfError
  pub pre_image : Option Json

-- cf_errors.RECORD_NOT_FOUND and cf_errors.FORBIDDEN with their messages
abbrev pub record_not_found : CfError
record_not_found = record { status = 404; code = 81044; message = codes "Record does not exist." }

abbrev pub insufficient_scope : CfError
insufficient_scope = record {
  status = 403;
  code = 9109;
  message = codes "Authorization error: insufficient scope";
}

abbrev pub unsupported_method : CfError
unsupported_method = record {
  status = 403;
  code = 9109;
  message = codes "Authorization error: unsupported method";
}

abbrev pub grant : Bool → Option Json → AuthDecision
grant lock pre = record { allowed = true; needs_lock = lock; error = none; pre_image = pre }

abbrev pub deny : CfError → Bool → Option Json → AuthDecision
deny e lock pre = record { allowed = false; needs_lock = lock; error = some e; pre_image = pre }

-- `body or {}`, of which the attribute `get` is taken
unfoldable pub body_fields : Json → Result Fields
body_fields (obj fs) = ok fs
body_fields v = if truthy v then raised attribute_error else ok end

-- `pre.get("zone_id") not in (None, zone_id)`
unfoldable pub cross_zone : Str → Json → Bool
cross_zone zone_id v = not (py_eq v null || py_eq v (str zone_id))

-- A pure decision on what an action returned.
abbrev pub decide : {S A B : Type 0} → (A → Result B) → Result A × S → Result B × S
decide f (r, s) = (r >>= f, s)

module _ (c : Codec) (rules : List Rule) (zone_id : Str) where
  -- `POST`
  unfoldable pub authorize_create : Json → Result AuthDecision
  authorize_create body = body_fields body >>= λ fs.
      match_rules c rules zone_id (get (codes "name") fs) (get (codes "type") fs) null create
      >>= λ granted. ok (if granted then grant false none else deny insufficient_scope false none)

  -- What is decided of the new name and type (PATCH and PUT).
  unfoldable pub authorize_post : Json → Need → Bool → Fields → Json → Result AuthDecision
  authorize_post record_id op lock pre body = body_fields body >>= λ fs.
      let (post_name, post_type) = merge_patch_image pre fs in
      if py_eq post_name (get (codes "name") pre) && py_eq post_type (get (codes "type") pre)
      then ok (grant lock (some (obj pre)))
      else (match_rules c rules zone_id post_name post_type record_id op >>= λ granted. ok (
          if granted
          then grant lock (some (obj pre))
          else deny insufficient_scope lock (some (obj pre))))

  -- What is decided of the fetched record.
  unfoldable pub authorize_image : Bool → Json → Need → Bool → Json → Fields → Result AuthDecision
  authorize_image renames record_id op lock body pre =
      if cross_zone zone_id (get (codes "zone_id") pre)
      then ok (deny record_not_found lock none)
      else (match_rules c rules zone_id (get (codes "name") pre) (get (codes "type") pre) record_id
            op
          >>= λ granted.
              if not granted
              then ok (deny record_not_found lock (some (obj pre)))
              else if renames
              then authorize_post record_id op lock pre body
              else ok (grant lock (some (obj pre))))

  unfoldable pub authorize_fetched : Bool → Json → Need → Bool → Json → Json → Result AuthDecision
  authorize_fetched renames record_id op lock body null = ok (deny record_not_found lock none)
  authorize_fetched renames record_id op lock body (obj pre) =
      authorize_image renames record_id op lock body pre
  authorize_fetched renames record_id op lock body _ = raised attribute_error

  module _ {S : Type 0} (fetch_record : Str → Json → Exec S Json) where
    -- The lock is decided before the fetch.
    unfoldable pub authorize_by_id : Bool → Bool → Json → Need → Json → Exec S AuthDecision
    authorize_by_id mutation renames record_id op body s =
        let lock = mutation && not (is_lock_exempt rules zone_id record_id op) in
        decide (authorize_fetched renames record_id op lock body) (fetch_record zone_id record_id s)

    unfoldable pub authorize_dns_request : Str → Json → Json → Exec S AuthDecision
    authorize_dns_request method record_id body s =
        let m = upper c method in
        if m == codes "POST"
        then (authorize_create body, s)
        else if m == codes "GET"
        then authorize_by_id false false record_id read body s
        else if m == codes "PATCH" || m == codes "PUT"
        then authorize_by_id true true record_id write body s
        else if m == codes "DELETE"
        then authorize_by_id true false record_id delete body s
        else (ok (deny unsupported_method false none), s)
