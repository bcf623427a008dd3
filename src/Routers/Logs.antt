-- ===== src/Routers/Logs.antt =====
-- src/cfproxy/routers/audit.py: the audit log of the user of the request.
pub mod Owned
use cloudflare_manual_dns.Core.Envelopes.{Reply, make_response}
use cloudflare_manual_dns.Core.Security.{get_current_user}
use cloudflare_manual_dns.Db.{User}
use cloudflare_manual_dns.Services.AuditLogs.{AuditQuery, AuditPage, list_audit_logs}
use cloudflare_manual_dns.Routers.Replies.{dict, number, listed, audit_response_data}
use cloudflare_manual_dns.Runtime.{Env, World, M, pure, ◌>>=◌}
use cloudflare_manual_dns.Common.{
  ℕ, zero, suc, ◌+◌, ◌-◌, ◌*◌, ◌/◌, ◌%◌, ◌^◌, ◌≤◌, ◌<◌, ◌≡◌, refl, sym, ap, ◌∙◌, ◌≢◌, ◌↔◌, ◌⊎◌, inl,
  inr, Bool, true, false, not, ◌&&◌, ◌||◌, Option, none, some, List, [], ◌∷◌, ◌++◌, map, arith, ltb,
  leb, nat_eq, if◌then◌else◌, nat_eq_iff, Bool-cases, Option-cases, both_true, length, take, drop,
  length-append, length-take, length-drop, take-append-drop, take-nil, take_ge, drop_ge, take-add,
  All, Any, All-append, In, all, find_first, select, change, find_first-In, find_first-none,
  select-In, change-In, In-append_last, ℤ, pos_part, neg_part, sub_ℕ, ◌+ℤ◌, ◌-ℤ◌, ◌*ℤ◌, neg, ltb_ℤ,
  leb_ℤ, eq_ℤ, floor_div, pos, negsuc, Str, codes, ◌==◌, eq_refl, eq_iff, ne_of_eq, eq_of_ne,
  mem_str, mem_str_iff, has_char, count_char, ends_with, cons_head, split, join, is_space,
  lstrip_by, keep, rstrip_by, strip, is_ascii, lower_char, upper_char, is_alnum_char, Codec, lower,
  upper, isalnum, digits_from, show_ℕ, digits_value, int_literal, parse_int, split-cons, join-split,
  join-label, ends_with_sound, Json, Items, Fields, truthy, lookup, or_else, get, items,
  field_count, py_eq, py_eq_items, py_eq_fields, mem_json, null, bool, int, str, arr, obj, nil,
  cons, end, field, Exception, Result, and_then, >>=-eq-ok, ok_injective, Returns, Returns-if,
  Returns-bind, Exec, dict_fields, value_error, unicode_error, attribute_error, key_error,
  type_error, http_error, runtime_error, lock_unavailable, not_found, invalid_token,
  credential_not_found, token_not_found, unauthorized, not_authenticated, invalid_jwt, invalid_hash,
  integrity_error, out_of_fuel, ok, raised,
}

abbrev pub result_info : AuditPage → Json
result_info p = dict (
    (codes "page", number p.page)
    ∷ (codes "per_page", number p.per_page)
    ∷ (codes "count", number p.count)
    ∷ (codes "total_count", number p.total_count)
    ∷ [])

-- `Query(ge=1)` and `Query(ge=1, le=200)`
abbrev pub in_bounds : ℕ → ℕ → Bool
in_bounds page per_page = leb 1 page && (leb 1 per_page && leb per_page 200)

module _ (env : Env) where
  abbrev pub page_reply : AuditPage → Reply
  page_reply p = make_response 200 (codes "Audit logs listed") (
      dict (
        (codes "items", listed (audit_response_data env) p.entries)
        ∷ (codes "result_info", result_info p)
        ∷ []))

  abbrev pub show_page : AuditQuery → ℕ → ℕ → User → M Reply
  show_page q page per_page user =
      list_audit_logs user.id q page per_page >>= λ p. pure (page_reply p)

  -- The route, for parameters that are in bounds; others are refused before it with 422.
  unfoldable pub get_audit_logs : Option Str → AuditQuery → ℕ → ℕ → M Reply
  get_audit_logs bearer q page per_page = get_current_user env bearer >>= show_page q page per_page
