-- ===== src/Services/AuditLogs.antt =====
-- `list_audit_logs` of src/cfproxy/services/audit_service.py. `write_audit` stands in
-- Proxy/Audit.antt.
pub mod Listed
use cloudflare_manual_dns.Db.{Datetime, AuditLog}
use cloudflare_manual_dns.Db.Users.{same_value}
use cloudflare_manual_dns.Runtime.{World, M, pure, get_world, ◌>>=◌}
use cloudflare_manual_dns.Common.{
  ℕ, zero, suc, ◌+◌, ◌-◌, ◌*◌, ◌/◌, ◌%◌, ◌^◌, ◌≤◌, ◌<◌, ◌≡◌, refl, sym, ap, ◌∙◌, ◌≢◌, ◌↔◌, ◌⊎◌, inl,
  inr, Bool, true, false, not, ◌&&◌, ◌||◌, Option, none, some, List, [], ◌∷◌, ◌++◌, map, arith, ltb,
  leb, nat_eq, if◌then◌else◌, nat_eq_iff, Bool-cases, Option-cases, both_true, length, take, drop,
  length-append, length-take, length-drop, take-append-drop, take-nil, take_ge, drop_ge, take-add,
  All, Any, All-append, In, all, find_first, select, change, find_first-In, find_first-none,
  select-In, change-In, In-append_last, ℤ, pos_part, neg_part, sub_ℕ, ◌+ℤ◌, ◌-ℤ◌, ◌*ℤ◌, neg, ltb_ℤ,
  leb_ℤ, eq_ℤ, floor_div, pos, negsuc, Str, codes, ◌==◌, eq_refl, eq_iff, ne_of_eq, eq_of_ne,
  mem_str, mem_str_iff, has_char, count_char, ends_with, cons_head, split, join, is_space,
  lstrip_by, keep, rstrip_by, strip, is_ascii, lower_char, upper_char, is_alnum_char, Codec, lower,
  upper, isalnum, digits_from, show_ℕ, digits_value, int_literal, parse_int, split-cons, join-split,
  join-label, ends_with_sound, Json, Items, Fields, truthy, lookup, or_else, get, items,
  field_count, py_eq, py_eq_items, py_eq_fields, mem_json, null, bool, int, str, arr, obj, nil,
  cons, end, field, Exception, Result, and_then, >>=-eq-ok, ok_injective, Returns, Returns-if,
  Returns-bind, Exec, dict_fields, value_error, unicode_error, attribute_error, key_error,
  type_error, http_error, runtime_error, lock_unavailable, not_found, invalid_token, unauthorized,
  not_authenticated, invalid_jwt, invalid_hash, integrity_error, out_of_fuel, ok, raised,
}

-- The optional filters of the query.
pub record AuditQuery : Type 0 where
  pub token_id : Option Str
  pub zone_id : Option Str
  pub since : Option Datetime

-- A filter that is not given lets every row through; `NULL` is equal to nothing.
abbrev pub equal_if_given : Option Str → Option Str → Bool
equal_if_given none column = true
equal_if_given (some s) column = same_value column (some s)

abbrev pub since_if_given : Option Datetime → Datetime → Bool
since_if_given none ts = true
since_if_given (some s) ts = leb s.seconds ts.seconds

-- The conditions of `base_stmt`.
unfoldable pub is_selected : Str → AuditQuery → AuditLog → Bool
is_selected user_id q row =
    same_value row.user_id (some user_id)
    && equal_if_given q.token_id row.scoped_token_id
    && equal_if_given q.zone_id row.zone_id
    && since_if_given q.since row.ts

-- `order_by(AuditLog.ts.desc())`. Rows of one time keep the order of the table, which is one of
-- the orders that the server may give them.
unfoldable pub insert_recent : AuditLog → List AuditLog → List AuditLog
insert_recent x [] = x ∷ []
insert_recent x (y ∷ ys) =
    let rest = insert_recent x ys in if leb y.ts.seconds x.ts.seconds then x ∷ y ∷ ys else y ∷ rest

unfoldable pub order_recent : List AuditLog → List AuditLog
order_recent [] = []
order_recent (x ∷ xs) = insert_recent x (order_recent xs)

pub record AuditPage : Type 0 where
  pub entries : List AuditLog
  pub page : ℕ
  pub per_page : ℕ
  pub count : ℕ
  pub total_count : ℕ

-- The page of the rows that are selected; pages are counted from 1.
unfoldable pub audit_page : Str → AuditQuery → ℕ → ℕ → List AuditLog → AuditPage
audit_page user_id q page per_page logs =
    let rows = select (is_selected user_id q) logs in
    let entries = take per_page (drop ((page - 1) * per_page) (order_recent rows)) in
    record {
      entries = entries;
      page = page;
      per_page = per_page;
      count = length entries;
      total_count = length rows;
    }

unfoldable pub list_audit_logs : Str → AuditQuery → ℕ → ℕ → M AuditPage
list_audit_logs user_id q page per_page = do
  w ← get_world
  pure (audit_page user_id q page per_page w.db.audit_logs)
