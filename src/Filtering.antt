-- ===== src/Filtering.antt =====
-- src/cfproxy/filtering/list_filter.py: the filter of a record list, and its pages.
pub mod Readable
pub mod Pages
pub mod Tests
use cloudflare_manual_dns.Authz.Scope.{read, Rule, match_rules}
use cloudflare_manual_dns.Common.{
  ℕ, zero, suc, ◌+◌, ◌-◌, ◌*◌, ◌/◌, ◌%◌, ◌^◌, ◌≤◌, ◌<◌, ◌≡◌, refl, sym, ap, ◌∙◌, ◌≢◌, ◌↔◌, ◌⊎◌, inl,
  inr, Bool, true, false, not, ◌&&◌, ◌||◌, Option, none, some, List, [], ◌∷◌, ◌++◌, map, arith, ltb,
  leb, nat_eq, if◌then◌else◌, nat_eq_iff, Bool-cases, Option-cases, both_true, length, take, drop,
  length-append, length-take, length-drop, take-append-drop, take-nil, take_ge, drop_ge, take-add,
  All, Any, All-append, In, all, ℤ, pos_part, neg_part, sub_ℕ, ◌+ℤ◌, ◌-ℤ◌, ◌*ℤ◌, neg, ltb_ℤ, leb_ℤ,
  eq_ℤ, floor_div, pos, negsuc, Str, codes, ◌==◌, eq_refl, eq_iff, ne_of_eq, eq_of_ne, mem_str,
  mem_str_iff, has_char, count_char, ends_with, cons_head, split, join, is_space, lstrip_by, keep,
  rstrip_by, strip, is_ascii, lower_char, upper_char, is_alnum_char, Codec, lower, upper, isalnum,
  digits_from, show_ℕ, split-cons, join-split, join-label, ends_with_sound, Json, Items, Fields,
  truthy, lookup, or_else, get, items, field_count, py_eq, py_eq_items, py_eq_fields, mem_json,
  null, bool, int, str, arr, obj, nil, cons, end, field, Exception, Result, ◌>>=◌, and_then,
  >>=-eq-ok, ok_injective, Returns, Returns-if, Returns-bind, Exec, dict_fields, value_error,
  unicode_error, attribute_error, key_error, type_error, http_error, runtime_error,
  lock_unavailable, not_found, invalid_token, out_of_fuel, ok, raised,
}

-- The condition of the comprehension.
unfoldable pub is_readable : Codec → List Rule → Str → Json → Result Bool
is_readable c rules zone_id record_ = dict_fields record_ >>= λ fs.
    match_rules c rules zone_id (get (codes "name") fs) (get (codes "type") fs)
      (get (codes "id") fs) read

abbrev pub keep_if : Bool → Json → List Json → List Json
keep_if kept r out = if kept then r ∷ out else out

unfoldable pub filter_records : Codec → List Json → List Rule → Str → Result (List Json)
filter_records c [] rules zone_id = ok []
filter_records c (r ∷ records) rules zone_id = is_readable c rules zone_id r >>= λ kept.
    filter_records c records rules zone_id >>= λ out. ok (keep_if kept r out)

pub record ResultInfo : Type 0 where
  pub page : ℤ
  pub per_page : ℤ
  pub count : ℕ
  pub total_count : ℕ
  pub total_pages : ℤ

-- `-(-total_count // per_page) if per_page > 0 else 0`
unfoldable pub page_count : ℕ → ℤ → ℤ
page_count total (pos zero) = pos 0
page_count total (pos (suc p)) = neg (floor_div (neg (pos total)) (suc p))
page_count total (negsuc p) = pos 0

-- An index of a slice: a negative one counts from the end, and both ends are cut off.
unfoldable pub slice_index : ℕ → ℤ → ℕ
slice_index len (pos n) = if ltb len n then len else n
slice_index len (negsuc n) = len - suc n

-- `xs[start:stop]`
unfoldable pub slice {ℓ} : {A : Type ℓ} → List A → ℤ → ℤ → List A
slice xs start stop =
    let from = slice_index (length xs) start in
    take (slice_index (length xs) stop - from) (drop from xs)

unfoldable pub paginate_and_result_info {ℓ} : {A : Type ℓ} → List A → ℤ → ℤ → List A × ResultInfo
paginate_and_result_info records page per_page =
    let start = (page -ℤ pos 1) *ℤ per_page in
    let page_records = slice records start (start +ℤ per_page) in
    (
      page_records,
      record {
        page = page;
        per_page = per_page;
        count = length page_records;
        total_count = length records;
        total_pages = page_count (length records) per_page;
      },
    )
