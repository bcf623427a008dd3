-- ===== src/Filtering/Tests.antt =====
-- The filter and the pages of src/cfproxy/filtering/list_filter.py on concrete lists.
use cloudflare_manual_dns.Authz.Tests.{ascii}
use cloudflare_manual_dns.Authz.Fqdn.{labels_ok, encode_idna, strip_fqdn, normalize_fqdn}
use cloudflare_manual_dns.Authz.Pattern.{star, exact, name_matches}
use cloudflare_manual_dns.Authz.Scope.{
  Rule, allows, type_listed, id_listed, name_covered, rule_grants, scan_rules, normalize_name,
  match_rules,
}
use cloudflare_manual_dns.Filtering.{
  ResultInfo, is_readable, filter_records, page_count, slice_index, slice, paginate_and_result_info,
}
use cloudflare_manual_dns.Filtering.Readable.{IsFiltered, filter_records-IsFiltered}
use cloudflare_manual_dns.Filtering.Pages.{IsPaginated, paginate-IsPaginated}
use cloudflare_manual_dns.Common.{
  ℕ, ◌≡◌, refl, true, false, none, some, List, [], ◌∷◌, ℤ, pos, Str, codes, ◌==◌, mem_str, split,
  is_space, lstrip_by, rstrip_by, strip, lower_char, lower, Json, truthy, lookup, get, mem_json,
  str, obj, end, field, dict_fields, ok,
}

filtering : Unit {0}
unfolding labels_ok encode_idna strip_fqdn normalize_fqdn name_matches allows type_listed id_listed
    name_covered rule_grants scan_rules normalize_name match_rules is_readable filter_records
    page_count slice_index slice paginate_and_result_info ◌==◌ mem_str split is_space lstrip_by
    rstrip_by strip lower_char lower truthy lookup get mem_json dict_fields
filtering = tt

abbrev rules : List Rule
rules =
    record {
      zone_id = codes "z1";
      name_pattern = some (codes "www.a.com");
      name_match = exact;
      record_types = star ∷ [];
      record_ids = none;
      allow_read = true;
      allow_create = false;
      allow_write = false;
      allow_delete = false;
    }
    ∷ []

abbrev named : Str → Json
named name = obj (field (codes "name") (str name) end)

abbrev three : List Json
three = named (codes "WWW.a.com") ∷ named (codes "b.com") ∷ named (codes "www.a.com.") ∷ []

abbrev kept : List Json
kept = named (codes "WWW.a.com") ∷ named (codes "www.a.com.") ∷ []

filtered : filter_records ascii three rules (codes "z1") ≡ ok kept
unfolding filtering
filtered = refl

filter_records-IsFiltered_example : IsFiltered ascii rules (codes "z1") three kept
filter_records-IsFiltered_example =
    filter_records-IsFiltered ascii rules (codes "z1") three kept filtered

paginate-IsPaginated_example : (n : ℕ) × IsPaginated three 1 n
paginate-IsPaginated_example = paginate-IsPaginated three 1

abbrev numbers : List ℕ
numbers = 1 ∷ 2 ∷ 3 ∷ []

abbrev info : ℤ → ℤ → ℕ → ℤ → ResultInfo
info page per_page count pages = record {
  page = page;
  per_page = per_page;
  count = count;
  total_count = 3;
  total_pages = pages;
}

-- The last page, a page past it, and pages of no record.
pages_tests :
    (paginate_and_result_info numbers (pos 2) (pos 2) ≡ (3 ∷ [], info (pos 2) (pos 2) 1 (pos 2)))
    × (paginate_and_result_info numbers (pos 3) (pos 2) ≡ ([], info (pos 3) (pos 2) 0 (pos 2)))
    × (paginate_and_result_info numbers (pos 1) (pos 0) ≡ ([], info (pos 1) (pos 0) 0 (pos 0)))
unfolding filtering
pages_tests = (refl, refl, refl)
