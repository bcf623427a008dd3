-- ===== src/Authz/Tests.antt =====
-- The decisions of src/cfproxy/authz on concrete requests.
use cloudflare_manual_dns.Authz.Fqdn.{labels_ok, encode_idna, strip_fqdn, normalize_fqdn}
use cloudflare_manual_dns.Authz.Fqdn.Canonical.{IsCanonical}
use cloudflare_manual_dns.Authz.Fqdn.Case.{normalize_fqdn_stable}
use cloudflare_manual_dns.Authz.Pattern.{
  star, exact, wildcard, index_where, agree_except, wildcard_matches, name_matches, in_zone,
  without_at, label_at, validate_exact, validate_remainder, validate_wildcard,
  validate_name_pattern,
}
use cloudflare_manual_dns.Authz.Pattern.Wildcard.{OneLabel, wildcard_matches_iff}
use cloudflare_manual_dns.Authz.Pattern.Matching.{Matches, name_matches_iff}
use cloudflare_manual_dns.Authz.Pattern.Zone.{IsInZone, plain_stays-IsInZone, starred}
use cloudflare_manual_dns.Authz.Scope.{
  create, write, delete, Rule, allows, type_listed, id_listed, name_covered, rule_grants,
  scan_rules, normalize_name, match_rules, rule_exempts, is_lock_exempt, merge_patch_image,
}
use cloudflare_manual_dns.Authz.Scope.Grants.{Decided, match_rules_decides}
use cloudflare_manual_dns.Authz.Scope.Exempt.{exempt_never_refused}
use cloudflare_manual_dns.Authz.Scope.Total.{of_text, match_rules-Returns}
use cloudflare_manual_dns.Authz.Authorizer.{
  insufficient_scope, grant, deny, body_fields, cross_zone, authorize_create, authorize_post,
  authorize_image, authorize_fetched, authorize_by_id, authorize_dns_request,
}
use cloudflare_manual_dns.Authz.Authorizer.Request.{IsJustified, authorize_dns_request-IsJustified}
use cloudflare_manual_dns.Common.{
  ℕ, suc, ◌<◌, ◌≡◌, refl, ◌≢◌, ◌↔◌, true, false, none, some, List, [], ◌∷◌, map, arith, All, Str,
  codes, ◌==◌, mem_str, has_char, count_char, ends_with, split, join, is_space, lstrip_by,
  rstrip_by, strip, lower_char, upper_char, Codec, lower, upper, Json, Fields, truthy, lookup, get,
  py_eq, mem_json, null, str, obj, end, field, Returns, Exec, unicode_error, ok, raised,
}

authz : Unit {0}
unfolding labels_ok encode_idna strip_fqdn normalize_fqdn index_where agree_except wildcard_matches
    name_matches in_zone without_at label_at validate_exact validate_remainder validate_wildcard
    validate_name_pattern allows type_listed id_listed name_covered rule_grants scan_rules
    normalize_name match_rules rule_exempts is_lock_exempt merge_patch_image body_fields cross_zone
    authorize_create authorize_post authorize_image authorize_fetched authorize_by_id
    authorize_dns_request ◌==◌ mem_str has_char count_char ends_with split join is_space lstrip_by
    rstrip_by strip lower_char upper_char lower upper truthy lookup get py_eq mem_json
authz = tt

-- A codec for texts that are all ASCII.
abbrev pub ascii : Codec
ascii = record {
  lower_wide = λ s. s;
  upper_wide = λ s. s;
  idna_wide = λ s. none;
  isalnum_wide = λ s. false;
  int_wide = λ s. none;
}

abbrev zone : Str
zone = codes "z1"

abbrev www : Str
www = codes "www.a.com"

-- Read and write, for the A records named www.a.com.
abbrev www_rule : Rule
www_rule = record {
  zone_id = zone;
  name_pattern = some (codes "WWW.a.com.");
  name_match = exact;
  record_types = codes "A" ∷ [];
  record_ids = none;
  allow_read = true;
  allow_create = true;
  allow_write = true;
  allow_delete = false;
}

abbrev pinned_rule : Rule
pinned_rule = record {
  zone_id = zone;
  name_pattern = none;
  name_match = exact;
  record_types = star ∷ [];
  record_ids = some (codes "r9" ∷ []);
  allow_read = false;
  allow_create = false;
  allow_write = true;
  allow_delete = false;
}

abbrev rules : List Rule
rules = www_rule ∷ pinned_rule ∷ []

abbrev named : Str → Str → Fields
named name rtype = field (codes "name") (str name) (field (codes "type") (str rtype) end)

abbrev fetch : Str → Json → Exec ℕ Json
fetch zone_id record_id n = (ok (obj (named www (codes "A"))), suc n)

abbrev retype : Json
retype = obj (field (codes "type") (str (codes "TXT")) end)

match_rules_tests :
    (match_rules ascii rules zone (str www) (str (codes "A")) (str (codes "r1")) write ≡ ok true)
    × (match_rules ascii rules zone (str www) (str (codes "A")) (str (codes "r1")) delete
        ≡ ok false)
    × (match_rules ascii rules zone (str www) (str (codes "TXT")) (str (codes "r1")) write
        ≡ ok false)
    × (match_rules ascii rules zone (str www) (str (codes "TXT")) (str (codes "r9")) write
        ≡ ok true)
    × (match_rules ascii rules (codes "z2") (str www) (str (codes "A")) null write ≡ ok false)
    × (match_rules ascii rules zone (str (codes "a..b")) (str (codes "A")) null write
        ≡ raised unicode_error)
unfolding authz
match_rules_tests = (refl, refl, refl, refl, refl, refl)

patched :
    authorize_dns_request ascii rules zone fetch (codes "patch") (str (codes "r1")) retype 0
    ≡ (ok (deny insufficient_scope true (some (obj (named www (codes "A"))))), 1)
unfolding authz
patched = refl

unchanged :
    authorize_dns_request ascii rules zone fetch (codes "patch") (str (codes "r1")) (obj end) 0
    ≡ (ok (grant true (some (obj (named www (codes "A"))))), 1)
unfolding authz
unchanged = refl

authorize_dns_request-IsJustified_example :
    IsJustified ascii rules zone fetch
      (str (codes "r1"))
      (obj end)
      (codes "patch")
      0
      1
      (grant true (some (obj (named www (codes "A")))))
authorize_dns_request-IsJustified_example =
    authorize_dns_request-IsJustified ascii rules zone fetch (str (codes "r1")) (obj end)
      (codes "patch") 0 1 (grant true (some (obj (named www (codes "A"))))) unchanged refl

match_rules_decides_example :
    Decided ascii rules zone (str www) (str (codes "A")) (str (codes "r1")) delete false
match_rules_decides_example =
    match_rules_decides ascii rules zone (str www) (str (codes "A")) (str (codes "r1")) delete false
      match_rules_tests.1

exempted : is_lock_exempt rules zone (str (codes "r9")) write ≡ true
unfolding authz
exempted = refl

exempt_never_refused_example :
    match_rules ascii rules zone (str (codes "b.org")) null (str (codes "r9")) write ≢ ok false
exempt_never_refused_example =
    exempt_never_refused ascii zone (str (codes "r9")) write rules (str (codes "b.org")) null
      exempted

abbrev Normalized : Str → Type 0
Normalized s = normalize_fqdn ascii s ≡ ok www

form_of_www : Normalized www
unfolding authz
form_of_www = refl

form_of_rule : Normalized (codes "WWW.a.com.")
unfolding authz
form_of_rule = refl

match_rules-Returns_example :
    Returns (match_rules ascii rules zone (str www) (str (codes "A")) null create)
match_rules-Returns_example =
    match_rules-Returns ascii rules zone (str www) (str (codes "A")) null create
      ((www, form_of_rule), (tt, tt)) (of_text www www form_of_www (www, form_of_www))

not_at : codes "WWW.a.com." ≢ codes "@"
not_at = cc

name_matches_iff_example :
    (name_matches ascii (codes "*.a.com") wildcard www ≡ ok true)
    ↔ Matches ascii (codes "*.a.com") wildcard www
name_matches_iff_example = name_matches_iff ascii (codes "*.a.com") wildcard www

wildcard_tests :
    (name_matches ascii (codes "*.a.com") wildcard www ≡ ok true)
    × (name_matches ascii (codes "*.a.com") wildcard (codes "x.www.a.com") ≡ ok false)
    × (name_matches ascii (codes "*.a.com") wildcard (codes "a.com") ≡ ok false)
    × (name_matches ascii (codes "www.a.com") wildcard www ≡ ok false)
    × (name_matches ascii (codes "www.a.com") (codes "glob") www ≡ ok false)
unfolding authz
wildcard_tests = (refl, refl, refl, refl, refl)

wildcard_matches_iff_example :
    (wildcard_matches (star ∷ codes "a" ∷ []) (codes "w" ∷ codes "a" ∷ []) ≡ true)
    ↔ OneLabel (star ∷ codes "a" ∷ []) (codes "w" ∷ codes "a" ∷ [])
wildcard_matches_iff_example =
    wildcard_matches_iff (star ∷ codes "a" ∷ []) (codes "w" ∷ codes "a" ∷ [])

validated :
    (validate_name_pattern ascii (codes "WWW.a.com.") exact (codes "A.com") ≡ ok tt)
    × (validate_name_pattern ascii (codes "*.a.com") wildcard (codes "A.com") ≡ ok tt)
    × (normalize_fqdn ascii (codes "A.com") ≡ ok (codes "a.com"))
    × (name_matches ascii (codes "WWW.a.com.") exact www ≡ ok true)
unfolding authz
validated = (refl, refl, refl, refl)

IsCanonical-zone : IsCanonical (codes "a.com")
unfolding authz
IsCanonical-zone = record {
  ascii = omega arith;
  no_space = (refl, (refl, (refl, (refl, (refl, tt)))));
  lowered = (refl, (refl, (refl, (refl, (refl, tt)))));
  no_dot = refl;
}

plain_stays-IsInZone_example : IsInZone www (codes "a.com")
plain_stays-IsInZone_example =
    plain_stays-IsInZone ascii (codes "*.a.com") wildcard (codes "A.com") (codes "a.com") www www
      (starred b'a' (codes ".com") IsCanonical-zone) validated.2 form_of_www validated.1
      wildcard_tests.0

clean : All (λ d. d < 128) (codes "A.com") × All (λ d. is_space d ≡ false) (codes "A.com")
unfolding authz
clean = (omega arith, (refl, (refl, (refl, (refl, (refl, tt))))))

normalize_fqdn_stable_example :
    (normalize_fqdn ascii (codes "a.com") ≡ ok (codes "a.com"))
    × (normalize_fqdn ascii (map lower_char (codes "A.com")) ≡ ok (codes "a.com"))
normalize_fqdn_stable_example =
    normalize_fqdn_stable ascii (codes "A.com") (codes "a.com") clean.0 clean.1 validated.2

-- An "@" that was validated as the apex of the zone matches the apex under no spelling of it.
apex_tests :
    (validate_name_pattern ascii (codes "@") exact (codes "a.com") ≡ ok tt)
    × (name_matches ascii (codes "@") exact (codes "a.com") ≡ ok false)
unfolding authz
apex_tests = (refl, refl)

-- A star behind the zone's first label is validated, and matches a name outside the zone.
inner_star_tests :
    (validate_name_pattern ascii (codes "a.*.com") wildcard (codes "a.com") ≡ ok tt)
    × (name_matches ascii (codes "a.*.com") wildcard (codes "a.b.com") ≡ ok true)
unfolding authz
inner_star_tests = (refl, refl)
