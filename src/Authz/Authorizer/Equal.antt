-- ===== src/Authz/Authorizer/Equal.antt =====
-- Values that Python compares as equal are the same name and the same type to `match_rules`.
use cloudflare_manual_dns.Authz.Scope.{
  Need, Rule, type_listed, rule_grants, scan_rules, normalize_name, match_rules,
}
use cloudflare_manual_dns.Common.{
  ◌≡◌, refl, ap, true, Option, List, [], ◌∷◌, arith, Str, eq_iff, Codec, Json, truthy, py_eq,
  mem_json, bool, str, arr, obj, nil, end,
}

module _ (c : Codec) where
  normalize_name-py_eq : (a b : Json) → py_eq a b ≡ true → normalize_name c a ≡ normalize_name c b
  unfolding py_eq normalize_name truthy
  normalize_name-py_eq (str s) (str t) h = ap (λ r. normalize_name c (str r)) ((eq_iff s t).0 h)
  normalize_name-py_eq (bool true) (bool true) h = refl
  normalize_name-py_eq (arr nil) (arr nil) h = refl
  normalize_name-py_eq (obj end) (obj end) h = refl
  normalize_name-py_eq a b h = ground arith

type_listed-py_eq :
    (types : List Str) (a b : Json) → py_eq a b ≡ true → type_listed types a ≡ type_listed types b
unfolding py_eq type_listed mem_json
type_listed-py_eq types (str s) (str t) h = ap (λ r. type_listed types (str r)) ((eq_iff s t).0 h)
type_listed-py_eq types a b h = ground arith

module _ (c : Codec) (zone_id : Str) (record_id : Json) (need : Need) where
  scan_rules-py_eq :
      (rules : List Rule) (n : Option Str) (a b : Json)
      → py_eq a b ≡ true
      → scan_rules c rules zone_id n a record_id need
        ≡ scan_rules c rules zone_id n b record_id need
  unfolding scan_rules rule_grants
  scan_rules-py_eq [] n a b h = refl
  scan_rules-py_eq (r ∷ rules) n a b h =
      simp (type_listed-py_eq r.record_types a b h, scan_rules-py_eq rules n a b h)

  -- `match_rules` answers the same for names and types that are equal in Python's sense.
  pub match_rules-py_eq :
      (rules : List Rule) (name name' rtype rtype' : Json)
      → py_eq name name' ≡ true
      → py_eq rtype rtype' ≡ true
      → match_rules c rules zone_id name rtype record_id need
        ≡ match_rules c rules zone_id name' rtype' record_id need
  unfolding match_rules
  match_rules-py_eq rules name name' rtype rtype' h k = simp (
    normalize_name-py_eq c name name' h,
    λ (n : Option Str). scan_rules-py_eq rules n rtype rtype' k,
  )
