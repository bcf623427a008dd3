-- ===== src/Authz/Scope/Total.antt =====
-- When `match_rules` of src/cfproxy/authz/scope.py returns: on which names and patterns.
use cloudflare_manual_dns.Authz.Fqdn.{normalize_fqdn}
use cloudflare_manual_dns.Authz.Pattern.{name_matches}
use cloudflare_manual_dns.Authz.Scope.{
  Need, Rule, allows, name_covered, type_listed, id_listed, rule_grants, scan_rules, normalize_name,
  match_rules,
}
use cloudflare_manual_dns.Common.{
  ◌≡◌, refl, true, false, not, ◌&&◌, Option, none, some, List, [], ◌∷◌, All, Str, ◌==◌, Codec, Json,
  truthy, null, bool, int, str, arr, obj, nil, cons, end, field, Returns, Returns-if, Returns-bind,
  ok,
}

-- The pattern of the rule has a normal form, if it has one.
abbrev pub HasForm : Codec → Option Str → Type 0
HasForm c none = Unit
HasForm c (some pattern) = (p : Str) × (normalize_fqdn c pattern ≡ ok p)

name_covered-Returns :
    (c : Codec) (r : Rule) (pattern n : Option Str)
    → HasForm c pattern
    → HasForm c n
    → Returns (name_covered c r pattern n)
unfolding name_covered name_matches
name_covered-Returns c r none n h k = (true, refl)
name_covered-Returns c r (some p) none h k = (false, refl)
name_covered-Returns c r (some p) (some n) h k =
    Returns-bind _ h (λ q _. Returns-bind _ k (λ t _. (_, refl)))

module _ (c : Codec) (zone_id : Str) (n : Option Str) (rtype record_id : Json) (need : Need) where
  rule_grants-Returns :
      (r : Rule)
      → HasForm c r.name_pattern
      → HasForm c n
      → Returns (rule_grants c r zone_id n rtype record_id need)
  unfolding rule_grants
  rule_grants-Returns r h k =
      Returns-if (not (r.zone_id == zone_id)) (false, refl)
        (Returns-if (not (type_listed r.record_types rtype)) (false, refl)
          (Returns-if (not (id_listed r.record_ids record_id)) (false, refl)
            (Returns-bind (λ covered. ok (covered && allows r need))
              (name_covered-Returns c r r.name_pattern n h k) (λ b _. (_, refl)))))

  scan_rules-Returns :
      (rules : List Rule)
      → All (λ r. HasForm c r.name_pattern) rules
      → HasForm c n
      → Returns (scan_rules c rules zone_id n rtype record_id need)
  unfolding scan_rules
  scan_rules-Returns [] h k = (false, refl)
  scan_rules-Returns (r ∷ rules) h k =
      let rest = scan_rules-Returns rules h.1 k in
      Returns-bind _ (rule_grants-Returns r h.0 k)
        (λ granted _. Returns-if granted (true, refl) rest)

-- A name that `match_rules` can take: one that Python finds false, or a text with a normal form that
-- has one itself.
pub data HasName (c : Codec) : Json → Type 0 where
  no_name : (v : Json) → truthy v ≡ false → HasName c v
  of_text : (s n : Str) → normalize_fqdn c s ≡ ok n → HasForm c (some n) → HasName c (str s)

missing_lem : (c : Codec) (v : Json) → truthy v ≡ false → normalize_name c v ≡ ok none
unfolding normalize_name truthy
missing_lem c (str []) h = refl
missing_lem c (str (d ∷ s)) h = cc h
missing_lem c null h = refl
missing_lem c (bool b) h = rw h refl
missing_lem c (int n) h = rw h refl
missing_lem c (arr nil) h = refl
missing_lem c (arr (cons v vs)) h = cc h
missing_lem c (obj end) h = refl
missing_lem c (obj (field k v fs)) h = cc h

normalized_lem :
    (c : Codec) (name : Json)
    → HasName c name
    → (n : Option Str) × (normalize_name c name ≡ ok n) × HasForm c n
unfolding normalize_name
normalized_lem c _ (no_name v h) = (none, missing_lem c v h, tt)
normalized_lem c _ (of_text [] n e k) = (none, refl, tt)
normalized_lem c _ (of_text (d ∷ s) n e k) = (some n, rw e refl, k)

-- `match_rules` returns if every pattern of the rules has a normal form, and the name is one that
-- Python finds false (as a missing one) or a text with a normal form that has one itself.
pub match_rules-Returns :
    (c : Codec) (rules : List Rule) (zone_id : Str) (name rtype record_id : Json) (need : Need)
    → All (λ r. HasForm c r.name_pattern) rules
    → HasName c name
    → Returns (match_rules c rules zone_id name rtype record_id need)
unfolding match_rules
match_rules-Returns c rules zone_id name rtype record_id need h has =
    let (n, e, k) = normalized_lem c name has in
    rw e (scan_rules-Returns c zone_id n rtype record_id need rules h k)
