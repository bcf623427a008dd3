-- ===== src/Authz/Scope/Grants.antt =====
-- `match_rules` against an independent description of what a rule grants.
use cloudflare_manual_dns.Authz.Pattern.{star}
use cloudflare_manual_dns.Authz.Pattern.Matching.{Matches, name_matches_iff}
use cloudflare_manual_dns.Authz.Scope.{
  Need, read, create, write, delete, Rule, allows, type_listed, id_listed, name_covered,
  rule_grants, scan_rules, normalize_name, match_rules,
}
use cloudflare_manual_dns.Common.{
  ◌≡◌, ◌↔◌, ◌⊎◌, inl, inr, Bool, true, false, Option, none, some, List, [], ◌∷◌, arith,
  if◌then◌else◌, Bool-cases, All, Any, In, Str, ◌==◌, eq_iff, mem_str_iff, Codec, Json, mem_json,
  null, str, >>=-eq-ok, ok,
}

-- The value is a text of the list.
abbrev pub TextIn : Json → List Str → Type 0
TextIn (str s) l = In s l
TextIn _ l = ⊥

-- A rule with no ids covers every record; one with ids covers the records that it lists.
abbrev pub IdCovered : Option (List Str) → Json → Type 0
IdCovered none record_id = Unit
IdCovered (some []) record_id = Unit
IdCovered (some (i ∷ ids)) record_id = TextIn record_id (i ∷ ids)

-- A rule with no pattern covers every name, and no name at all.
abbrev pub NameCovered : Codec → Option Str → Str → Option Str → Type 0
NameCovered c none name_match name = Unit
NameCovered c (some pattern) name_match none = ⊥
NameCovered c (some pattern) name_match (some name) = Matches c pattern name_match name

abbrev pub Allows : Rule → Need → Type 0
Allows r read = r.allow_read ≡ true
Allows r create = r.allow_create ≡ true
Allows r write = r.allow_write ≡ true
Allows r delete = r.allow_delete ≡ true

pub record Grants (c : Codec) (r : Rule) (zone_id : Str) (normalized : Option Str)
    (rtype record_id : Json) (need : Need) : Type 0 where
  pub zone : r.zone_id ≡ zone_id
  pub types : In star r.record_types ⊎ TextIn rtype r.record_types
  pub id : IdCovered r.record_ids record_id
  pub name : NameCovered c r.name_pattern r.name_match normalized
  pub allowed : Allows r need

pub mem_json_iff : (v : Json) (l : List Str) → (mem_json v l ≡ true) ↔ TextIn v l
unfolding mem_json
mem_json_iff (str s) l = mem_str_iff s l
mem_json_iff null l = ground arith
mem_json_iff _ l = ground arith

type_listed_iff :
    (types : List Str) (v : Json) → (type_listed types v ≡ true) ↔ (In star types ⊎ TextIn v types)
unfolding type_listed
type_listed_iff types v = ground (arith, mem_str_iff star types, mem_json_iff v types)

id_listed_iff : (ids : Option (List Str)) (v : Json) → (id_listed ids v ≡ true) ↔ IdCovered ids v
unfolding id_listed
id_listed_iff none v = ground arith
id_listed_iff (some []) v = ground arith
id_listed_iff (some (i ∷ ids)) v = mem_json_iff v (i ∷ ids)

pub allows_iff : (r : Rule) (need : Need) → (allows r need ≡ true) ↔ Allows r need
unfolding allows
allows_iff r read = ground arith
allows_iff r _ = ground arith

name_covered_iff :
    (c : Codec) (r : Rule) (pattern name : Option Str)
    → (name_covered c r pattern name ≡ ok true) ↔ NameCovered c pattern r.name_match name
unfolding name_covered
name_covered_iff c r none name = ground arith
name_covered_iff c r (some p) none = ground arith
name_covered_iff c r (some p) (some n) = name_matches_iff c p r.name_match n

module _ (c : Codec) (r : Rule) (zone_id : Str) (name : Option Str) (rtype record_id : Json)
    (need : Need) where
  rule_grants-tests :
      rule_grants c r zone_id name rtype record_id need ≡ ok true
      → ((r.zone_id == zone_id) ≡ true)
        × (type_listed r.record_types rtype ≡ true)
        × (id_listed r.record_ids record_id ≡ true)
        × (name_covered c r r.name_pattern name ≡ ok true)
        × (allows r need ≡ true)
  unfolding rule_grants
  rule_grants-tests h = ground arith

  tests-rule_grants :
      (r.zone_id == zone_id) ≡ true
      → type_listed r.record_types rtype ≡ true
      → id_listed r.record_ids record_id ≡ true
      → name_covered c r r.name_pattern name ≡ ok true
      → allows r need ≡ true
      → rule_grants c r zone_id name rtype record_id need ≡ ok true
  unfolding rule_grants
  tests-rule_grants z t i n a = rw (z, t, i, n, a)

  -- The tests of one round of the loop are what the rule grants.
  pub rule_grants_iff :
      (rule_grants c r zone_id name rtype record_id need ≡ ok true)
      ↔ Grants c r zone_id name rtype record_id need
  rule_grants_iff = (
    λ h.
        let (z, t, i, n, a) = rule_grants-tests h in
        record {
          zone = (eq_iff r.zone_id zone_id).0 z;
          types = (type_listed_iff r.record_types rtype).0 t;
          id = (id_listed_iff r.record_ids record_id).0 i;
          name = (name_covered_iff c r r.name_pattern name).0 n;
          allowed = (allows_iff r need).0 a;
        },
    λ g.
        tests-rule_grants ((eq_iff r.zone_id zone_id).1 g.zone)
          ((type_listed_iff r.record_types rtype).1 g.types)
          ((id_listed_iff r.record_ids record_id).1 g.id)
          ((name_covered_iff c r r.name_pattern name).1 g.name) ((allows_iff r need).1 g.allowed),
  )

module _ (c : Codec) (zone_id : Str) (name : Option Str) (rtype record_id : Json)
    (need : Need) where
  abbrev GrantedBy : Rule → Type 0
  GrantedBy r = Grants c r zone_id name rtype record_id need

  scan_rules_sound :
      (rules : List Rule)
      → scan_rules c rules zone_id name rtype record_id need ≡ ok true
      → Any GrantedBy rules
  unfolding scan_rules
  scan_rules_sound [] h = cc
  scan_rules_sound (r ∷ rules) h =
      let (granted, e, h') = >>=-eq-ok (rule_grants c r zone_id name rtype record_id need) _ h in
      elim (Bool-cases granted) [
        | inl hit ↦ inl ((rule_grants_iff c r zone_id name rtype record_id need).0 (rw hit at e))
        | inr miss ↦ inr (scan_rules_sound rules (rw miss at h'))
      ]

  scan_rules-refused :
      (rules : List Rule)
      → scan_rules c rules zone_id name rtype record_id need ≡ ok false
      → All (λ r. ¬ GrantedBy r) rules
  unfolding scan_rules
  scan_rules-refused [] h = tt
  scan_rules-refused (r ∷ rules) h =
      let (granted, e, h') = >>=-eq-ok (rule_grants c r zone_id name rtype record_id need) _ h in
      elim (Bool-cases granted) [
        | inl hit ↦ cc (rw hit at h')
        | inr miss ↦ (
          λ g. cc (rw miss at e, (rule_grants_iff c r zone_id name rtype record_id need).1 g),
          scan_rules-refused rules (rw miss at h'),
        )
      ]

-- What the loop's answer says: granted means that a rule grants the operation on the normalised
-- name, refused means that the name was normalised and no rule does.
abbrev pub Decided : Codec → List Rule → Str → Json → Json → Json → Need → Bool → Type 0
Decided c rules zone_id name rtype record_id need granted =
    (n : Option Str) × (normalize_name c name ≡ ok n)
    × (if granted
        then Any (λ r. Grants c r zone_id n rtype record_id need) rules
        else All (λ r. ¬ Grants c r zone_id n rtype record_id need) rules)

-- If `match_rules` returns (no exception), it answers true exactly when some rule grants the
-- operation: true gives such a rule, false rules out every one.
pub match_rules_decides :
    (c : Codec) (rules : List Rule) (zone_id : Str) (name rtype record_id : Json) (need : Need)
    (granted : Bool)
    → match_rules c rules zone_id name rtype record_id need ≡ ok granted
    → Decided c rules zone_id name rtype record_id need granted
unfolding match_rules
match_rules_decides c rules zone_id name rtype record_id need true h =
    let (n, e, h') = >>=-eq-ok (normalize_name c name) _ h in
    (n, e, scan_rules_sound c zone_id n rtype record_id need rules h')
match_rules_decides c rules zone_id name rtype record_id need false h =
    let (n, e, h') = >>=-eq-ok (normalize_name c name) _ h in
    (n, e, scan_rules-refused c zone_id n rtype record_id need rules h')
