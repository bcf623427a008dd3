-- ===== src/Authz/Scope.antt =====
-- `match_rules`, `is_lock_exempt` and `merge_patch_image` of src/cfproxy/authz/scope.py.
pub mod Total
pub mod Exempt
pub mod Grants
use cloudflare_manual_dns.Authz.Fqdn.{normalize_fqdn}
use cloudflare_manual_dns.Authz.Pattern.{star, name_matches}
use cloudflare_manual_dns.Common.{
  Bool, true, false, not, ◌&&◌, ◌||◌, Option, none, some, List, [], ◌∷◌, if◌then◌else◌, Str, codes,
  ◌==◌, mem_str, Codec, Json, Fields, truthy, lookup, or_else, get, mem_json, str, Result, ◌>>=◌,
  attribute_error, ok, raised,
}

pub data Need : Type 0 where
  read create write delete : Need

-- The attributes of a `ScopeRule` that the predicates read.
pub record Rule : Type 0 where
  pub zone_id : Str
  pub name_pattern : Option Str
  pub name_match : Str
  pub record_types : List Str
  pub record_ids : Option (List Str)
  pub allow_read : Bool
  pub allow_create : Bool
  pub allow_write : Bool
  pub allow_delete : Bool

unfoldable pub allows : Rule → Need → Bool
allows r read = r.allow_read
allows r create = r.allow_create
allows r write = r.allow_write
allows r delete = r.allow_delete

-- `"*" in rule.record_types or rtype in rule.record_types`
unfoldable pub type_listed : List Str → Json → Bool
type_listed types rtype = mem_str star types || mem_json rtype types

-- `not rule.record_ids or (record_id is not None and record_id in rule.record_ids)`
unfoldable pub id_listed : Option (List Str) → Json → Bool
id_listed none record_id = true
id_listed (some []) record_id = true
id_listed (some (i ∷ ids)) record_id = mem_json record_id (i ∷ ids)

-- The test of the name, on the name that `match_rules` has normalised.
unfoldable pub name_covered : Codec → Rule → Option Str → Option Str → Result Bool
name_covered c r none name = ok true
name_covered c r (some pattern) none = ok false
name_covered c r (some pattern) (some name) = name_matches c pattern r.name_match name

-- One round of the loop: does this rule grant the operation?
unfoldable pub rule_grants : Codec → Rule → Str → Option Str → Json → Json → Need → Result Bool
rule_grants c r zone_id name rtype record_id need =
    if not (r.zone_id == zone_id)
    then ok false
    else if not (type_listed r.record_types rtype)
    then ok false
    else if not (id_listed r.record_ids record_id)
    then ok false
    else (do covered ← name_covered c r r.name_pattern name; ok (covered && allows r need))

unfoldable pub scan_rules : Codec → List Rule → Str → Option Str → Json → Json → Need → Result Bool
scan_rules c [] zone_id name rtype record_id need = ok false
scan_rules c (r ∷ rules) zone_id name rtype record_id need =
    rule_grants c r zone_id name rtype record_id need >>= λ granted.
    if granted then ok true else scan_rules c rules zone_id name rtype record_id need

abbrev some_name : Result Str → Result (Option Str)
some_name r = r >>= λ s. ok (some s)

-- `normalize_fqdn(name) if name else None`: a value that is no text has no `strip`.
unfoldable pub normalize_name : Codec → Json → Result (Option Str)
normalize_name c (str []) = ok none
normalize_name c (str (d ∷ s)) = some_name (normalize_fqdn c (d ∷ s))
normalize_name c v = if truthy v then raised attribute_error else ok none

unfoldable pub match_rules : Codec → List Rule → Str → Json → Json → Json → Need → Result Bool
match_rules c rules zone_id name rtype record_id need = do
  normalized ← normalize_name c name
  scan_rules c rules zone_id normalized rtype record_id need

abbrev no_pattern : Option Str → Bool
no_pattern none = true
no_pattern (some _) = false

-- `types == ["*"]`
abbrev any_type_only : List Str → Bool
any_type_only (t ∷ []) = t == star
any_type_only _ = false

abbrev pins : Option (List Str) → Json → Bool
pins none record_id = false
pins (some ids) record_id = mem_json record_id ids

unfoldable pub rule_exempts : Rule → Str → Json → Need → Bool
rule_exempts r zone_id path_record_id op =
    r.zone_id == zone_id
    && no_pattern r.name_pattern
    && any_type_only r.record_types
    && pins r.record_ids path_record_id
    && allows r op

unfoldable pub is_lock_exempt : List Rule → Str → Json → Need → Bool
is_lock_exempt [] zone_id path_record_id op = false
is_lock_exempt (r ∷ rules) zone_id path_record_id op =
    rule_exempts r zone_id path_record_id op || is_lock_exempt rules zone_id path_record_id op

-- `(body.get("name", pre.get("name")), body.get("type", pre.get("type")))`
unfoldable pub merge_patch_image : Fields → Fields → Json × Json
merge_patch_image pre body = (
  or_else (lookup (codes "name") body) (get (codes "name") pre),
  or_else (lookup (codes "type") body) (get (codes "type") pre),
)
