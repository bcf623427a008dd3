-- ===== src/Authz/Scope/Exempt.antt =====
-- A mutation that `is_lock_exempt` exempts cannot leave the scope of the rules.
use cloudflare_manual_dns.Authz.Pattern.{star}
use cloudflare_manual_dns.Authz.Scope.{
  Need, Rule, no_pattern, any_type_only, pins, rule_exempts, is_lock_exempt, match_rules,
}
use cloudflare_manual_dns.Authz.Scope.Grants.{
  IdCovered, NameCovered, Grants, mem_json_iff, allows_iff, match_rules_decides,
}
use cloudflare_manual_dns.Common.{
  ◌≡◌, sym, ◌≢◌, inl, inr, true, false, Option, none, some, List, [], ◌∷◌, arith, Bool-cases, All,
  Any, In, Str, eq_iff, Codec, Json, ok,
}

no_pattern-covers :
    (c : Codec) (p : Option Str) (mode : Str) (n : Option Str)
    → no_pattern p ≡ true
    → NameCovered c p mode n
no_pattern-covers c none mode n h = tt
no_pattern-covers c (some p) mode n h = cc

any_type-star : (types : List Str) → any_type_only types ≡ true → In star types
any_type-star [] h = cc
any_type-star (t ∷ []) h = inl (sym ((eq_iff t star).0 h))
any_type-star (t ∷ u ∷ types) h = cc

pins-covers : (ids : Option (List Str)) (v : Json) → pins ids v ≡ true → IdCovered ids v
pins-covers none v h = cc
pins-covers (some []) v h = tt
pins-covers (some (i ∷ ids)) v h = (mem_json_iff v (i ∷ ids)).0 h

module _ (c : Codec) (zone_id : Str) (record_id : Json) (op : Need) where
  rule_exempts-Grants :
      (r : Rule) (n : Option Str) (rtype : Json)
      → rule_exempts r zone_id record_id op ≡ true
      → Grants c r zone_id n rtype record_id op
  unfolding rule_exempts
  rule_exempts-Grants r n rtype h = record {
    zone = (eq_iff r.zone_id zone_id).0 (ground arith);
    types = inl (any_type-star r.record_types (ground arith));
    id = pins-covers r.record_ids record_id (ground arith);
    name = no_pattern-covers c r.name_pattern r.name_match n (ground arith);
    allowed = (allows_iff r op).0 (ground arith);
  }

  -- An exempting rule grants the operation on the record under every name and type.
  pub is_lock_exempt-Grants :
      (rules : List Rule) (n : Option Str) (rtype : Json)
      → is_lock_exempt rules zone_id record_id op ≡ true
      → Any (λ r. Grants c r zone_id n rtype record_id op) rules
  unfolding is_lock_exempt
  is_lock_exempt-Grants [] n rtype h = cc
  is_lock_exempt-Grants (r ∷ rules) n rtype h =
      elim (Bool-cases (rule_exempts r zone_id record_id op)) [
        | inl e ↦ inl (rule_exempts-Grants r n rtype e)
        | inr e ↦ inr (is_lock_exempt-Grants rules n rtype (rw e at h))
      ]

  Any-not-All : (P : Rule → Type 0) (rules : List Rule) → Any P rules → All (λ r. ¬ P r) rules → ⊥
  Any-not-All P (r ∷ rules) (inl p) h = h.0 p
  Any-not-All P (r ∷ rules) (inr a) h = Any-not-All P rules a h.1
  Any-not-All P [] a h = a

  -- If a mutation is exempt from the lock, `match_rules` refuses it under no name and no type: no
  -- rename or retype of the record between the check and the mutation can leave the scope.
  pub exempt_never_refused :
      (rules : List Rule) (name rtype : Json)
      → is_lock_exempt rules zone_id record_id op ≡ true
      → match_rules c rules zone_id name rtype record_id op ≢ ok false
  exempt_never_refused rules name rtype h e =
      let (n, _, none_grants) =
        match_rules_decides c rules zone_id name rtype record_id op false e in
      Any-not-All (λ r. Grants c r zone_id n rtype record_id op) rules
        (is_lock_exempt-Grants rules n rtype h) none_grants
