-- ===== src/Services/Tokens/Validated.antt =====
-- Minting in src/cfproxy/services/token_service.py: what the rules of a minted token have passed.
use cloudflare_manual_dns.Runtime.{or_raise, committed, drawn, Event, Env, World, raise, lift}
use cloudflare_manual_dns.Authz.Pattern.{validate_name_pattern}
use cloudflare_manual_dns.Db.{Datetime, UpstreamCredential}
use cloudflare_manual_dns.Upstream.Auth.{encodable}
use cloudflare_manual_dns.Services.Credentials.{find_owned, get_owned_credential}
use cloudflare_manual_dns.Services.Tokens.{
  RuleInput, Minted, Memo, has_pattern, has_ids, pattern_of, headers_once, resolve_zone_name,
  validate_rule, validate_rules, validate_scope_rules, mint_scoped_token,
}
use cloudflare_manual_dns.Runtime.Bind.{pair_injective, >>=-returns, lift-returns}
use mathlib.Core.Path.{subst}
use cloudflare_manual_dns.Core.Crypto.{generate_scoped_token}
use cloudflare_manual_dns.Db.Locks.Bounds.{Adds}
use cloudflare_manual_dns.Upstream.Auth.{find_key}
use cloudflare_manual_dns.Services.Tokens.Zones.{
  Adds-refl, Adds-cons, Adds-trans, IsZoneName, IsZoneName-later, KnowsZones, headers_once-Adds,
  resolve_zone_name-Resolved,
}
use cloudflare_manual_dns.Common.{
  ◌≡◌, ap, ◌∙◌, ◌≢◌, ◌⊎◌, inl, inr, true, Option, none, some, List, [], ◌∷◌, Bool-cases, All, all,
  Str, Json, null, bool, int, str, arr, obj, Exception, Result, ok_injective, credential_not_found,
  ok, raised,
}

-- The rule names records by pattern or by id, and its pattern is valid for the name that the
-- upstream gave its zone in the run.
abbrev pub IsValidated : Env → List Event → RuleInput → Type 0
IsValidated env t r =
    ((has_pattern r.rule ≡ true) ⊎ (has_ids r.rule ≡ true))
    × (has_pattern r.rule ≡ true
        → (zone_name : Str) × IsZoneName env t r.rule.zone_id (str zone_name)
          × (validate_name_pattern env.codec (pattern_of r.rule) r.rule.name_match zone_name
              ≡ ok tt))

IsValidated-later :
    (env : Env) (t u : List Event) (r : RuleInput)
    → Adds t u
    → IsValidated env t r
    → IsValidated env u r
IsValidated-later env t u r h (kind, v) = (
  kind,
  λ p.
      let (zone_name, z, valid) = v p in
      (zone_name, IsZoneName-later env t u r.rule.zone_id (str zone_name) h z, valid),
)

raise-not : {A : Type 0} (e : Exception) (w w' : World) {a : A} → raise e w ≡ (ok a, w') → ⊥
raise-not e w w' h = raised_not_ok (pair_injective h).0
  where
    raised_not_ok : {A : Type 0} {a : A} → ◌≡◌ {A = Result A} (raised e) (ok a) → ⊥
    raised_not_ok i = cc

encodable-ok : (v : Json) (s : Str) → encodable v ≡ ok s → v ≡ str s
encodable-ok (str t) s h = ap str (ok_injective h)
encodable-ok null s h = cc h
encodable-ok (bool b) s h = cc h
encodable-ok (int n) s h = cc h
encodable-ok (arr vs) s h = cc h
encodable-ok (obj fs) s h = cc h

module _ (env : Env) (credential : UpstreamCredential) where
  -- What a round leaves behind.
  abbrev Checked : List RuleInput → World → Memo → World → Type 0
  Checked rules w next w' =
      Adds w.trace w'.trace × All (IsValidated env w'.trace) rules × KnowsZones env w'.trace next

  pattern_lem :
      (r : RuleInput) (memo next : Memo) (w w' : World)
      → has_pattern r.rule ≡ true
      → KnowsZones env w.trace memo
      → validate_rule env credential r.rule memo w ≡ (ok next, w')
      → Checked (r ∷ []) w next w'
  unfolding validate_rule
  pattern_lem r memo next w w' p knows h =
      let (auth_headers, w₁, prepared, h₁) =
        >>=-returns (headers_once env credential memo.auth_headers) _ w (rw p at h) in
      let with_headers : Memo = record memo { auth_headers = some auth_headers } in
      let first = headers_once-Adds env credential memo.auth_headers w w₁ auth_headers prepared in
      let ((name, named), w₂, resolved, h₂) =
        >>=-returns (resolve_zone_name env r.rule.zone_id auth_headers with_headers) _ w₁ h₁ in
      let (second, z, known) =
        resolve_zone_name-Resolved env r.rule.zone_id auth_headers with_headers w₁ w₂ (name, named)
          (λ i n f. IsZoneName-later env w.trace w₁.trace i n first (knows i n f)) resolved in
      let (zone_name, w₃, encoded, h₃) = >>=-returns (lift (encodable name)) _ w₂ h₂ in
      let (is_text, same₂) = lift-returns (encodable name) w₂ encoded in
      let (_, w₄, lifted, h₄) =
        >>=-returns
          (lift (validate_name_pattern env.codec (pattern_of r.rule) r.rule.name_match zone_name)) _
          w₃ h₃ in
      let (valid, same₃) =
        lift-returns
          (validate_name_pattern env.codec (pattern_of r.rule) r.rule.name_match zone_name) w₃
          lifted in
      let (result, same₄) = pair_injective h₄ in
      subst (λ m. Checked (r ∷ []) w m w') (ok_injective result)
        (subst (Checked (r ∷ []) w named) (same₂ ∙ same₃ ∙ same₄) (
          Adds-trans w.trace w₁.trace w₂.trace first second,
          (
            (
              inl p,
              λ _. (
                zone_name,
                subst (λ n. IsZoneName env w₂.trace r.rule.zone_id n)
                    (encodable-ok name zone_name is_text) z,
                valid,
              ),
            ),
            tt,
          ),
          known,
        ))

  validate_rule_lem :
      (r : RuleInput) (memo next : Memo) (w w' : World)
      → KnowsZones env w.trace memo
      → validate_rule env credential r.rule memo w ≡ (ok next, w')
      → Checked (r ∷ []) w next w'
  unfolding validate_rule
  validate_rule_lem r memo next w w' knows h = elim (Bool-cases (has_pattern r.rule)) [
    | inl p ↦ pattern_lem r memo next w w' p knows h
    | inr p ↦ elim (Bool-cases (has_ids r.rule)) [
      | inl i ↦
          let (result, same) = pair_injective (rw (p, i) at h) in
          subst (λ m. Checked (r ∷ []) w m w') (ok_injective result)
            (subst (Checked (r ∷ []) w memo) same
              (Adds-refl w.trace, ((inr i, λ q. cc (p, q)), tt), knows))
      | inr i ↦ absurd (raise-not _ w w' (rw (p, i) at h))
    ]
  ]

  validate_rules_lem :
      (rules : List RuleInput) (memo : Memo) (w w' : World)
      → KnowsZones env w.trace memo
      → validate_rules env credential rules memo w ≡ (ok tt, w')
      → Adds w.trace w'.trace × All (IsValidated env w'.trace) rules
  unfolding validate_rules
  validate_rules_lem [] memo w w' knows h =
      (subst (λ v. Adds w.trace v.trace) (pair_injective h).1 (Adds-refl w.trace), tt)
  validate_rules_lem (r ∷ rules) memo w w' knows h =
      let (next, v, first, k) =
        >>=-returns (validate_rule env credential r.rule memo) (validate_rules env credential rules)
          w h in
      let (before, valid, known) = validate_rule_lem r memo next w v knows first in
      let (after, all) = validate_rules_lem rules next v w' known k in
      (
        Adds-trans w.trace v.trace w'.trace before after,
        (IsValidated-later env v.trace w'.trace r after valid.0, all),
      )

  validate_scope_rules_lem :
      (rules : List RuleInput) (w w' : World)
      → validate_scope_rules env credential rules w ≡ (ok tt, w')
      → (rules ≢ []) × All (IsValidated env w'.trace) rules
  unfolding validate_scope_rules find_key
  validate_scope_rules_lem [] w w' h = absurd (raise-not _ w w' h)
  validate_scope_rules_lem (r ∷ rules) w w' h =
      (λ e. cc e, (validate_rules_lem (r ∷ rules) _ w w' (λ i n f. cc f) h).1)

All-later :
    (env : Env) (t u : List Event) (rules : List RuleInput)
    → Adds t u
    → All (IsValidated env t) rules
    → All (IsValidated env u) rules
All-later env t u [] h k = tt
All-later env t u (r ∷ rules) h (first, rest) =
    (IsValidated-later env t u r h first, All-later env t u rules h rest)

-- A token is minted only for a credential that the user owns, with at least one rule; and every one
-- of its rules names its records by pattern or by id, with a pattern that was found valid for the
-- name in the upstream's answer to the GET of the rule's zone, which the run has sent.
pub mint-IsValidated :
    (env : Env) (user_id name credential_id : Str) (rules : List RuleInput)
    (expires_at : Option Datetime) (w w' : World) (minted : Minted)
    → mint_scoped_token env user_id name credential_id rules expires_at w ≡ (ok minted, w')
    → ((credential : UpstreamCredential) × (find_owned user_id credential_id w.db.credentials
          ≡ some credential))
      × (rules ≢ [])
      × All (IsValidated env w'.trace) rules
unfolding mint_scoped_token get_owned_credential generate_scoped_token
mint-IsValidated env user_id name credential_id rules expires_at w w' minted h =
    let (credential, v, found, k) =
      >>=-returns (get_owned_credential user_id credential_id) _ w h in
    let (_, u, validated, m) = >>=-returns (validate_scope_rules env credential rules) _ v k in
    let (some_rule, all) = validate_scope_rules_lem env credential rules v u validated in
    (
      (credential, owned (find_owned user_id credential_id w.db.credentials) found),
      some_rule,
      All-later env u.trace w'.trace rules
          (subst (λ (v : World). Adds u.trace v.trace) (pair_injective m).1
            (Adds-cons committed _ _ (Adds-cons drawn _ _ (Adds-refl u.trace))))
          all,
    )
  where
    owned :
        {c : UpstreamCredential} {v : World} (o : Option UpstreamCredential)
        → or_raise (credential_not_found credential_id) o w ≡ (ok c, v)
        → o ≡ some c
    owned none h = absurd (raise-not (credential_not_found credential_id) w _ h)
    owned (some c) h = ap some (ok_injective (pair_injective h).0)
