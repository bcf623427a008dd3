-- ===== src/Authz/Authorizer/Denied.antt =====
-- The leak policy of `authorize_dns_request`: how a by-id request is denied.
use cloudflare_manual_dns.Authz.Scope.{Need, Rule, match_rules, merge_patch_image}
use cloudflare_manual_dns.Authz.Authorizer.{
  CfError, AuthDecision, grant, deny, record_not_found, insufficient_scope, body_fields, cross_zone,
  authorize_post, authorize_image, authorize_fetched,
}
use cloudflare_manual_dns.Authz.Authorizer.Sound.{OldInScope}
use cloudflare_manual_dns.Common.{
  ◌≡◌, refl, sym, ap, ◌⊎◌, inl, inr, Bool, true, false, ◌&&◌, Option, some, List, if◌then◌else◌,
  Bool-cases, Str, codes, Codec, Json, Fields, get, py_eq, null, obj, >>=-eq-ok, ok_injective, ok,
}

allowed-false :
    {d : AuthDecision} (lock : Bool) (pre : Option Json)
    → d ≡ grant lock pre
    → d.allowed ≡ false
    → ⊥
allowed-false lock pre h a = cc (ap (λ (x : AuthDecision). x.allowed) h, a)

error-deny :
    {d : AuthDecision} (e : CfError) (lock : Bool) (pre : Option Json)
    → d ≡ deny e lock pre
    → d.error ≡ some e
error-deny e lock pre h = ap (λ (x : AuthDecision). x.error) h

module _ (c : Codec) (rules : List Rule) (zone_id : Str) (record_id : Json) (op : Need) where
  -- A denial says "not found", or it says "insufficient scope" of a rename or retype of a record
  -- that is in scope as it stands.
  abbrev pub IsDiscreet : Bool → Json → AuthDecision → Type 0
  IsDiscreet renames fetched d =
      (d.error ≡ some record_not_found)
      ⊎ ((d.error ≡ some insufficient_scope)
          × (renames ≡ true)
          × ((pre : Fields) × (fetched ≡ obj pre) × OldInScope c rules zone_id record_id op pre))

  authorize_post-denied :
      (lock : Bool) (pre : Fields) (body : Json) (d : AuthDecision)
      → authorize_post c rules zone_id record_id op lock pre body ≡ ok d
      → d.allowed ≡ false
      → d.error ≡ some insufficient_scope
  unfolding authorize_post
  authorize_post-denied lock pre body d h a =
      let (fs, e, h') = >>=-eq-ok (body_fields body) _ h in
      elim (Bool-cases (
        py_eq (merge_patch_image pre fs).0 (get (codes "name") pre)
        && py_eq (merge_patch_image pre fs).1 (get (codes "type") pre))) [
          | inl same ↦ absurd (allowed-false _ _ (ok_injective (sym (rw same at h'))) a)
          | inr differs ↦
              let (granted, m, k) =
                >>=-eq-ok (match_rules c rules zone_id _ _ record_id op) _ (rw differs at h') in
              elim (Bool-cases granted) [
                | inl hit ↦ absurd (allowed-false _ _ (ok_injective (sym (rw hit at k))) a)
                | inr miss ↦ error-deny _ _ _ (ok_injective (sym (rw miss at k)))
              ]
        ]

  authorize_image-denied :
      (renames lock : Bool) (body : Json) (pre : Fields) (d : AuthDecision)
      → authorize_image c rules zone_id renames record_id op lock body pre ≡ ok d
      → d.allowed ≡ false
      → IsDiscreet renames (obj pre) d
  unfolding authorize_image
  authorize_image-denied renames lock body pre d h a =
      elim (Bool-cases (cross_zone zone_id (get (codes "zone_id") pre))) [
        | inl cross ↦ inl (error-deny _ _ _ (ok_injective (sym (rw cross at h))))
        | inr same ↦
            let (granted, old, k) =
              >>=-eq-ok (match_rules c rules zone_id _ _ record_id op) _ (rw same at h) in
            elim (Bool-cases granted) [
              | inl hit ↦ in_scope renames (rw hit at old) (rw hit at k)
              | inr miss ↦ inl (error-deny _ _ _ (ok_injective (sym (rw miss at k))))
            ]
      ]
    where
      in_scope :
          (r : Bool)
          → OldInScope c rules zone_id record_id op pre
          → (if r
              then authorize_post c rules zone_id record_id op lock pre body
              else ok (grant lock (some (obj pre))))
            ≡ ok d
          → IsDiscreet r (obj pre) d
      in_scope true old k = inr (authorize_post-denied lock pre body d k a, refl, (pre, refl, old))
      in_scope false old k = absurd (allowed-false _ _ (ok_injective (sym k)) a)

  pub authorize_fetched-IsDiscreet :
      (renames lock : Bool) (body fetched : Json) (d : AuthDecision)
      → authorize_fetched c rules zone_id renames record_id op lock body fetched ≡ ok d
      → d.allowed ≡ false
      → IsDiscreet renames fetched d
  unfolding authorize_fetched
  authorize_fetched-IsDiscreet renames lock body (obj pre) d h a =
      authorize_image-denied renames lock body pre d h a
  authorize_fetched-IsDiscreet renames lock body null d h a =
      inl (error-deny _ _ _ (ok_injective (sym h)))
  authorize_fetched-IsDiscreet renames lock body v d h a = cc
