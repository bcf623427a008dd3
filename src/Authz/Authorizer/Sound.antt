-- ===== src/Authz/Authorizer/Sound.antt =====
-- What an answer of `authorize_dns_request` says: what is allowed is in scope before and after, and
-- what is denied is denied without showing that the record exists.
use cloudflare_manual_dns.Authz.Scope.{Need, Rule, match_rules, merge_patch_image}
use cloudflare_manual_dns.Authz.Authorizer.{
  CfError, AuthDecision, grant, deny, body_fields, cross_zone, authorize_post, authorize_image,
  authorize_fetched,
}
use cloudflare_manual_dns.Authz.Authorizer.Equal.{match_rules-py_eq}
use cloudflare_manual_dns.Common.{
  ◌≡◌, refl, sym, ap, ◌∙◌, inl, inr, Bool, true, false, ◌&&◌, Option, some, List, if◌then◌else◌,
  Bool-cases, both_true, Str, codes, Codec, Json, Fields, get, py_eq, null, obj, >>=-eq-ok,
  ok_injective, ok,
}

pub not_allowed :
    {d : AuthDecision} (e : CfError) (lock : Bool) (pre : Option Json)
    → d ≡ deny e lock pre
    → d.allowed ≡ true
    → ⊥
not_allowed e lock pre h a = cc (ap (λ (x : AuthDecision). x.allowed) h, a)

module _ (c : Codec) (rules : List Rule) (zone_id : Str) (record_id : Json) (op : Need) where
  -- The rules grant the operation on a record of this name and type.
  abbrev pub InScope : Json → Json → Type 0
  InScope name rtype = match_rules c rules zone_id name rtype record_id op ≡ ok true

  -- The record as it was fetched is in scope.
  abbrev pub OldInScope : Fields → Type 0
  OldInScope pre = InScope (get (codes "name") pre) (get (codes "type") pre)

  -- The record as the body leaves it is in scope.
  abbrev pub NewInScope : Fields → Json → Type 0
  NewInScope pre body =
      (fs : Fields) × (body_fields body ≡ ok fs)
      × InScope (merge_patch_image pre fs).0 (merge_patch_image pre fs).1

  pub record IsAllowed (renames lock : Bool) (body fetched : Json) (d : AuthDecision) : Type 0 where
    pub pre : Fields
    pub found : fetched ≡ obj pre
    pub same_zone : cross_zone zone_id (get (codes "zone_id") pre) ≡ false
    pub old : OldInScope pre
    pub new : renames ≡ true → NewInScope pre body
    pub decision : d ≡ grant lock (some (obj pre))

  authorize_post-allowed :
      (lock : Bool) (pre : Fields) (body : Json) (d : AuthDecision)
      → OldInScope pre
      → authorize_post c rules zone_id record_id op lock pre body ≡ ok d
      → d.allowed ≡ true
      → NewInScope pre body × (d ≡ grant lock (some (obj pre)))
  unfolding authorize_post
  authorize_post-allowed lock pre body d old h a =
      let (fs, e, h') = >>=-eq-ok (body_fields body) _ h in
      elim (Bool-cases (
        py_eq (merge_patch_image pre fs).0 (get (codes "name") pre)
        && py_eq (merge_patch_image pre fs).1 (get (codes "type") pre))) [
          | inl same ↦
              let (n, t) = both_true _ _ same in
              (
                (fs, e, match_rules-py_eq c zone_id record_id op rules _ _ _ _ n t ∙ old),
                ok_injective (sym (rw same at h')),
              )
          | inr differs ↦
              let (granted, m, k) =
                >>=-eq-ok (match_rules c rules zone_id _ _ record_id op) _ (rw differs at h') in
              elim (Bool-cases granted) [
                | inl hit ↦ ((fs, e, rw hit at m), ok_injective (sym (rw hit at k)))
                | inr miss ↦ absurd (not_allowed _ _ _ (ok_injective (sym (rw miss at k))) a)
              ]
        ]

  authorize_image-allowed :
      (renames lock : Bool) (body : Json) (pre : Fields) (d : AuthDecision)
      → authorize_image c rules zone_id renames record_id op lock body pre ≡ ok d
      → d.allowed ≡ true
      → IsAllowed renames lock body (obj pre) d
  unfolding authorize_image
  authorize_image-allowed renames lock body pre d h a =
      elim (Bool-cases (cross_zone zone_id (get (codes "zone_id") pre))) [
        | inl cross ↦ absurd (not_allowed _ _ _ (ok_injective (sym (rw cross at h))) a)
        | inr same ↦
            let (granted, old, k) =
              >>=-eq-ok (match_rules c rules zone_id _ _ record_id op) _ (rw same at h) in
            elim (Bool-cases granted) [
              | inl hit ↦ image_in_scope renames same (rw hit at old) (rw hit at k)
              | inr miss ↦ absurd (not_allowed _ _ _ (ok_injective (sym (rw miss at k))) a)
            ]
      ]
    where
      image_in_scope :
          (r : Bool)
          → cross_zone zone_id (get (codes "zone_id") pre) ≡ false
          → OldInScope pre
          → (if r
              then authorize_post c rules zone_id record_id op lock pre body
              else ok (grant lock (some (obj pre))))
            ≡ ok d
          → IsAllowed r lock body (obj pre) d
      image_in_scope true same old k =
          let (new, e) = authorize_post-allowed lock pre body d old k a in
          record {
            pre = pre;
            found = refl;
            same_zone = same;
            old = old;
            new = λ _. new;
            decision = e;
          }
      image_in_scope false same old k = record {
        pre = pre;
        found = refl;
        same_zone = same;
        old = old;
        new = λ f. cc;
        decision = ok_injective (sym k);
      }

  -- A by-id request that is allowed found a record of the zone, whose name and type are in scope;
  -- and for a method that may rename or retype it, so are the name and type that the body leaves.
  pub authorize_fetched-allowed :
      (renames lock : Bool) (body fetched : Json) (d : AuthDecision)
      → authorize_fetched c rules zone_id renames record_id op lock body fetched ≡ ok d
      → d.allowed ≡ true
      → IsAllowed renames lock body fetched d
  unfolding authorize_fetched
  authorize_fetched-allowed renames lock body (obj pre) d h a =
      authorize_image-allowed renames lock body pre d h a
  authorize_fetched-allowed renames lock body null d h a =
      absurd (not_allowed _ _ _ (ok_injective (sym h)) a)
  authorize_fetched-allowed renames lock body v d h a = cc
