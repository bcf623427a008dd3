-- ===== src/Authz/Authorizer/Request.antt =====
-- `authorize_dns_request` as a whole: the method decides what is checked, and the lock is asked for
-- exactly by the mutations that are not exempt.
use cloudflare_manual_dns.Authz.Scope.{
  Need, read, create, write, delete, Rule, match_rules, is_lock_exempt,
}
use cloudflare_manual_dns.Authz.Authorizer.{
  AuthDecision, grant, deny, unsupported_method, body_fields, decide, authorize_create,
  authorize_fetched, authorize_by_id, authorize_dns_request,
}
use cloudflare_manual_dns.Authz.Authorizer.Sound.{IsAllowed, authorize_fetched-allowed, not_allowed}
use cloudflare_manual_dns.Common.{
  ◌≡◌, refl, sym, ap, ◌∙◌, ◌⊎◌, inl, inr, Bool, true, false, not, ◌&&◌, ◌||◌, none, List,
  if◌then◌else◌, Bool-cases, Str, codes, ◌==◌, eq_iff, Codec, upper, Json, Fields, get, null,
  Result, >>=-eq-ok, ok_injective, Exec, ok,
}

-- The methods on one record: does it mutate, may it rename, and which operation must be granted.
pub data ByIdMethod (m : Str) : Bool → Bool → Need → Type 0 where
  get_method : m ≡ codes "GET" → ByIdMethod m false false read
  patch_method : m ≡ codes "PATCH" → ByIdMethod m true true write
  put_method : m ≡ codes "PUT" → ByIdMethod m true true write
  delete_method : m ≡ codes "DELETE" → ByIdMethod m true false delete

module _ (c : Codec) (rules : List Rule) (zone_id : Str) {S : Type 0}
    (fetch : Str → Json → Exec S Json) (record_id body : Json) where
  -- A create is allowed on the name and type of the body, with no fetch.
  pub record CreateAllowed (s s' : S) (d : AuthDecision) : Type 0 where
    pub fields : Fields
    pub parsed : body_fields body ≡ ok fields
    pub granted :
        match_rules c rules zone_id
          (get (codes "name") fields)
          (get (codes "type") fields)
          null
          create
        ≡ ok true
    pub unfetched : s' ≡ s
    pub decision : d ≡ grant false none

  -- A request on one record is allowed on what was fetched.
  pub record ByIdAllowed (m : Str) (s s' : S) (d : AuthDecision) : Type 0 where
    pub mutation : Bool
    pub renames : Bool
    pub op : Need
    pub method : ByIdMethod m mutation renames op
    pub fetched : Json
    pub fetch_result : fetch zone_id record_id s ≡ (ok fetched, s')
    pub allowed :
        IsAllowed c rules zone_id record_id op renames
          (mutation && not (is_lock_exempt rules zone_id record_id op))
          body
          fetched
          d

  pub authorize_create-allowed :
      (s s' : S) (d : AuthDecision)
      → ◌≡◌ {A = Result AuthDecision × S} (authorize_create c rules zone_id body, s) (ok d, s')
      → d.allowed ≡ true
      → CreateAllowed s s' d
  unfolding authorize_create
  authorize_create-allowed s s' d h a =
      let (fs, e, h') =
        >>=-eq-ok (body_fields body) _ (ap (λ (x : Result AuthDecision × S). x.0) h) in
      let (granted, m, k) =
        >>=-eq-ok
          (match_rules c rules zone_id (get (codes "name") fs) (get (codes "type") fs) null create)
          _ h' in
      elim (Bool-cases granted) [
        | inl hit ↦ record {
          fields = fs;
          parsed = e;
          granted = rw hit at m;
          unfetched = sym (ap (λ (x : Result AuthDecision × S). x.1) h);
          decision = ok_injective (sym (rw hit at k));
        }
        | inr miss ↦ absurd (not_allowed _ _ _ (ok_injective (sym (rw miss at k))) a)
      ]

  authorize_by_id-allowed :
      (m : Str) (mutation renames : Bool) (op : Need) (s s' : S) (d : AuthDecision)
      → ByIdMethod m mutation renames op
      → authorize_by_id c rules zone_id fetch mutation renames record_id op body s ≡ (ok d, s')
      → d.allowed ≡ true
      → ByIdAllowed m s s' d
  unfolding authorize_by_id
  authorize_by_id-allowed m mutation renames op s s' d method h a =
      go (fetch zone_id record_id s) refl h
    where
      lock : Bool
      lock = mutation && not (is_lock_exempt rules zone_id record_id op)

      go :
          (r : Result Json × S)
          → fetch zone_id record_id s ≡ r
          → decide (authorize_fetched c rules zone_id renames record_id op lock body) r ≡ (ok d, s')
          → ByIdAllowed m s s' d
      go (r, t) e k =
          let (v, found, h') =
            >>=-eq-ok r (authorize_fetched c rules zone_id renames record_id op lock body)
              (ap (λ (x : Result AuthDecision × S). x.0) k) in
          record {
            mutation = mutation;
            renames = renames;
            op = op;
            method = method;
            fetched = v;
            fetch_result = e ∙ cc (found, ap (λ (x : Result AuthDecision × S). x.1) k);
            allowed =
                authorize_fetched-allowed c rules zone_id record_id op renames lock body v d h' a;
          }

  -- What an allowed request has established, by its method.
  abbrev pub IsJustified : Str → S → S → AuthDecision → Type 0
  IsJustified method s s' d =
      ((upper c method ≡ codes "POST") × CreateAllowed s s' d) ⊎ ByIdAllowed (upper c method) s s' d

  -- An allowed POST is a create in scope, made with no fetch. Any other allowed request is a GET,
  -- PATCH, PUT or DELETE of a record that was fetched, belongs to the zone, and is in scope for the
  -- method's operation, before and (PATCH and PUT) after the change; the lock is asked for exactly
  -- if the method mutates and no rule exempts it.
  pub authorize_dns_request-IsJustified :
      (method : Str) (s s' : S) (d : AuthDecision)
      → authorize_dns_request c rules zone_id fetch method record_id body s ≡ (ok d, s')
      → d.allowed ≡ true
      → IsJustified method s s' d
  unfolding authorize_dns_request
  authorize_dns_request-IsJustified method s s' d h a =
      elim (Bool-cases (upper c method == codes "POST")) [
        | inl e ↦ inl (
          (eq_iff (upper c method) (codes "POST")).0 e,
          authorize_create-allowed s s' d (rw e at h) a,
        )
        | inr e ↦ inr (by_id (upper c method) (rw e at h))
      ]
    where
      refused :
          ◌≡◌ {A = Result AuthDecision × S} (ok (deny unsupported_method false none), s) (ok d, s')
          → ⊥
      refused k =
          not_allowed _ _ _ (ok_injective (sym (ap (λ (x : Result AuthDecision × S). x.0) k))) a

      mutates :
          (m : Str)
          → (if m == codes "PATCH" || m == codes "PUT"
              then authorize_by_id c rules zone_id fetch true true record_id write body s
              else if m == codes "DELETE"
              then authorize_by_id c rules zone_id fetch true false record_id delete body s
              else (ok (deny unsupported_method false none), s))
            ≡ (ok d, s')
          → ByIdAllowed m s s' d
      mutates m k = elim (Bool-cases (m == codes "PATCH")) [
        | inl e ↦
            authorize_by_id-allowed m true true write s s' d
              (patch_method ((eq_iff m (codes "PATCH")).0 e)) (rw e at k) a
        | inr e ↦ elim (Bool-cases (m == codes "PUT")) [
          | inl f ↦
              authorize_by_id-allowed m true true write s s' d
                (put_method ((eq_iff m (codes "PUT")).0 f)) (rw (e, f) at k) a
          | inr f ↦ elim (Bool-cases (m == codes "DELETE")) [
            | inl g ↦
                authorize_by_id-allowed m true false delete s s' d
                  (delete_method ((eq_iff m (codes "DELETE")).0 g)) (rw (e, f, g) at k) a
            | inr g ↦ absurd (refused (rw (e, f, g) at k))
          ]
        ]
      ]

      by_id :
          (m : Str)
          → (if m == codes "GET"
              then authorize_by_id c rules zone_id fetch false false record_id read body s
              else if m == codes "PATCH" || m == codes "PUT"
              then authorize_by_id c rules zone_id fetch true true record_id write body s
              else if m == codes "DELETE"
              then authorize_by_id c rules zone_id fetch true false record_id delete body s
              else (ok (deny unsupported_method false none), s))
            ≡ (ok d, s')
          → ByIdAllowed m s s' d
      by_id m k = elim (Bool-cases (m == codes "GET")) [
        | inl e ↦
            authorize_by_id-allowed m false false read s s' d
              (get_method ((eq_iff m (codes "GET")).0 e)) (rw e at k) a
        | inr e ↦ mutates m (rw e at k)
      ]
