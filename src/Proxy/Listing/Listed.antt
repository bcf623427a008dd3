-- ===== src/Proxy/Listing/Listed.antt =====
-- `list_dns_records` of src/cfproxy/routers/proxy_dns.py: what a list shows.
use mathlib.Core.Path.{subst}
use cloudflare_manual_dns.Filtering.{filter_records}
use cloudflare_manual_dns.Filtering.Readable.{IsFiltered, filter_records-IsFiltered}
use cloudflare_manual_dns.Core.Envelopes.{Reply}
use cloudflare_manual_dns.Upstream.Client.{Headers, list_all_records, records_path}
use cloudflare_manual_dns.Upstream.Client.Pages.{Walk, list_all_records-Walk}
use cloudflare_manual_dns.Upstream.Auth.{resolve_upstream_auth}
use cloudflare_manual_dns.Proxy.Audit.{ProxyAuthContext, Request}
use cloudflare_manual_dns.Proxy.Listing.{pop_pagination, any_rule_for, list_reply, list_dns_records}
use cloudflare_manual_dns.Runtime.{Env, World, M, pure, lift, ◌>>=◌}
use cloudflare_manual_dns.Runtime.Bind.{pair_injective, >>=-returns, lift-returns}
use cloudflare_manual_dns.Authz.Scope.{Rule}
use cloudflare_manual_dns.Common.{
  ℕ, ◌≡◌, refl, sym, ◌∙◌, ◌≢◌, inl, inr, Bool, true, false, not, List, [], ◌∷◌, if◌then◌else◌,
  Bool-cases, All, Any, ℤ, Str, ◌==◌, eq_iff, Json, ok_injective, ok,
}

module _ (env : Env) (fuel : ℕ) (zone_id : Str) (request : Request)
    (context : ProxyAuthContext) where
  -- Where the reply comes from, when there is one.
  pub data Listed (w w' : World) (reply : Reply) : Type 0 where
    -- no rule names the zone: an empty list, and nothing is done
    out_of_scope :
        (page per_page : ℤ) (remaining : List (Str × Str))
        → All (λ (r : Rule). r.zone_id ≢ zone_id) context.rules
        → pop_pagination env.codec request.query_params ≡ ok (page, per_page, remaining)
        → w ≡ w'
        → reply ≡ list_reply [] page per_page
        → Listed w w' reply
    listed :
        (page per_page : ℤ) (remaining : List (Str × Str)) (auth_headers : Headers) (v : World)
        (records authorized : List Json)
        → Any (λ (r : Rule). r.zone_id ≡ zone_id) context.rules
        → pop_pagination env.codec request.query_params ≡ ok (page, per_page, remaining)
        → resolve_upstream_auth env context.credential w ≡ (ok auth_headers, v)
        → Walk env (records_path zone_id) remaining auth_headers v.trace 1 records w'.trace
        → IsFiltered env.codec context.rules zone_id records authorized
        → reply ≡ list_reply authorized page per_page
        → Listed w w' reply

  named_lem :
      (rules : List Rule)
      → any_rule_for rules zone_id ≡ true
      → Any (λ (r : Rule). r.zone_id ≡ zone_id) rules
  unfolding any_rule_for
  named_lem [] h = cc h
  named_lem (r ∷ rules) h = elim (Bool-cases (r.zone_id == zone_id)) [
    | inl e ↦ inl ((eq_iff r.zone_id zone_id).0 e)
    | inr e ↦ inr (named_lem rules (rw e at h))
  ]

  unnamed_lem :
      (rules : List Rule)
      → any_rule_for rules zone_id ≡ false
      → All (λ (r : Rule). r.zone_id ≢ zone_id) rules
  unfolding any_rule_for
  unnamed_lem [] h = tt
  unnamed_lem (r ∷ rules) h = elim (Bool-cases (r.zone_id == zone_id)) [
    | inl e ↦ cc (rw e at h)
    | inr e ↦
        (λ same. cc (sym e ∙ (eq_iff r.zone_id zone_id).1 same), unnamed_lem rules (rw e at h))
  ]

  abbrev list_all : ℤ → ℤ → List (Str × Str) → M Reply
  list_all page per_page remaining = do
    auth_headers ← resolve_upstream_auth env context.credential
    all_records ← list_all_records env fuel zone_id remaining auth_headers
    authorized ← lift (filter_records env.codec all_records context.rules zone_id)
    pure (list_reply authorized page per_page)

  list_all-Listed :
      (page per_page : ℤ) (remaining : List (Str × Str)) (w w' : World) (reply : Reply)
      → Any (λ (r : Rule). r.zone_id ≡ zone_id) context.rules
      → pop_pagination env.codec request.query_params ≡ ok (page, per_page, remaining)
      → list_all page per_page remaining w ≡ (ok reply, w')
      → Listed w w' reply
  list_all-Listed page per_page remaining w w' reply named p h =
      let (auth_headers, v, resolved, h₁) =
        >>=-returns (resolve_upstream_auth env context.credential) _ w h in
      let (records, u, walked, h₂) =
        >>=-returns (list_all_records env fuel zone_id remaining auth_headers) _ v h₁ in
      let (authorized, u', lifted, h₃) =
        >>=-returns (lift (filter_records env.codec records context.rules zone_id)) _ u h₂ in
      let (filtered, same) =
        lift-returns (filter_records env.codec records context.rules zone_id) u lifted in
      let (replied, ended) = pair_injective h₃ in
      listed page per_page remaining auth_headers v records authorized named p resolved
        (subst
          (λ (x : World).
            Walk env (records_path zone_id) remaining auth_headers v.trace 1 records x.trace)
          (same ∙ ended)
          (list_all_records-Walk env fuel zone_id remaining auth_headers v u records walked))
        (filter_records-IsFiltered env.codec context.rules zone_id records authorized filtered)
        (sym (ok_injective replied))

  in_scope :
      (b : Bool) (page per_page : ℤ) (remaining : List (Str × Str)) (w w' : World) (reply : Reply)
      → pop_pagination env.codec request.query_params ≡ ok (page, per_page, remaining)
      → any_rule_for context.rules zone_id ≡ b
      → (if not b then pure (list_reply [] page per_page) else list_all page per_page remaining) w
        ≡ (ok reply, w')
      → Listed w w' reply
  in_scope true page per_page remaining w w' reply p e h =
      list_all-Listed page per_page remaining w w' reply (named_lem context.rules e) p h
  in_scope false page per_page remaining w w' reply p e h =
      let (replied, ended) = pair_injective h in
      out_of_scope page per_page remaining (unnamed_lem context.rules e) p ended
        (sym (ok_injective replied))

  -- A list of records that is returned is the page that the query asks for. If no rule names the
  -- zone it is one of an empty list, and nothing has changed: no credential was resolved and nothing
  -- sent. If some rule does, it is one of the records that the rules let the token read, picked in
  -- order from all pages of the upstream's list.
  pub list_dns_records-Listed :
      (w w' : World) (reply : Reply)
      → list_dns_records env fuel zone_id request context w ≡ (ok reply, w')
      → Listed w w' reply
  unfolding list_dns_records
  list_dns_records-Listed w w' reply h =
      let ((page, per_page, remaining), v, lifted, h₁) =
        >>=-returns (lift (pop_pagination env.codec request.query_params)) _ w h in
      let (popped, same) = lift-returns (pop_pagination env.codec request.query_params) w lifted in
      in_scope (any_rule_for context.rules zone_id) page per_page remaining w w' reply popped refl
        (rw (← same) at h₁)
