-- ===== src/Proxy/Records/Shown.antt =====
-- `get_dns_record` of src/cfproxy/routers/proxy_dns.py: what a GET of one record shows.
use mathlib.Core.Path.{subst}
use cloudflare_manual_dns.Authz.Scope.{read}
use cloudflare_manual_dns.Authz.Authorizer.{
  AuthDecision, record_not_found, cross_zone, authorize_fetched,
}
use cloudflare_manual_dns.Authz.Authorizer.Sound.{OldInScope, authorize_fetched-allowed}
use cloudflare_manual_dns.Authz.Authorizer.Denied.{authorize_fetched-IsDiscreet}
use cloudflare_manual_dns.Authz.Authorizer.Request.{get_method}
use cloudflare_manual_dns.Authz.Authorizer.ByMethod.{authorize_dns_request-fetched}
use cloudflare_manual_dns.Core.Envelopes.{Reply, make_cf_response}
use cloudflare_manual_dns.Upstream.Client.{Headers}
use cloudflare_manual_dns.Upstream.Auth.{resolve_upstream_auth}
use cloudflare_manual_dns.Proxy.Audit.{ProxyAuthContext, Request, record_audit}
use cloudflare_manual_dns.Proxy.Records.{
  image, error_reply, live_fetch, authorize_live, deny_by_id, get_dns_record,
}
use cloudflare_manual_dns.Proxy.Records.Attempt.{get_request, get_answer, live_fetch_lem}
use cloudflare_manual_dns.Upstream.Client.Sent.{send}
use cloudflare_manual_dns.Runtime.{Env, World, M, pure, continue}
use cloudflare_manual_dns.Common.{
  ◌≡◌, refl, sym, ap, ◌∙◌, inl, inr, Bool, true, false, not, none, some, if◌then◌else◌, Str, codes,
  upper_char, upper, Json, Fields, get, null, str, obj, nil, Exception, Result, and_then, ok,
  raised,
}

module _ (env : Env) (context : ProxyAuthContext) (request : Request) (zone_id record_id : Str)
    (auth_headers : Headers) (w : World) where
  -- What the client gets.
  pub data Shown : Result Reply → Type 0 where
    failed : (e : Exception) → Shown (raised e)
    hidden : Shown (ok (error_reply record_not_found))
    shown :
        (pre : Fields)
        → get_answer env context request zone_id record_id auth_headers w.trace ≡ ok (obj pre)
        → cross_zone zone_id (get (codes "zone_id") pre) ≡ false
        → OldInScope env.codec context.rules zone_id (str record_id) read pre
        → Shown (ok (make_cf_response (obj pre) 200 nil none))

  abbrev show : AuthDecision → M Reply
  show d =
      if not d.allowed
      then deny_by_id env context request (codes "GET") zone_id record_id d
      else pure (make_cf_response (image d.pre_image) 200 nil none)

  abbrev decision_on : Json → Result AuthDecision
  decision_on =
      authorize_fetched env.codec context.rules zone_id false (str record_id) read false null

  denied_lem :
      (d : AuthDecision) (s : World)
      → d.error ≡ some record_not_found
      → Shown (deny_by_id env context request (codes "GET") zone_id record_id d s).0
  unfolding deny_by_id record_audit
  denied_lem d s h = simp h hidden

  show_lem :
      (fetched : Json) (d : AuthDecision) (s : World)
      → get_answer env context request zone_id record_id auth_headers w.trace ≡ ok fetched
      → decision_on fetched ≡ ok d
      → Shown (show d s).0
  show_lem fetched d s h k = go d.allowed refl
    where
      go :
          (b : Bool)
          → d.allowed ≡ b
          → Shown
              ((if not b
                  then deny_by_id env context request (codes "GET") zone_id record_id d
                  else pure (make_cf_response (image d.pre_image) 200 nil none))
                s).0
      go true a =
          let i =
            authorize_fetched-allowed env.codec context.rules zone_id (str record_id) read false
              false null fetched d k a in
          subst
            (λ (x : AuthDecision). Shown (ok (make_cf_response (image x.pre_image) 200 nil none)))
            (sym i.decision) (shown i.pre (h ∙ ap ok i.found) i.same_zone i.old)
      go false a =
          elim (authorize_fetched-IsDiscreet env.codec context.rules zone_id (str record_id) read
            false false null fetched d k a) [ inl e ↦ denied_lem d s e | inr (_, f, _) ↦ cc ]

  decided :
      (v : Result Json) (s : World)
      → get_answer env context request zone_id record_id auth_headers w.trace ≡ v
      → Shown (continue show (and_then v decision_on, s)).0
  decided (raised e) s h = failed e
  decided (ok fetched) s h = go _ refl
    where
      go : (o : Result AuthDecision) → decision_on fetched ≡ o → Shown (continue show (o, s)).0
      go (raised e) k = failed e
      go (ok d) k = show_lem fetched d s h k

  -- A GET of one record, whose credential is resolved, shows the record only if the upstream has
  -- just answered with it, it belongs to the zone, and the rules let the token read it under its
  -- present name and type. Every other reply is the one for a missing record.
  pub get_dns_record-Shown :
      (w₀ : World)
      → resolve_upstream_auth env context.credential w₀ ≡ (ok auth_headers, w)
      → Shown (get_dns_record env context request zone_id record_id w₀).0
  unfolding get_dns_record authorize_live upper upper_char
  get_dns_record-Shown w₀ h =
      rw
        (
          h,
          authorize_dns_request-fetched env.codec context.rules zone_id
              (live_fetch env context request auth_headers) (str record_id) null false false read
              (codes "GET") w
              (send (get_request env context request zone_id record_id auth_headers) w)
              (get_answer env context request zone_id record_id auth_headers w.trace)
              (get_method refl)
              (live_fetch_lem env context request zone_id record_id auth_headers w),
        )
        (decided (get_answer env context request zone_id record_id auth_headers w.trace) _ refl)
