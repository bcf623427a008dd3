-- ===== src/Proxy/Listing/Zones.antt =====
-- `list_zones` of src/cfproxy/routers/proxy_dns.py: which zones a list shows.
use mathlib.Core.Path.{subst}
use cloudflare_manual_dns.Authz.Scope.{Rule}
use cloudflare_manual_dns.Core.Envelopes.{Reply}
use cloudflare_manual_dns.Upstream.Auth.{resolve_upstream_auth}
use cloudflare_manual_dns.Proxy.Audit.{ProxyAuthContext, Request}
use cloudflare_manual_dns.Proxy.Listing.{
  pop_pagination, in_set, zones_in_scope, fetch_all_zones, list_reply, list_zones,
}
use cloudflare_manual_dns.Runtime.{Env, World, lift}
use cloudflare_manual_dns.Runtime.Bind.{pair_injective, >>=-returns, lift-returns}
use cloudflare_manual_dns.Common.{
  ℕ, ◌≡◌, refl, sym, ap, Bool, true, false, List, [], ◌∷◌, map, if◌then◌else◌, All, In, ℤ, Str,
  codes, mem_str_iff, Json, Fields, get, mem_json, null, str, obj, >>=-eq-ok, ok_injective,
  dict_fields, ok,
}

-- A rule names the zone.
abbrev pub IsNamed : List Rule → Json → Type 0
IsNamed rules z =
    (fs : Fields) × (id : Str) × (z ≡ obj fs)
    × (get (codes "id") fs ≡ str id)
    × In id (map (λ (r : Rule). r.zone_id) rules)

in_set_lem :
    (ids : List Str) (v : Json) → in_set ids v ≡ ok true → (id : Str) × (v ≡ str id) × In id ids
unfolding in_set mem_json
in_set_lem ids (str s) h = (s, refl, (mem_str_iff s ids).0 (ok_injective h))
in_set_lem ids null h = cc h
in_set_lem ids v h = cc h

keep_lem :
    (rules : List Rule) (z : Json) (fs : Fields) (rest : List Json) (kept : Bool)
    → dict_fields z ≡ ok fs
    → in_set (map (λ (r : Rule). r.zone_id) rules) (get (codes "id") fs) ≡ ok kept
    → All (IsNamed rules) rest
    → All (IsNamed rules) (if kept then z ∷ rest else rest)
unfolding dict_fields
keep_lem rules (obj gs) fs rest true d h a =
    let (id, e, i) = in_set_lem (map (λ (r : Rule). r.zone_id) rules) (get (codes "id") fs) h in
    ((fs, id, ap obj (ok_injective d), e, i), a)
keep_lem rules z fs rest false d h a = a
keep_lem rules z fs rest true d h a = cc d

zones_in_scope-All :
    (rules : List Rule) (zones out : List Json)
    → zones_in_scope rules zones ≡ ok out
    → All (IsNamed rules) out
unfolding zones_in_scope
zones_in_scope-All rules [] out h = subst (All (IsNamed rules)) (ok_injective h) tt
zones_in_scope-All rules (z ∷ zones) out h =
    let (fs, d, h₁) = >>=-eq-ok (dict_fields z) _ h in
    let (kept, s, h₂) =
      >>=-eq-ok (in_set (map (λ (r : Rule). r.zone_id) rules) (get (codes "id") fs)) _ h₁ in
    let (rest, t, h₃) = >>=-eq-ok (zones_in_scope rules zones) _ h₂ in
    subst (All (IsNamed rules)) (ok_injective h₃)
      (keep_lem rules z fs rest kept d s (zones_in_scope-All rules zones rest t))

-- A list of zones that is returned is a page of zones that the rules of the token name.
pub list_zones-All :
    (env : Env) (fuel : ℕ) (request : Request) (context : ProxyAuthContext) (w w' : World)
    (reply : Reply)
    → list_zones env fuel request context w ≡ (ok reply, w')
    → (zones : List Json) × (page : ℤ) × (per_page : ℤ) × (reply ≡ list_reply zones page per_page)
      × All (IsNamed context.rules) zones
unfolding list_zones
list_zones-All env fuel request context w w' reply h =
    let ((page, per_page, remaining), w₁, _, h₁) =
      >>=-returns (lift (pop_pagination env.codec request.query_params)) _ w h in
    let (auth_headers, w₂, _, h₂) =
      >>=-returns (resolve_upstream_auth env context.credential) _ w₁ h₁ in
    let (all_zones, w₃, _, h₃) =
      >>=-returns (fetch_all_zones env fuel auth_headers remaining) _ w₂ h₂ in
    let (zones, w₄, lifted, h₄) =
      >>=-returns (lift (zones_in_scope context.rules all_zones)) _ w₃ h₃ in
    (
      zones,
      page,
      per_page,
      sym (ok_injective (pair_injective h₄).0),
      zones_in_scope-All context.rules all_zones zones
          (lift-returns (zones_in_scope context.rules all_zones) w₃ lifted).0,
    )
