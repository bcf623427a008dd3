-- ===== src/Proxy/Listing.antt =====
-- The lists of src/cfproxy/routers/proxy_dns.py: `_pop_pagination`, `_fetch_all_zones`,
-- `list_zones` and `list_dns_records`.
pub mod Listed
pub mod Zones
use cloudflare_manual_dns.Authz.Scope.{Rule}
use cloudflare_manual_dns.Filtering.{ResultInfo, filter_records, paginate_and_result_info}
use cloudflare_manual_dns.Core.Envelopes.{Reply, make_cf_response}
use cloudflare_manual_dns.Upstream.Client.{
  Headers, forward_request, iterate, total_pages_of, json, page_params, next_page, list_all_records,
}
use cloudflare_manual_dns.Upstream.Auth.{resolve_upstream_auth, find_key, drop_key}
use cloudflare_manual_dns.Proxy.Audit.{ProxyAuthContext, Request}
use cloudflare_manual_dns.Runtime.{HttpResponse, Env, M, pure, raise, lift, ◌>>=◌}
use cloudflare_manual_dns.Common.{
  ℕ, zero, suc, Bool, false, not, ◌||◌, Option, none, some, List, [], ◌∷◌, ◌++◌, map, leb,
  if◌then◌else◌, ℤ, leb_ℤ, pos, Str, codes, ◌==◌, Codec, parse_int, Json, Items, Fields, truthy,
  get, mem_json, int, arr, obj, nil, cons, end, field, Result, and_then, dict_fields, value_error,
  type_error, out_of_fuel, ok, raised,
}

abbrev or_value_error : Option ℤ → Result ℤ
or_value_error none = raised (value_error (codes "invalid literal for int()"))
or_value_error (some n) = ok n

-- `int(remaining.pop(key, default) or default)`
unfoldable pub pop_int : Codec → Str → ℤ → List (Str × Str) → Result ℤ
pop_int c key default params = elim (find_key key params) [
  | none ↦ ok default
  | some [] ↦ ok default
  | some (d ∷ s) ↦ or_value_error (parse_int c (d ∷ s))
]

unfoldable pub pop_pagination : Codec → List (Str × Str) → Result (ℤ × ℤ × List (Str × Str))
pop_pagination c query = and_then (pop_int c (codes "page") (pos 1) query) λ page.
    and_then (pop_int c (codes "per_page") (pos 20) query)
      λ per_page. ok (page, per_page, drop_key (codes "per_page") (drop_key (codes "page") query))

-- A set of texts is asked for a value, which is hashed first.
unfoldable pub in_set : List Str → Json → Result Bool
in_set zone_ids (arr xs) = raised type_error
in_set zone_ids (obj fs) = raised type_error
in_set zone_ids v = ok (mem_json v zone_ids)

unfoldable pub zones_in_scope : List Rule → List Json → Result (List Json)
zones_in_scope rules [] = ok []
zones_in_scope rules (z ∷ zones) = and_then (dict_fields z) λ fs.
    and_then (in_set (map (λ (r : Rule). r.zone_id) rules) (get (codes "id") fs))
      λ kept. and_then (zones_in_scope rules zones) λ rest. ok (if kept then z ∷ rest else rest)

-- `any(rule.zone_id == zone_id for rule in rules)`
unfoldable pub any_rule_for : List Rule → Str → Bool
any_rule_for [] zone_id = false
any_rule_for (r ∷ rules) zone_id = r.zone_id == zone_id || any_rule_for rules zone_id

unfoldable pub info_fields : ResultInfo → Fields
info_fields i = field (codes "page") (int i.page) (
    field (codes "per_page") (int i.per_page) (
      field (codes "count") (int (pos i.count)) (
        field (codes "total_count") (int (pos i.total_count))
          (field (codes "total_pages") (int i.total_pages) end))))

unfoldable pub to_items : List Json → Items
to_items [] = nil
to_items (v ∷ vs) = cons v (to_items vs)

-- A page of a list, in the envelope.
abbrev pub list_reply : List Json → ℤ → ℤ → Reply
list_reply records page per_page =
    let (page_records, info) = paginate_and_result_info records page per_page in
    make_cf_response (arr (to_items page_records)) 200 nil (some (info_fields info))

module _ (env : Env) where
  -- `none`: the response is an error, and the loop returns what it has.
  unfoldable pub read_zone_page : HttpResponse → Result (Option (List Json × ℤ))
  read_zone_page r = and_then (json r) λ v.
      if leb 400 r.status_code
      then ok none
      else and_then (dict_fields v) λ body.
        if not (truthy (get (codes "success") body))
        then ok none
        else and_then (iterate (get (codes "result") body))
            λ zones. and_then (total_pages_of body) λ total. ok (some (zones, total))

  abbrev pub zone_step :
      ℕ
      → List Json
      → M (List Json)
      → (List Json → M (List Json))
      → Option (List Json × ℤ)
      → M (List Json)
  zone_step page zones stop go none = stop
  zone_step page zones stop go (some (new, total)) =
      next_page (leb_ℤ total (pos page)) (zones ++ new) (go (zones ++ new))

  unfoldable pub fetch_zones_from : ℕ → Headers → List (Str × Str) → ℕ → List Json → M (List Json)
  fetch_zones_from zero auth_headers params page zones = raise out_of_fuel
  fetch_zones_from (suc fuel) auth_headers params page zones = do
    response ←
        forward_request env (codes "GET") (codes "/client/v4/zones") []
          (page_params env params page (codes "50")) none auth_headers
    read ← lift (read_zone_page response)
    zone_step page zones (pure zones) (fetch_zones_from fuel auth_headers params (suc page)) read

  unfoldable pub fetch_all_zones : ℕ → Headers → List (Str × Str) → M (List Json)
  fetch_all_zones fuel auth_headers params = fetch_zones_from fuel auth_headers params 1 []

  unfoldable pub list_zones : ℕ → Request → ProxyAuthContext → M Reply
  list_zones fuel request context = do
    (page, per_page, remaining) ← lift (pop_pagination env.codec request.query_params)
    auth_headers ← resolve_upstream_auth env context.credential
    all_zones ← fetch_all_zones fuel auth_headers remaining
    zones ← lift (zones_in_scope context.rules all_zones)
    pure (list_reply zones page per_page)

  unfoldable pub list_dns_records : ℕ → Str → Request → ProxyAuthContext → M Reply
  list_dns_records fuel zone_id request context = do
    (page, per_page, remaining) ← lift (pop_pagination env.codec request.query_params)
    if not (any_rule_for context.rules zone_id) then pure (list_reply [] page per_page) else (do
      auth_headers ← resolve_upstream_auth env context.credential
      all_records ← list_all_records env fuel zone_id remaining auth_headers
      authorized ← lift (filter_records env.codec all_records context.rules zone_id)
      pure (list_reply authorized page per_page))
