-- ===== src/Authz/Authorizer/ByMethod.antt =====
-- A request on one record, seen through its method: one fetch, and a pure decision on what it gave.
use cloudflare_manual_dns.Authz.Scope.{Need, Rule, is_lock_exempt}
use cloudflare_manual_dns.Authz.Authorizer.{
  authorize_fetched, authorize_by_id, authorize_dns_request, decide,
}
use cloudflare_manual_dns.Authz.Authorizer.Request.{
  ByIdMethod, get_method, patch_method, put_method, delete_method,
}
use cloudflare_manual_dns.Common.{
  ◌≡◌, refl, ap, ◌∙◌, Bool, not, ◌&&◌, List, Str, ◌==◌, Codec, upper, Json, Result, and_then, Exec,
}

module _ (c : Codec) (rules : List Rule) (zone_id : Str) {S : Type 0}
    (fetch : Str → Json → Exec S Json) (record_id body : Json) where
  by_id_method :
      {mutation renames : Bool} {op : Need} (method : Str) (s : S)
      → ByIdMethod (upper c method) mutation renames op
      → authorize_dns_request c rules zone_id fetch method record_id body s
        ≡ authorize_by_id c rules zone_id fetch mutation renames record_id op body s
  unfolding authorize_dns_request ◌==◌
  by_id_method method s (get_method e) = rw e refl
  by_id_method method s (patch_method e) = rw e refl
  by_id_method method s (put_method e) = rw e refl
  by_id_method method s (delete_method e) = rw e refl

  -- The decision is that on the fetched record, in the state that the fetch has left.
  pub authorize_dns_request-fetched :
      (mutation renames : Bool) (op : Need) (method : Str) (s t : S) (fetched : Result Json)
      → ByIdMethod (upper c method) mutation renames op
      → fetch zone_id record_id s ≡ (fetched, t)
      → authorize_dns_request c rules zone_id fetch method record_id body s ≡ (
        and_then fetched (
            authorize_fetched c rules zone_id renames record_id op
              (mutation && not (is_lock_exempt rules zone_id record_id op))
              body),
        t,
      )
  unfolding authorize_by_id
  authorize_dns_request-fetched mutation renames op method s t fetched h e =
      by_id_method method s h
      ∙ ap
          (decide (
            authorize_fetched c rules zone_id renames record_id op
              (mutation && not (is_lock_exempt rules zone_id record_id op)) body))
          e
