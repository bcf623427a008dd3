-- ===== src/Proxy/Records/Reported.antt =====
-- The end of `_mutate_dns_record_by_id` in src/cfproxy/routers/proxy_dns.py: what is audited before
-- a mutation is answered.
use cloudflare_manual_dns.Proxy.Records.{deny_text, error_reply, forwarded_reply}
use cloudflare_manual_dns.Authz.Authorizer.{CfError, AuthDecision}
use cloudflare_manual_dns.Core.Envelopes.{Reply}
use cloudflare_manual_dns.Db.{AuditLog}
use cloudflare_manual_dns.Upstream.Client.{json, record_path}
use cloudflare_manual_dns.Proxy.Audit.{ProxyAuthContext, Request, write_audit}
use cloudflare_manual_dns.Runtime.{HttpResponse, Env, World, ◌>>=◌}
use cloudflare_manual_dns.Common.{
  ◌≡◌, true, false, Option, none, some, Str, codes, Json, Exception, Result, attribute_error,
  type_error, ok, raised,
}

module _ (env : Env) (context : ProxyAuthContext) (request : Request)
    (method zone_id record_id : Str) where
  -- The row names the token, the request and the record.
  pub record IsRowOf (decision : Str) (row : AuditLog) : Type 0 where
    pub its_user : row.user_id ≡ some context.token.user_id
    pub its_token : row.scoped_token_id ≡ some context.token.id
    pub its_method : row.method ≡ method
    pub its_path : row.path ≡ record_path zone_id record_id
    pub its_record : row.record_id ≡ some record_id
    pub its_decision : row.decision ≡ decision

  -- What comes of an attempt.
  pub data Reported (w : World)
      : AuthDecision × Option HttpResponse → Result Reply × World → Type 0 where
    -- a denial that has no error, or a forward that has no response: neither comes of an attempt
    no_error :
        (d : AuthDecision) (o : Option HttpResponse)
        → d.allowed ≡ false
        → d.error ≡ none
        → Reported w (d, o) (raised type_error, w)
    no_response :
        (d : AuthDecision) → d.allowed ≡ true → Reported w (d, none) (raised attribute_error, w)
    -- a mutation was forwarded, and the body of its response is no JSON: nothing is written
    unreadable :
        (d : AuthDecision) (r : HttpResponse) (e : Exception)
        → d.allowed ≡ true
        → json r ≡ raised e
        → Reported w (d, some r) (raised e, w)
    denied :
        (d : AuthDecision) (o : Option HttpResponse) (e : CfError) (row : AuditLog)
        → d.allowed ≡ false
        → d.error ≡ some e
        → IsRowOf (codes "deny") row
        → row.deny_reason ≡ some (deny_text e)
        → Reported w (d, o) (ok (error_reply e), write_audit row w)
    replied :
        (d : AuthDecision) (r : HttpResponse) (v : Json) (row : AuditLog)
        → d.allowed ≡ true
        → json r ≡ ok v
        → IsRowOf (codes "allow") row
        → row.upstream_status ≡ some r.status_code
        → Reported w (d, some r) (ok (forwarded_reply r v), write_audit row w)
