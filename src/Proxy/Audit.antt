-- ===== src/Proxy/Audit.antt =====
-- `ProxyAuthContext` of src/cfproxy/auth/proxy_auth.py, and `_record_audit` of
-- src/cfproxy/routers/proxy_dns.py with `write_audit` of src/cfproxy/services/audit_service.py.
pub mod Once
use cloudflare_manual_dns.Authz.Scope.{Rule}
use cloudflare_manual_dns.Db.{UpstreamCredential, ScopedToken, AuditLog}
use cloudflare_manual_dns.Runtime.{Event, audited, Env, World, M}
use cloudflare_manual_dns.Common.{
  ℕ, true, Option, none, some, List, ◌∷◌, if◌then◌else◌, Str, Json, ok,
}

pub record ProxyAuthContext : Type 0 where
  pub token : ScopedToken
  pub rules : List Rule
  pub credential : UpstreamCredential

-- What the handlers read of the incoming request; `json` is `none` if the body is no JSON.
pub record Request : Type 0 where
  pub client_ip : Option Str
  pub query_params : List (Str × Str)
  pub raw_body : Str
  pub json_body : Option Json

-- What the handlers say of a decision.
pub record AuditNote : Type 0 where
  pub method : Str
  pub path : Str
  pub decision : Str
  pub zone_id : Option Str
  pub record_id : Option Str
  pub record_name : Json
  pub record_type : Json
  pub pre_image : Json
  pub post_image : Json
  pub deny_reason : Option Str
  pub upstream_status : Option ℕ
  pub client_ip : Option Str

unfoldable pub audit_row : Env → List Event → ProxyAuthContext → AuditNote → AuditLog
audit_row env t context n = record {
  id = env.new_uuid t 0;
  ts = record { aware = true; seconds = env.now t };
  user_id = some context.token.user_id;
  scoped_token_id = some context.token.id;
  token_prefix = some context.token.token_prefix;
  method = n.method;
  path = n.path;
  zone_id = n.zone_id;
  record_id = n.record_id;
  record_name = n.record_name;
  record_type = n.record_type;
  pre_image = n.pre_image;
  post_image = n.post_image;
  decision = n.decision;
  deny_reason = n.deny_reason;
  upstream_status = n.upstream_status;
  client_ip = n.client_ip;
  latency_ms = none;
}

unfoldable pub write_audit : AuditLog → World → World
write_audit row w = record w {
  trace = audited row ∷ w.trace;
  db = record w.db { audit_logs = row ∷ w.db.audit_logs };
}

-- A failure of the store is swallowed.
unfoldable pub record_audit : Env → ProxyAuthContext → AuditNote → M (Unit {0})
record_audit env context n w = (
  ok tt,
  (if env.audit_stored w.trace then write_audit (audit_row env w.trace context n) w else w),
)
