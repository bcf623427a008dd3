-- ===== src/Db.antt =====
-- The rows of src/cfproxy/db/models.py that the modelled code reads and writes.
pub mod Locks
pub mod Users
use cloudflare_manual_dns.Authz.Scope.{Rule}
use cloudflare_manual_dns.Common.{
  ℕ, Bool, Option, List, ltb, if◌then◌else◌, Str, Json, Result, type_error, ok, raised,
}

-- A `datetime`: seconds since the epoch, and whether it carries a time zone. The columns are
-- declared without one, so what the driver loads need not carry it.
pub record Datetime : Type 0 where
  pub aware : Bool
  pub seconds : ℕ

-- `a < b`: the language refuses to compare a naive datetime with an aware one.
unfoldable pub before : Datetime → Datetime → Result Bool
before a b =
    if a.aware
    then (if b.aware then ok (ltb a.seconds b.seconds) else raised type_error)
    else (if b.aware then raised type_error else ok (ltb a.seconds b.seconds))

pub record UpstreamCredential : Type 0 where
  pub id : Str
  pub user_id : Str
  pub label : Str
  pub cred_type : Str
  pub secret_enc : Option Str
  pub access_token_enc : Option Str
  pub refresh_token_enc : Option Str
  pub token_expires_at : Option Datetime
  pub oauth_scopes : Option Str
  pub key_version : ℕ
  pub cred_version : ℕ
  pub cf_account_email : Option Str
  pub verify_status : Option Str
  pub verified_at : Option Datetime
  pub created_at : Datetime

pub record ScopedToken : Type 0 where
  pub id : Str
  pub user_id : Str
  pub upstream_credential_id : Str
  pub name : Str
  pub lookup_id : Str
  pub token_prefix : Str
  pub token_hash : Str
  pub version : ℕ
  pub status : Str
  pub expires_at : Option Datetime
  pub last_used_at : Option Datetime
  pub created_at : Datetime
  pub revoked_at : Option Datetime

-- A row of `scope_rules`; `rule` holds the columns that the predicates read.
pub record ScopeRule : Type 0 where
  pub id : Str
  pub scoped_token_id : Str
  pub rule : Rule
  pub content_lock : Option Str
  pub created_at : Datetime

-- A row of `users`.
pub record User : Type 0 where
  pub id : Str
  pub email : Option Str
  pub password_hash : Option Str
  pub auth_provider : Str
  pub cf_sub : Option Str
  pub is_active : Bool
  pub created_at : Datetime
  pub updated_at : Datetime

pub record AuditLog : Type 0 where
  pub id : Str
  pub ts : Datetime
  pub user_id : Option Str
  pub scoped_token_id : Option Str
  pub token_prefix : Option Str
  pub method : Str
  pub path : Str
  pub zone_id : Option Str
  pub record_id : Option Str
  pub record_name : Json
  pub record_type : Json
  pub pre_image : Json
  pub post_image : Json
  pub decision : Str
  pub deny_reason : Option Str
  pub upstream_status : Option ℕ
  pub client_ip : Option Str
  pub latency_ms : Option ℕ

pub record Database : Type 0 where
  pub users : List User
  pub credentials : List UpstreamCredential
  pub tokens : List ScopedToken
  pub rules : List ScopeRule
  pub audit_logs : List AuditLog
