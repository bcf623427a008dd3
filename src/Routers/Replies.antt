-- ===== src/Routers/Replies.antt =====
-- The response models of src/cfproxy/schemas/management.py: what the routes show of the rows.
use cloudflare_manual_dns.Core.Envelopes.{Reply, make_response}
use cloudflare_manual_dns.Runtime.{World, M, Env}
use cloudflare_manual_dns.Auth.ProxyAuth.{optional_text, optional_texts, texts}
use cloudflare_manual_dns.Db.{Datetime, User, UpstreamCredential, ScopedToken, ScopeRule, AuditLog}
use cloudflare_manual_dns.Proxy.Listing.{to_items}
use cloudflare_manual_dns.Services.Tokens.{Minted, Rotated, ScopedTokenDetail}
use cloudflare_manual_dns.Common.{
  ℕ, Option, none, some, List, [], ◌∷◌, ◌++◌, map, pos, Str, codes, Json, Fields, null, bool, int,
  str, arr, obj, end, field, Exception, Result, value_error, unicode_error, credential_not_found,
  token_not_found, ok, raised,
}

abbrev pub fields_of : List (Str × Json) → Fields
fields_of [] = end
fields_of ((k, v) ∷ rest) = field k v (fields_of rest)

abbrev pub dict : List (Str × Json) → Json
dict entries = obj (fields_of entries)

abbrev pub number : ℕ → Json
number n = int (pos n)

abbrev pub optional_number : Option ℕ → Json
optional_number none = null
optional_number (some n) = number n

abbrev pub listed {ℓ} : {A : Type ℓ} → (A → Json) → List A → Json
listed show rows = arr (to_items (map show rows))

-- `TokenResponse`
abbrev pub bearer_token : Str → Json
bearer_token jwt =
    dict ((codes "access_token", str jwt) ∷ (codes "token_type", str (codes "bearer")) ∷ [])

module _ (env : Env) where
  abbrev pub datetime : Datetime → Json
  datetime d = str (env.isoformat d)

  abbrev pub optional_datetime : Option Datetime → Json
  optional_datetime none = null
  optional_datetime (some d) = datetime d

  -- `_user_response_data`, `UserResponse`
  unfoldable pub user_response_data : User → Json
  user_response_data u = dict (
      (codes "id", str u.id)
      ∷ (codes "email", optional_text u.email)
      ∷ (codes "auth_provider", str u.auth_provider)
      ∷ (codes "is_active", bool u.is_active)
      ∷ (codes "created_at", datetime u.created_at)
      ∷ [])

  -- `_credential_response_data`, `UpstreamCredentialResponse`
  unfoldable pub credential_response_data : UpstreamCredential → Json
  credential_response_data c = dict (
      (codes "id", str c.id)
      ∷ (codes "label", str c.label)
      ∷ (codes "cred_type", str c.cred_type)
      ∷ (codes "cf_account_email", optional_text c.cf_account_email)
      ∷ (codes "verify_status", optional_text c.verify_status)
      ∷ (codes "verified_at", optional_datetime c.verified_at)
      ∷ (codes "created_at", datetime c.created_at)
      ∷ [])

  abbrev pub token_entries : ScopedToken → List (Str × Json)
  token_entries t =
      (codes "id", str t.id)
      ∷ (codes "name", str t.name)
      ∷ (codes "token_prefix", str t.token_prefix)
      ∷ (codes "status", str t.status)
      ∷ (codes "version", number t.version)
      ∷ (codes "expires_at", optional_datetime t.expires_at)
      ∷ (codes "last_used_at", optional_datetime t.last_used_at)
      ∷ (codes "created_at", datetime t.created_at)
      ∷ (codes "revoked_at", optional_datetime t.revoked_at)
      ∷ []

  -- `_token_response_data`, `ScopedTokenResponse`
  unfoldable pub token_response_data : ScopedToken → Json
  token_response_data t = dict (token_entries t)

  -- `ScopeRuleResponse`
  unfoldable pub rule_response_data : ScopeRule → Json
  rule_response_data r = dict (
      (codes "id", str r.id)
      ∷ (codes "zone_id", str r.rule.zone_id)
      ∷ (codes "name_pattern", optional_text r.rule.name_pattern)
      ∷ (codes "name_match", str r.rule.name_match)
      ∷ (codes "record_types", texts r.rule.record_types)
      ∷ (codes "record_ids", optional_texts r.rule.record_ids)
      ∷ (codes "allow_read", bool r.rule.allow_read)
      ∷ (codes "allow_create", bool r.rule.allow_create)
      ∷ (codes "allow_write", bool r.rule.allow_write)
      ∷ (codes "allow_delete", bool r.rule.allow_delete)
      ∷ (codes "content_lock", optional_text r.content_lock)
      ∷ (codes "created_at", datetime r.created_at)
      ∷ [])

  -- `ScopedTokenDetailResponse`
  unfoldable pub detail_response_data : ScopedTokenDetail → Json
  detail_response_data d =
      dict (token_entries d.token ++ (codes "rules", listed rule_response_data d.rules) ∷ [])

  -- `ScopedTokenCreateResponse`
  unfoldable pub minted_response_data : Minted → Json
  minted_response_data m = dict (
      (codes "id", str m.id)
      ∷ (codes "name", str m.name)
      ∷ (codes "token", str m.token)
      ∷ (codes "token_prefix", str m.token_prefix)
      ∷ (codes "expires_at", optional_datetime m.expires_at)
      ∷ (codes "created_at", datetime m.created_at)
      ∷ [])

  -- `ScopedTokenRotateResponse`
  unfoldable pub rotated_response_data : Rotated → Json
  rotated_response_data r = dict (
      (codes "id", str r.id)
      ∷ (codes "token", str r.token)
      ∷ (codes "token_prefix", str r.token_prefix)
      ∷ (codes "version", number r.version)
      ∷ [])

  -- `AuditLogResponse`
  unfoldable pub audit_response_data : AuditLog → Json
  audit_response_data a = dict (
      (codes "id", str a.id)
      ∷ (codes "ts", datetime a.ts)
      ∷ (codes "scoped_token_id", optional_text a.scoped_token_id)
      ∷ (codes "token_prefix", optional_text a.token_prefix)
      ∷ (codes "method", str a.method)
      ∷ (codes "path", str a.path)
      ∷ (codes "zone_id", optional_text a.zone_id)
      ∷ (codes "record_id", optional_text a.record_id)
      ∷ (codes "record_name", a.record_name)
      ∷ (codes "record_type", a.record_type)
      ∷ (codes "decision", str a.decision)
      ∷ (codes "deny_reason", optional_text a.deny_reason)
      ∷ (codes "upstream_status", optional_number a.upstream_status)
      ∷ (codes "client_ip", optional_text a.client_ip)
      ∷ (codes "latency_ms", optional_number a.latency_ms)
      ∷ [])

  -- `str(exc)` of a `NotFoundError`
  abbrev pub missing_text : Exception → Option Str
  missing_text (credential_not_found id) =
      some (codes "upstream credential " ++ env.py_repr id ++ codes " not found")
  missing_text (token_not_found id) =
      some (codes "scoped token " ++ env.py_repr id ++ codes " not found")
  missing_text _ = none

  abbrev pub not_found_reply : Exception → Option Str → Result Reply
  not_found_reply e none = raised e
  not_found_reply e (some message) = ok (make_response 404 message null)

  -- `except NotFoundError as exc: return make_response(404, str(exc))`
  abbrev pub except_not_found : Result Reply × World → Result Reply × World
  except_not_found (ok reply, w) = (ok reply, w)
  except_not_found (raised e, w) = (not_found_reply e (missing_text e), w)

  abbrev pub or_not_found : M Reply → M Reply
  or_not_found m w = except_not_found (m w)

-- `except ValueError as exc: return make_response(400, str(exc))`. The errors of a codec and of a
-- decoder are `ValueError`s too; their texts, which are the library's, are left out.
abbrev pub bad_request_reply : Exception → Result Reply
bad_request_reply (value_error message) = ok (make_response 400 message null)
bad_request_reply unicode_error = ok (make_response 400 (codes "UnicodeError") null)
bad_request_reply e = raised e

abbrev pub except_value_error : Result Reply × World → Result Reply × World
except_value_error (ok reply, w) = (ok reply, w)
except_value_error (raised e, w) = (bad_request_reply e, w)

abbrev pub or_bad_request : M Reply → M Reply
or_bad_request m w = except_value_error (m w)
