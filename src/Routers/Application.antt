-- ===== src/Routers/Application.antt =====
-- src/cfproxy/main.py: which reply an exception becomes, by the surface that the request is for;
-- with the routes of src/cfproxy/routers/proxy_blocked.py and src/cfproxy/routers/proxy_verify.py.
pub mod Shaped
use cloudflare_manual_dns.Core.CfErrors.{
  token_valid, token_invalid, forbidden, route_not_found, internal,
}
use cloudflare_manual_dns.Core.Envelopes.{Reply, make_response, make_cf_response, make_cf_error}
use cloudflare_manual_dns.Auth.ProxyAuth.{require_scoped_token}
use cloudflare_manual_dns.Routers.Replies.{dict, number}
use cloudflare_manual_dns.Runtime.{Env, World, M, pure, ◌>>=◌}
use cloudflare_manual_dns.Common.{
  ℕ, Bool, true, false, not, ◌&&◌, Option, none, some, [], ◌∷◌, nat_eq, if◌then◌else◌, Str, codes,
  Json, null, str, nil, cons, Exception, Result, unauthorized, not_authenticated, ok, raised,
}

abbrev pub proxy_path_prefix : Str
proxy_path_prefix = codes "/client/v4"

abbrev pub starts_with : Str → Str → Bool
starts_with s [] = true
starts_with [] (c ∷ p) = false
starts_with (d ∷ s) (c ∷ p) = nat_eq d c && starts_with s p

unfoldable pub is_proxy_path : Str → Bool
is_proxy_path path = starts_with path proxy_path_prefix

-- An `HTTPException`: its status, and its detail, which is a text or has a code and a message.
pub data Detail : Type 0 where
  text : Str → Detail
  coded : ℕ → Str → Detail

pub record HttpException : Type 0 where
  pub status_code : ℕ
  pub detail : Detail

-- `none` is an exception that is no `HTTPException`.
unfoldable pub http_exception : Exception → Option HttpException
http_exception unauthorized =
    some (record { status_code = 401; detail = coded token_invalid (codes "Invalid API Token") })
http_exception (not_authenticated s) = some (record { status_code = 401; detail = text s })
http_exception _ = none

abbrev pub cf_detail : ℕ → Detail → Reply
cf_detail status (coded code message) = make_cf_error status code message
cf_detail status (text s) = make_cf_error status internal s

unfoldable pub http_exception_to_cf_response : HttpException → Reply
http_exception_to_cf_response e = cf_detail e.status_code e.detail

-- `str(exc.detail)`; that of a dict is its representation.
abbrev pub detail_text : Env → Detail → Str
detail_text env (text s) = s
detail_text env (coded code message) =
    env.py_str (dict ((codes "code", number code) ∷ (codes "message", str message) ∷ []))

module _ (env : Env) where
  -- `handle_http_exception`
  unfoldable pub handle_http_exception : Str → HttpException → Reply
  handle_http_exception path e =
      if is_proxy_path path
      then http_exception_to_cf_response e
      else make_response e.status_code (detail_text env e.detail) null

  -- `handle_validation_error`, with the errors that the framework found
  unfoldable pub handle_validation_error : Str → Json → Reply
  handle_validation_error path errors =
      if is_proxy_path path
      then make_cf_error 400 internal (codes "Invalid request")
      else make_response 422 (codes "Validation error") errors

  -- `handle_generic_error`
  unfoldable pub handle_generic_error : Str → Reply
  handle_generic_error path =
      if is_proxy_path path
      then make_cf_error 500 internal (codes "Internal server error")
      else make_response 500 (codes "Internal server error") null

  abbrev pub handled : Str → Option HttpException → Reply
  handled path none = handle_generic_error path
  handled path (some e) = handle_http_exception path e

  abbrev pub settled : Str → Result Reply → Reply
  settled path (ok reply) = reply
  settled path (raised e) = handled path (http_exception e)

  -- What the client of a route is answered.
  unfoldable pub respond_to : Str → M Reply → World → Reply × World
  respond_to path route w = let (outcome, w') = route w in (settled path outcome, w')

  -- `verify_token`; `authorization` is the header's value, if it is there.
  unfoldable pub verify_token_route : Option Str → M Reply
  verify_token_route authorization = do
    context ← require_scoped_token env authorization
    pure (
        make_cf_response
          (dict ((codes "id", str context.token.id) ∷ (codes "status", str (codes "active")) ∷ []))
          200
          (cons
            (dict (
              (codes "code", number token_valid)
              ∷ (codes "message", str (codes "This API Token is valid and active"))
              ∷ []))
            nil)
          none)

-- `blocked_dns_records_batch`, `_import` and `_export`
unfoldable pub blocked_dns_records : Reply
blocked_dns_records = make_cf_error 403 forbidden (codes "Authorization error: insufficient scope")

unfoldable pub catch_all : Reply
catch_all = make_cf_error 404 route_not_found (codes "Not found.")

-- `healthz`, and `readyz` by the answers of the database and of Redis
unfoldable pub healthz : Reply
healthz = record { status_code = 200; content = dict ((codes "status", str (codes "ok")) ∷ []) }

unfoldable pub readyz : Bool → Bool → Reply
readyz database redis =
    if not database
    then record {
      status_code = 503;
      content =
          dict
            ((codes "status", str (codes "unavailable")) ∷ (codes "db", str (codes "down")) ∷ []);
    }
    else record {
      status_code = 200;
      content = dict (
          (codes "status", str (codes "ok"))
          ∷ (codes "redis", str (if redis then codes "ok" else codes "degraded"))
          ∷ []);
    }
