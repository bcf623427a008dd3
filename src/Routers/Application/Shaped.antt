-- ===== src/Routers/Application/Shaped.antt =====
-- The exception handlers of src/cfproxy/main.py answer in the envelope of the API that was asked.
use cloudflare_manual_dns.Routers.Application.{
  proxy_path_prefix, starts_with, is_proxy_path, HttpException, Detail, text, coded, http_exception,
  cf_detail, http_exception_to_cf_response, handle_http_exception, handle_validation_error,
  handle_generic_error, handled, respond_to,
}
use cloudflare_manual_dns.Core.Envelopes.{Reply, make_response, make_cf_error}
use cloudflare_manual_dns.Runtime.{Env, World, M}
use cloudflare_manual_dns.Common.{
  ℕ, ◌≡◌, refl, sym, ap, ◌∙◌, ◌⊎◌, inl, inr, Bool, true, false, none, some, [], ◌∷◌, ◌++◌, nat_eq,
  if◌then◌else◌, nat_eq_iff, both_true, pos, Str, codes, ◌==◌, Json, Fields, lookup, null, bool,
  int, str, arr, obj, nil, cons, end, field, Exception, unauthorized, not_authenticated, raised,
}

starts_with-eq : (s p : Str) → starts_with s p ≡ true → (rest : Str) × (s ≡ p ++ rest)
starts_with-eq s [] h = (s, refl)
starts_with-eq [] (c ∷ p) h = cc h
starts_with-eq (d ∷ s) (c ∷ p) h =
    let (same, more) = both_true (nat_eq d c) (starts_with s p) h in
    let (rest, e) = starts_with-eq s p more in (rest, rw ((nat_eq_iff d c).0 same, e) refl)

starts_with_append : (p rest : Str) → starts_with (p ++ rest) p ≡ true
starts_with_append [] rest = refl
starts_with_append (c ∷ p) rest = rw ((nat_eq_iff c c).1 refl, starts_with_append p rest) refl

abbrev pub IsProxied : Str → Type 0
IsProxied path = (rest : Str) × (path ≡ codes "/client/v4" ++ rest)

off_path : (path : Str) → starts_with path proxy_path_prefix ≡ false → ¬ IsProxied path
off_path path e (rest, f) = cc (
    sym (starts_with_append proxy_path_prefix rest)
    ∙ ap (λ s. starts_with s proxy_path_prefix) (sym f)
    ∙ e)

-- A failure in the envelope of Cloudflare: the expected status, no success, one error with its code and message, and no
-- result.
pub record IsCfFailure (expected : ℕ) (r : Reply) : Type 0 where
  pub status_code : r.status_code ≡ expected
  pub fields : Fields
  pub code : ℕ
  pub message : Str
  pub body : r.content ≡ obj fields
  pub success : lookup (codes "success") fields ≡ some (bool false)
  pub errors :
      lookup (codes "errors") fields
      ≡ some (
          arr (
            cons
              (obj
                (field (codes "code") (int (pos code)) (field (codes "message") (str message) end)))
              nil))
  pub result : lookup (codes "result") fields ≡ some null

-- The expected status in the envelope of the management API, which repeats it.
pub record IsManagement (expected : ℕ) (r : Reply) : Type 0 where
  pub status_code : r.status_code ≡ expected
  pub fields : Fields
  pub message : Str
  pub body : r.content ≡ obj fields
  pub status : lookup (codes "status") fields ≡ some (int (pos expected))
  pub said : lookup (codes "message") fields ≡ some (str message)
  pub success : lookup (codes "success") fields ≡ none

-- Each surface is answered in its own envelope, with its status.
abbrev pub IsShaped : Str → ℕ → ℕ → Reply → Type 0
IsShaped path cf_status status r =
    (IsProxied path × IsCfFailure cf_status r) ⊎ ((¬ IsProxied path) × IsManagement status r)

-- A missing or bad credential of the request is a 401; every other exception is a fault.
abbrev pub status_of : Exception → ℕ
status_of unauthorized = 401
status_of (not_authenticated s) = 401
status_of e = 500

make_cf_error-IsCfFailure :
    (status code : ℕ) (message : Str) → IsCfFailure status (make_cf_error status code message)
unfolding make_cf_error lookup ◌==◌
make_cf_error-IsCfFailure status code message = record {
  status_code = refl;
  fields = _;
  code = code;
  message = message;
  body = refl;
  success = refl;
  errors = refl;
  result = refl;
}

make_response-IsManagement :
    (status : ℕ) (message : Str) (payload : Json)
    → IsManagement status (make_response status message payload)
unfolding make_response lookup ◌==◌
make_response-IsManagement status message payload = record {
  status_code = refl;
  fields = _;
  message = message;
  body = refl;
  status = refl;
  said = refl;
  success = refl;
}

-- The path decides.
either-IsShaped :
    (path : Str) (cf_status status : ℕ) (r s : Reply)
    → IsCfFailure cf_status r
    → IsManagement status s
    → IsShaped path cf_status status (if is_proxy_path path then r else s)
unfolding is_proxy_path
either-IsShaped path cf_status status r s failed managed =
    go (starts_with path proxy_path_prefix) refl
  where
    go :
        (b : Bool)
        → starts_with path proxy_path_prefix ≡ b
        → IsShaped path cf_status status (if b then r else s)
    go true e = inl (starts_with-eq path proxy_path_prefix e, failed)
    go false e = inr (off_path path e, managed)

cf_detail-IsCfFailure : (status : ℕ) (d : Detail) → IsCfFailure status (cf_detail status d)
cf_detail-IsCfFailure status (coded code message) = make_cf_error-IsCfFailure status code message
cf_detail-IsCfFailure status (text s) = make_cf_error-IsCfFailure status _ s

module _ (env : Env) (path : Str) where
  generic-IsShaped : IsShaped path 500 500 (handle_generic_error env path)
  unfolding handle_generic_error
  generic-IsShaped =
      either-IsShaped path 500 500 _ _ (make_cf_error-IsCfFailure _ _ _)
        (make_response-IsManagement _ _ _)

  http-IsShaped :
      (e : HttpException)
      → IsShaped path e.status_code e.status_code (handle_http_exception env path e)
  unfolding handle_http_exception http_exception_to_cf_response
  http-IsShaped e =
      either-IsShaped path _ _ _ _ (cf_detail-IsCfFailure e.status_code e.detail)
        (make_response-IsManagement _ _ _)

  handled-IsShaped :
      (e : Exception)
      → IsShaped path (status_of e) (status_of e) (handled env path (http_exception e))
  unfolding http_exception
  handled-IsShaped unauthorized = http-IsShaped _
  handled-IsShaped (not_authenticated s) = http-IsShaped _
  handled-IsShaped e = generic-IsShaped

-- A route that raises is answered with a failure, 401 for a missing or bad credential of the
-- request and 500 for every other exception, in the envelope of the surface that was asked:
-- Cloudflare's under the paths that begin with `/client/v4`, the management API's under all others.
-- So is a request that the framework finds invalid, with 400 and 422.
pub failure-IsShaped :
    (env : Env) (path : Str) (route : M Reply) (w : World) (e : Exception) (errors : Json)
    → (route w).0 ≡ raised e
    → IsShaped path (status_of e) (status_of e) (respond_to env path route w).0
      × IsShaped path 400 422 (handle_validation_error env path errors)
unfolding respond_to handle_validation_error
failure-IsShaped env path route w e errors h = (
  rw h (handled-IsShaped env path e),
  either-IsShaped path 400 422 _ _ (make_cf_error-IsCfFailure _ _ _)
      (make_response-IsManagement _ _ _),
)
