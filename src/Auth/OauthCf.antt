-- ===== src/Auth/OauthCf.antt =====
-- src/cfproxy/auth/oauth_cf.py: the login at Cloudflare with PKCE, the issuer's key set, and the
-- check of an id token. `refresh_access_token` stands in Upstream/Auth.antt.
pub mod Keys
pub mod Checks
pub mod Kept
pub mod Validated
use cloudflare_manual_dns.Upstream.Client.{Headers, json, raise_for_status, subscript}
use cloudflare_manual_dns.Upstream.Auth.{post_form, encodable, as_text}
use cloudflare_manual_dns.Auth.ProxyAuth.{elements}
use cloudflare_manual_dns.Runtime.{
  HttpResponse, drawn, fetched, Env, World, M, pure, raise, lift, or_raise, get_world, ◌>>=◌, ◌>>◌,
}
use cloudflare_manual_dns.Common.{
  ℕ, zero, suc, ◌+◌, ◌-◌, ◌*◌, ◌/◌, ◌%◌, ◌^◌, ◌≤◌, ◌<◌, ◌≡◌, refl, sym, ap, ◌∙◌, ◌≢◌, ◌↔◌, ◌⊎◌, inl,
  inr, Bool, true, false, not, ◌&&◌, ◌||◌, Option, none, some, List, [], ◌∷◌, ◌++◌, map, arith, ltb,
  leb, nat_eq, if◌then◌else◌, nat_eq_iff, Bool-cases, Option-cases, both_true, length, take, drop,
  length-append, length-take, length-drop, take-append-drop, take-nil, take_ge, drop_ge, take-add,
  All, Any, All-append, In, all, find_first, select, change, find_first-In, find_first-none,
  select-In, ℤ, pos_part, neg_part, sub_ℕ, ◌+ℤ◌, ◌-ℤ◌, ◌*ℤ◌, neg, ltb_ℤ, leb_ℤ, eq_ℤ, floor_div,
  pos, negsuc, Str, codes, ◌==◌, eq_refl, eq_iff, ne_of_eq, eq_of_ne, mem_str, mem_str_iff,
  has_char, count_char, ends_with, cons_head, split, join, is_space, lstrip_by, keep, rstrip_by,
  strip, is_ascii, lower_char, upper_char, is_alnum_char, Codec, lower, upper, isalnum, digits_from,
  show_ℕ, digits_value, int_literal, parse_int, split-cons, join-split, join-label, ends_with_sound,
  Json, Items, Fields, truthy, lookup, or_else, get, items, field_count, py_eq, py_eq_items,
  py_eq_fields, mem_json, null, bool, int, str, arr, obj, nil, cons, end, field, Exception, Result,
  and_then, >>=-eq-ok, ok_injective, Returns, Returns-if, Returns-bind, Exec, dict_fields,
  value_error, unicode_error, attribute_error, key_error, type_error, http_error, runtime_error,
  lock_unavailable, not_found, invalid_token, unauthorized, not_authenticated, invalid_jwt,
  invalid_hash, integrity_error, out_of_fuel, ok, raised,
}

abbrev pub is_padding : ℕ → Bool
is_padding c = nat_eq c b'='

-- `_ALLOWED_ALGS` has the one entry, and `_JWKS_CACHE_TTL_SECONDS`.
abbrev pub allowed_alg : Str
allowed_alg = codes "RS256"

abbrev pub jwks_cache_ttl_seconds : ℕ
jwks_cache_ttl_seconds = 3600

-- `kid is None or k.get("kid") == kid`
unfoldable pub key_has : Json → Json → Result Bool
key_has null k = ok true
key_has kid k = and_then (dict_fields k) λ fs. ok (py_eq (get (codes "kid") fs) kid)

unfoldable pub keys_of_kid : Json → List Json → Result (List Json)
keys_of_kid kid [] = ok []
keys_of_kid kid (k ∷ ks) =
    and_then (key_has kid k)
      λ has. and_then (keys_of_kid kid ks) λ rest. ok (if has then k ∷ rest else rest)

-- The keys of the key set that have this id.
unfoldable pub matches_of : Json → Json → Result (List Json)
matches_of kid jwks =
    and_then (dict_fields jwks)
      λ fs. and_then (elements (or_else (lookup (codes "keys") fs) (arr nil))) (keys_of_kid kid)

-- `not isinstance(claim_value, str) or not claim_value` is an exception.
unfoldable pub hash_text : Json → Result Str
hash_text (str (c ∷ s)) = ok (c ∷ s)
hash_text _ = raised invalid_jwt

abbrev pub is_null : Json → Bool
is_null null = true
is_null _ = false

-- `hmac.compare_digest` of two texts wants ASCII.
unfoldable pub compare_digest : Str → Str → Result Bool
compare_digest a b = if is_ascii a && is_ascii b then ok (a == b) else raised type_error

abbrev pub clear_jwks_cache : M (Unit {0})
clear_jwks_cache w = (ok tt, record w { jwks = none })

abbrev pub store_jwks : ℕ → Json → M Json
store_jwks now jwks w = (ok jwks, record w { jwks = some (jwks, now) })

abbrev pub with_matches : Json → (List Json → M Json) → Json → M Json
with_matches kid next jwks = lift (matches_of kid jwks) >>= next

module _ (env : Env) where
  -- `base64.urlsafe_b64encode(octets).rstrip(b"=").decode()`
  unfoldable pub b64_unpadded : Str → Str
  b64_unpadded octets = rstrip_by is_padding (env.urlsafe_b64encode octets)

  abbrev pub draw_urlsafe : ℕ → M Str
  draw_urlsafe size w =
      (ok (env.token_urlsafe w.trace 0 size), record w { trace = drawn ∷ w.trace })

  unfoldable pub make_pkce : M (Str × Str)
  make_pkce = do verifier ← draw_urlsafe 64; pure (verifier, b64_unpadded (env.sha256 verifier))

  abbrev pub scopes_with : Str → Str
  scopes_with [] = env.cf_oauth_base_scopes
  scopes_with (c ∷ s) = env.cf_oauth_base_scopes ++ codes " " ++ (c ∷ s)

  unfoldable pub build_authorize_url : Str → Str → Str → Str
  build_authorize_url state nonce code_challenge =
      env.cf_oauth_issuer
      ++ codes "/oauth2/auth?"
      ++ env.urlencode (
          (codes "response_type", codes "code")
          ∷ (codes "client_id", env.oauth_client_id)
          ∷ (codes "redirect_uri", env.cf_oauth_redirect_uri)
          ∷ (codes "scope", scopes_with env.cf_oauth_dns_scope)
          ∷ (codes "state", state)
          ∷ (codes "nonce", nonce)
          ∷ (codes "code_challenge", code_challenge)
          ∷ (codes "code_challenge_method", codes "S256")
          ∷ [])

  abbrev pub code_form : Str → Str → List (Str × Str)
  code_form code code_verifier =
      (codes "grant_type", codes "authorization_code")
      ∷ (codes "code", code)
      ∷ (codes "redirect_uri", env.cf_oauth_redirect_uri)
      ∷ (codes "client_id", env.oauth_client_id)
      ∷ (codes "client_secret", env.oauth_client_secret)
      ∷ (codes "code_verifier", code_verifier)
      ∷ []

  unfoldable pub exchange_code : Str → Str → M Json
  exchange_code code code_verifier = do
    response ← post_form env (code_form code code_verifier)
    lift (raise_for_status env response)
    lift (json response)

  abbrev pub send_get : Str → Headers → M HttpResponse
  send_get url headers w =
      or_raise http_error (env.get_document w.trace url headers)
        (record w { trace = fetched url ∷ w.trace })

  abbrev pub checked_json : HttpResponse → M Json
  checked_json r = lift (and_then (raise_for_status env r) λ _. json r)

  -- A GET whose status is checked and whose body is decoded.
  unfoldable pub get_json : Str → Headers → M Json
  get_json url headers = send_get url headers >>= checked_json

  abbrev pub jwks_url : Str
  jwks_url = env.cf_oauth_issuer ++ codes "/.well-known/jwks.json"

  unfoldable pub refetch_jwks : ℕ → M Json
  refetch_jwks now = get_json jwks_url [] >>= store_jwks now

  -- `null` in the cache is the empty cache.
  abbrev pub jwks_at : Option (Json × ℕ) → ℕ → M Json
  jwks_at none now = refetch_jwks now
  jwks_at (some (jwks, at)) now =
      if not (is_null jwks) && ltb (now - at) jwks_cache_ttl_seconds
      then pure jwks
      else refetch_jwks now

  unfoldable pub fetch_jwks : M Json
  fetch_jwks w = jwks_at w.jwks (env.monotonic w.trace) w

  abbrev pub first_key : List Json → M Json
  first_key [] = raise invalid_jwt
  first_key (k ∷ ks) = or_raise invalid_jwt (env.rsa_key k)

  -- A key set without the key is fetched anew, once.
  abbrev pub or_refetch : Json → List Json → M Json
  or_refetch kid (k ∷ ks) = first_key (k ∷ ks)
  or_refetch kid [] = clear_jwks_cache >> (fetch_jwks >>= with_matches kid first_key)

  -- `_resolve_signing_key`
  unfoldable pub resolve_signing_key : Json → M Json
  resolve_signing_key kid = fetch_jwks >>= with_matches kid (or_refetch kid)

  -- `_compute_oidc_hash`
  unfoldable pub compute_oidc_hash : Str → Json → Result Str
  compute_oidc_hash value alg =
      if not (py_eq alg (str allowed_alg))
      then raised invalid_jwt
      else if not (is_ascii value)
      then raised unicode_error
      else (let digest = env.sha256 value in ok (b64_unpadded (take (length digest / 2) digest)))

  abbrev pub accept : Bool → Result (Unit {0})
  accept same = if same then ok tt else raised invalid_jwt

  abbrev pub against : Str → Str → Result (Unit {0})
  against claim_value expected = and_then (compare_digest expected claim_value) accept

  abbrev pub hashed : Json → Str → Str → Result (Unit {0})
  hashed alg claim_value value = and_then (compute_oidc_hash value alg) (against claim_value)

  -- A hash that nothing is there to verify with is refused.
  unfoldable pub match_hash : Json → Json → Str → Result (Unit {0})
  match_hash source alg claim_value =
      if is_null source
      then raised invalid_jwt
      else and_then (encodable source) (hashed alg claim_value)

  -- One round of the loop over `at_hash` and `c_hash`.
  unfoldable pub check_hash : Str → Json → Json → Fields → Result (Unit {0})
  check_hash hash_claim source alg claims =
      if is_null (get hash_claim claims)
      then ok tt
      else and_then (hash_text (get hash_claim claims)) (match_hash source alg)

  -- What is checked of the claims behind the signature.
  unfoldable pub check_claims : Json → Json → Json → Json → Fields → Result (Unit {0})
  check_claims nonce access_token code alg claims =
      if not (py_eq (get (codes "nonce") claims) nonce)
      then raised invalid_jwt
      else and_then (check_hash (codes "at_hash") access_token alg claims)
          λ _. check_hash (codes "c_hash") code alg claims

  -- `jwt.decode` of the id token with the key.
  abbrev pub verify_signature : Str → Json → M Json
  verify_signature id_token key w =
      or_raise invalid_jwt
        (env.jwt_verify w.trace id_token key env.oauth_client_id env.cf_oauth_issuer
          env.access_token_skew)
        w

  -- An id token that is no text, or has no header, is refused by the decoder.
  unfoldable pub header_of : Json → Result (Str × Json)
  header_of (str s) = elim (env.jwt_header s) [ none ↦ raised invalid_jwt | some v ↦ ok (s, v) ]
  header_of _ = raised invalid_jwt

  abbrev pub if_allowed : Str → Fields → Result (Str × Fields)
  if_allowed text header =
      if py_eq (get (codes "alg") header) (str allowed_alg)
      then ok (text, header)
      else raised invalid_jwt

  abbrev pub with_alg : Str × Json → Result (Str × Fields)
  with_alg (text, v) = and_then (dict_fields v) (if_allowed text)

  -- The text of the token and its header, with the algorithm that is allowed.
  unfoldable pub allowed_header : Json → Result (Str × Fields)
  allowed_header id_token = and_then (header_of id_token) with_alg

  unfoldable pub checked_claims : Json → Json → Json → Json → Json → Result Fields
  checked_claims nonce access_token code alg payload =
      and_then (dict_fields payload)
        λ claims. and_then (check_claims nonce access_token code alg claims) λ _. ok claims

  abbrev pub with_key : Json → Json → Json → Str → Json → Json → M Fields
  with_key nonce access_token code text alg key = verify_signature text key >>= λ payload.
      lift (checked_claims nonce access_token code alg payload)

  abbrev pub with_header : Json → Json → Json → Str × Fields → M Fields
  with_header nonce access_token code (text, header) =
      resolve_signing_key (get (codes "kid") header)
      >>= with_key nonce access_token code text (get (codes "alg") header)

  unfoldable pub validate_id_token : Json → Json → Json → Json → M Fields
  validate_id_token id_token nonce access_token code =
      lift (allowed_header id_token) >>= with_header nonce access_token code

  unfoldable pub fetch_userinfo : Str → M Json
  fetch_userinfo access_token =
      get_json (env.cf_oauth_issuer ++ codes "/oauth2/userinfo")
        ((codes "Authorization", codes "Bearer " ++ access_token) ∷ [])

  -- The literal of one entry of the list.
  abbrev pub scope_literal : Json → Str
  scope_literal (str s) = s
  scope_literal (obj fs) =
      let scope = get (codes "scope") fs in
      let name = get (codes "name") fs in
      env.py_str (if truthy scope then scope else if truthy name then name else obj fs)
  scope_literal v = env.py_str v

  abbrev pub scope_list : Json → Json
  scope_list (obj fs) = or_else (lookup (codes "result") fs) (arr nil)
  scope_list body = body

  unfoldable pub discover_dns_scope : M (List Str)
  discover_dns_scope = do
    body ← get_json (env.upstream_base_url ++ codes "/client/v4/oauth/scopes") []
    vs ← lift (elements (scope_list body))
    pure (map scope_literal vs)
