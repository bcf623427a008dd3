-- ===== src/Auth/OauthCf/Kept.antt =====
-- The login at the issuer in src/cfproxy/auth/oauth_cf.py changes the trace and the key set in memory alone.
use cloudflare_manual_dns.Auth.OauthCf.{
  get_json, send_get, checked_json, store_jwks, refetch_jwks, jwks_at, fetch_jwks, clear_jwks_cache,
  with_matches, first_key, or_refetch, resolve_signing_key, with_key, with_header,
  validate_id_token, allowed_header, verify_signature, exchange_code, raise_for_status,
}
use cloudflare_manual_dns.Upstream.Auth.{post_form}
use cloudflare_manual_dns.Runtime.{Env, World, M, lift, pure, ◌>>=◌}
use cloudflare_manual_dns.Runtime.Keeps.{IsStable, Keeps, Keeps-or_raise, Keeps-bind, Keeps-if}
use cloudflare_manual_dns.Common.{
  ℕ, Option, none, some, List, [], ◌∷◌, Str, Json, http_error, invalid_jwt,
}

module _ (env : Env) (P : World → Type 0) (stable : IsStable P) where
  get_json-Keeps : (url : Str) (headers : List (Str × Str)) → Keeps P (get_json env url headers)
  unfolding get_json
  get_json-Keeps url headers =
      Keeps-bind P (send_get env url headers) (checked_json env)
        (λ w h.
          Keeps-or_raise P http_error (env.get_document w.trace url headers) _
            (stable.traced w _ h))
        (λ r w h. h)

  refetch_jwks-Keeps : (now : ℕ) → Keeps P (refetch_jwks env now)
  unfolding refetch_jwks
  refetch_jwks-Keeps now =
      Keeps-bind P (get_json env _ []) (store_jwks now) (get_json-Keeps _ [])
        (λ v w h. stable.stored w _ h)

  jwks_at-Keeps : (o : Option (Json × ℕ)) (now : ℕ) → Keeps P (jwks_at env o now)
  jwks_at-Keeps none now = refetch_jwks-Keeps now
  jwks_at-Keeps (some (v, at)) now =
      Keeps-if P _ (pure v) (refetch_jwks env now) (λ w h. h) (refetch_jwks-Keeps now)

  fetch_jwks-Keeps : Keeps P (fetch_jwks env)
  unfolding fetch_jwks
  fetch_jwks-Keeps w h = jwks_at-Keeps w.jwks (env.monotonic w.trace) w h

  first_key-Keeps : (ks : List Json) → Keeps P (first_key env ks)
  first_key-Keeps [] = λ w h. h
  first_key-Keeps (k ∷ ks) = Keeps-or_raise P invalid_jwt (env.rsa_key k)

  with_matches-Keeps :
      (kid : Json) (next : List Json → M Json) (jwks : Json)
      → ((ks : List Json) → Keeps P (next ks))
      → Keeps P (with_matches kid next jwks)
  with_matches-Keeps kid next jwks h = Keeps-bind P (lift _) next (λ w h. h) h

  or_refetch-Keeps : (kid : Json) (ks : List Json) → Keeps P (or_refetch env kid ks)
  or_refetch-Keeps kid (k ∷ ks) = first_key-Keeps (k ∷ ks)
  or_refetch-Keeps kid [] =
      Keeps-bind P clear_jwks_cache (λ _. fetch_jwks env >>= with_matches kid (first_key env))
        (λ w h. stable.stored w _ h)
        λ _.
          Keeps-bind P (fetch_jwks env) (with_matches kid (first_key env)) fetch_jwks-Keeps
            λ jwks. with_matches-Keeps kid (first_key env) jwks first_key-Keeps

  resolve_signing_key-Keeps : (kid : Json) → Keeps P (resolve_signing_key env kid)
  unfolding resolve_signing_key
  resolve_signing_key-Keeps kid =
      Keeps-bind P (fetch_jwks env) (with_matches kid (or_refetch env kid)) fetch_jwks-Keeps
        λ jwks. with_matches-Keeps kid (or_refetch env kid) jwks (or_refetch-Keeps kid)

  pub validate_id_token-Keeps :
      (id_token nonce access_token code : Json)
      → Keeps P (validate_id_token env id_token nonce access_token code)
  unfolding validate_id_token
  validate_id_token-Keeps id_token nonce access_token code =
      Keeps-bind P (lift (allowed_header env id_token)) (with_header env nonce access_token code)
        (λ w h. h)
        λ (text, header).
          Keeps-bind P (resolve_signing_key env _) (with_key env nonce access_token code text _)
            (resolve_signing_key-Keeps _)
            λ key.
              Keeps-bind P (verify_signature env text key) _
                (λ w. Keeps-or_raise P invalid_jwt (env.jwt_verify w.trace text key _ _ _) w)
                λ payload w h. h

  pub exchange_code-Keeps : (code verifier : Str) → Keeps P (exchange_code env code verifier)
  unfolding exchange_code post_form
  exchange_code-Keeps code verifier =
      Keeps-bind P (post_form env _) _
        (λ w h. Keeps-or_raise P http_error (env.issuer_responds w.trace _) _ (stable.traced w _ h))
        λ r. Keeps-bind P (lift (raise_for_status env r)) _ (λ w h. h) λ _ w h. h
