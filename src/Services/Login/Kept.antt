-- ===== src/Services/Login/Kept.antt =====
-- What a login in src/cfproxy/services/oauth_service.py keeps true of the world.
use cloudflare_manual_dns.Services.Login.{
  decoded_json, stored_state, encrypted_or, login_credential, store_login, open_session,
  with_claims, with_tokens, with_verifier, with_state,
}
use cloudflare_manual_dns.Auth.OauthCf.{exchange_code, validate_id_token, is_null}
use cloudflare_manual_dns.Auth.OauthCf.Kept.{exchange_code-Keeps, validate_id_token-Keeps}
use cloudflare_manual_dns.Upstream.Auth.{encodable, encrypt_secret, expiry}
use cloudflare_manual_dns.Db.{User, Datetime}
use cloudflare_manual_dns.Core.Security.{create_jwt}
use cloudflare_manual_dns.Runtime.{Env, World, lift, raise, pure}
use cloudflare_manual_dns.Runtime.Keeps.{IsStable, Keeps, Keeps-bind, Keeps-if}
use cloudflare_manual_dns.Common.{not, Option, none, some, Str, codes, Json, Fields, truthy, get}

module _ (env : Env) (P : World → Type 0) where
  pub encrypt_secret-Keeps : (s : Str) → Keeps P (encrypt_secret env s)
  unfolding encrypt_secret
  encrypt_secret-Keeps s w h = h

  encrypted_or-Keeps : (old : Option Str) (v : Json) → Keeps P (encrypted_or env old v)
  encrypted_or-Keeps old v =
      Keeps-if P (truthy v) _ (pure old)
        (Keeps-bind P (lift (encodable v)) _ (λ w h. h)
          λ s. Keeps-bind P (encrypt_secret env s) _ (encrypt_secret-Keeps s) λ c w h. h)
        (λ w h. h)

  pub login_credential-Keeps :
      (tokens : Fields) (now : Datetime) (user : User)
      → Keeps P (login_credential env tokens now user)
  unfolding login_credential
  login_credential-Keeps tokens now user w h =
      Keeps-bind P (lift (expiry now (get (codes "expires_in") tokens))) _ (λ w h. h)
        (λ expires.
          Keeps-bind P (lift _) _ (λ w h. h)
            λ scope. Keeps-bind P (encrypted_or env _ _) _ (encrypted_or-Keeps _ _) λ access_enc.
              Keeps-bind P (encrypted_or env _ _) _ (encrypted_or-Keeps _ _) λ refresh_enc w h. h)
        w h

  pub create_jwt-Keeps : (sub : Str) → Keeps P (create_jwt env sub)
  unfolding create_jwt
  create_jwt-Keeps sub w h = h

  pub decoded_json-Keeps : (o : Option Json) → Keeps P (decoded_json o)
  decoded_json-Keeps none = λ w h. h
  decoded_json-Keeps (some v) = λ w h. h

  pub stored_state-Keeps : (o : Option Str) → Keeps P (stored_state env o)
  stored_state-Keeps none = λ w h. h
  stored_state-Keeps (some raw) = decoded_json-Keeps (env.loads raw)

-- The callback keeps what is stable, if storing the login does.
module _ (env : Env) (P : World → Type 0) (stable : IsStable P)
    (stores : (tokens claims : Fields) → Keeps P (store_login env tokens claims)) where
  pub with_tokens-Keeps :
      (code : Str) (stored : Json) (tokens : Fields) → Keeps P (with_tokens env code stored tokens)
  with_tokens-Keeps code stored tokens =
      Keeps-if P (not (truthy (get (codes "id_token") tokens))) (raise _) _ (λ w h. h)
        (Keeps-bind P (lift _) _ (λ w h. h)
          λ nonce.
            Keeps-bind P (validate_id_token env _ nonce _ _) (with_claims env tokens)
              (validate_id_token-Keeps env P stable _ nonce _ _)
              λ claims.
                Keeps-bind P (store_login env tokens claims) (open_session env)
                  (stores tokens claims)
                  λ user.
                    Keeps-bind P (create_jwt env user.id) _ (create_jwt-Keeps env P user.id)
                      λ jwt w h. h)

  pub with_state-Keeps : (code : Str) (stored : Json) → Keeps P (with_state env code stored)
  with_state-Keeps code stored =
      Keeps-if P (is_null stored) (raise _) _ (λ w h. h)
        (Keeps-bind P (lift _) (with_verifier env code stored) (λ w h. h)
          λ verifier.
            Keeps-bind P (exchange_code env code verifier) _
              (exchange_code-Keeps env P stable code verifier)
              λ tokens.
                Keeps-bind P (lift _) (with_tokens env code stored) (λ w h. h)
                  λ fs. with_tokens-Keeps code stored fs)
