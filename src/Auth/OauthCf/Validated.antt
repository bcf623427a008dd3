-- ===== src/Auth/OauthCf/Validated.antt =====
-- What an id token shows that src/cfproxy/auth/oauth_cf.py has validated.
use mathlib.Core.Path.{subst}
use cloudflare_manual_dns.Auth.OauthCf.{
  allowed_alg, allowed_header, check_hash, check_claims, checked_claims, verify_signature, with_key,
  with_header, resolve_signing_key, validate_id_token,
}
use cloudflare_manual_dns.Auth.OauthCf.Keys.{
  IsSigner, or_raise-returns, resolve_signing_key-IsSigner,
}
use cloudflare_manual_dns.Auth.OauthCf.Checks.{Binds, allowed_header-ok, check_hash-ok}
use cloudflare_manual_dns.Runtime.{Event, Env, World, lift}
use cloudflare_manual_dns.Runtime.Bind.{>>=-returns, lift-returns}
use cloudflare_manual_dns.Common.{
  dict_fields-ok, ◌≡◌, refl, sym, ap, ◌∙◌, Bool, true, false, not, some, List, if◌then◌else◌, Str,
  codes, Json, Fields, get, py_eq, str, obj, and_then, >>=-eq-ok, ok_injective, dict_fields,
  invalid_jwt, ok, raised,
}

-- The token is signed by the key, for this client and from the issuer.
pub record IsSigned (env : Env) (text : Str) (key : Json) (claims : Fields) : Type 0 where
  pub then_ : List Event
  pub verified :
      env.jwt_verify then_ text key env.oauth_client_id env.cf_oauth_issuer env.access_token_skew
      ≡ some (obj claims)

module _ (env : Env) (id_token nonce access_token code : Json) where
  pub record IsValid (w : World) (claims : Fields) : Type 0 where
    pub text : Str
    pub is_text : id_token ≡ str text
    pub header : Fields
    pub its_header : env.jwt_header text ≡ some (obj header)
    pub alg : get (codes "alg") header ≡ str allowed_alg
    pub key : Json
    pub signer : IsSigner env w (get (codes "kid") header) key
    pub signed : IsSigned env text key claims
    pub same_nonce : py_eq (get (codes "nonce") claims) nonce ≡ true
    pub at_hash : Binds env (codes "at_hash") access_token claims
    pub c_hash : Binds env (codes "c_hash") code claims

  check_claims-ok :
      (alg : Json) (claims : Fields)
      → check_claims env nonce access_token code alg claims ≡ ok tt
      → (py_eq (get (codes "nonce") claims) nonce ≡ true)
        × Binds env (codes "at_hash") access_token claims
        × Binds env (codes "c_hash") code claims
  unfolding check_claims
  check_claims-ok alg claims h = go (py_eq (get (codes "nonce") claims) nonce) refl h
    where
      go :
          (b : Bool)
          → py_eq (get (codes "nonce") claims) nonce ≡ b
          → (if not b
              then raised invalid_jwt
              else and_then
                  (check_hash env (codes "at_hash") access_token alg claims)
                  λ _. check_hash env (codes "c_hash") code alg claims)
            ≡ ok tt
          → (py_eq (get (codes "nonce") claims) nonce ≡ true)
            × Binds env (codes "at_hash") access_token claims
            × Binds env (codes "c_hash") code claims
      go false e h = cc h
      go true e h =
          let (_, first, second) =
            >>=-eq-ok (check_hash env (codes "at_hash") access_token alg claims)
              (λ _. check_hash env (codes "c_hash") code alg claims) h in
          (
            e,
            check_hash-ok env (codes "at_hash") access_token alg claims first,
            check_hash-ok env (codes "c_hash") code alg claims second,
          )

  checked_claims-ok :
      (alg payload : Json) (claims : Fields)
      → checked_claims env nonce access_token code alg payload ≡ ok claims
      → (payload ≡ obj claims) × (check_claims env nonce access_token code alg claims ≡ ok tt)
  unfolding checked_claims
  checked_claims-ok alg payload claims h =
      let (fs, is_dict, h') =
        >>=-eq-ok (dict_fields payload)
          (λ fs. and_then (check_claims env nonce access_token code alg fs) λ _. ok fs) h in
      let (_, checked, same) =
        >>=-eq-ok (check_claims env nonce access_token code alg fs) (λ _. ok fs) h' in
      let e = ok_injective same in
      (
        dict_fields-ok payload fs is_dict ∙ ap obj e,
        subst (λ (x : Fields). check_claims env nonce access_token code alg x ≡ ok tt) e checked,
      )

  -- An id token that is validated has the algorithm RS256 in its header. It is signed by a key with
  -- the id in its header, or with any if it names none, from a key set that the issuer has answered
  -- with at some point, or that has been held for less than an hour; and it is found, at some point,
  -- to be made out for this client by the issuer. Its nonce is the given one. A hash in it is that of
  -- the given access token, or code.
  pub validate_id_token-IsValid :
      (w w' : World) (claims : Fields)
      → validate_id_token env id_token nonce access_token code w ≡ (ok claims, w')
      → IsValid w claims
  unfolding validate_id_token
  validate_id_token-IsValid w w' claims h =
      let ((text, header), w₁, read, h₁) =
        >>=-returns (lift (allowed_header env id_token)) (with_header env nonce access_token code) w
          h in
      let (is_header, same) = lift-returns (allowed_header env id_token) w read in
      let (is_text, its_header, alg) = allowed_header-ok env id_token text header is_header in
      let (key, w₂, resolved, h₂) =
        >>=-returns (resolve_signing_key env (get (codes "kid") header))
          (with_key env nonce access_token code text (get (codes "alg") header)) w₁ h₁ in
      let (payload, w₃, signed, h₃) =
        >>=-returns (verify_signature env text key)
          (λ payload.
            lift (checked_claims env nonce access_token code (get (codes "alg") header) payload))
          w₂ h₂ in
      let (is_dict, checked) =
        checked_claims-ok (get (codes "alg") header) payload claims (lift-returns _ w₃ h₃).0 in
      let (same_nonce, at_hash, c_hash) =
        check_claims-ok (get (codes "alg") header) claims checked in
      record {
        text = text;
        is_text = is_text;
        header = header;
        its_header = its_header;
        alg = alg;
        key = key;
        signer =
            subst (λ (v : World). IsSigner env v (get (codes "kid") header) key) (sym same)
              (resolve_signing_key-IsSigner env (get (codes "kid") header) w₁ w₂ key resolved);
        signed = record {
          then_ = w₂.trace;
          verified =
              (or_raise-returns invalid_jwt
                (env.jwt_verify w₂.trace text key env.oauth_client_id env.cf_oauth_issuer
                  env.access_token_skew)
                w₂ w₃ signed).0
              ∙ ap some is_dict;
        };
        same_nonce = same_nonce;
        at_hash = at_hash;
        c_hash = c_hash;
      }
