-- ===== src/Auth/OauthCf/Checks.antt =====
-- What the checks of an id token's header and claims in src/cfproxy/auth/oauth_cf.py establish.
use mathlib.Core.Path.{subst}
use cloudflare_manual_dns.Upstream.Auth.{encodable}
use cloudflare_manual_dns.Auth.OauthCf.{
  if_allowed, with_alg, accept, against, hashed, match_hash, header_of, allowed_header, allowed_alg,
  hash_text, is_null, compare_digest, b64_unpadded, compute_oidc_hash, check_hash,
}
use cloudflare_manual_dns.Runtime.{Env}
use cloudflare_manual_dns.Common.{
  dict_fields-ok, ◌/◌, ◌≡◌, refl, sym, ap, ◌∙◌, ◌⊎◌, inl, inr, Bool, true, false, not, ◌&&◌, Option,
  none, some, [], ◌∷◌, if◌then◌else◌, length, take, Str, codes, ◌==◌, eq_iff, is_ascii, Json,
  Fields, get, py_eq, null, bool, int, str, arr, obj, Result, and_then, >>=-eq-ok, ok_injective,
  dict_fields, unicode_error, type_error, invalid_jwt, ok, raised,
}

pub py_eq_str : (v : Json) (s : Str) → py_eq v (str s) ≡ true → v ≡ str s
unfolding py_eq
py_eq_str (str t) s h = ap str ((eq_iff t s).0 h)
py_eq_str null s h = cc h
py_eq_str (bool b) s h = cc h
py_eq_str (int n) s h = cc h
py_eq_str (arr vs) s h = cc h
py_eq_str (obj fs) s h = cc h

is_null-true : (v : Json) → is_null v ≡ true → v ≡ null
is_null-true null h = refl
is_null-true (bool b) h = cc h
is_null-true (int n) h = cc h
is_null-true (str s) h = cc h
is_null-true (arr vs) h = cc h
is_null-true (obj fs) h = cc h

hash_text-ok : (v : Json) (s : Str) → hash_text v ≡ ok s → v ≡ str s
unfolding hash_text
hash_text-ok (str (c ∷ t)) s h = ap str (ok_injective h)
hash_text-ok (str []) s h = cc h
hash_text-ok null s h = cc h
hash_text-ok (bool b) s h = cc h
hash_text-ok (int n) s h = cc h
hash_text-ok (arr vs) s h = cc h
hash_text-ok (obj fs) s h = cc h

encodable-ok : (v : Json) (s : Str) → encodable v ≡ ok s → v ≡ str s
encodable-ok (str t) s h = ap str (ok_injective h)
encodable-ok null s h = cc h
encodable-ok (bool b) s h = cc h
encodable-ok (int n) s h = cc h
encodable-ok (arr vs) s h = cc h
encodable-ok (obj fs) s h = cc h

compare_digest-ok : (a b : Str) → compare_digest a b ≡ ok true → a ≡ b
unfolding compare_digest
compare_digest-ok a b h = go (is_ascii a && is_ascii b) h
  where
    go :
        (c : Bool)
        → ◌≡◌ {A = Result Bool} (if c then ok (a == b) else raised type_error) (ok true)
        → a ≡ b
    go true h = (eq_iff a b).0 (ok_injective h)
    go false h = cc h

-- The claim is absent, or the hash of this text: base64 of the left half of its SHA-256.
abbrev pub Binds : Env → Str → Json → Fields → Type 0
Binds env claim source claims =
    (get claim claims ≡ null)
    ⊎ ((value : Str) × (source ≡ str value)
        × (get claim claims
            ≡ str (b64_unpadded env (take (length (env.sha256 value) / 2) (env.sha256 value)))))

module _ (env : Env) where
  header_of-ok :
      (id_token : Json) (text : Str) (v : Json)
      → header_of env id_token ≡ ok (text, v)
      → (id_token ≡ str text) × (env.jwt_header text ≡ some v)
  unfolding header_of
  header_of-ok (str s) text v h = go (env.jwt_header s) refl h
    where
      go :
          (o : Option Json)
          → env.jwt_header s ≡ o
          → ◌≡◌ {A = Result (Str × Json)}
              (elim o [ none ↦ raised invalid_jwt | some x ↦ ok (s, x) ])
              (ok (text, v))
          → (str s ≡ str text) × (env.jwt_header text ≡ some v)
      go none e h = cc h
      go (some x) e h =
          let q = ok_injective h in
          let same : s ≡ text = ap (λ p. p.0) q in
          (
            ap str same,
            subst (λ (t : Str). env.jwt_header t ≡ some v) same (e ∙ ap (λ p. some p.1) q),
          )
  header_of-ok null text v h = cc h
  header_of-ok (bool b) text v h = cc h
  header_of-ok (int n) text v h = cc h
  header_of-ok (arr vs) text v h = cc h
  header_of-ok (obj fs) text v h = cc h

  if_allowed-ok :
      (s text : Str) (fs header : Fields)
      → if_allowed env s fs ≡ ok (text, header)
      → (s ≡ text) × (fs ≡ header) × (get (codes "alg") header ≡ str allowed_alg)
  if_allowed-ok s text fs header h = go (py_eq (get (codes "alg") fs) (str allowed_alg)) refl h
    where
      go :
          (b : Bool)
          → py_eq (get (codes "alg") fs) (str allowed_alg) ≡ b
          → ◌≡◌ {A = Result (Str × Fields)}
              (if b then ok (s, fs) else raised invalid_jwt)
              (ok (text, header))
          → (s ≡ text) × (fs ≡ header) × (get (codes "alg") header ≡ str allowed_alg)
      go true e h =
          let q = ok_injective h in
          (
            ap (λ p. p.0) q,
            ap (λ p. p.1) q,
            subst (λ (x : Fields). get (codes "alg") x ≡ str allowed_alg) (ap (λ p. p.1) q)
                (py_eq_str _ allowed_alg e),
          )
      go false e h = cc h

  pub allowed_header-ok :
      (id_token : Json) (text : Str) (header : Fields)
      → allowed_header env id_token ≡ ok (text, header)
      → (id_token ≡ str text)
        × (env.jwt_header text ≡ some (obj header))
        × (get (codes "alg") header ≡ str allowed_alg)
  unfolding allowed_header
  allowed_header-ok id_token text header h =
      let ((s, v), read, h') = >>=-eq-ok (header_of env id_token) (with_alg env) h in
      let (fs, is_dict, h'') = >>=-eq-ok (dict_fields v) (if_allowed env s) h' in
      let (is_text, its_header) = header_of-ok id_token s v read in
      let (same, same', alg) = if_allowed-ok s text fs header h'' in
      (
        is_text ∙ ap str same,
        subst (λ (t : Str). env.jwt_header t ≡ some (obj header)) same
            (its_header ∙ ap some (dict_fields-ok v fs is_dict ∙ ap obj same')),
        alg,
      )

  compute_oidc_hash-ok :
      (value expected : Str) (alg : Json)
      → compute_oidc_hash env value alg ≡ ok expected
      → expected ≡ b64_unpadded env (take (length (env.sha256 value) / 2) (env.sha256 value))
  unfolding compute_oidc_hash
  compute_oidc_hash-ok value expected alg h =
      go (not (py_eq alg (str allowed_alg))) (not (is_ascii value)) h
    where
      go :
          (b c : Bool)
          → ◌≡◌ {A = Result Str}
              (if b
                then raised invalid_jwt
                else if c
                then raised unicode_error
                else ok
                    (b64_unpadded env (take (length (env.sha256 value) / 2) (env.sha256 value))))
              (ok expected)
          → expected ≡ b64_unpadded env (take (length (env.sha256 value) / 2) (env.sha256 value))
      go true c h = cc h
      go false true h = cc h
      go false false h = sym (ok_injective h)

  accept-ok : (b : Bool) → accept env b ≡ ok tt → b ≡ true
  accept-ok true h = refl
  accept-ok false h = cc h

  match_hash-ok :
      (source alg : Json) (claim_value : Str)
      → match_hash env source alg claim_value ≡ ok tt
      → (value : Str) × (source ≡ str value)
        × (claim_value ≡ b64_unpadded env (take (length (env.sha256 value) / 2) (env.sha256 value)))
  unfolding match_hash
  match_hash-ok source alg claim_value h = go (is_null source) h
    where
      go :
          (b : Bool)
          → (if b
              then raised invalid_jwt
              else and_then (encodable source) (hashed env alg claim_value))
            ≡ ok tt
          → (value : Str) × (source ≡ str value)
            × (claim_value
                ≡ b64_unpadded env (take (length (env.sha256 value) / 2) (env.sha256 value)))
      go true h = cc h
      go false h =
          let (value, is_text, h₁) = >>=-eq-ok (encodable source) (hashed env alg claim_value) h in
          let (expected, computed, h₂) =
            >>=-eq-ok (compute_oidc_hash env value alg) (against env claim_value) h₁ in
          let (same, compared, h₃) =
            >>=-eq-ok (compare_digest expected claim_value) (accept env) h₂ in
          let equal =
            compare_digest-ok expected claim_value (compared ∙ ap ok (accept-ok same h₃)) in
          (
            value,
            encodable-ok source value is_text,
            sym equal ∙ compute_oidc_hash-ok value expected alg computed,
          )

  pub check_hash-ok :
      (claim : Str) (source alg : Json) (claims : Fields)
      → check_hash env claim source alg claims ≡ ok tt
      → Binds env claim source claims
  unfolding check_hash
  check_hash-ok claim source alg claims h = go (is_null (get claim claims)) refl h
    where
      go :
          (b : Bool)
          → is_null (get claim claims) ≡ b
          → (if b
              then ok tt
              else and_then (hash_text (get claim claims)) (match_hash env source alg))
            ≡ ok tt
          → Binds env claim source claims
      go true e h = inl (is_null-true (get claim claims) e)
      go false e h =
          let (v, is_text, h') =
            >>=-eq-ok (hash_text (get claim claims)) (match_hash env source alg) h in
          let (value, its_source, bound) = match_hash-ok source alg v h' in
          inr (value, its_source, hash_text-ok (get claim claims) v is_text ∙ ap str bound)
