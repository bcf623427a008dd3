-- ===== src/Upstream/Auth/Kept.antt =====
-- What the credential's resolution in src/cfproxy/upstream/auth.py keeps true of the world: it posts
-- to the issuer, and writes the database and the cache.
use cloudflare_manual_dns.Upstream.Auth.{
  put_key, with_row, if_fresh, expiry, with_access, store_refreshed, find_credential, utcnow,
  still_valid, commit_credentials, encrypt_secret, resolve_upstream_auth, get_valid_access_token,
  decrypt_secret, encrypt_text, next_refresh_token, cache_access_token, cache_get_json,
  cache_set_json, from_cache, from_row, use_locked, refresh_credential, refresh_access_token,
  post_form, raise_for_status, encodable, update_tokens, oauth_at_key,
}
use cloudflare_manual_dns.Upstream.Client.{subscript}
use cloudflare_manual_dns.Db.{Database, UpstreamCredential, Datetime}
use cloudflare_manual_dns.Runtime.{
  Env, World, lift, pure, or_raise, ◌>>=◌, ◌>>◌, cached, posted, committed,
}
use cloudflare_manual_dns.Runtime.Keeps.{Keeps, Keeps-or_raise, Keeps-bind, Keeps-if}
use cloudflare_manual_dns.Common.{
  Bool, true, false, not, Option, none, some, List, ◌∷◌, if◌then◌else◌, Str, codes, ◌==◌, Json,
  truthy, get, null, bool, int, str, arr, obj, dict_fields, http_error, not_found, invalid_token,
}

pub record IsNeutral (P : World → Type 0) : Type 0 where
  pub posting :
      (w : World) (form : List (Str × Str)) → P w → P (record w { trace = posted form ∷ w.trace })
  pub committing :
      (w : World) (db : Database) → P w → P (record w { trace = committed ∷ w.trace; db = db })
  pub caching :
      (w : World) (key : Str) (cache : List (Str × Str))
      → P w
      → P (record w { trace = cached key ∷ w.trace; cache = cache })

module _ (env : Env) (P : World → Type 0) (neutral : IsNeutral P) where
  decrypt_secret-Keeps : (o : Option Str) → Keeps P (decrypt_secret env o)
  unfolding decrypt_secret
  decrypt_secret-Keeps none = λ w h. h
  decrypt_secret-Keeps (some c) = Keeps-or_raise P invalid_token (env.decrypt c)

  encrypt_secret-Keeps : (s : Str) → Keeps P (encrypt_secret env s)
  unfolding encrypt_secret
  encrypt_secret-Keeps s w h = h

  cache_set_json-Keeps : (key : Str) (v : Json) → Keeps P (cache_set_json env key v)
  unfolding cache_set_json
  cache_set_json-Keeps key v w h = go (env.cache_answers w.trace)
    where
      go :
          (b : Bool)
          → P (
              if b
              then record w {
                trace = cached key ∷ w.trace;
                cache = put_key key (env.dumps v) w.cache;
              }
              else w)
      go true = neutral.caching w key _ h
      go false = h

  encrypt_text-Keeps : (v : Json) → Keeps P (encrypt_text env v)
  encrypt_text-Keeps v =
      Keeps-bind P (lift (encodable v)) _ (λ w h. h)
        λ s. Keeps-bind P (encrypt_secret env s) _ (encrypt_secret-Keeps s) λ c w h. h

  next_refresh_token-Keeps : (v : Json) (o : Option Str) → Keeps P (next_refresh_token env v o)
  next_refresh_token-Keeps v o =
      Keeps-if P (truthy v) (pure v) _ (λ w h. h)
        (Keeps-bind P (decrypt_secret env o) _ (decrypt_secret-Keeps o) λ s w h. h)

  refresh_access_token-Keeps : (s : Str) → Keeps P (refresh_access_token env s)
  unfolding refresh_access_token post_form
  refresh_access_token-Keeps s =
      Keeps-bind P (post_form env _) _
        (λ w h.
          Keeps-or_raise P http_error (env.issuer_responds w.trace _) _ (neutral.posting w _ h))
        λ r. Keeps-bind P (lift (raise_for_status env r)) _ (λ w h. h) λ _ w h. h

  cached_secret-Keeps :
      (id access : Str)
      → Keeps P
          (encrypt_secret env access >>= λ enc. cache_set_json env (oauth_at_key id) (str enc))
  cached_secret-Keeps id access =
      Keeps-bind P (encrypt_secret env access) _ (encrypt_secret-Keeps access)
        λ enc. cache_set_json-Keeps (oauth_at_key id) (str enc)

  cache_access_token-Keeps :
      (id access : Str) (v : Json) → Keeps P (cache_access_token env id access v)
  cache_access_token-Keeps id access null = λ w h. h
  cache_access_token-Keeps id access (bool b) = cached_secret-Keeps id access
  cache_access_token-Keeps id access (int n) = cached_secret-Keeps id access
  cache_access_token-Keeps id access (str s) = cached_secret-Keeps id access
  cache_access_token-Keeps id access (arr vs) = cached_secret-Keeps id access
  cache_access_token-Keeps id access (obj fs) = cached_secret-Keeps id access

  store_refreshed-Keeps :
      (c : UpstreamCredential) (v : Json) (expires : Option Datetime) (access access_enc : Str)
      (r : Str × Str)
      → Keeps P (store_refreshed env c v expires access access_enc r)
  store_refreshed-Keeps c v expires access access_enc (_, refresh_enc) =
      Keeps-bind P
        (commit_credentials (update_tokens c.id c.cred_version access_enc refresh_enc expires))
        (λ _. cache_access_token env c.id access v >> pure access) (λ w h. neutral.committing w _ h)
        λ _.
          Keeps-bind P (cache_access_token env c.id access v) (λ _. pure access)
            (cache_access_token-Keeps c.id access v) λ _ w h. h

  with_access-Keeps :
      (c : UpstreamCredential) (v : Json) (expires : Option Datetime) (new_refresh : Json)
      (access access_enc : Str)
      → Keeps P (with_access env c v expires new_refresh (access, access_enc))
  with_access-Keeps c v expires new_refresh access access_enc =
      Keeps-bind P (encrypt_text env new_refresh)
        (store_refreshed env c v expires access access_enc) (encrypt_text-Keeps new_refresh)
        (store_refreshed-Keeps c v expires access access_enc)

  refresh_credential-Keeps :
      (c : UpstreamCredential) (now : Datetime) → Keeps P (refresh_credential env c now)
  unfolding refresh_credential
  refresh_credential-Keeps c now =
      Keeps-bind P (decrypt_secret env c.refresh_token_enc) _
        (decrypt_secret-Keeps c.refresh_token_enc)
        λ old.
          Keeps-bind P (refresh_access_token env old) _ (refresh_access_token-Keeps old) λ response.
            Keeps-bind P (lift (subscript response (codes "access_token"))) _ (λ w h. h)
              λ new_access.
                Keeps-bind P (lift (dict_fields response)) _ (λ w h. h)
                  λ token_data.
                    Keeps-bind P
                      (next_refresh_token env (get (codes "refresh_token") token_data)
                        c.refresh_token_enc)
                      _ (next_refresh_token-Keeps _ _)
                      λ new_refresh.
                        Keeps-bind P (lift (expiry now (get (codes "expires_in") token_data))) _
                          (λ w h. h)
                          λ expires.
                            Keeps-bind P (encrypt_text env new_access)
                              (with_access env c (get (codes "expires_in") token_data) expires
                                new_refresh)
                              (encrypt_text-Keeps new_access)
                              λ (access, access_enc).
                                with_access-Keeps c _ expires new_refresh access access_enc

  use_locked-Keeps :
      (c : UpstreamCredential) (now : Datetime) (fresh : Bool)
      → Keeps P (use_locked env c now fresh)
  use_locked-Keeps c now true = decrypt_secret-Keeps c.access_token_enc
  use_locked-Keeps c now false = refresh_credential-Keeps c now

  from_row-Keeps : (id : Str) → Keeps P (from_row env id)
  from_row-Keeps id w =
      Keeps-bind P (or_raise not_found (find_credential id w.db.credentials)) (with_row env)
        (Keeps-or_raise P not_found (find_credential id w.db.credentials))
        (λ locked.
          Keeps-bind P (utcnow env) (if_fresh env locked) (λ w h. h)
            λ now.
              Keeps-bind P (lift (still_valid env.access_token_skew locked.token_expires_at now))
                (use_locked env locked now) (λ w h. h) (use_locked-Keeps locked now))
        w

  from_cache-Keeps : (id : Str) (o : Option Json) → Keeps P (from_cache env id o)
  from_cache-Keeps id none = from_row-Keeps id
  from_cache-Keeps id (some v) =
      Keeps-if P (truthy v) _ (from_row env id)
        (Keeps-bind P (lift (encodable v)) _ (λ w h. h) λ enc. decrypt_secret-Keeps (some enc))
        (from_row-Keeps id)

  get_valid_access_token-Keeps : (c : UpstreamCredential) → Keeps P (get_valid_access_token env c)
  unfolding get_valid_access_token cache_get_json
  get_valid_access_token-Keeps c =
      Keeps-if P (not (c.cred_type == codes "oauth")) (decrypt_secret env c.secret_enc) _
        (decrypt_secret-Keeps c.secret_enc)
        (Keeps-bind P (cache_get_json env (oauth_at_key c.id)) (from_cache env c.id) (λ w h. h)
          (from_cache-Keeps c.id))

  pub resolve_upstream_auth-Keeps : (c : UpstreamCredential) → Keeps P (resolve_upstream_auth env c)
  unfolding resolve_upstream_auth
  resolve_upstream_auth-Keeps c =
      Keeps-if P (c.cred_type == codes "global_key") _ _
        (Keeps-bind P (decrypt_secret env c.secret_enc) _ (decrypt_secret-Keeps c.secret_enc)
          λ s w h. h)
        (Keeps-bind P (get_valid_access_token env c) _ (get_valid_access_token-Keeps c) λ s w h. h)
