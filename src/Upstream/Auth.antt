-- ===== src/Upstream/Auth.antt =====
-- `resolve_upstream_auth` and `get_valid_access_token` of src/cfproxy/upstream/client.py, with
-- `refresh_access_token` of src/cfproxy/auth/oauth_cf.py and the cache functions of
-- src/cfproxy/cache/redis.py that they call.
pub mod Keeps
pub mod Kept
use cloudflare_manual_dns.Db.{Datetime, UpstreamCredential, before}
use cloudflare_manual_dns.Upstream.Client.{json, raise_for_status, subscript, Headers, as_int}
use cloudflare_manual_dns.Runtime.{
  HttpResponse, posted, committed, cached, uncached, Env, M, raise, lift, or_raise, ◌>>=◌, ◌>>◌,
  pure, get_world,
}
use cloudflare_manual_dns.Common.{
  ℕ, suc, ◌-◌, Bool, true, false, not, ◌&&◌, Option, none, some, List, [], ◌∷◌, ◌++◌, nat_eq,
  if◌then◌else◌, pos_part, ◌+ℤ◌, pos, Str, codes, ◌==◌, show_ℕ, Json, truthy, get, null, str,
  Result, and_then, dict_fields, value_error, attribute_error, type_error, http_error, not_found,
  invalid_token, ok, raised,
}

-- redis.py: `oauth_at_key`, and `rules_key`
abbrev pub oauth_at_key : Str → Str
oauth_at_key cred_id = codes "oauth_at:" ++ cred_id

abbrev pub rules_key : Str → ℕ → Str
rules_key lookup_id version = codes "rules:" ++ lookup_id ++ codes ":" ++ show_ℕ version

module _ {V : Type 0} where
  unfoldable pub find_key : Str → List (Str × V) → Option V
  find_key k [] = none
  find_key k ((j, v) ∷ m) = if j == k then some v else find_key k m

  unfoldable pub put_key : Str → V → List (Str × V) → List (Str × V)
  put_key key value [] = (key, value) ∷ []
  put_key key value ((other, old) ∷ m) =
      if other == key then (key, value) ∷ m else (other, old) ∷ put_key key value m

  unfoldable pub drop_key : Str → List (Str × V) → List (Str × V)
  drop_key k [] = []
  drop_key k ((j, v) ∷ m) = let rest = drop_key k m in if j == k then rest else (j, v) ∷ rest

module _ (env : Env) where
  abbrev pub decoded : Option Str → Option Json
  decoded none = none
  decoded (some raw) = env.loads raw

  -- A miss, an error of the store and a text that is no JSON are all `none`; an entry whose time is
  -- over is an answer that the store does not give.
  unfoldable pub cache_get_json : Str → M (Option Json)
  cache_get_json key w =
      (ok (if env.cache_answers w.trace then decoded (find_key key w.cache) else none), w)

  unfoldable pub cache_set_json : Str → Json → M (Unit {0})
  cache_set_json key value w = (
    ok tt,
    (if env.cache_answers w.trace
        then record w {
          trace = cached key ∷ w.trace;
          cache = put_key key (env.dumps value) w.cache;
        }
        else w),
  )

  unfoldable pub cache_del : Str → M (Unit {0})
  cache_del key w = (
    ok tt,
    (if env.cache_answers w.trace
        then record w { trace = uncached key ∷ w.trace; cache = drop_key key w.cache }
        else w),
  )

  abbrev pub utcnow : M Datetime
  utcnow w = (ok (record { aware = true; seconds = env.now w.trace }), w)

  -- `decrypt_secret`, of a column that may be null
  unfoldable pub decrypt_secret : Option Str → M Str
  decrypt_secret none = raise attribute_error
  decrypt_secret (some ciphertext) = or_raise invalid_token (env.decrypt ciphertext)

  unfoldable pub encrypt_secret : Str → M Str
  encrypt_secret plaintext w = (ok (env.encrypt w.trace plaintext), w)

  abbrev refresh_form : Str → List (Str × Str)
  refresh_form refresh_token =
      (codes "grant_type", codes "refresh_token")
      ∷ (codes "refresh_token", refresh_token)
      ∷ (codes "client_id", env.oauth_client_id)
      ∷ (codes "client_secret", env.oauth_client_secret)
      ∷ []

  unfoldable pub post_form : List (Str × Str) → M HttpResponse
  post_form form w =
      or_raise http_error (env.issuer_responds w.trace form)
        (record w { trace = posted form ∷ w.trace })

  unfoldable pub refresh_access_token : Str → M Json
  refresh_access_token refresh_token = do
    response ← post_form (refresh_form refresh_token)
    lift (raise_for_status env response)
    lift (json response)

-- `where(id == ..., cred_version == ...).values(...)`
unfoldable pub update_tokens :
    Str → ℕ → Str → Str → Option Datetime → List UpstreamCredential → List UpstreamCredential
update_tokens id version access refresh expires [] = []
update_tokens id version access refresh expires (c ∷ cs) =
    (if c.id == id && nat_eq c.cred_version version
      then record c {
        access_token_enc = some access;
        refresh_token_enc = some refresh;
        token_expires_at = expires;
        cred_version = suc version;
      }
      else c)
    ∷ update_tokens id version access refresh expires cs

unfoldable pub find_credential : Str → List UpstreamCredential → Option UpstreamCredential
find_credential id [] = none
find_credential id (c ∷ cs) = if c.id == id then some c else find_credential id cs

-- `session.execute(stmt); session.commit()`
abbrev pub commit_credentials : (List UpstreamCredential → List UpstreamCredential) → M (Unit {0})
commit_credentials f w = (
  ok tt,
  record w { trace = committed ∷ w.trace; db = record w.db { credentials = f w.db.credentials } },
)

-- the method `encode`, which only a text has
abbrev pub encodable : Json → Result Str
encodable (str s) = ok s
encodable _ = raised attribute_error

-- a header's value, which must be a text
abbrev pub as_text : Json → Result Str
as_text (str s) = ok s
as_text _ = raised type_error

-- `timedelta(seconds=expires_in)` after `now`; a missing `expires_in` gives no expiry.
abbrev pub expiry : Datetime → Json → Result (Option Datetime)
expiry now null = ok none
expiry now v =
    and_then (as_int v) λ n. ok (some (record now { seconds = pos_part (pos now.seconds +ℤ n) }))

-- `token_expires_at is not None and token_expires_at - skew > now`
unfoldable pub still_valid : ℕ → Option Datetime → Datetime → Result Bool
still_valid skew none now = ok false
still_valid skew (some expires) now =
    before now (record expires { seconds = expires.seconds - skew })

module _ (env : Env) where
  -- `token_data.get("refresh_token") or decrypt_secret(locked.refresh_token_enc)`
  abbrev pub next_refresh_token : Json → Option Str → M Json
  next_refresh_token v enc =
      if truthy v then pure v else (do old ← decrypt_secret env enc; pure (str old))

  -- `encrypt_secret` of a value of the issuer's answer, with the text that it is
  abbrev pub encrypt_text : Json → M (Str × Str)
  encrypt_text v = do
    plaintext ← lift (encodable v)
    ciphertext ← encrypt_secret env plaintext
    pure (plaintext, ciphertext)

  -- `if expires_in is not None:` the new access token goes to the cache, encrypted.
  abbrev pub cache_access_token : Str → Str → Json → M (Unit {0})
  cache_access_token cred_id access null = pure tt
  cache_access_token cred_id access v = do
    enc ← encrypt_secret env access
    cache_set_json env (oauth_at_key cred_id) (str enc)

  -- The new tokens are stored under the version that was read, and the access token is cached.
  abbrev pub store_refreshed :
      UpstreamCredential → Json → Option Datetime → Str → Str → Str × Str → M Str
  store_refreshed locked expires_in expires access access_enc (_, refresh_enc) = do
    commit_credentials (update_tokens locked.id locked.cred_version access_enc refresh_enc expires)
    cache_access_token locked.id access expires_in
    pure access

  abbrev pub with_access : UpstreamCredential → Json → Option Datetime → Json → Str × Str → M Str
  with_access locked expires_in expires new_refresh (access, access_enc) =
      encrypt_text new_refresh >>= store_refreshed locked expires_in expires access access_enc

  -- The grant, the conditional update and the cache, after the row is found stale.
  unfoldable pub refresh_credential : UpstreamCredential → Datetime → M Str
  refresh_credential locked now = do
    old ← decrypt_secret env locked.refresh_token_enc
    response ← refresh_access_token env old
    new_access ← lift (subscript response (codes "access_token"))
    token_data ← lift (dict_fields response)
    new_refresh ←
        next_refresh_token (get (codes "refresh_token") token_data) locked.refresh_token_enc
    expires ← lift (expiry now (get (codes "expires_in") token_data))
    encrypt_text new_access
        >>= with_access locked (get (codes "expires_in") token_data) expires new_refresh

  abbrev pub use_locked : UpstreamCredential → Datetime → Bool → M Str
  use_locked locked now true = decrypt_secret env locked.access_token_enc
  use_locked locked now false = refresh_credential locked now

  abbrev pub if_fresh : UpstreamCredential → Datetime → M Str
  if_fresh locked now =
      lift (still_valid env.access_token_skew locked.token_expires_at now) >>= use_locked locked now

  abbrev pub with_row : UpstreamCredential → M Str
  with_row locked = utcnow env >>= if_fresh locked

  -- The row is read again under its lock.
  abbrev pub from_row : Str → M Str
  from_row cred_id = do
    w ← get_world
    or_raise not_found (find_credential cred_id w.db.credentials) >>= with_row

  abbrev pub from_cache : Str → Option Json → M Str
  from_cache cred_id none = from_row cred_id
  from_cache cred_id (some v) =
      if truthy v
      then (do enc ← lift (encodable v); decrypt_secret env (some enc))
      else from_row cred_id

  unfoldable pub get_valid_access_token : UpstreamCredential → M Str
  get_valid_access_token credential =
      if not (credential.cred_type == codes "oauth")
      then decrypt_secret env credential.secret_enc
      else (do
        cached_enc ← cache_get_json env (oauth_at_key credential.id)
        from_cache credential.id cached_enc)

  abbrev pub global_key_headers : Json → Result Headers
  global_key_headers v = and_then (and_then (subscript v (codes "email")) as_text) λ email.
      and_then (and_then (subscript v (codes "key")) as_text)
        λ key. ok ((codes "X-Auth-Email", email) ∷ (codes "X-Auth-Key", key) ∷ [])

  abbrev loaded : Option Json → Result Json
  loaded none = raised (value_error (codes "JSONDecodeError"))
  loaded (some v) = ok v

  unfoldable pub resolve_upstream_auth : UpstreamCredential → M Headers
  resolve_upstream_auth credential =
      if credential.cred_type == codes "global_key"
      then (do
        secret ← decrypt_secret env credential.secret_enc
        lift (and_then (loaded (env.loads secret)) global_key_headers))
      else (do
        token ← get_valid_access_token credential
        pure ((codes "Authorization", codes "Bearer " ++ token) ∷ []))
