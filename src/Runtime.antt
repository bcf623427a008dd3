-- ===== src/Runtime.antt =====
-- The world that the request handlers act on, and its actions: the database, the cache, the trace
-- of what has happened, and an environment that answers. Every answer may depend on the whole
-- trace, so the upstream and the other workers may hold any state of their own.
pub mod Bind
pub mod Keeps
use cloudflare_manual_dns.Db.{Database, AuditLog, Datetime}
use cloudflare_manual_dns.Common.{
  ℕ, Bool, Option, none, some, List, ◌∷◌, Str, Codec, Json, Exception, Result, Exec, ok, raised,
}

pub record HttpRequest : Type 0 where
  pub method : Str
  pub path : Str
  pub headers : List (Str × Str)
  pub params : List (Str × Str)
  pub content : Option Str

-- `body` is what `response.json()` decodes to; `none` is a body that is no JSON.
pub record HttpResponse : Type 0 where
  pub status_code : ℕ
  pub body : Option Json

pub data Event : Type 0 where
  sent : HttpRequest → Event
  -- a form posted to the token endpoint of the OAuth issuer
  posted : List (Str × Str) → Event
  locked : Str → Event
  lock_failed : Str → Event
  released : Str → Event
  audited : AuditLog → Event
  committed : Event
  -- a token was drawn at random
  drawn : Event
  cached : Str → Event
  uncached : Str → Event
  -- a document fetched from this address
  fetched : Str → Event

-- What the program is given by code that is not its own: httpx, Fernet, SHA-256, the database
-- server's locks, Redis, the clock, the random generator and the settings.
pub record Env : Type 0 where
  pub codec : Codec
  -- `none` is an exception of the transport
  pub respond : List Event → HttpRequest → Option HttpResponse
  pub issuer_responds : List Event → List (Str × Str) → Option HttpResponse
  pub raises_for_status : HttpResponse → Bool
  pub loads : Str → Option Json
  pub dumps : Json → Str
  pub encrypt : List Event → Str → Str
  pub decrypt : Str → Option Str
  pub sha256_hex : Str → Str
  pub get_lock : List Event → Str → Bool
  pub audit_stored : List Event → Bool
  pub cache_answers : List Event → Bool
  pub now : List Event → ℕ
  -- the draws of `secrets.choice` at a point of the trace, one behind the other
  pub random_index : List Event → ℕ → ℕ
  -- `uuid4`, one behind the other at a point of the trace
  pub new_uuid : List Event → ℕ → Str
  pub oauth_client_id : Str
  pub oauth_client_secret : Str
  pub token_brand : Str
  pub access_token_skew : ℕ
  -- GET of an address, with headers
  pub get_document : List Event → Str → List (Str × Str) → Option HttpResponse
  -- argon2: `none` is a hash that cannot be read
  pub hash_password : List Event → Str → Str
  pub password_matches : Str → Str → Option Bool
  -- PyJWT, HS256 with the secret: `none` is a `PyJWTError`; the time of the call decides on `exp`
  pub jwt_encode : Json → Str → Str
  pub jwt_decode : List Event → Str → Str → Option Json
  -- the header of a JWT, a public key from its JWK, and a JWT verified by RS256 with that key for
  -- an audience and an issuer, with a leeway; `none` is a `PyJWTError`
  pub jwt_header : Str → Option Json
  pub rsa_key : Json → Option Json
  pub jwt_verify : List Event → Str → Json → Str → Str → ℕ → Option Json
  -- the digest's bytes, and base64 with padding
  pub sha256 : Str → Str
  pub urlsafe_b64encode : Str → Str
  pub urlencode : List (Str × Str) → Str
  -- `secrets.token_urlsafe(n)`, one behind the other at a point of the trace
  pub token_urlsafe : List Event → ℕ → ℕ → Str
  -- `time.monotonic()`
  pub monotonic : List Event → ℕ
  pub isoformat : Datetime → Str
  -- `str(v)` of a decoded value
  pub py_str : Json → Str
  -- `repr(s)` of a text
  pub py_repr : Str → Str
  pub cf_oauth_issuer : Str
  pub cf_oauth_redirect_uri : Str
  pub cf_oauth_base_scopes : Str
  pub cf_oauth_dns_scope : Str
  pub upstream_base_url : Str
  pub jwt_secret : Str
  pub jwt_ttl_seconds : ℕ

pub record World : Type 0 where
  pub trace : List Event
  pub db : Database
  pub cache : List (Str × Str)
  -- the key set that the process holds, and when it was fetched
  pub jwks : Option (Json × ℕ)

abbrev pub M : Type 0 → Type 0
M A = Exec World A

abbrev pub pure : {A : Type 0} → A → M A
pure a w = (ok a, w)

abbrev pub raise : {A : Type 0} → Exception → M A
raise e w = (raised e, w)

abbrev pub lift : {A : Type 0} → Result A → M A
lift r w = (r, w)

abbrev pub continue : {A B : Type 0} → (A → M B) → Result A × World → Result B × World
continue f (ok a, w) = f a w
continue f (raised e, w) = (raised e, w)

infixl 5 ◌>>=◌
abbrev pub ◌>>=◌ : {A : Type 0} {B : Type 0} → M A → (A → M B) → M B
(first >>= next) w = continue next (first w)

infixl 5 ◌>>◌
abbrev pub ◌>>◌ : {B : Type 0} → M (Unit {0}) → M B → M B
first >> second = first >>= λ _. second

abbrev pub get_world : M World
get_world w = (ok w, w)

-- Python's exception of a decryption that fails.
abbrev pub or_raise : {A : Type 0} → Exception → Option A → M A
or_raise e none = raise e
or_raise e (some a) = pure a

-- What happens next is written down.
abbrev pub record_event : Event → M (Unit {0})
record_event e w = (ok tt, record w { trace = e ∷ w.trace })
