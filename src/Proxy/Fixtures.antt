-- ===== src/Proxy/Fixtures.antt =====
-- A proxy, its upstream and a world to run src/cfproxy/routers/proxy_dns.py in.
use cloudflare_manual_dns.Runtime.{HttpRequest, HttpResponse, Event, Env, World}
use cloudflare_manual_dns.Authz.Pattern.{exact}
use cloudflare_manual_dns.Authz.Tests.{ascii}
use cloudflare_manual_dns.Db.{Datetime, UpstreamCredential, ScopedToken}
use cloudflare_manual_dns.Upstream.Client.{Headers, records_path}
use cloudflare_manual_dns.Proxy.Audit.{ProxyAuthContext, Request}
use cloudflare_manual_dns.Common.{
  true, false, Option, none, some, List, [], ◌∷◌, ◌++◌, if◌then◌else◌, codes, ◌==◌, show_ℕ, Json,
  str, arr, obj, nil, cons, end, field,
}

abbrev pub www : Json
www = obj (
    field (codes "id") (str (codes "r1"))
      (field (codes "name") (str (codes "www.a.com")) (field (codes "type") (str (codes "A")) end)))

-- A list for the path of the records, the record for every other path.
abbrev upstream : List Event → HttpRequest → Option HttpResponse
upstream t r = some (record {
  status_code = 200;
  body = some (
      obj (
        field (codes "result")
          (if r.path == records_path (codes "z1") then arr (cons www nil) else www) end));
})

abbrev pub env : Env
env = record {
  codec = ascii;
  respond = upstream;
  issuer_responds = λ t form. none;
  raises_for_status = λ r. false;
  loads = λ s. none;
  dumps = λ v. [];
  encrypt = λ t s. s;
  decrypt = λ s. some s;
  sha256_hex = λ s. s;
  get_lock = λ t name. true;
  audit_stored = λ t. true;
  cache_answers = λ t. false;
  now = λ t. 0;
  random_index = λ t n. n;
  new_uuid = λ t n. codes "id" ++ show_ℕ n;
  oauth_client_id = [];
  oauth_client_secret = [];
  token_brand = codes "cfp";
  access_token_skew = 60;
  get_document = λ t url headers. none;
  hash_password = λ t pw. pw;
  password_matches = λ h pw. some (h == pw);
  jwt_encode = λ payload key. [];
  jwt_decode = λ t s key. none;
  jwt_header = λ s. none;
  rsa_key = λ k. some k;
  jwt_verify = λ t s key audience issuer leeway. none;
  sha256 = λ s. s;
  urlsafe_b64encode = λ s. s;
  urlencode = λ fields. [];
  token_urlsafe = λ t n size. codes "r" ++ show_ℕ n;
  monotonic = λ t. 0;
  isoformat = λ d. show_ℕ d.seconds;
  py_str = λ v. [];
  py_repr = λ s. s;
  cf_oauth_issuer = codes "https://dash";
  cf_oauth_redirect_uri = [];
  cf_oauth_base_scopes = codes "openid";
  cf_oauth_dns_scope = [];
  upstream_base_url = codes "https://api";
  jwt_secret = codes "key";
  jwt_ttl_seconds = 86400;
}

abbrev pub epoch : Datetime
epoch = record { aware = true; seconds = 0 }

abbrev pub credential : UpstreamCredential
credential = record {
  id = codes "c1";
  user_id = codes "u1";
  label = codes "main";
  cred_type = codes "token";
  secret_enc = some (codes "s3");
  access_token_enc = none;
  refresh_token_enc = none;
  token_expires_at = none;
  oauth_scopes = none;
  key_version = 1;
  cred_version = 1;
  cf_account_email = none;
  verify_status = none;
  verified_at = none;
  created_at = epoch;
}

abbrev pub token : ScopedToken
token = record {
  id = codes "t1";
  user_id = codes "u1";
  upstream_credential_id = codes "c1";
  name = codes "ddns";
  lookup_id = codes "abc";
  token_prefix = codes "cfp_abc";
  token_hash = [];
  version = 1;
  status = codes "active";
  expires_at = none;
  last_used_at = none;
  created_at = epoch;
  revoked_at = none;
}

-- Everything but a delete, for every A record of the zone.
abbrev pub context : ProxyAuthContext
context = record {
  token = token;
  rules =
      record {
        zone_id = codes "z1";
        name_pattern = none;
        name_match = exact;
        record_types = codes "A" ∷ [];
        record_ids = none;
        allow_read = true;
        allow_create = true;
        allow_write = true;
        allow_delete = false;
      }
      ∷ [];
  credential = credential;
}

abbrev pub request : Request
request = record {
  client_ip = none;
  query_params = [];
  raw_body = codes "{}";
  json_body = some www;
}

abbrev pub start : World
start = record {
  trace = [];
  db = record {
    users = [];
    credentials = credential ∷ [];
    tokens = token ∷ [];
    rules = [];
    audit_logs = [];
  };
  cache = [];
  jwks = none;
}

abbrev pub bearer : Headers
bearer = (codes "Authorization", codes "Bearer s3") ∷ []
