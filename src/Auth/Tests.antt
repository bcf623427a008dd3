-- ===== src/Auth/Tests.antt =====
-- Scoped tokens of src/cfproxy/auth/proxy_auth.py and src/cfproxy/core/crypto.py on concrete texts.
use cloudflare_manual_dns.Authz.Scope.{Rule}
use cloudflare_manual_dns.Authz.Pattern.{star, exact}
use cloudflare_manual_dns.Core.Crypto.{
  GeneratedToken, char_at, hash_token, verify_token, check_parts, parse_scoped_token,
  generate_scoped_token,
}
use cloudflare_manual_dns.Core.Crypto.RoundTrip.{Lacks, parse-generate}
use cloudflare_manual_dns.Db.{Datetime, ScopedToken, ScopeRule, before}
use cloudflare_manual_dns.Upstream.Auth.{find_key, cache_get_json, cache_set_json, find_credential}
use cloudflare_manual_dns.Proxy.Audit.{ProxyAuthContext}
use cloudflare_manual_dns.Proxy.Fixtures.{env, credential, token, start}
use cloudflare_manual_dns.Auth.ProxyAuth.{
  rules_of_token, find_by_lookup, is_expired, rules_from_db, load_rules, check_token,
  resolve_scoped_token, partition_space, require_scoped_token,
}
use cloudflare_manual_dns.Auth.ProxyAuth.Cached.{
  CacheAgrees, cached_form, db_rules, load_rules-CacheAgrees,
}
use cloudflare_manual_dns.Auth.ProxyAuth.Resolved.{IsResolved, resolve_scoped_token-IsResolved}
use cloudflare_manual_dns.Runtime.{Env, World}
use cloudflare_manual_dns.Common.{
  ◌≡◌, refl, true, false, none, some, [], ◌∷◌, ◌++◌, Str, codes, ◌==◌, split, lower_char,
  is_alnum_char, lower, isalnum, type_error, unauthorized, ok, raised,
}

auth : Unit {0}
unfolding char_at hash_token verify_token check_parts parse_scoped_token before find_key
    cache_get_json cache_set_json find_credential rules_of_token find_by_lookup is_expired
    rules_from_db load_rules check_token resolve_scoped_token partition_space require_scoped_token
    ◌==◌ split isalnum lower lower_char is_alnum_char
auth = tt

abbrev pub lookup_id : Str
lookup_id = codes "0123456789abcdef"

abbrev pub secret : Str
secret = codes "0123456789abcdef0123456789abcdef01234567"

abbrev pub full : Str
full = codes "cfp_" ++ lookup_id ++ codes "_" ++ secret

-- The token whose text is `full`; the hash of the environment is the text itself.
abbrev pub known : ScopedToken
known = record token { lookup_id = lookup_id; token_hash = full }

abbrev rule : Rule
rule = record {
  zone_id = codes "z1";
  name_pattern = none;
  name_match = exact;
  record_types = star ∷ [];
  record_ids = some (codes "r1" ∷ []);
  allow_read = true;
  allow_create = false;
  allow_write = false;
  allow_delete = false;
}

abbrev row : ScopeRule
row = record {
  id = codes "s1";
  scoped_token_id = codes "t1";
  rule = rule;
  content_lock = none;
  created_at = known.created_at;
}

abbrev pub world : World
world = record start { db = record start.db { tokens = known ∷ []; rules = row ∷ [] } }

abbrev context : ProxyAuthContext
context = record { token = known; rules = rule ∷ []; credential = credential }

resolved : resolve_scoped_token env full world ≡ (ok (some context), world)
unfolding auth
resolved = refl

resolve_scoped_token-IsResolved_example : IsResolved env full world world context
resolve_scoped_token-IsResolved_example =
    resolve_scoped_token-IsResolved env full world world context resolved

bearer_tests :
    (require_scoped_token env (some (codes "bEARER " ++ full)) world ≡ (ok context, world))
    × (require_scoped_token env (some full) world ≡ (raised unauthorized, world))
    × (require_scoped_token env none world ≡ (raised unauthorized, world))
unfolding auth
bearer_tests = (refl, refl, refl)

abbrev naive : Datetime
naive = record { aware = false; seconds = 9 }

abbrev expiring : ScopedToken
expiring = record known { expires_at = some naive }

abbrev naive_world : World
naive_world = record start { db = record start.db { tokens = expiring ∷ [] } }

parsed : parse_scoped_token env.codec full ≡ some (lookup_id, secret)
unfolding auth
parsed = refl

found : find_by_lookup lookup_id naive_world.db.tokens ≡ some expiring
unfolding auth
found = refl

-- An active token whose expiry was loaded without a time zone: comparing it with the present raises.
naive_test : resolve_scoped_token env full naive_world ≡ (raised type_error, naive_world)
unfolding auth
naive_test = refl

lacks : Lacks b'_' env.token_brand
lacks = (refl, (refl, (refl, tt)))

parse-generate_example :
    (g : GeneratedToken) × ((generate_scoped_token env world).0 ≡ ok g)
    × (parse_scoped_token env.codec g.full ≡ some (g.lookup_id, g.secret))
    × (verify_token env g.full g.token_hash ≡ true)
parse-generate_example = parse-generate env world lacks

-- A cache that answers, and holds one value.
abbrev caching : Env
caching = record env { cache_answers = λ t. true; loads = λ s. some (cached_form (rule ∷ [])) }

empty_agrees : CacheAgrees caching known world
unfolding auth
empty_agrees raw h = cc

comes_out :
    caching.loads (caching.dumps (cached_form (db_rules caching known world)))
    ≡ some (cached_form (db_rules caching known world))
unfolding auth
comes_out = refl

load_rules-CacheAgrees_example :
    ((load_rules caching known world).0 ≡ ok (db_rules caching known world))
    × CacheAgrees caching known (load_rules caching known world).1
load_rules-CacheAgrees_example = load_rules-CacheAgrees caching known world comes_out empty_agrees
