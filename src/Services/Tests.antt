-- ===== src/Services/Tests.antt =====
-- The services of src/cfproxy/services on a small database.
use cloudflare_manual_dns.Auth.ProxyAuth.Cached.{CacheAgrees, cached_form}
use cloudflare_manual_dns.Services.Tokens.Resolves.{UniqueLookups, let_in, mint-resolve}
use cloudflare_manual_dns.Authz.Fqdn.{labels_ok, encode_idna, strip_fqdn, normalize_fqdn}
use cloudflare_manual_dns.Authz.Pattern.{
  star, exact, in_zone, validate_exact, validate_name_pattern,
}
use cloudflare_manual_dns.Core.Crypto.{
  char_at, hash_token, verify_token, check_parts, parse_scoped_token, generate_random_string,
  drawn_token, generate_scoped_token,
}
use cloudflare_manual_dns.Db.{ScopedToken, UpstreamCredential, before}
use cloudflare_manual_dns.Upstream.Client.{
  forward_request, strip_headers, update, set_key, subscript,
}
use cloudflare_manual_dns.Upstream.Auth.{
  find_key, drop_key, cache_get_json, cache_set_json, cache_del, find_credential, decrypt_secret,
  get_valid_access_token, resolve_upstream_auth,
}
use cloudflare_manual_dns.Proxy.Audit.{ProxyAuthContext}
use cloudflare_manual_dns.Proxy.Fixtures.{env, credential, token, start}
use mathlib.Core.Path.{subst}
use cloudflare_manual_dns.Upstream.Auth.{rules_key}
use cloudflare_manual_dns.Auth.ProxyAuth.{
  rules_of_token, find_by_lookup, is_expired, rules_from_db, load_rules, check_token,
  resolve_scoped_token,
}
use cloudflare_manual_dns.Auth.Tests.{lookup_id, secret, full, known}
use cloudflare_manual_dns.Services.Credentials.{
  find_owned, get_owned_credential, depends, revoke_dependents, remove_credential, drop_rules,
  erase_credential, delete_credential,
}
use cloudflare_manual_dns.Services.Credentials.Deleted.{delete-resolve}
use cloudflare_manual_dns.Services.Tokens.{
  RuleInput, Minted, Rotated, find_owned_token, get_owned_scoped_token, change_token,
  read_zone_name, resolve_zone_name, validate_rule, validate_rules, validate_scope_rules, rule_rows,
  mint_scoped_token, give_token, rotate_scoped_token, revoke_scoped_token,
}
use cloudflare_manual_dns.Services.Tokens.Validated.{IsValidated, mint-IsValidated}
use cloudflare_manual_dns.Services.Tokens.Revoked.{revoke-resolve, rotate-resolve}
use cloudflare_manual_dns.Runtime.{World, Env}
use cloudflare_manual_dns.Common.{
  ◌≡◌, refl, sym, ◌∙◌, ◌≢◌, inl, inr, true, false, none, some, List, [], ◌∷◌, All, In, codes, ◌==◌,
  ne_of_eq, mem_str, has_char, ends_with, split, join, is_space, lstrip_by, rstrip_by, strip,
  lower_char, is_alnum_char, lower, isalnum, show_ℕ, lookup, Result, ok,
}

services : Unit {0}
unfolding labels_ok encode_idna strip_fqdn normalize_fqdn in_zone validate_exact
    validate_name_pattern char_at hash_token verify_token check_parts parse_scoped_token
    generate_random_string drawn_token generate_scoped_token before forward_request strip_headers
    update set_key subscript find_key drop_key cache_get_json cache_set_json cache_del
    find_credential decrypt_secret get_valid_access_token resolve_upstream_auth rules_of_token
    find_by_lookup is_expired rules_from_db load_rules check_token resolve_scoped_token find_owned
    get_owned_credential depends revoke_dependents remove_credential drop_rules erase_credential
    delete_credential find_owned_token get_owned_scoped_token change_token read_zone_name
    resolve_zone_name validate_rule validate_rules validate_scope_rules rule_rows mint_scoped_token
    give_token rotate_scoped_token revoke_scoped_token ◌==◌ has_char split join is_space strip
    lstrip_by rstrip_by isalnum lower lower_char is_alnum_char lookup ends_with show_ℕ mem_str
services = tt

-- Another token, of another credential.
abbrev other : ScopedToken
other = record token { id = codes "t2"; upstream_credential_id = codes "c2" }

abbrev second : UpstreamCredential
second = record credential { id = codes "c2" }

abbrev world : World
world = record start {
  db = record start.db { tokens = other ∷ known ∷ []; credentials = credential ∷ second ∷ [] };
}

abbrev context : ProxyAuthContext
context = record { token = known; rules = []; credential = credential }

abbrev after_revoke : World
after_revoke = (revoke_scoped_token env (codes "u1") (codes "t2") world).1

revoked_other : revoke_scoped_token env (codes "u1") (codes "t2") world ≡ (ok tt, after_revoke)
unfolding services
revoked_other = refl

resolved_then : resolve_scoped_token env full after_revoke ≡ (ok (some context), after_revoke)
unfolding services
resolved_then = refl

revoke-resolve_example : codes "t1" ≢ codes "t2"
revoke-resolve_example =
    revoke-resolve env (codes "u1") (codes "t2") full world after_revoke after_revoke context
      revoked_other resolved_then

-- The token's own text gets nobody in after its revocation.
revoked_test :
    (resolve_scoped_token env full (revoke_scoped_token env (codes "u1") (codes "t1") world).1).0
    ≡ ok none
unfolding services
revoked_test = refl

abbrev after_rotate : World
after_rotate = (rotate_scoped_token env (codes "u1") (codes "t2") world).1

abbrev rotated_token : Rotated
rotated_token = record {
  id = codes "t2";
  token = (drawn_token env []).full;
  token_prefix = (drawn_token env []).token_prefix;
  version = 2;
}

rotated_other :
    rotate_scoped_token env (codes "u1") (codes "t2") world ≡ (ok rotated_token, after_rotate)
unfolding services
rotated_other = refl

resolved_after : resolve_scoped_token env full after_rotate ≡ (ok (some context), after_rotate)
unfolding services
resolved_after = refl

parsed : parse_scoped_token env.codec full ≡ some (lookup_id, secret)
unfolding services
parsed = refl

differs : lookup_id ≢ (drawn_token env []).lookup_id
unfolding services
differs = ne_of_eq lookup_id (drawn_token env []).lookup_id refl

rotate-resolve_example : codes "t1" ≢ codes "t2"
rotate-resolve_example =
    rotate-resolve env (codes "u1") (codes "t2") full lookup_id secret world after_rotate
      after_rotate rotated_token context rotated_other parsed differs resolved_after

abbrev after_delete : World
after_delete = (delete_credential env (codes "u1") (codes "c2") world).1

deleted : delete_credential env (codes "u1") (codes "c2") world ≡ (ok tt, after_delete)
unfolding services
deleted = refl

resolved_still : resolve_scoped_token env full after_delete ≡ (ok (some context), after_delete)
unfolding services
resolved_still = refl

delete-resolve_example : codes "c1" ≢ codes "c2"
delete-resolve_example =
    delete-resolve env (codes "u1") (codes "c2") full world after_delete after_delete context
      deleted resolved_still

-- A rule with an exact pattern; the upstream of the tests calls every zone www.a.com.
abbrev input : RuleInput
input = record {
  rule = record {
    zone_id = codes "z1";
    name_pattern = some (codes "x.www.a.com");
    name_match = exact;
    record_types = star ∷ [];
    record_ids = none;
    allow_read = true;
    allow_create = false;
    allow_write = false;
    allow_delete = false;
  };
  content_lock = none;
}

abbrev mint : Result Minted × World
mint = mint_scoped_token env (codes "u1") (codes "home") (codes "c1") (input ∷ []) none world

abbrev minted : Minted
minted = record {
  id = codes "id0";
  name = codes "home";
  token = (drawn_token env []).full;
  token_prefix = (drawn_token env []).token_prefix;
  status = codes "active";
  version = 1;
  expires_at = none;
  created_at = record { aware = true; seconds = 0 };
}

minted_test : mint ≡ (ok minted, mint.1)
unfolding services
minted_test = refl

mint-IsValidated_example :
    ((c : UpstreamCredential) × (find_owned (codes "u1") (codes "c1") world.db.credentials
        ≡ some c))
    × ((input ∷ []) ≢ [])
    × All (IsValidated env mint.1.trace) (input ∷ [])
mint-IsValidated_example =
    mint-IsValidated env (codes "u1") (codes "home") (codes "c1") (input ∷ []) none world mint.1
      minted minted_test

-- An upstream cache that holds the rule of `input`.
abbrev storing : Env
storing = record env { loads = λ s. some (cached_form (input.rule ∷ [])) }

-- The cache holds an entry under the key of the token that will be minted.
abbrev empty : World
empty = record start {
  db = record start.db { tokens = []; credentials = credential ∷ [] };
  cache = (rules_key (drawn_token env []).lookup_id 1, codes "raw") ∷ [];
}

abbrev fresh : Result Minted × World
fresh = mint_scoped_token storing (codes "u1") (codes "home") (codes "c1") (input ∷ []) none empty

fresh_test : fresh ≡ (ok minted, fresh.1)
unfolding services
fresh_test = refl

In-one : {x t : ScopedToken} → In t (x ∷ []) → t ≡ x
In-one (inl e) = e
In-one (inr i) = absurd i

unique : UniqueLookups fresh.1.db.tokens
unfolding services
unique t u i j e = In-one i ∙ sym (In-one j)

there : find_credential (codes "c1") fresh.1.db.credentials ≡ some credential
unfolding services
there = refl

first_token : List ScopedToken → ScopedToken
first_token (t ∷ ts) = t
first_token [] = token

agrees : (t : ScopedToken) → In t fresh.1.db.tokens → CacheAgrees storing t fresh.1
unfolding services
agrees t i = subst (λ x. CacheAgrees storing x fresh.1) (sym (In-one i)) (λ raw h. refl)

-- There is such an entry.
cached_test :
    find_key (rules_key (first_token fresh.1.db.tokens).lookup_id 1) fresh.1.cache
    ≡ some (codes "raw")
unfolding services first_token
cached_test = refl

comes_out :
    storing.loads (storing.dumps (cached_form (rules_of_token minted.id fresh.1.db.rules)))
    ≡ some (cached_form (rules_of_token minted.id fresh.1.db.rules))
unfolding services
comes_out = refl

mint-resolve_example :
    (t : ScopedToken) × ((t.id ≡ minted.id) × (t.user_id ≡ codes "u1"))
    × ((resolve_scoped_token storing minted.token fresh.1).0
        ≡ let_in t credential (rules_of_token minted.id fresh.1.db.rules))
mint-resolve_example =
    mint-resolve storing (codes "u1") (codes "home") (codes "c1") (input ∷ []) empty fresh.1 minted
      credential fresh_test (refl, (refl, (refl, tt))) unique there agrees comes_out
