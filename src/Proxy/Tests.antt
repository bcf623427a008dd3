-- ===== src/Proxy/Tests.antt =====
-- The requests of src/cfproxy/routers/proxy_dns.py on a concrete environment.
use cloudflare_manual_dns.Proxy.Fixtures.{www, env, credential, context, request, start, bearer}
use cloudflare_manual_dns.Proxy.Listing.{
  list_zones, fetch_all_zones, fetch_zones_from, read_zone_page, zones_in_scope, in_set, pop_int,
  pop_pagination, any_rule_for, list_reply, list_dns_records,
}
use cloudflare_manual_dns.Proxy.Listing.Zones.{IsNamed, list_zones-All}
use cloudflare_manual_dns.Authz.Authorizer.{AuthDecision, record_not_found, deny}
use cloudflare_manual_dns.Proxy.Records.{
  authorize_and_forward, mutate_dns_record_by_id, create_dns_record, get_dns_record,
}
use cloudflare_manual_dns.Proxy.Records.Reported.{Reported}
use cloudflare_manual_dns.Db.Locks.{mutation_lock_name, advisory_lock}
use cloudflare_manual_dns.Db.Locks.Bounds.{Bracketed, advisory_lock-Bracketed}
use cloudflare_manual_dns.Runtime.{pure, HttpRequest, sent, Env, World}
use cloudflare_manual_dns.Authz.Fqdn.{normalize_fqdn}
use mathlib.Core.Path.{subst}
use cloudflare_manual_dns.Authz.Scope.{
  write, allows, type_listed, id_listed, name_covered, rule_grants, scan_rules, normalize_name,
  match_rules,
}
use cloudflare_manual_dns.Authz.Authorizer.Request.{patch_method}
use cloudflare_manual_dns.Authz.Tests.{ascii}
use cloudflare_manual_dns.Filtering.{is_readable, filter_records}
use cloudflare_manual_dns.Upstream.Client.{
  Headers, stripped_auth_headers, get_header, update, strip_headers, set_key, set_default,
  records_path, forward_request, fields_or_empty, total_pages_of, iterate, read_page, list_pages,
  list_all_records,
}
use cloudflare_manual_dns.Upstream.Client.Pages.{Walk, list_all_records-Walk}
use cloudflare_manual_dns.Upstream.Client.Fuel.{AtMost, InFuel, list_all_records-InFuel}
use cloudflare_manual_dns.Upstream.Client.Stripped.{forward_request-credentials}
use cloudflare_manual_dns.Upstream.Auth.{
  find_key, drop_key, decrypt_secret, get_valid_access_token, resolve_upstream_auth,
}
use cloudflare_manual_dns.Proxy.Listing.Listed.{Listed, list_dns_records-Listed}
use cloudflare_manual_dns.Proxy.Records.Attempt.{Attempt, authorize_and_forward-Attempt}
use cloudflare_manual_dns.Proxy.Records.Guarded.{Guarded, mutate_dns_record_by_id-Guarded}
use cloudflare_manual_dns.Proxy.Records.Create.{Created, create_dns_record-Created}
use cloudflare_manual_dns.Proxy.Records.Shown.{Shown, get_dns_record-Shown}
use cloudflare_manual_dns.Common.{
  ◌≤◌, ◌≡◌, refl, ap, ◌∙◌, Bool, true, false, none, some, List, [], ◌∷◌, if◌then◌else◌, length, All,
  ℤ, leb_ℤ, pos, Str, codes, ◌==◌, mem_str, lower_char, upper_char, lower, upper, show_ℕ, Json,
  truthy, lookup, get, items, mem_json, bool, str, arr, obj, nil, cons, end, field, ok_injective,
  dict_fields, ok,
}

proxy : Unit {0}
unfolding allows type_listed id_listed name_covered rule_grants scan_rules normalize_name
    match_rules is_readable filter_records strip_headers update set_key forward_request
    fields_or_empty total_pages_of iterate read_page list_pages list_all_records find_key drop_key
    decrypt_secret get_valid_access_token resolve_upstream_auth pop_int pop_pagination any_rule_for
    list_dns_records ◌==◌ mem_str lower_char upper_char lower upper truthy lookup get mem_json
    dict_fields set_default show_ℕ items normalize_fqdn list_zones fetch_all_zones fetch_zones_from
    read_zone_page zones_in_scope in_set
proxy = tt

resolved : resolve_upstream_auth env credential start ≡ (ok bearer, start)
unfolding proxy
resolved = refl

upper_patch : upper ascii (codes "PATCH") ≡ codes "PATCH"
unfolding proxy
upper_patch = refl

authorize_and_forward-Attempt_example :
    Attempt env context request
      (codes "z1")
      (codes "r1")
      bearer
      (codes "PATCH")
      www
      none
      true
      write
      start
      (authorize_and_forward env context request
        (codes "PATCH")
        (codes "z1")
        (codes "r1")
        www
        none
        bearer
        start).0
      (authorize_and_forward env context request
        (codes "PATCH")
        (codes "z1")
        (codes "r1")
        www
        none
        bearer
        start).1
authorize_and_forward-Attempt_example =
    authorize_and_forward-Attempt env context request (codes "z1") (codes "r1") bearer
      (codes "PATCH") www none true write start (patch_method upper_patch)

mutate_dns_record_by_id-Guarded_example :
    Guarded env context request
      (codes "PATCH")
      (codes "z1")
      (codes "r1")
      www
      none
      true
      write
      bearer
      start
      (mutate_dns_record_by_id env context request
        (codes "PATCH")
        (codes "z1")
        (codes "r1")
        www
        none
        start).1.trace
mutate_dns_record_by_id-Guarded_example =
    mutate_dns_record_by_id-Guarded env context request (codes "PATCH") (codes "z1") (codes "r1")
      www none true write bearer start start (patch_method upper_patch) resolved

create_dns_record-Created_example :
    Created env context request
      (codes "z1")
      start
      (create_dns_record env context request (codes "z1") start).1.trace
create_dns_record-Created_example = create_dns_record-Created env context request (codes "z1") start

get_dns_record-Shown_example :
    Shown env context request
      (codes "z1")
      (codes "r1")
      bearer
      start
      (get_dns_record env context request (codes "z1") (codes "r1") start).0
get_dns_record-Shown_example =
    get_dns_record-Shown env context request (codes "z1") (codes "r1") bearer start start resolved

abbrev list_request : HttpRequest
list_request = record {
  method = codes "GET";
  path = records_path (codes "z1");
  headers = bearer;
  params = (codes "page", codes "1") ∷ (codes "per_page", codes "100") ∷ [];
  content = none;
}

abbrev asked : World
asked = record start { trace = sent list_request ∷ [] }

all_listed : list_all_records env 2 (codes "z1") [] bearer start ≡ (ok (www ∷ []), asked)
unfolding proxy
all_listed = refl

list_all_records-Walk_example :
    Walk env (records_path (codes "z1")) [] bearer [] 1 (www ∷ []) (sent list_request ∷ [])
list_all_records-Walk_example =
    list_all_records-Walk env 2 (codes "z1") [] bearer start asked (www ∷ []) all_listed

one_page_of :
    (b : Bool) (xs : List Json) (total : ℤ)
    → read_page env (record {
      status_code = 200;
      body = some (obj (field (codes "result") (if b then arr (cons www nil) else www) end));
    })
      ≡ ok (xs, total)
    → leb_ℤ total (pos 1) ≡ true
unfolding proxy
one_page_of true xs total h =
    subst (λ n. leb_ℤ n (pos 1) ≡ true) (ap (λ p. p.1) (ok_injective h)) refl
one_page_of false xs total h =
    subst (λ n. leb_ℤ n (pos 1) ≡ true) (ap (λ p. p.1) (ok_injective h)) refl

some_injective : {A : Type 0} {a b : A} → some a ≡ some b → a ≡ b
some_injective h = cc

one_page : AtMost env 1
one_page t r a xs total e h =
    one_page_of (r.path == records_path (codes "z1")) xs total
      (ap (read_page env) (some_injective e) ∙ h)

list_all_records-InFuel_example : InFuel (list_all_records env 2 (codes "z1") [] bearer start).0
list_all_records-InFuel_example =
    list_all_records-InFuel env 1 (codes "z1") [] bearer start one_page

records_listed :
    list_dns_records env 2 (codes "z1") request context start
    ≡ (ok (list_reply (www ∷ []) (pos 1) (pos 20)), asked)
unfolding proxy
records_listed = refl

list_dns_records-Listed_example :
    Listed env 2 (codes "z1") request context start asked (list_reply (www ∷ []) (pos 1) (pos 20))
list_dns_records-Listed_example =
    list_dns_records-Listed env 2 (codes "z1") request context start asked
      (list_reply (www ∷ []) (pos 1) (pos 20)) records_listed

auth_header : mem_str (lower ascii (codes "Authorization")) stripped_auth_headers ≡ true
unfolding proxy
auth_header = refl

abbrev client_headers : Headers
client_headers = (codes "AUTHORIZATION", codes "Bearer mine") ∷ []

forward_request-credentials_example :
    (r : HttpRequest) × ((forward_request env
        (codes "GET")
        []
        client_headers
        []
        none
        bearer
        start).1.trace
      ≡ sent r ∷ [])
    × (get_header (codes "Authorization") r.headers
        ≡ get_header (codes "Authorization") (update [] bearer))
forward_request-credentials_example =
    forward_request-credentials env (codes "GET") [] client_headers [] none bearer start
      (codes "Authorization") auth_header

abbrev lock_name : Str
lock_name = mutation_lock_name env (codes "z1") (codes "r1")

advisory_lock-Bracketed_example :
    (length lock_name ≤ 64)
    × Bracketed lock_name start.trace (advisory_lock env lock_name (pure (tt {0})) start).1.trace
advisory_lock-Bracketed_example =
    advisory_lock-Bracketed env (codes "z1") (codes "r1") (pure (tt {0})) start (λ v. ([], refl))

abbrev refused : AuthDecision
refused = deny record_not_found true none

abbrev zone_named : Str → Json
zone_named id = obj (field (codes "id") (str id) end)

-- An account of two zones, of which the rules name one.
abbrev zone_env : Env
zone_env = record env {
  respond = λ t r. some (record {
    status_code = 200;
    body = some (
        obj (
          field (codes "success") (bool true) (
            field (codes "result")
              (arr (cons (zone_named (codes "z1")) (cons (zone_named (codes "z2")) nil))) end)));
  });
}

abbrev zones_asked : World
zones_asked = (list_zones zone_env 1 request context start).1

zones_listed :
    list_zones zone_env 1 request context start
    ≡ (ok (list_reply (zone_named (codes "z1") ∷ []) (pos 1) (pos 20)), zones_asked)
unfolding proxy
zones_listed = refl

list_zones-All_example :
    (zones : List Json) × (page : ℤ) × (per_page : ℤ) × (list_reply
        (zone_named (codes "z1") ∷ [])
        (pos 1)
        (pos 20)
      ≡ list_reply zones page per_page)
    × All (IsNamed context.rules) zones
list_zones-All_example =
    list_zones-All zone_env 1 request context start zones_asked
      (list_reply (zone_named (codes "z1") ∷ []) (pos 1) (pos 20)) zones_listed
