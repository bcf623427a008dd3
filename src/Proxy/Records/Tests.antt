-- ===== src/Proxy/Records/Tests.antt =====
-- Two mutations of one record at once, by src/cfproxy/routers/proxy_dns.py.
use cloudflare_manual_dns.Proxy.Records.{
  mutate_dns_record_by_id, authorize_and_forward, authorize_live, live_fetch, forward_if_allowed,
  finish_mutation,
}
use cloudflare_manual_dns.Proxy.Audit.{record_audit}
use cloudflare_manual_dns.Upstream.Auth.{
  resolve_upstream_auth, get_valid_access_token, decrypt_secret,
}
use cloudflare_manual_dns.Upstream.Client.{
  fetch_cf_record, forward_request, read_record, strip_headers, update, set_key, subscript,
}
use cloudflare_manual_dns.Authz.Authorizer.{
  authorize_dns_request, authorize_by_id, authorize_fetched, authorize_image, cross_zone,
  authorize_post, body_fields,
}
use cloudflare_manual_dns.Authz.Scope.{
  merge_patch_image, is_lock_exempt, rule_exempts, match_rules, normalize_name, scan_rules,
  rule_grants, allows, type_listed, id_listed, name_covered,
}
use cloudflare_manual_dns.Authz.Fqdn.{normalize_fqdn}
use cloudflare_manual_dns.Db.Locks.{advisory_lock, mutation_lock_name}
use cloudflare_manual_dns.Runtime.{HttpRequest, sent, locked, released, lock_failed}
use cloudflare_manual_dns.Db.Locks.Server.{
  Schedule, events_of, Serves, idle, grant, give_back, pass, IsQuiet,
}
use cloudflare_manual_dns.Authz.Authorizer.Request.{patch_method}
use cloudflare_manual_dns.Authz.Scope.{write}
use cloudflare_manual_dns.Common.{
  ℕ, ◌≡◌, refl, ◌≢◌, true, false, none, [], ◌∷◌, ◌++◌, All, Str, codes, ◌==◌, mem_str, lower_char,
  upper_char, lower, upper, truthy, lookup, get, py_eq, mem_json, dict_fields,
}
use cloudflare_manual_dns.Proxy.Records.Serial.{
  Mutation, IsLocking, lock_name, events, mutations-IsQuiet,
}
use cloudflare_manual_dns.Proxy.Fixtures.{env, context, request, bearer, www, start}

mutations : Unit {0}
unfolding mutate_dns_record_by_id resolve_upstream_auth ◌==◌ get_valid_access_token decrypt_secret
    is_lock_exempt rule_exempts advisory_lock mutation_lock_name authorize_and_forward
    authorize_live authorize_dns_request upper authorize_by_id live_fetch fetch_cf_record
    forward_request read_record authorize_fetched authorize_image match_rules normalize_name
    scan_rules rule_grants allows type_listed id_listed name_covered mem_str mem_json lookup get
    truthy forward_if_allowed finish_mutation record_audit strip_headers update set_key lower
    lower_char upper_char normalize_fqdn dict_fields
mutations = tt

-- The first one gets the lock, and the audit log does not answer.
abbrev first : Mutation
first = record {
  env = record env { audit_stored = λ t. false };
  context = context;
  request = request;
  method = codes "PATCH";
  zone_id = codes "z1";
  record_id = codes "r1";
  body = www;
  content = none;
  start = start;
}

-- The second one is not given the lock in time.
abbrev second : Mutation
second = record first { env = record env { get_lock = λ t name. false } }

abbrev lock : Str
lock = codes "mz1:r1"

abbrev get_record : HttpRequest
get_record = record {
  method = codes "GET";
  path = codes "/client/v4/zones/z1/dns_records/r1";
  headers = bearer;
  params = [];
  content = none;
}

abbrev patch_record : HttpRequest
patch_record = record get_record { method = codes "PATCH" }

-- The second session asks for the lock between the two requests of the first one.
abbrev later : Schedule
later = (0, released lock) ∷ []

abbrev between : Schedule
between = (1, lock_failed lock) ∷ []

abbrev earlier : Schedule
earlier = (0, locked lock) ∷ []

abbrev schedule : Schedule
schedule = later ++ (0, sent patch_record) ∷ (between ++ (0, sent get_record) ∷ earlier)

served : Serves lock schedule none
unfolding mutations
served = give_back 0 _ (
    pass 0 (sent patch_record) _ _ refl
      (pass 1 (lock_failed lock) _ _ refl (pass 0 (sent get_record) _ _ refl (grant 0 [] idle))))

events-first : events_of 0 schedule ≡ events first
unfolding mutations subscript cross_zone py_eq authorize_post body_fields merge_patch_image
events-first = refl

events-second : events_of 1 schedule ≡ events second
unfolding mutations
events-second = refl

locks_first : IsLocking first
unfolding mutations
locks_first = record {
  renames = true;
  op = write;
  by_id = patch_method refl;
  not_exempt = refl;
  fresh = refl;
}

locks_second : IsLocking second
unfolding mutations
locks_second = record {
  renames = true;
  op = write;
  by_id = patch_method refl;
  not_exempt = refl;
  fresh = refl;
}

names : (lock_name first ≡ lock) × (lock_name second ≡ lock)
unfolding mutations
names = (refl, refl)

apart : ◌≢◌ {A = ℕ} 0 1
apart h = cc h

mutations-IsQuiet_example : All IsQuiet (events_of 1 between)
mutations-IsQuiet_example =
    mutations-IsQuiet first second lock 0 1 later between earlier patch_record get_record none
      locks_first locks_second names.0 names.1 apart served events-first events-second
