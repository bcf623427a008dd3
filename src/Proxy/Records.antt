-- ===== src/Proxy/Records.antt =====
-- The operations on one record of src/cfproxy/routers/proxy_dns.py: `create_dns_record`,
-- `get_dns_record`, `_mutate_dns_record_by_id` and the three methods that call it.
pub mod Attempt
pub mod Guarded
pub mod Reported
pub mod Shown
pub mod Serial
pub mod Tests
pub mod Create
use cloudflare_manual_dns.Authz.Scope.{Need, write, delete, is_lock_exempt}
use cloudflare_manual_dns.Authz.Authorizer.{CfError, AuthDecision, authorize_dns_request}
use cloudflare_manual_dns.Core.CfErrors.{internal}
use cloudflare_manual_dns.Core.Envelopes.{Reply, make_cf_response, make_cf_error}
use cloudflare_manual_dns.Db.Locks.{mutation_lock_name, advisory_lock}
use cloudflare_manual_dns.Upstream.Client.{
  Headers, records_path, record_path, forward_request, fetch_cf_record, json,
}
use cloudflare_manual_dns.Upstream.Auth.{resolve_upstream_auth}
use cloudflare_manual_dns.Proxy.Audit.{ProxyAuthContext, Request, AuditNote, record_audit}
use cloudflare_manual_dns.Runtime.{HttpResponse, Env, World, M, pure, raise, lift, ◌>>=◌, ◌>>◌}
use cloudflare_manual_dns.Common.{
  ℕ, zero, suc, ◌+◌, ◌-◌, ◌*◌, ◌/◌, ◌%◌, ◌^◌, ◌≤◌, ◌<◌, ◌≡◌, refl, sym, ap, ◌∙◌, ◌≢◌, ◌↔◌, ◌⊎◌, inl,
  inr, Bool, true, false, not, ◌&&◌, ◌||◌, Option, none, some, List, [], ◌∷◌, ◌++◌, map, arith, ltb,
  leb, nat_eq, if◌then◌else◌, nat_eq_iff, Bool-cases, Option-cases, both_true, length, take, drop,
  length-append, length-take, length-drop, take-append-drop, take-nil, take_ge, drop_ge, take-add,
  All, Any, All-append, In, all, ℤ, pos_part, neg_part, sub_ℕ, ◌+ℤ◌, ◌-ℤ◌, ◌*ℤ◌, neg, ltb_ℤ, leb_ℤ,
  eq_ℤ, floor_div, pos, negsuc, Str, codes, ◌==◌, eq_refl, eq_iff, ne_of_eq, eq_of_ne, mem_str,
  mem_str_iff, has_char, count_char, ends_with, cons_head, split, join, is_space, lstrip_by, keep,
  rstrip_by, strip, is_ascii, lower_char, upper_char, is_alnum_char, Codec, lower, upper, isalnum,
  digits_from, show_ℕ, digits_value, int_literal, parse_int, split-cons, join-split, join-label,
  ends_with_sound, Json, Items, Fields, truthy, lookup, or_else, get, items, field_count, py_eq,
  py_eq_items, py_eq_fields, mem_json, null, bool, int, str, arr, obj, nil, cons, end, field,
  Exception, Result, and_then, >>=-eq-ok, ok_injective, Returns, Returns-if, Returns-bind, Exec,
  dict_fields, value_error, unicode_error, attribute_error, key_error, type_error, http_error,
  runtime_error, lock_unavailable, not_found, invalid_token, out_of_fuel, ok, raised,
}

-- `body.get(key) if isinstance(body, dict) else None`
unfoldable pub get_if_dict : Str → Json → Json
get_if_dict k (obj fs) = get k fs
get_if_dict k _ = null

-- `f"{code}: {message}"`
abbrev pub deny_text : CfError → Str
deny_text e = show_ℕ e.code ++ codes ": " ++ e.message

abbrev pub image : Option Json → Json
image none = null
image (some v) = v

-- `status, code, message = decision.error`
abbrev pub the_error : Option CfError → Result CfError
the_error none = raised type_error
the_error (some e) = ok e

abbrev pub error_reply : CfError → Reply
error_reply e = make_cf_error e.status e.code e.message

abbrev pub parsed_json : Option Json → Result Json
parsed_json none = raised (value_error (codes "JSONDecodeError"))
parsed_json (some v) = ok v

-- `_LOCK_UNAVAILABLE_MESSAGE`
abbrev pub lock_reply : Reply
lock_reply =
    make_cf_error 503 internal (codes "Could not acquire the record mutation lock, please retry.")

-- An upstream response, passed on as it is.
abbrev pub forwarded_reply : HttpResponse → Json → Reply
forwarded_reply r v = record { status_code = r.status_code; content = v }

-- `except LockUnavailable: return ...`
abbrev pub on_lock_unavailable :
    {A : Type 0} → M Reply → (A → M Reply) → Result A × World → Result Reply × World
on_lock_unavailable handler f (ok a, w) = f a w
on_lock_unavailable handler f (raised lock_unavailable, w) = handler w
on_lock_unavailable handler f (raised e, w) = (raised e, w)

module _ (env : Env) (context : ProxyAuthContext) (request : Request) where
  -- The note of a denial, and of a forwarded request.
  abbrev pub deny_note : Str → Str → Str → Option Str → Json → Json → Json → CfError → AuditNote
  deny_note method path zone_id record_id name rtype pre e = record {
    method = method;
    path = path;
    decision = codes "deny";
    zone_id = some zone_id;
    record_id = record_id;
    record_name = name;
    record_type = rtype;
    pre_image = pre;
    post_image = null;
    deny_reason = some (deny_text e);
    upstream_status = none;
    client_ip = request.client_ip;
  }

  abbrev pub allow_note :
      Str → Str → Str → Option Str → Json → Json → Json → HttpResponse → Json → AuditNote
  allow_note method path zone_id record_id name rtype pre r v = record {
    method = method;
    path = path;
    decision = codes "allow";
    zone_id = some zone_id;
    record_id = record_id;
    record_name = name;
    record_type = rtype;
    pre_image = pre;
    post_image = get_if_dict (codes "result") v;
    deny_reason = none;
    upstream_status = some r.status_code;
    client_ip = request.client_ip;
  }

  abbrev pub unused_fetch_record : Str → Json → M Json
  unused_fetch_record zone_id record_id = pure null

  unfoldable pub finish_create : Str → Json → AuthDecision → M Reply
  finish_create zone_id body decision =
      let path = records_path zone_id in
      let name = get_if_dict (codes "name") body in
      let rtype = get_if_dict (codes "type") body in
      if not decision.allowed
      then (do
        e ← lift (the_error decision.error)
        record_audit env context (deny_note (codes "POST") path zone_id none name rtype null e)
        pure (error_reply e))
      else (do
        auth_headers ← resolve_upstream_auth env context.credential
        response ←
            forward_request env (codes "POST") path [] [] (some request.raw_body) auth_headers
        v ← lift (json response)
        record_audit env context
            (allow_note (codes "POST") path zone_id none name rtype null response v)
        pure (forwarded_reply response v))

  unfoldable pub create_dns_record : Str → M Reply
  create_dns_record zone_id = do
    body ← lift (parsed_json request.json_body)
    decision ←
        authorize_dns_request env.codec context.rules zone_id unused_fetch_record (codes "POST")
          null body
    finish_create zone_id body decision

  -- `_authorize_by_id`: the fetch is the live one.
  unfoldable pub live_fetch : Headers → Str → Json → M Json
  live_fetch auth_headers zone_id (str record_id) =
      fetch_cf_record env zone_id record_id auth_headers
  live_fetch auth_headers zone_id _ = raise type_error

  unfoldable pub authorize_live : Str → Str → Str → Json → Headers → M AuthDecision
  authorize_live method zone_id record_id body auth_headers =
      authorize_dns_request env.codec context.rules zone_id (live_fetch auth_headers) method
        (str record_id) body

  abbrev pub pre_name : Option Json → Json
  pre_name pre = get_if_dict (codes "name") (image pre)

  abbrev pub pre_type : Option Json → Json
  pre_type pre = get_if_dict (codes "type") (image pre)

  -- A denied request on one record is audited before it is answered.
  unfoldable pub deny_by_id : Str → Str → Str → AuthDecision → M Reply
  deny_by_id method zone_id record_id decision = do
    e ← lift (the_error decision.error)
    record_audit env context (
        deny_note method (record_path zone_id record_id) zone_id (some record_id)
          (pre_name decision.pre_image) (pre_type decision.pre_image) (image decision.pre_image) e)
    pure (error_reply e)

  unfoldable pub get_dns_record : Str → Str → M Reply
  get_dns_record zone_id record_id = do
    auth_headers ← resolve_upstream_auth env context.credential
    decision ← authorize_live (codes "GET") zone_id record_id null auth_headers
    if not decision.allowed
        then deny_by_id (codes "GET") zone_id record_id decision
        else pure (make_cf_response (image decision.pre_image) 200 nil none)

  -- `_authorize_and_forward`
  unfoldable pub forward_if_allowed :
      Str → Str → Str → Option Str → Headers → AuthDecision → M (AuthDecision × Option HttpResponse)
  forward_if_allowed method zone_id record_id content auth_headers decision =
      if not decision.allowed then pure (decision, none) else (do
        upstream ←
            forward_request env method (record_path zone_id record_id) [] [] content auth_headers
        pure (decision, some upstream))

  unfoldable pub authorize_and_forward :
      Str → Str → Str → Json → Option Str → Headers → M (AuthDecision × Option HttpResponse)
  authorize_and_forward method zone_id record_id body content auth_headers = do
    decision ← authorize_live method zone_id record_id body auth_headers
    forward_if_allowed method zone_id record_id content auth_headers decision

  abbrev pub the_response : Option HttpResponse → Result HttpResponse
  the_response none = raised attribute_error
  the_response (some r) = ok r

  -- The audit and the answer, after the lock is released.
  unfoldable pub finish_mutation : Str → Str → Str → AuthDecision × Option HttpResponse → M Reply
  finish_mutation method zone_id record_id (decision, upstream) =
      if not decision.allowed then deny_by_id method zone_id record_id decision else (do
        response ← lift (the_response upstream)
        v ← lift (json response)
        record_audit env context (
            allow_note method (record_path zone_id record_id) zone_id (some record_id)
              (pre_name decision.pre_image) (pre_type decision.pre_image) (image decision.pre_image)
              response v)
        pure (forwarded_reply response v))

  -- `op = "delete" if method.upper() == "DELETE" else "write"`
  unfoldable pub operation : Str → Need
  operation method = if upper env.codec method == codes "DELETE" then delete else write

  unfoldable pub mutate_dns_record_by_id : Str → Str → Str → Json → Option Str → M Reply
  mutate_dns_record_by_id method zone_id record_id body content = do
    auth_headers ← resolve_upstream_auth env context.credential
    let attempt = authorize_and_forward method zone_id record_id body content auth_headers
    let finish = finish_mutation method zone_id record_id
    if is_lock_exempt context.rules zone_id (str record_id) (operation method)
        then attempt >>= finish
        else (λ w.
            on_lock_unavailable (pure lock_reply) finish
              (advisory_lock env (mutation_lock_name env zone_id record_id) attempt w))

  unfoldable pub patch_dns_record : Str → Str → M Reply
  patch_dns_record zone_id record_id = do
    body ← lift (parsed_json request.json_body)
    mutate_dns_record_by_id (codes "PATCH") zone_id record_id body (some request.raw_body)

  unfoldable pub put_dns_record : Str → Str → M Reply
  put_dns_record zone_id record_id = do
    body ← lift (parsed_json request.json_body)
    mutate_dns_record_by_id (codes "PUT") zone_id record_id body (some request.raw_body)

  unfoldable pub delete_dns_record : Str → Str → M Reply
  delete_dns_record zone_id record_id =
      mutate_dns_record_by_id (codes "DELETE") zone_id record_id null none
