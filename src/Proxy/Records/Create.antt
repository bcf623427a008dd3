-- ===== src/Proxy/Records/Create.antt =====
-- `create_dns_record` of src/cfproxy/routers/proxy_dns.py: what a POST has sent to the upstream.
use cloudflare_manual_dns.Upstream.Client.Sent.{or_http_error}
use cloudflare_manual_dns.Authz.Scope.{create, match_rules}
use cloudflare_manual_dns.Authz.Authorizer.{
  AuthDecision, body_fields, authorize_create, authorize_dns_request,
}
use cloudflare_manual_dns.Authz.Authorizer.Request.{authorize_create-allowed}
use cloudflare_manual_dns.Core.Envelopes.{Reply}
use cloudflare_manual_dns.Upstream.Client.{Headers, records_path, json, forward_request}
use cloudflare_manual_dns.Upstream.Auth.{resolve_upstream_auth}
use cloudflare_manual_dns.Proxy.Audit.{ProxyAuthContext, Request, record_audit}
use cloudflare_manual_dns.Proxy.Audit.Once.{Audited, unaudited, Audits, Audits-lift, Audits-record}
use cloudflare_manual_dns.Proxy.Records.{
  get_if_dict, the_error, forwarded_reply, error_reply, deny_note, allow_note, parsed_json,
  unused_fetch_record, finish_create, create_dns_record,
}
use cloudflare_manual_dns.Upstream.Client.Sent.{request_of, send, forward_request_lem}
use cloudflare_manual_dns.Runtime.{
  HttpRequest, HttpResponse, Event, sent, Env, World, M, pure, lift, continue, ◌>>=◌, ◌>>◌,
}
use cloudflare_manual_dns.Common.{
  ◌≡◌, refl, ap, Bool, true, false, not, Option, none, some, List, [], ◌∷◌, if◌then◌else◌, Str,
  codes, ◌==◌, upper_char, upper, Json, Fields, get, null, Exception, Result, ok, raised,
}

module _ (env : Env) (context : ProxyAuthContext) (request : Request) (zone_id : Str) where
  -- The rules grant a create under the name and type of the body.
  abbrev pub InCreateScope : Json → Type 0
  InCreateScope body =
      (fs : Fields) × (body_fields body ≡ ok fs)
      × (match_rules env.codec context.rules zone_id (get (codes "name") fs) (get (codes "type") fs)
            null create
          ≡ ok true)

  abbrev pub create_request : Headers → HttpRequest
  create_request auth_headers =
      request_of (codes "POST") (records_path zone_id) (some request.raw_body) auth_headers

  -- What a create has done by its end.
  pub data Created (w : World) : List Event → Type 0 where
    -- it was denied, or an exception came first
    unsent : (t : List Event) → Audited w.trace t → Created w t
    -- it was allowed, and no credential was got
    no_credential :
        (e : Exception) (w' : World)
        → resolve_upstream_auth env context.credential w ≡ (raised e, w')
        → Created w w'.trace
    -- the body is in scope, and was sent on as it is
    posted :
        (body : Json) (auth_headers : Headers) (w' : World) (t : List Event)
        → request.json_body ≡ some body
        → InCreateScope body
        → resolve_upstream_auth env context.credential w ≡ (ok auth_headers, w')
        → Audited (sent (create_request auth_headers) ∷ w'.trace) t
        → Created w t

  abbrev answer : Json → HttpResponse → M Reply
  answer body r = do
    v ← lift (json r)
    record_audit env context (
        allow_note env context request (codes "POST") (records_path zone_id) zone_id none
          (get_if_dict (codes "name") body) (get_if_dict (codes "type") body) null r v)
    pure (forwarded_reply r v)

  Audits-answer : (body : Json) (r : HttpResponse) → Audits (answer body r)
  Audits-answer body r = Audits-lift (json r) _ (λ v. Audits-record env context _ _)

  abbrev forward_create : Json → Headers → M Reply
  forward_create body auth_headers =
      forward_request env (codes "POST") (records_path zone_id) [] [] (some request.raw_body)
        auth_headers
      >>= answer body

  Audited-answer :
      (body : Json) (o : Option HttpResponse) (w : World)
      → Audited w.trace (continue (answer body) (or_http_error o, w)).1.trace
  Audited-answer body none w = unaudited
  Audited-answer body (some r) w = Audits-answer body r w

  forward_create_lem :
      (body : Json) (auth_headers : Headers) (w : World)
      → Audited
          (sent (create_request auth_headers) ∷ w.trace)
          (forward_create body auth_headers w).1.trace
  forward_create_lem body auth_headers w =
      rw
        (forward_request_lem env (codes "POST") (records_path zone_id) (some request.raw_body)
          auth_headers w)
        (Audited-answer body (env.respond w.trace (create_request auth_headers))
          (send (create_request auth_headers) w))

  module _ (body : Json) (parsed : request.json_body ≡ some body) where
    resolve_lem :
        (w : World) (r : Result Headers × World)
        → InCreateScope body
        → resolve_upstream_auth env context.credential w ≡ r
        → Created w (continue (forward_create body) r).1.trace
    resolve_lem w (raised e, w') s h = no_credential e w' h
    resolve_lem w (ok auth_headers, w') s h =
        posted body auth_headers w' _ parsed s h (forward_create_lem body auth_headers w')

    finish_create_lem :
        (w : World) (d : AuthDecision)
        → (d.allowed ≡ true → InCreateScope body)
        → Created w (finish_create env context request zone_id body d w).1.trace
    unfolding finish_create
    finish_create_lem w d s = go d.allowed refl
      where
        go :
            (b : Bool)
            → d.allowed ≡ b
            → Created w
                ((if not b
                    then (do
                      e ← lift (the_error d.error)
                      record_audit env context (
                          deny_note env context request
                            (codes "POST")
                            (records_path zone_id)
                            zone_id
                            none
                            (get_if_dict (codes "name") body)
                            (get_if_dict (codes "type") body)
                            null
                            e)
                      pure (error_reply e))
                    else resolve_upstream_auth env context.credential >>= forward_create body)
                  w).1.trace
        go true a = resolve_lem w (resolve_upstream_auth env context.credential w) (s a) refl
        go false a =
            unsent _ (Audits-lift (the_error d.error) _ (λ e. Audits-record env context _ _) w)

    decided :
        (w : World) (o : Result AuthDecision)
        → authorize_create env.codec context.rules zone_id body ≡ o
        → Created w (continue (finish_create env context request zone_id body) (o, w)).1.trace
    decided w (raised e) h = unsent _ unaudited
    decided w (ok d) h = finish_create_lem w d (λ a.
        let allowed =
          authorize_create-allowed env.codec context.rules zone_id
            (unused_fetch_record env context request) null body w w d (ap (λ o. (o, w)) h) a in
        (allowed.fields, allowed.parsed, allowed.granted))

    from_body :
        (w : World)
        → Created w
            (continue (finish_create env context request zone_id body) (
              authorize_dns_request env.codec context.rules zone_id
                (unused_fetch_record env context request)
                (codes "POST")
                null
                body
                w)).1.trace
    unfolding authorize_dns_request upper upper_char ◌==◌
    from_body w = decided w (authorize_create env.codec context.rules zone_id body) refl

  -- A POST sends to the upstream nothing, or the one create that it was asked for, with the body as
  -- it came; and the latter only if the rules grant a create under the name and type in that body.
  -- The audit writes at most one row, after the create.
  pub create_dns_record-Created :
      (w : World) → Created w (create_dns_record env context request zone_id w).1.trace
  unfolding create_dns_record
  create_dns_record-Created w = go request.json_body refl
    where
      go :
          (o : Option Json)
          → request.json_body ≡ o
          → Created w
              (continue
                (λ body.
                  authorize_dns_request env.codec context.rules zone_id
                    (unused_fetch_record env context request)
                    (codes "POST")
                    null
                    body
                  >>= finish_create env context request zone_id body)
                (parsed_json o, w)).1.trace
      go none h = unsent _ unaudited
      go (some body) h = from_body body h w
