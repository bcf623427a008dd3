-- ===== src/Proxy/Records/Attempt.antt =====
-- `_authorize_and_forward` of src/cfproxy/routers/proxy_dns.py: what a mutation of one record has
-- sent to the upstream, on every path.
use cloudflare_manual_dns.Upstream.Client.Sent.{
  or_http_error, request_of, send, forward_request_lem,
}
use cloudflare_manual_dns.Runtime.{pure, ◌>>=◌}
use cloudflare_manual_dns.Authz.Authorizer.Sound.{IsAllowed, authorize_fetched-allowed}
use cloudflare_manual_dns.Authz.Authorizer.Request.{ByIdMethod}
use cloudflare_manual_dns.Authz.Authorizer.ByMethod.{authorize_dns_request-fetched}
use cloudflare_manual_dns.Authz.Authorizer.{authorize_fetched}
use cloudflare_manual_dns.Authz.Scope.{is_lock_exempt, Need}
use cloudflare_manual_dns.Proxy.Records.{forward_if_allowed, authorize_and_forward, authorize_live}
use cloudflare_manual_dns.Runtime.{M}
use cloudflare_manual_dns.Upstream.Client.{
  Headers, record_path, forward_request, fetch_cf_record, read_record,
}
use cloudflare_manual_dns.Proxy.Audit.{ProxyAuthContext, Request}
use cloudflare_manual_dns.Proxy.Records.{
  live_fetch, Need, is_lock_exempt, authorize_live, AuthDecision,
}
use cloudflare_manual_dns.Runtime.{HttpRequest, HttpResponse, Event, continue, lift, Env, World}
use cloudflare_manual_dns.Common.{
  ◌≡◌, refl, ap, ◌∙◌, Bool, true, false, not, Option, none, some, List, [], if◌then◌else◌, Str,
  codes, upper, Json, str, Exception, Result, and_then, http_error, ok, raised,
}

-- What the proxy reads out of the upstream's answer to the GET of a record.
abbrev pub read_answer : Env → Option HttpResponse → Result Json
read_answer env none = raised http_error
read_answer env (some r) = read_record env r

read_answer_lem :
    (env : Env) (o : Option HttpResponse) (w : World)
    → continue (λ response. lift (read_record env response)) (or_http_error o, w)
      ≡ (read_answer env o, w)
read_answer_lem env none w = refl
read_answer_lem env (some r) w = refl

module _ (env : Env) (context : ProxyAuthContext) (request : Request) (zone_id record_id : Str)
    (auth_headers : Headers) where
  -- The GET of the record.
  abbrev pub get_request : HttpRequest
  get_request = request_of (codes "GET") (record_path zone_id record_id) none auth_headers

  abbrev pub get_answer : List Event → Result Json
  get_answer t = read_answer env (env.respond t get_request)

  fetch_cf_record_lem :
      (w : World)
      → fetch_cf_record env zone_id record_id auth_headers w
        ≡ (get_answer w.trace, send get_request w)
  unfolding fetch_cf_record
  fetch_cf_record_lem w =
      ap (continue (λ response. lift (read_record env response)))
        (forward_request_lem env (codes "GET") (record_path zone_id record_id) none auth_headers w)
      ∙ read_answer_lem env (env.respond w.trace get_request) (send get_request w)

  pub live_fetch_lem :
      (w : World)
      → live_fetch env context request auth_headers zone_id (str record_id) w
        ≡ (get_answer w.trace, send get_request w)
  unfolding live_fetch
  live_fetch_lem w = fetch_cf_record_lem w

  module _ (method : Str) (body : Json) (content : Option Str) (renames : Bool) (op : Need) where
    -- The mutation, and whether the lock is asked for.
    abbrev pub mutation_request : HttpRequest
    mutation_request = request_of method (record_path zone_id record_id) content auth_headers

    abbrev pub needs_lock : Bool
    needs_lock = not (is_lock_exempt context.rules zone_id (str record_id) op)

    -- The GET's answer, seen at this point of the trace, is a record on which the decision allows
    -- the mutation.
    abbrev pub Justified : List Event → AuthDecision → Type 0
    Justified t d =
        (fetched : Json) × (get_answer t ≡ ok fetched)
        × IsAllowed env.codec context.rules zone_id (str record_id) op renames needs_lock body
            fetched d

    -- What the attempt has done by its end: the GET alone, or the GET and right after it a mutation
    -- that its answer justifies.
    pub data Attempt (w : World)
        : Result (AuthDecision × Option HttpResponse) → World → Type 0 where
      failed : (e : Exception) → Attempt w (raised e) (send get_request w)
      refused :
          (d : AuthDecision) → d.allowed ≡ false → Attempt w (ok (d, none)) (send get_request w)
      forwarded :
          (d : AuthDecision) (r : HttpResponse)
          → Justified w.trace d
          → d.allowed ≡ true
          → Attempt w (ok (d, some r)) (send mutation_request (send get_request w))
      lost :
          (d : AuthDecision)
          → Justified w.trace d
          → Attempt w (raised http_error) (send mutation_request (send get_request w))

    authorize_live_lem :
        (w : World)
        → ByIdMethod (upper env.codec method) true renames op
        → authorize_live env context request method zone_id record_id body auth_headers w ≡ (
          and_then (get_answer w.trace) (
              authorize_fetched env.codec context.rules zone_id renames
                (str record_id)
                op
                needs_lock
                body),
          send get_request w,
        )
    unfolding authorize_live
    authorize_live_lem w h =
        authorize_dns_request-fetched env.codec context.rules zone_id
          (live_fetch env context request auth_headers) (str record_id) body true renames op method
          w (send get_request w) (get_answer w.trace) h (live_fetch_lem w)

    abbrev Attempted : World → Result (AuthDecision × Option HttpResponse) × World → Type 0
    Attempted w o = Attempt w o.0 o.1

    abbrev forward : AuthDecision → M (AuthDecision × Option HttpResponse)
    forward d =
        forward_if_allowed env context request method zone_id record_id content auth_headers d

    forward_step :
        (w : World) (d : AuthDecision)
        → Justified w.trace d
        → d.allowed ≡ true
        → (o : Option HttpResponse)
        → Attempted w (
            continue
              (λ upstream. pure (d, some upstream))
              (or_http_error o, send mutation_request (send get_request w)))
    forward_step w d j a none = lost d j
    forward_step w d j a (some r) = forwarded d r j a

    forward_lem :
        (w : World) (d : AuthDecision)
        → (d.allowed ≡ true → Justified w.trace d)
        → Attempted w (forward d (send get_request w))
    unfolding forward_if_allowed
    forward_lem w d j = go d.allowed refl
      where
        go :
            (b : Bool)
            → d.allowed ≡ b
            → Attempted w (
                (if not b then pure (d, none) else (do
                  upstream ←
                      forward_request env method
                        (record_path zone_id record_id)
                        []
                        []
                        content
                        auth_headers
                  pure (d, some upstream)))
                  (send get_request w))
        go true a =
            rw
              (forward_request_lem env method (record_path zone_id record_id) content auth_headers
                (send get_request w))
              (forward_step w d (j a) a (env.respond (send get_request w).trace mutation_request))
        go false a = refused d a

    decide_lem :
        (w : World) (v : Result Json)
        → get_answer w.trace ≡ v
        → Attempted w (
            continue forward (
              and_then v (
                  authorize_fetched env.codec context.rules zone_id renames
                    (str record_id)
                    op
                    needs_lock
                    body),
              send get_request w,
            ))
    decide_lem w (raised e) h = failed e
    decide_lem w (ok fetched) h = go _ refl
      where
        go :
            (o : Result AuthDecision)
            → authorize_fetched env.codec context.rules zone_id renames
                (str record_id)
                op
                needs_lock
                body
                fetched
              ≡ o
            → Attempted w (continue forward (o, send get_request w))
        go (raised e) k = failed e
        go (ok d) k = forward_lem w d (λ a. (
          fetched,
          h,
          authorize_fetched-allowed env.codec context.rules zone_id (str record_id) op renames
              needs_lock body fetched d k a,
        ))

    -- The attempt at a PATCH, PUT or DELETE of one record: it sends the GET of the record, and then
    -- the mutation right after it only if the answer to that very GET allows the mutation.
    pub authorize_and_forward-Attempt :
        (w : World)
        → ByIdMethod (upper env.codec method) true renames op
        → Attempted w (
            authorize_and_forward env context request method zone_id record_id body content
              auth_headers w)
    unfolding authorize_and_forward
    authorize_and_forward-Attempt w h =
        rw (authorize_live_lem w h) (decide_lem w (get_answer w.trace) refl)
