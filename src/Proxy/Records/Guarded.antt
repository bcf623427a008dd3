-- ===== src/Proxy/Records/Guarded.antt =====
-- `_mutate_dns_record_by_id` of src/cfproxy/routers/proxy_dns.py as a whole: the lock around the
-- attempt, and the audit after it.
use cloudflare_manual_dns.Proxy.Audit.Once.{
  Audited, unaudited, Audits, Audits-lift, Audits-if, Audits-record,
}
use cloudflare_manual_dns.Runtime.{
  continue, ◌>>=◌, pure, M, locked, lock_failed, released, HttpResponse, Event, Env, World,
}
use cloudflare_manual_dns.Core.Envelopes.{Reply}
use cloudflare_manual_dns.Proxy.Records.{
  the_error, the_response, on_lock_unavailable, lock_reply, finish_mutation, operation,
  authorize_and_forward, mutate_dns_record_by_id, deny_by_id,
}
use cloudflare_manual_dns.Proxy.Records.Attempt.{Attempt, authorize_and_forward-Attempt}
use cloudflare_manual_dns.Authz.Authorizer.Request.{
  ByIdMethod, patch_method, put_method, delete_method,
}
use cloudflare_manual_dns.Authz.Scope.{Need, is_lock_exempt}
use cloudflare_manual_dns.Db.Locks.{mutation_lock_name, acquire, release, advisory_lock}
use cloudflare_manual_dns.Upstream.Client.{Headers, json}
use cloudflare_manual_dns.Upstream.Auth.{resolve_upstream_auth}
use cloudflare_manual_dns.Authz.Authorizer.{AuthDecision}
use cloudflare_manual_dns.Proxy.Audit.{ProxyAuthContext, Request}
use cloudflare_manual_dns.Common.{
  ◌≡◌, refl, Bool, true, false, not, Option, List, ◌∷◌, if◌then◌else◌, Str, ◌==◌, upper, Json, str,
  Result, lock_unavailable, ok, raised,
}

module _ (env : Env) (context : ProxyAuthContext) (request : Request)
    (method zone_id record_id : Str) where
  Audits-deny :
      (d : AuthDecision) → Audits (deny_by_id env context request method zone_id record_id d)
  unfolding deny_by_id
  Audits-deny d = Audits-lift (the_error d.error) _ (λ e. Audits-record env context _ _)

  Audits-finish :
      (o : AuthDecision × Option HttpResponse)
      → Audits (finish_mutation env context request method zone_id record_id o)
  unfolding finish_mutation
  Audits-finish (d, upstream) = Audits-if (not d.allowed) _ _ (Audits-deny d) (
      Audits-lift (the_response env context request upstream) _
        (λ r. Audits-lift (json r) _ (λ v. Audits-record env context _ _)))

  module _ (body : Json) (content : Option Str) (renames : Bool) (op : Need)
      (auth_headers : Headers) (w : World) where
    abbrev name : Str
    name = mutation_lock_name env zone_id record_id

    abbrev exempt : Bool
    exempt = is_lock_exempt context.rules zone_id (str record_id) op

    abbrev AttemptFrom : World → Result (AuthDecision × Option HttpResponse) → World → Type 0
    AttemptFrom =
        Attempt env context request zone_id record_id auth_headers method body content renames op

    abbrev locked_world : World
    locked_world = record w { trace = locked name ∷ w.trace }

    -- What a mutation of one record has done by its end, after the credential is resolved.
    pub data Guarded : List Event → Type 0 where
      -- a rule exempts it, and the attempt ran without the lock
      unlocked :
          (o : Result (AuthDecision × Option HttpResponse)) (w' : World) (t : List Event)
          → exempt ≡ true
          → AttemptFrom w o w'
          → Audited w'.trace t
          → Guarded t
      -- the lock was not got, and nothing was sent
      busy : exempt ≡ false → Guarded (lock_failed name ∷ w.trace)
      -- the attempt ran between the lock and its release
      bracketed :
          (o : Result (AuthDecision × Option HttpResponse)) (w' : World) (t : List Event)
          → exempt ≡ false
          → AttemptFrom locked_world o w'
          → Audited (released name ∷ w'.trace) t
          → Guarded t

    abbrev attempt : M (AuthDecision × Option HttpResponse)
    attempt =
        authorize_and_forward env context request method zone_id record_id body content auth_headers

    abbrev finish : AuthDecision × Option HttpResponse → M Reply
    finish = finish_mutation env context request method zone_id record_id

    Audited-continue :
        (o : Result (AuthDecision × Option HttpResponse)) (w' : World)
        → Audited w'.trace (continue finish (o, w')).1.trace
    Audited-continue (ok o) w' = Audits-finish o w'
    Audited-continue (raised e) w' = unaudited

    Audited-busy :
        (o : Result (AuthDecision × Option HttpResponse)) (w' : World)
        → Audited w'.trace (on_lock_unavailable (pure lock_reply) finish (o, w')).1.trace
    Audited-busy (ok o) w' = Audits-finish o w'
    Audited-busy (raised lock_unavailable) w' = unaudited
    Audited-busy (raised e) w' = unaudited

    lock_lem :
        (got : Bool)
        → exempt ≡ false
        → ByIdMethod (upper env.codec method) true renames op
        → Guarded
            (on_lock_unavailable (pure lock_reply) finish (acquire got name attempt w)).1.trace
    lock_lem true e h =
        bracketed _ _ _ e
          (authorize_and_forward-Attempt env context request zone_id record_id auth_headers method
            body content renames op locked_world h)
          (Audited-busy (attempt locked_world).0 (release name (attempt locked_world)).1)
    lock_lem false e h = busy e

  -- A method that mutates is authorised for the operation whose exemption is looked up.
  operation_lem :
      {renames : Bool} {op : Need}
      → ByIdMethod (upper env.codec method) true renames op
      → operation env context request method ≡ op
  unfolding operation ◌==◌
  operation_lem (patch_method e) = rw e refl
  operation_lem (put_method e) = rw e refl
  operation_lem (delete_method e) = rw e refl

  -- A PATCH, PUT or DELETE of one record, whose credential is resolved, follows one of three
  -- courses: the attempt alone, if a rule exempts it from the lock; nothing but the failed lock; or
  -- the attempt between the lock and its release, on every path. The audit writes at most one row,
  -- after the lock is released.
  pub mutate_dns_record_by_id-Guarded :
      (body : Json) (content : Option Str) (renames : Bool) (op : Need) (auth_headers : Headers)
      (w₀ w : World)
      → ByIdMethod (upper env.codec method) true renames op
      → resolve_upstream_auth env context.credential w₀ ≡ (ok auth_headers, w)
      → Guarded body content renames op auth_headers w
          (mutate_dns_record_by_id env context request method zone_id record_id body content
            w₀).1.trace
  unfolding mutate_dns_record_by_id advisory_lock
  mutate_dns_record_by_id-Guarded body content renames op auth_headers w₀ w h resolved =
      rw (resolved, operation_lem h)
        (go (is_lock_exempt context.rules zone_id (str record_id) op) refl)
    where
      go :
          (b : Bool)
          → is_lock_exempt context.rules zone_id (str record_id) op ≡ b
          → Guarded body content renames op auth_headers w
              ((if b
                  then attempt body content renames op auth_headers w
                    >>= finish body content renames op auth_headers w
                  else (λ w'.
                      on_lock_unavailable
                        (pure lock_reply)
                        (finish body content renames op auth_headers w)
                        (advisory_lock env
                          (mutation_lock_name env zone_id record_id)
                          (attempt body content renames op auth_headers w)
                          w')))
                w).1.trace
      go true e =
          unlocked _ _ _ e
            (authorize_and_forward-Attempt env context request zone_id record_id auth_headers method
              body content renames op w h)
            (Audited-continue body content renames op auth_headers w
              (attempt body content renames op auth_headers w w).0
              (attempt body content renames op auth_headers w w).1)
      go false e =
          lock_lem body content renames op auth_headers w
            (env.get_lock w.trace (mutation_lock_name env zone_id record_id)) e h
