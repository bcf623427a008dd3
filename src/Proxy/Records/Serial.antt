-- ===== src/Proxy/Records/Serial.antt =====
-- Several mutations of one record by src/cfproxy/routers/proxy_dns.py, in any interleaving of their
-- steps, are done one after the other.
use cloudflare_manual_dns.Db.Locks.{mutation_lock_name}
use cloudflare_manual_dns.Db.Locks.Phases.{Phase, waiting, working, finished, astray, work, phase}
use cloudflare_manual_dns.Db.Locks.Server.{Schedule, events_of, Serves, IsQuiet, serial_lem}
use cloudflare_manual_dns.Proxy.Records.{mutate_dns_record_by_id}
use cloudflare_manual_dns.Proxy.Records.Attempt.{Attempt, failed, refused, forwarded, lost}
use cloudflare_manual_dns.Proxy.Records.Guarded.{
  Guarded, unlocked, busy, bracketed, mutate_dns_record_by_id-Guarded,
}
use cloudflare_manual_dns.Proxy.Audit.{ProxyAuthContext, Request}
use cloudflare_manual_dns.Proxy.Audit.Once.{Audited, unaudited, audited_once}
use cloudflare_manual_dns.Authz.Authorizer.Request.{ByIdMethod}
use cloudflare_manual_dns.Authz.Authorizer.{AuthDecision}
use cloudflare_manual_dns.Authz.Scope.{Need, is_lock_exempt}
use cloudflare_manual_dns.Upstream.Auth.{resolve_upstream_auth}
use cloudflare_manual_dns.Upstream.Auth.Kept.{IsNeutral, resolve_upstream_auth-Keeps}
use cloudflare_manual_dns.Upstream.Client.{Headers}
use cloudflare_manual_dns.Runtime.{
  HttpResponse, HttpRequest, Event, sent, locked, released, Env, World,
}
use cloudflare_manual_dns.Common.{
  ℕ, ◌≡◌, refl, sym, ap, ◌∙◌, ◌≢◌, ◌⊎◌, inl, inr, Bool, true, false, Option, List, ◌∷◌, ◌++◌, All,
  Str, eq_refl, upper, Json, str, Exception, Result, ok, raised,
}

-- A mutation of one record: what `_mutate_dns_record_by_id` is called with.
pub record Mutation : Type 0 where
  pub env : Env
  pub context : ProxyAuthContext
  pub request : Request
  pub method : Str
  pub zone_id : Str
  pub record_id : Str
  pub body : Json
  pub content : Option Str
  pub start : World

abbrev pub lock_name : Mutation → Str
lock_name m = mutation_lock_name m.env m.zone_id m.record_id

-- All that the mutation's request has done at its end, the last event first.
abbrev pub events : Mutation → List Event
events m =
    (mutate_dns_record_by_id m.env m.context m.request m.method m.zone_id m.record_id m.body
      m.content m.start).1.trace

-- A PATCH, PUT or DELETE that no rule exempts from the lock, and that starts before the lock and
-- before all that it sends.
pub record IsLocking (m : Mutation) : Type 0 where
  pub renames : Bool
  pub op : Need
  pub by_id : ByIdMethod (upper m.env.codec m.method) true renames op
  pub not_exempt : is_lock_exempt m.context.rules m.zone_id (str m.record_id) op ≡ false
  pub fresh : phase (lock_name m) m.start.trace ≡ waiting

Audited-phase : (k : Str) (t u : List Event) → Audited t u → phase k u ≡ phase k t
Audited-phase k t _ unaudited = refl
Audited-phase k t _ (audited_once row) = refl

IsWaiting-IsNeutral : (k : Str) → IsNeutral (λ w. phase k w.trace ≡ waiting)
IsWaiting-IsNeutral k = record {
  posting = λ w form h. h;
  committing = λ w db h. h;
  caching = λ w key cache h. h;
}

-- At its end a request has not come to the lock, or is done with it.
abbrev Outside : Phase → Type 0
Outside p = (p ≡ waiting) ⊎ (p ≡ finished)

Outside-astray : (p : Phase) → Outside p → p ≢ astray
Outside-astray p (inl e) h = cc (sym e ∙ h)
Outside-astray p (inr e) h = cc (sym e ∙ h)

module _ (m : Mutation) (locks : IsLocking m) (auth_headers : Headers) (w : World)
    (fresh : phase (lock_name m) w.trace ≡ waiting) where
  abbrev k : Str
  k = lock_name m

  taken : phase k (locked k ∷ w.trace) ≡ working
  taken = rw (eq_refl k, fresh) refl

  Attempt-phase :
      (o : Result (AuthDecision × Option HttpResponse)) (w' : World)
      → Attempt m.env m.context m.request m.zone_id m.record_id auth_headers m.method m.body
          m.content locks.renames locks.op
          (record w { trace = locked k ∷ w.trace })
          o
          w'
      → phase k w'.trace ≡ working
  Attempt-phase _ _ (failed e) = ap work taken
  Attempt-phase _ _ (refused d h) = ap work taken
  Attempt-phase _ _ (forwarded d r h a) = ap (λ p. work (work p)) taken
  Attempt-phase _ _ (lost d h) = ap (λ p. work (work p)) taken

  given_back : (t : List Event) → phase k t ≡ working → phase k (released k ∷ t) ≡ finished
  given_back t h = rw (eq_refl k, h) refl

  guarded_lem :
      (t : List Event)
      → Guarded m.env m.context m.request m.method m.zone_id m.record_id m.body m.content
          locks.renames locks.op auth_headers w t
      → Outside (phase k t)
  guarded_lem t (unlocked o w' _ e a u) = cc (sym e ∙ locks.not_exempt)
  guarded_lem _ (busy e) = inl fresh
  guarded_lem t (bracketed o w' _ e a u) =
      inr (Audited-phase k (released k ∷ w'.trace) t u ∙ given_back w'.trace (Attempt-phase o w' a))

-- A credential that cannot be resolved ends the request.
unresolved_lem :
    (m : Mutation) (x : Exception) (w : World)
    → resolve_upstream_auth m.env m.context.credential m.start ≡ (raised x, w)
    → events m ≡ w.trace
unfolding mutate_dns_record_by_id
unresolved_lem m x w e = rw (e, events) refl

mutation_lem : (m : Mutation) → IsLocking m → phase (lock_name m) (events m) ≢ astray
mutation_lem m locks =
    Outside-astray _ (go (resolve_upstream_auth m.env m.context.credential m.start) refl)
  where
    fresh :
        (r : Result Headers × World)
        → resolve_upstream_auth m.env m.context.credential m.start ≡ r
        → phase (lock_name m) r.1.trace ≡ waiting
    fresh r e =
        ap (λ r. phase (lock_name m) r.1.trace) (sym e)
        ∙ resolve_upstream_auth-Keeps m.env (λ w. phase (lock_name m) w.trace ≡ waiting)
            (IsWaiting-IsNeutral (lock_name m)) m.context.credential m.start locks.fresh

    go :
        (r : Result Headers × World)
        → resolve_upstream_auth m.env m.context.credential m.start ≡ r
        → Outside (phase (lock_name m) (events m))
    go (ok auth_headers, w) e =
        guarded_lem m locks auth_headers w (fresh (ok auth_headers, w) e) (events m) (
          mutate_dns_record_by_id-Guarded m.env m.context m.request m.method m.zone_id m.record_id
            m.body m.content locks.renames locks.op auth_headers m.start w locks.by_id e)
    go (raised x, w) e =
        inl (ap (phase (lock_name m)) (unresolved_lem m x w e) ∙ fresh (raised x, w) e)

-- Two mutations (PATCH, PUT or DELETE) under one name of a lock, as those of one record are, which
-- no rule exempts from the lock and whose requests have sent nothing and not taken the lock before,
-- are not interleaved: in every schedule that the server of the locks allows, in which the session
-- `i` does what the code does for the one and the session `j` what it does for the other, nothing is
-- sent for the other between two requests that are sent for the first.
pub mutations-IsQuiet :
    (first second : Mutation) (k : Str) (i j : ℕ) (later between earlier : Schedule)
    (r r' : HttpRequest) (holder : Option ℕ)
    → IsLocking first
    → IsLocking second
    → lock_name first ≡ k
    → lock_name second ≡ k
    → i ≢ j
    → Serves k (later ++ (i, sent r) ∷ (between ++ (i, sent r') ∷ earlier)) holder
    → events_of i (later ++ (i, sent r) ∷ (between ++ (i, sent r') ∷ earlier)) ≡ events first
    → events_of j (later ++ (i, sent r) ∷ (between ++ (i, sent r') ∷ earlier)) ≡ events second
    → All IsQuiet (events_of j between)
mutations-IsQuiet first second k i j later between earlier r r' holder one two n n' d v e f =
    serial_lem k i j later between earlier r r' holder d v
      (λ p. mutation_lem first one (rw (n, sym e) p))
      (λ p. mutation_lem second two (rw (n', sym f) p))
