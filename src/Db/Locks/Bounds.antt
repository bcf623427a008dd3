-- ===== src/Db/Locks/Bounds.antt =====
-- The lock of src/cfproxy/db/locks.py: the length of its name, and when it is held.
use cloudflare_manual_dns.Db.Locks.{mutation_lock_name, acquire, advisory_lock}
use cloudflare_manual_dns.Runtime.{Event, locked, lock_failed, released, Env, World, M}
use cloudflare_manual_dns.Common.{
  ◌≤◌, ◌≡◌, Bool, true, false, List, ◌∷◌, ◌++◌, arith, length, length-take, Str, codes,
}

-- What an action adds to the trace.
abbrev pub Adds : List Event → List Event → Type 0
Adds before after = (events : List Event) × (after ≡ events ++ before)

-- The trace of a section under the lock.
pub data Bracketed (name : Str) (t : List Event) : List Event → Type 0 where
  not_got : Bracketed name t (lock_failed name ∷ t)
  held : (u : List Event) → Adds (locked name ∷ t) u → Bracketed name t (released name ∷ u)

acquire-Bracketed :
    {A : Type 0} (got : Bool) (name : Str) (body : M A) (w : World)
    → ((v : World) → Adds v.trace (body v).1.trace)
    → Bracketed name w.trace (acquire got name body w).1.trace
acquire-Bracketed true name body w h = held _ (h (record w { trace = locked name ∷ w.trace }))
acquire-Bracketed false name body w h = not_got

-- The name of a mutation's lock has at most 64 characters. The lock that is asked for under it is
-- not got, and the body does nothing; or it is taken before all that the body does, and released
-- after it, whether the body returns or raises.
pub advisory_lock-Bracketed :
    {A : Type 0} (env : Env) (zone_id record_id : Str) (body : M A) (w : World)
    → ((v : World) → Adds v.trace (body v).1.trace)
    → (length (mutation_lock_name env zone_id record_id) ≤ 64)
      × Bracketed
          (mutation_lock_name env zone_id record_id)
          w.trace
          (advisory_lock env (mutation_lock_name env zone_id record_id) body w).1.trace
unfolding advisory_lock mutation_lock_name
advisory_lock-Bracketed env zone_id record_id body w h = (
  omega (arith, length-take 60 (env.sha256_hex (zone_id ++ codes ":" ++ record_id))),
  acquire-Bracketed _ _ body w h,
)
