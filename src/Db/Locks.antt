-- ===== src/Db/Locks.antt =====
-- `advisory_lock` and `mutation_lock_name` of src/cfproxy/db/locks.py. Whether the lock is got
-- within the timeout is the environment's answer, for both dialects.
pub mod Bounds
pub mod Phases
pub mod Server
use cloudflare_manual_dns.Runtime.{locked, lock_failed, released, Env, World, M}
use cloudflare_manual_dns.Common.{
  Bool, true, false, ◌∷◌, ◌++◌, take, Str, codes, Result, lock_unavailable, raised,
}

unfoldable pub mutation_lock_name : Env → Str → Str → Str
mutation_lock_name env zone_id record_id =
    codes "m" ++ take 60 (env.sha256_hex (zone_id ++ codes ":" ++ record_id))

-- `finally`: the lock is released whatever the body did.
abbrev pub release : {A : Type 0} → Str → Result A × World → Result A × World
release name (r, w) = (r, record w { trace = released name ∷ w.trace })

abbrev pub acquire : {A : Type 0} → Bool → Str → M A → M A
acquire true name body w = release name (body (record w { trace = locked name ∷ w.trace }))
acquire false name body w =
    (raised lock_unavailable, record w { trace = lock_failed name ∷ w.trace })

unfoldable pub advisory_lock : {A : Type 0} → Env → Str → M A → M A
advisory_lock env name body w = acquire (env.get_lock w.trace name) name body w
