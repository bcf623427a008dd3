-- ===== src/Upstream/Auth/Keeps.antt =====
-- The cache of src/cfproxy/cache/redis.py leaves the database alone.
use cloudflare_manual_dns.Upstream.Auth.{cache_del}
use cloudflare_manual_dns.Runtime.{Env, World}
use cloudflare_manual_dns.Common.{◌≡◌, refl, Bool, true, false, if◌then◌else◌, Str}

pub if-db : (b : Bool) (v w : World) → v.db ≡ w.db → (if b then v else w).db ≡ w.db
if-db true v w h = h
if-db false v w h = refl

pub cache_del-db : (env : Env) (key : Str) (w : World) → (cache_del env key w).1.db ≡ w.db
unfolding cache_del
cache_del-db env key w = if-db (env.cache_answers w.trace) _ w refl
