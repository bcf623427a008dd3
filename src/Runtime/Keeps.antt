-- ===== src/Runtime/Keeps.antt =====
-- What an action keeps true of the world, on every path.
use cloudflare_manual_dns.Runtime.{Event, World, M, or_raise, continue, ◌>>=◌}
use cloudflare_manual_dns.Common.{
  ℕ, Bool, true, false, Option, none, some, List, if◌then◌else◌, Json, Exception, Result, ok,
  raised,
}

abbrev pub Keeps : {A : Type 0} → (World → Type 0) → M A → Type 0
Keeps P m = (w : World) → P w → P (m w).1

-- What neither the trace nor the key set in memory bears on.
pub record IsStable (P : World → Type 0) : Type 0 where
  pub traced : (w : World) (t : List Event) → P w → P (record w { trace = t })
  pub stored : (w : World) (j : Option (Json × ℕ)) → P w → P (record w { jwks = j })

module _ (P : World → Type 0) where
  pub Keeps-or_raise : {A : Type 0} (e : Exception) (o : Option A) → Keeps P (or_raise e o)
  Keeps-or_raise e none w h = h
  Keeps-or_raise e (some a) w h = h

  pub Keeps-bind :
      {A C : Type 0} (m : M A) (next : A → M C)
      → Keeps P m
      → ((a : A) → Keeps P (next a))
      → Keeps P (m >>= next)
  Keeps-bind {A} {C} m next first rest w h = go (m w) (first w h)
    where
      go : (r : Result A × World) → P r.1 → P (continue next r).1
      go (ok a, v) k = rest a v k
      go (raised x, v) k = k

  pub Keeps-if :
      {A : Type 0} (b : Bool) (m n : M A) → Keeps P m → Keeps P n → Keeps P (if b then m else n)
  Keeps-if true m n h k = h
  Keeps-if false m n h k = k
