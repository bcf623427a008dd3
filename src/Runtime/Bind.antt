-- ===== src/Runtime/Bind.antt =====
-- An action that returns, taken apart.
use cloudflare_manual_dns.Runtime.{World, M, lift, continue, ◌>>=◌}
use cloudflare_manual_dns.Common.{◌≡◌, refl, ap, Result, ok, raised}

pub pair_injective :
    {A B : Type 0} {a a' : A} {b b' : B} → ◌≡◌ {A = A × B} (a, b) (a', b') → (a ≡ a') × (b ≡ b')
pair_injective h = (ap (λ p. p.0) h, ap (λ p. p.1) h)

-- What it does first returns, and so does the rest.
pub >>=-returns :
    {A B : Type 0} (m : M A) (f : A → M B) (w : World) {b : B} {w'' : World}
    → (m >>= f) w ≡ (ok b, w'')
    → (a : A) × (w' : World) × (m w ≡ (ok a, w')) × (f a w' ≡ (ok b, w''))
>>=-returns {A} {B} m f w {b} {w''} h = go (m w) refl h
  where
    go :
        (r : Result A × World)
        → m w ≡ r
        → continue f r ≡ (ok b, w'')
        → (a : A) × (w' : World) × (m w ≡ (ok a, w')) × (f a w' ≡ (ok b, w''))
    go (ok a, w') e k = (a, w', e, k)
    go (raised x, w') e k = cc (pair_injective k).0

pub lift-returns :
    {A : Type 0} (r : Result A) (w : World) {a : A} {w' : World}
    → lift r w ≡ (ok a, w')
    → (r ≡ ok a) × (w ≡ w')
lift-returns r w h = pair_injective h

-- The same, of an outcome: both parts are read off the equation.
pub continue-returns :
    {A B : Type 0} {f : A → M B} {r : Result A × World} {b : B} {w'' : World}
    → continue f r ≡ (ok b, w'')
    → (a : A) × (w' : World) × (r ≡ (ok a, w')) × (f a w' ≡ (ok b, w''))
continue-returns {r = (ok a, w')} h = (a, w', refl, h)
continue-returns {r = (raised e, w')} h = cc (pair_injective h).0
