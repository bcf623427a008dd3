-- ===== src/Common/Split.antt =====
-- The laws of `split`, `join` and `ends_with`.
use Prim.Native.Nat.{ℕ}
use mathlib.Core.Path.{◌≡◌, refl, sym, ap, ◌∙◌}
use mathlib.Core.Logic.{inl, inr}
use mathlib.Core.Bool.{true}
use mathlib.Core.List.{List, [], ◌∷◌, ◌++◌}
use cloudflare_manual_dns.Common.Tests.{nat_eq, nat_eq_iff, Bool-cases}
use cloudflare_manual_dns.Common.Text.{Str, ◌==◌, eq_iff, ends_with, split, join}

-- `split` is never empty.
pub split-cons : (sep : ℕ) (s : Str) → (w : Str) × (ws : List Str) × (split sep s ≡ w ∷ ws)
unfolding split
split-cons sep [] = ([], [], refl)
split-cons sep (c ∷ s) = elim (Bool-cases (nat_eq c sep)) [
  | inl e ↦ ([], split sep s, rw e)
  | inr e ↦ let (w, ws, h) = split-cons sep s in (c ∷ w, ws, rw (e, h))
]

join-cons : (sep : ℕ) (w : Str) (ws : List Str) → join sep ([] ∷ w ∷ ws) ≡ sep ∷ join sep (w ∷ ws)
unfolding join
join-cons sep w ws = refl

join-cons_head :
    (sep c : ℕ) (w : Str) (ws : List Str) → join sep ((c ∷ w) ∷ ws) ≡ c ∷ join sep (w ∷ ws)
unfolding join
join-cons_head sep c w [] = refl
join-cons_head sep c w (v ∷ ws) = refl

join_step :
    (sep : ℕ) (w v : Str) (vs : List Str) → join sep (w ∷ v ∷ vs) ≡ w ++ sep ∷ join sep (v ∷ vs)
unfolding join
join_step sep w v vs = refl

-- Joining the pieces gives the text back.
pub join-split : (sep : ℕ) (s : Str) → join sep (split sep s) ≡ s
unfolding split join
join-split sep [] = refl
join-split sep (c ∷ s) =
    let (w, ws, h) = split-cons sep s in
    let ih : join sep (w ∷ ws) ≡ s = rw (← h) (join-split sep s) in
    elim (Bool-cases (nat_eq c sep)) [
      | inl e ↦ rw (e, h) (ap (λ r. sep ∷ r) ih ∙ ap (λ d. d ∷ s) (sym ((nat_eq_iff c sep).0 e)))
      | inr e ↦ rw (e, h) (join-cons_head sep c w ws ∙ ap (λ r. c ∷ r) ih)
    ]

pub join-label : (sep : ℕ) (w rest : Str) → join sep (w ∷ split sep rest) ≡ w ++ sep ∷ rest
join-label sep w rest =
    let (v, vs, h) = split-cons sep rest in
    rw h
      (join_step sep w v vs ∙ ap (λ r. w ++ sep ∷ r) (ap (join sep) (sym h) ∙ join-split sep rest))

pub ends_with_sound : (s t : Str) → ends_with s t ≡ true → (before : Str) × (s ≡ before ++ t)
unfolding ends_with
ends_with_sound [] t h = ([], (eq_iff [] t).0 h)
ends_with_sound (c ∷ s) t h = elim (Bool-cases ((c ∷ s) == t)) [
  | inl e ↦ ([], (eq_iff (c ∷ s) t).0 e)
  | inr e ↦ let (before, k) = ends_with_sound s t (rw e at h) in (c ∷ before, ap (λ r. c ∷ r) k)
]
