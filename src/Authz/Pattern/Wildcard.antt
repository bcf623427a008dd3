-- ===== src/Authz/Pattern/Wildcard.antt =====
-- The label loop of `name_matches`: it decides that one label stands for the star.
use mathlib.Core.Option
use cloudflare_manual_dns.Authz.Pattern.{
  star, index_where, agree_except, match_at, wildcard_matches,
}
use cloudflare_manual_dns.Common.{
  ℕ, suc, ◌<◌, ◌≡◌, refl, ap, ◌≢◌, ◌↔◌, inl, inr, Bool, true, false, ◌&&◌, Option, none, some, List,
  [], ◌∷◌, ◌++◌, arith, Bool-cases, both_true, length, All, Str, ◌==◌, eq_refl, eq_iff, ne_of_eq,
}

-- `labels` is `before`, one label, and `after`; `pattern` has the star at that place, and no star
-- before it.
pub record OneLabel (pattern labels : List Str) : Type 0 where
  pub before : List Str
  pub label : Str
  pub after : List Str
  pub in_pattern : pattern ≡ before ++ star ∷ after
  pub in_labels : labels ≡ before ++ label ∷ after
  pub first : All (λ l. l ≢ star) before

is_star : Str → Bool
is_star l = l == star

-- Past the star the loop compares whole lists.
agree_past :
    (at i : ℕ) (ps ts : List Str)
    → at < i
    → length ps ≡ length ts
    → agree_except at i ps ts ≡ true
    → ps ≡ ts
unfolding agree_except
agree_past at i [] [] h e a = refl
agree_past at i [] (t ∷ ts) h e a = absurd (omega arith)
agree_past at i (p ∷ ps) [] h e a = absurd (omega arith)
agree_past at i (p ∷ ps) (t ∷ ts) h e a =
    ground (arith, eq_iff p t, agree_past at (suc i) ps ts (omega arith) (omega arith))

agree_refl : (at i : ℕ) (ps : List Str) → agree_except at i ps ps ≡ true
unfolding agree_except
agree_refl at i [] = refl
agree_refl at i (p ∷ ps) = ground (arith, eq_refl p, agree_refl at (suc i) ps)

-- The loop depends on how far the star is.
agree_shift :
    (at i : ℕ) (ps ts : List Str) → agree_except (suc at) (suc i) ps ts ≡ agree_except at i ps ts
unfolding agree_except
agree_shift at i [] ts = refl
agree_shift at i (p ∷ ps) [] = refl
agree_shift at i (p ∷ ps) (t ∷ ts) = ground (arith, agree_shift at (suc i) ps ts)

OneLabel-cons :
    {ps ts : List Str} (p : Str) → p ≢ star → OneLabel ps ts → OneLabel (p ∷ ps) (p ∷ ts)
OneLabel-cons p h o = record {
  before = p ∷ o.before;
  label = o.label;
  after = o.after;
  in_pattern = ap (λ l. p ∷ l) o.in_pattern;
  in_labels = ap (λ l. p ∷ l) o.in_labels;
  first = (h, o.first);
}

OneLabel-here : {ps ts : List Str} (p t : Str) → p ≡ star → ps ≡ ts → OneLabel (p ∷ ps) (t ∷ ts)
OneLabel-here {ps} {ts} p t h e = record {
  before = [];
  label = t;
  after = ts;
  in_pattern = cc;
  in_labels = refl;
  first = tt;
}

-- One round of the search and of the loop, when the first label is not the star.
match_at-suc :
    (p t : Str) (ps ts : List Str) (o : Option ℕ)
    → match_at (p ∷ ps) (t ∷ ts) (Option.map suc o) ≡ (p == t && match_at ps ts o)
unfolding agree_except
match_at-suc p t ps ts none = ground arith
match_at-suc p t ps ts (some at) = ground (arith, agree_shift at 0 ps ts)

-- The first round finds the star, or goes on to the rest of both lists.
wildcard_matches-cons :
    (p t : Str) (ps ts : List Str)
    → p ≢ star
    → wildcard_matches (p ∷ ps) (t ∷ ts) ≡ (p == t && wildcard_matches ps ts)
unfolding wildcard_matches index_where
wildcard_matches-cons p t ps ts h = elim (Bool-cases (p == star)) [
  | inl e ↦ absurd (h ((eq_iff p star).0 e))
  | inr e ↦ rw e (match_at-suc p t ps ts (index_where (λ l. l == star) ps))
]

match_here : (t : Str) (ps ts : List Str) → wildcard_matches (star ∷ ps) (t ∷ ts) ≡ true → ps ≡ ts
unfolding wildcard_matches index_where agree_except
match_here t ps ts h = ground (arith, agree_past 0 1 ps ts, rw (eq_refl star) at h)

here_matches : (t : Str) (ps : List Str) → wildcard_matches (star ∷ ps) (t ∷ ps) ≡ true
unfolding wildcard_matches index_where agree_except
here_matches t ps = rw (eq_refl star) (ground (arith, agree_refl 0 1 ps))

no_labels : (ps : List Str) → wildcard_matches ps [] ≡ false
unfolding wildcard_matches index_where
no_labels [] = refl
no_labels (p ∷ ps) = ground arith

no_star : (ts : List Str) → wildcard_matches [] ts ≡ false
unfolding wildcard_matches index_where
no_star ts = refl

wildcard_sound : (ps ts : List Str) → wildcard_matches ps ts ≡ true → OneLabel ps ts
wildcard_sound [] ts h = cc (no_star ts)
wildcard_sound (p ∷ ps) [] h = cc (no_labels (p ∷ ps))
wildcard_sound (p ∷ ps) (t ∷ ts) h = elim (Bool-cases (p == star)) [
  | inl e ↦
      let here : p ≡ star = (eq_iff p star).0 e in
      OneLabel-here p t here (match_here t ps ts (rw here at h))
  | inr e ↦
      let later = ne_of_eq p star e in
      let (same, rest) = both_true _ _ (rw (wildcard_matches-cons p t ps ts later) at h) in
      rw (← (eq_iff p t).0 same) (OneLabel-cons p later (wildcard_sound ps ts rest))
]

wildcard_complete :
    (before : List Str) (label : Str) (after : List Str)
    → All (λ l. l ≢ star) before
    → wildcard_matches (before ++ star ∷ after) (before ++ label ∷ after) ≡ true
wildcard_complete [] label after h = here_matches label after
wildcard_complete (b ∷ before) label after h =
    rw (wildcard_matches-cons b b _ _ h.0)
      (ground (arith, eq_refl b, wildcard_complete before label after h.1))

-- The loop accepts exactly the lists of labels in which one label stands for the first star, and
-- all others are the pattern's.
pub wildcard_matches_iff : (ps ts : List Str) → (wildcard_matches ps ts ≡ true) ↔ OneLabel ps ts
wildcard_matches_iff ps ts = (
  wildcard_sound ps ts,
  λ o. rw (o.in_pattern, o.in_labels) (wildcard_complete o.before o.label o.after o.first),
)
