-- ===== src/Authz/Pattern/Matching.antt =====
-- `name_matches` against an independent description of what it accepts.
use cloudflare_manual_dns.Authz.Fqdn.{normalize_fqdn}
use cloudflare_manual_dns.Authz.Pattern.{exact, wildcard, wildcard_matches, name_matches}
use cloudflare_manual_dns.Authz.Pattern.Wildcard.{OneLabel, wildcard_matches_iff}
use cloudflare_manual_dns.Common.{
  ◌≡◌, ap, ◌∙◌, ◌↔◌, ◌⊎◌, inl, inr, Bool, true, false, arith, if◌then◌else◌, Str, ◌==◌, eq_iff,
  split, Codec, >>=-eq-ok, ok,
}

-- The normal forms agree: as texts, or label by label with one label for the star.
abbrev pub Agree : Str → Str → Str → Type 0
Agree name_match p t =
    ((name_match ≡ exact) × (p ≡ t))
    ⊎ ((name_match ≡ wildcard) × OneLabel (split b'.' p) (split b'.' t))

pub Agree-exact : (p t : Str) → Agree exact p t → p ≡ t
Agree-exact p t (inl (_, e)) = e
Agree-exact p t (inr (e, _)) = cc

pub Agree-wildcard : (p t : Str) → Agree wildcard p t → OneLabel (split b'.' p) (split b'.' t)
Agree-wildcard p t (inl (e, _)) = cc
Agree-wildcard p t (inr (_, o)) = o

pub record Matches (c : Codec) (pattern name_match target : Str) : Type 0 where
  pub p : Str
  pub t : Str
  pub pattern_form : normalize_fqdn c pattern ≡ ok p
  pub target_form : normalize_fqdn c target ≡ ok t
  pub agree : Agree name_match p t

compare_forms : Str → Str → Str → Bool
compare_forms name_match p t =
    if name_match == exact
    then p == t
    else if name_match == wildcard
    then wildcard_matches (split b'.' p) (split b'.' t)
    else false

name_matches-forms :
    (c : Codec) (pattern name_match target p t : Str)
    → normalize_fqdn c pattern ≡ ok p
    → normalize_fqdn c target ≡ ok t
    → name_matches c pattern name_match target ≡ ok (compare_forms name_match p t)
unfolding name_matches compare_forms
name_matches-forms c pattern name_match target p t hp ht = rw (hp, ht)

compare_forms_iff :
    (name_match p t : Str) → (compare_forms name_match p t ≡ true) ↔ Agree name_match p t
unfolding compare_forms
compare_forms_iff name_match p t = ground (
  arith,
  eq_iff name_match exact,
  eq_iff name_match wildcard,
  eq_iff p t,
  wildcard_matches_iff (split b'.' p) (split b'.' t),
)

name_matches_sound :
    (c : Codec) (pattern name_match target : Str)
    → name_matches c pattern name_match target ≡ ok true
    → Matches c pattern name_match target
unfolding name_matches
name_matches_sound c pattern name_match target h =
    let (p, hp, e) = >>=-eq-ok (normalize_fqdn c pattern) _ h in
    let (t, ht, _) = >>=-eq-ok (normalize_fqdn c target) _ e in
    record {
      p = p;
      t = t;
      pattern_form = hp;
      target_form = ht;
      agree =
          (compare_forms_iff name_match p t).0
            (cc (name_matches-forms c pattern name_match target p t hp ht));
    }

-- A name matches a pattern exactly when both have normal forms, and these are equal (mode exact)
-- or differ in nothing but the one label that stands for the first star (mode wildcard). No other
-- mode matches anything.
pub name_matches_iff :
    (c : Codec) (pattern name_match target : Str)
    → (name_matches c pattern name_match target ≡ ok true) ↔ Matches c pattern name_match target
name_matches_iff c pattern name_match target = (
  name_matches_sound c pattern name_match target,
  λ m.
      name_matches-forms c pattern name_match target m.p m.t m.pattern_form m.target_form
      ∙ ap ok ((compare_forms_iff name_match m.p m.t).1 m.agree),
)
