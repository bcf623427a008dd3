-- ===== src/Authz/Pattern/Zone.antt =====
-- What `validate_name_pattern` guarantees of the names that a validated pattern matches.
use mathlib.Core.Path.{subst}
use mathlib.Core.List.{append_assoc}
use cloudflare_manual_dns.Authz.Fqdn.{normalize_fqdn}
use cloudflare_manual_dns.Authz.Fqdn.Canonical.{IsCanonical, normalize_fqdn-eq-ok}
use cloudflare_manual_dns.Authz.Pattern.{
  star, exact, wildcard, outside_zone, name_matches, in_zone, index_where, or_zero, label_at,
  without_at, validate_exact, validate_remainder, validate_wildcard, validate_name_pattern,
}
use cloudflare_manual_dns.Authz.Pattern.Wildcard.{OneLabel}
use cloudflare_manual_dns.Authz.Pattern.Matching.{Agree-exact, Agree-wildcard, name_matches_iff}
use cloudflare_manual_dns.Common.{
  ℕ, ◌≡◌, refl, sym, ap, ◌∙◌, ◌≢◌, ◌⊎◌, inl, inr, Bool, true, List, [], ◌∷◌, ◌++◌, arith, nat_eq,
  if◌then◌else◌, Bool-cases, All, Str, codes, ◌==◌, eq_refl, eq_iff, eq_of_ne, has_char, count_char,
  split, join, is_space, lower_char, Codec, join-split, join-label, ends_with_sound, Exception,
  ◌>>=◌, >>=-eq-ok, ok_injective, ok, raised,
}

-- The name is the zone's, or ends in a dot and the zone's name.
abbrev pub IsInZone : Str → Str → Type 0
IsInZone name zone = (name ≡ zone) ⊎ ((before : Str) × (name ≡ before ++ b'.' ∷ zone))

in_zone_sound : (name zone : Str) → in_zone name zone ≡ true → IsInZone name zone
unfolding in_zone
in_zone_sound name zone h = elim (Bool-cases (name == zone)) [
  | inl e ↦ inl ((eq_iff name zone).0 e)
  | inr e ↦ inr (ends_with_sound name (b'.' ∷ zone) (rw e at h))
]

IsInZone-below : (label name zone : Str) → IsInZone name zone → IsInZone (label ++ b'.' ∷ name) zone
IsInZone-below label name zone (inl e) = inr (label, rw e)
IsInZone-below label name zone (inr (before, e)) =
    inr (label ++ b'.' ∷ before, rw e (sym (append_assoc label (b'.' ∷ before) (b'.' ∷ zone))))

passed : (b : Bool) (e : Exception) → (if b then ok tt else raised e) ≡ ok (tt {0}) → b ≡ true
passed b e h = ground arith

validate_exact_sound :
    (c : Codec) (pattern zone : Str)
    → pattern ≢ codes "@"
    → validate_exact c pattern zone ≡ ok tt
    → (p : Str) × (normalize_fqdn c pattern ≡ ok p) × IsInZone p zone
unfolding validate_exact
validate_exact_sound c pattern zone not_at h = elim (Bool-cases (has_char b'*' pattern)) [
  | inl e ↦ cc (rw e at h)
  | inr e ↦
      let h' = rw (e, eq_of_ne pattern (codes "@") not_at) at h in
      let (p, form, inside) = >>=-eq-ok (normalize_fqdn c pattern) _ h' in
      (p, form, in_zone_sound p zone (passed _ _ inside))
]

-- The zone's name is normalised first, and the mode decides which test is made.
validate-exact :
    (c : Codec) (pattern zone_name zone : Str)
    → normalize_fqdn c zone_name ≡ ok zone
    → validate_name_pattern c pattern exact zone_name ≡ validate_exact c pattern zone
unfolding validate_name_pattern
validate-exact c pattern zone_name zone hz = rw (eq_refl exact, hz)

validate-wildcard :
    (c : Codec) (pattern zone_name zone : Str)
    → normalize_fqdn c zone_name ≡ ok zone
    → validate_name_pattern c pattern wildcard zone_name ≡ validate_wildcard c pattern zone
unfolding validate_name_pattern ◌==◌
validate-wildcard c pattern zone_name zone hz = rw hz

module _ (c : Codec) (pattern zone_name zone target t : Str) where
  exact_stays-IsInZone :
      normalize_fqdn c zone_name ≡ ok zone
      → normalize_fqdn c target ≡ ok t
      → pattern ≢ codes "@"
      → validate_name_pattern c pattern exact zone_name ≡ ok tt
      → name_matches c pattern exact target ≡ ok true
      → IsInZone t zone
  exact_stays-IsInZone hz ht not_at valid matched =
      let (p, form, inside) =
        validate_exact_sound c pattern zone not_at
          (sym (validate-exact c pattern zone_name zone hz) ∙ valid) in
      let m = (name_matches_iff c pattern exact target).0 matched in
      let same : p ≡ t =
        ok_injective (sym form ∙ m.pattern_form)
        ∙ Agree-exact m.p m.t m.agree
        ∙ ok_injective (sym m.target_form ∙ ht) in
      subst (λ n. IsInZone n zone) same inside

-- A leading star: the labels that it matches are one label and the labels of the rest.
OneLabel-star : (ps ts : List Str) → OneLabel (star ∷ ps) ts → (label : Str) × (ts ≡ label ∷ ps)
OneLabel-star ps ts o = go o.before o.first o.in_pattern o.in_labels
  where
    go :
        (before : List Str)
        → All (λ l. l ≢ star) before
        → (star ∷ ps) ≡ before ++ star ∷ o.after
        → ts ≡ before ++ o.label ∷ o.after
        → (label : Str) × (ts ≡ label ∷ ps)
    go [] f e k = (o.label, cc)
    go (b ∷ before) f e k = absurd (f.0 (cc))

-- The pattern `*.rest`.
abbrev pub below : Str → Str
below rest = codes "*." ++ rest

split-below : (rest : Str) → split b'.' (below rest) ≡ star ∷ split b'.' rest
unfolding split
split-below rest = refl

-- The check of the labels after a leading star is the check of the rest.
remainder-below :
    (c : Codec) (d : ℕ) (rest zone : Str)
    → validate_remainder c
        (star ∷ split b'.' (d ∷ rest))
        (or_zero (index_where (has_char b'*') (star ∷ split b'.' (d ∷ rest))))
        zone
      ≡ (normalize_fqdn c (d ∷ rest) >>= λ r. if in_zone r zone then ok tt else raised outside_zone)
unfolding validate_remainder index_where label_at without_at has_char
remainder-below c d rest zone = rw (eq_refl star, join-split b'.' (d ∷ rest))

validate_wildcard_sound :
    (c : Codec) (d : ℕ) (rest zone : Str)
    → IsCanonical (d ∷ rest)
    → validate_wildcard c (below (d ∷ rest)) zone ≡ ok tt
    → IsInZone (d ∷ rest) zone
unfolding validate_wildcard
validate_wildcard_sound c d rest zone h v =
    elim (Bool-cases (nat_eq (count_char b'*' (below (d ∷ rest))) 1)) [
      | inl e ↦
          let v' = rw (e, split-below (d ∷ rest), remainder-below c d rest zone) at v in
          let (r, form, inside) = >>=-eq-ok (normalize_fqdn c (d ∷ rest)) _ v' in
          rw (← normalize_fqdn-eq-ok c (d ∷ rest) r h form)
            (in_zone_sound r zone (passed _ _ inside))
      | inr e ↦ cc (rw e at v)
    ]

below-IsCanonical : (d : ℕ) (rest : Str) → IsCanonical (d ∷ rest) → IsCanonical (below (d ∷ rest))
unfolding is_space lower_char
below-IsCanonical d rest h = record {
  ascii = (omega arith, (omega arith, h.ascii));
  no_space = (refl, (refl, h.no_space));
  lowered = (refl, (refl, h.lowered));
  no_dot = h.no_dot;
}

-- A name whose labels are one label and those of a text ends in a dot and the text.
name_of_labels :
    (label rest t : Str) → split b'.' t ≡ label ∷ split b'.' rest → t ≡ label ++ b'.' ∷ rest
name_of_labels label rest t e =
    sym (join-split b'.' t) ∙ ap (join b'.') e ∙ join-label b'.' label rest

wildcard_stays-IsInZone :
    (c : Codec) (d : ℕ) (rest zone_name zone target t : Str)
    → IsCanonical (d ∷ rest)
    → normalize_fqdn c zone_name ≡ ok zone
    → normalize_fqdn c target ≡ ok t
    → validate_name_pattern c (below (d ∷ rest)) wildcard zone_name ≡ ok tt
    → name_matches c (below (d ∷ rest)) wildcard target ≡ ok true
    → IsInZone t zone
wildcard_stays-IsInZone c d rest zone_name zone target t h hz ht valid matched =
    let pattern = below (d ∷ rest) in
    let inside =
      validate_wildcard_sound c d rest zone h
        (sym (validate-wildcard c pattern zone_name zone hz) ∙ valid) in
    let m = (name_matches_iff c pattern wildcard target).0 matched in
    let same : m.t ≡ t = ok_injective (sym m.target_form ∙ ht) in
    let form : m.p ≡ pattern =
      normalize_fqdn-eq-ok c pattern m.p (below-IsCanonical d rest h) m.pattern_form in
    let (label, labels) =
      OneLabel-star (split b'.' (d ∷ rest)) (split b'.' t)
        (rw (← same, ← split-below (d ∷ rest), ← form) (Agree-wildcard m.p m.t m.agree)) in
    rw (name_of_labels label (d ∷ rest) t labels) (IsInZone-below label (d ∷ rest) zone inside)

-- Every exact pattern but "@", and the wildcard pattern `*.rest` for a canonical rest.
pub data IsPlain : Str → Str → Type 0 where
  literal : (pattern : Str) → pattern ≢ codes "@" → IsPlain pattern exact
  starred : (d : ℕ) (rest : Str) → IsCanonical (d ∷ rest) → IsPlain (below (d ∷ rest)) wildcard

-- A validated pattern that is an exact one other than "@", or a wildcard one with its star in front
-- of a canonical name, matches no name outside its zone.
pub plain_stays-IsInZone :
    (c : Codec) (pattern : Str) (kind : Str) (zone_name zone target t : Str)
    → IsPlain pattern kind
    → normalize_fqdn c zone_name ≡ ok zone
    → normalize_fqdn c target ≡ ok t
    → validate_name_pattern c pattern kind zone_name ≡ ok tt
    → name_matches c pattern kind target ≡ ok true
    → IsInZone t zone
plain_stays-IsInZone c _ _ zone_name zone target t (literal pattern n) hz ht valid matched =
    exact_stays-IsInZone c pattern zone_name zone target t hz ht n valid matched
plain_stays-IsInZone c _ _ zone_name zone target t (starred d rest h) hz ht valid matched =
    wildcard_stays-IsInZone c d rest zone_name zone target t h hz ht valid matched
