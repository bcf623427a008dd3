-- ===== src/Authz/Fqdn/Case.antt =====
-- `normalize_fqdn` does not look at the case of an ASCII name.
use cloudflare_manual_dns.Authz.Fqdn.{is_dot, strip_fqdn, encode_stripped, normalize_fqdn}
use cloudflare_manual_dns.Authz.Fqdn.Canonical.{
  IsAscii, HasNoSpace, map_id, All-unit, rstrip_by-All, strip-no_space, map-All, lower_char-lt,
  lower_char-no_space, normalize_fqdn_lem, normalize_fqdn_idem, is_ascii-IsAscii,
}
use cloudflare_manual_dns.Common.{
  ℕ, ◌<◌, ◌≡◌, refl, sym, ap, ◌∙◌, Bool, true, false, [], ◌∷◌, map, arith, Str, is_space, keep,
  rstrip_by, lower_char, Codec, lower, ok,
}

is_dot-lower_char : (d : ℕ) → is_dot (lower_char d) ≡ is_dot d
unfolding lower_char
is_dot-lower_char d = ground arith

keep-map :
    (b : Bool) (d : ℕ) (r : Str)
    → keep b (lower_char d) (map lower_char r) ≡ map lower_char (keep b d r)
keep-map true d [] = refl
keep-map false d [] = refl
keep-map b d (e ∷ r) = refl

rstrip_by-map :
    (s : Str) → rstrip_by is_dot (map lower_char s) ≡ map lower_char (rstrip_by is_dot s)
unfolding rstrip_by
rstrip_by-map [] = refl
rstrip_by-map (d ∷ s) =
    rw (rstrip_by-map s, is_dot-lower_char d) (keep-map (is_dot d) d (rstrip_by is_dot s))

map-map_lower : (s : Str) → map lower_char (map lower_char s) ≡ map lower_char s
map-map_lower s = map_id (map lower_char s) (All-unit s)

strip_fqdn-ascii :
    (c : Codec) (s : Str)
    → IsAscii s
    → HasNoSpace s
    → strip_fqdn c s ≡ map lower_char (rstrip_by is_dot s)
unfolding strip_fqdn lower
strip_fqdn-ascii c s a n = rw (
  strip-no_space s n,
  is_ascii-IsAscii (rstrip_by is_dot s) (rstrip_by-All is_dot (λ d. d < 128) s a),
)

strip_fqdn-case :
    (c : Codec) (s : Str)
    → IsAscii s
    → HasNoSpace s
    → strip_fqdn c (map lower_char s) ≡ strip_fqdn c s
strip_fqdn-case c s a n =
    strip_fqdn-ascii c (map lower_char s) (map-All (λ d. d < 128) (λ d. d < 128) lower_char-lt s a)
      (map-All (λ d. is_space d ≡ false) (λ d. is_space d ≡ false) lower_char-no_space s n)
    ∙ rw (rstrip_by-map s) (map-map_lower (rstrip_by is_dot s))
    ∙ sym (strip_fqdn-ascii c s a n)

normalize_fqdn-case :
    (c : Codec) (s : Str)
    → IsAscii s
    → HasNoSpace s
    → normalize_fqdn c (map lower_char s) ≡ normalize_fqdn c s
normalize_fqdn-case c s a n =
    rw (normalize_fqdn_lem c (map lower_char s), normalize_fqdn_lem c s)
      (ap (encode_stripped c) (strip_fqdn-case c s a n))

-- The normal form of an ASCII name without white space is its own normal form, and the normal form
-- of the name's spelling in lower case.
pub normalize_fqdn_stable :
    (c : Codec) (s t : Str)
    → IsAscii s
    → HasNoSpace s
    → normalize_fqdn c s ≡ ok t
    → (normalize_fqdn c t ≡ ok t) × (normalize_fqdn c (map lower_char s) ≡ ok t)
normalize_fqdn_stable c s t a n e =
    (normalize_fqdn_idem c s t a n e, normalize_fqdn-case c s a n ∙ e)
