-- ===== src/Authz/Fqdn/Canonical.antt =====
-- What `normalize_fqdn` does to ASCII names: its values are canonical, and canonical names are
-- fixed.
use cloudflare_manual_dns.Authz.Fqdn.{
  labels_ok, encode_idna, is_dot, strip_fqdn, encode_stripped, normalize_fqdn,
}
use mathlib.Core.Path.{subst}
use cloudflare_manual_dns.Common.{
  ℕ, ◌<◌, ◌≡◌, refl, sym, inl, inr, Bool, true, false, [], ◌∷◌, map, arith, if◌then◌else◌,
  Bool-cases, All, Str, split, is_space, lstrip_by, keep, rstrip_by, strip, is_ascii, lower_char,
  Codec, lower, ok,
}

abbrev pub IsAscii : Str → Type 0
IsAscii s = All (λ d. d < 128) s

abbrev pub HasNoSpace : Str → Type 0
HasNoSpace s = All (λ d. is_space d ≡ false) s

abbrev pub IsLower : Str → Type 0
IsLower s = All (λ d. lower_char d ≡ d) s

abbrev LastNot : (ℕ → Bool) → Str → Type 0
LastNot p [] = Unit
LastNot p (d ∷ []) = p d ≡ false
LastNot p (d ∷ e ∷ s) = LastNot p (e ∷ s)

-- The text is ASCII, in lower case, with no white space and no dot at its end.
pub record IsCanonical (s : Str) : Type 0 where
  pub ascii : IsAscii s
  pub no_space : HasNoSpace s
  pub lowered : IsLower s
  pub no_dot : LastNot is_dot s

pub is_ascii-IsAscii : (s : Str) → IsAscii s → is_ascii s ≡ true
is_ascii-IsAscii [] h = refl
is_ascii-IsAscii (d ∷ s) (p, h) = ground (arith, is_ascii-IsAscii s h)

module _ (p : ℕ → Bool) where
  lstrip_by_id : (s : Str) → All (λ d. p d ≡ false) s → lstrip_by p s ≡ s
  unfolding lstrip_by
  lstrip_by_id [] h = refl
  lstrip_by_id (d ∷ s) h = ground arith

  rstrip_by_id : (s : Str) → LastNot p s → rstrip_by p s ≡ s
  unfolding rstrip_by
  rstrip_by_id [] h = refl
  rstrip_by_id (d ∷ []) h = rw h
  rstrip_by_id (d ∷ e ∷ s) h = rw (rstrip_by_id (e ∷ s) h)

  LastNot-All : (s : Str) → All (λ d. p d ≡ false) s → LastNot p s
  LastNot-All [] h = tt
  LastNot-All (d ∷ []) h = h.0
  LastNot-All (d ∷ e ∷ s) h = LastNot-All (e ∷ s) h.1

  keep-LastNot : (d : ℕ) (r : Str) → LastNot p r → LastNot p (keep (p d) d r)
  keep-LastNot d [] h = elim (Bool-cases (p d)) [
    | inl e ↦ rw e tt
    | inr e ↦ subst (λ b. LastNot p (if b then [] else d ∷ [])) (sym e) e
  ]
  keep-LastNot d (e ∷ r) h = h

  rstrip_by-LastNot : (s : Str) → LastNot p (rstrip_by p s)
  unfolding rstrip_by
  rstrip_by-LastNot [] = tt
  rstrip_by-LastNot (d ∷ s) = keep-LastNot d (rstrip_by p s) (rstrip_by-LastNot s)

  module _ (Q : ℕ → Type 0) where
    lstrip_by-All : (s : Str) → All Q s → All Q (lstrip_by p s)
    unfolding lstrip_by
    lstrip_by-All [] h = tt
    lstrip_by-All (d ∷ s) h = elim (Bool-cases (p d)) [
      | inl e ↦ rw e (lstrip_by-All s h.1)
      | inr e ↦ rw e h
    ]

    keep-All : (b : Bool) (d : ℕ) (r : Str) → Q d → All Q r → All Q (keep b d r)
    keep-All true d [] q h = tt
    keep-All false d [] q h = (q, tt)
    keep-All b d (e ∷ r) q h = (q, h)

    pub rstrip_by-All : (s : Str) → All Q s → All Q (rstrip_by p s)
    unfolding rstrip_by
    rstrip_by-All [] h = tt
    rstrip_by-All (d ∷ s) h = keep-All (p d) d (rstrip_by p s) h.0 (rstrip_by-All s h.1)

-- What `lower` keeps of an ASCII character.
pub lower_char-lt : (d : ℕ) → d < 128 → lower_char d < 128
unfolding lower_char
lower_char-lt d h = ground arith

lower_char_idem : (d : ℕ) → lower_char (lower_char d) ≡ lower_char d
unfolding lower_char
lower_char_idem d = ground arith

pub lower_char-no_space : (d : ℕ) → is_space d ≡ false → is_space (lower_char d) ≡ false
unfolding lower_char is_space
lower_char-no_space d h = ground arith

lower_char-no_dot : (d : ℕ) → is_dot d ≡ false → is_dot (lower_char d) ≡ false
unfolding lower_char
lower_char-no_dot d h = ground arith

pub map_id : (s : Str) → IsLower s → map lower_char s ≡ s
map_id [] h = refl
map_id (d ∷ s) h = cc (h.0, map_id s h.1)

pub map-All :
    (P Q : ℕ → Type 0)
    → ((d : ℕ) → P d → Q (lower_char d))
    → (s : Str) → All P s
    → All Q (map lower_char s)
map-All P Q f [] h = tt
map-All P Q f (d ∷ s) h = (f d h.0, map-All P Q f s h.1)

pub All-unit : (s : Str) → All (λ d. lower_char d ≡ d) (map lower_char s)
All-unit [] = tt
All-unit (d ∷ s) = (lower_char_idem d, All-unit s)

map-LastNot : (s : Str) → LastNot is_dot s → LastNot is_dot (map lower_char s)
map-LastNot [] h = tt
map-LastNot (d ∷ []) h = lower_char-no_dot d h
map-LastNot (d ∷ e ∷ s) h = map-LastNot (e ∷ s) h

pub strip-no_space : (s : Str) → HasNoSpace s → strip s ≡ s
unfolding strip
strip-no_space s h =
    rw (lstrip_by_id is_space s h) (rstrip_by_id is_space s (LastNot-All is_space s h))

pub strip_fqdn_id : (c : Codec) (s : Str) → IsCanonical s → strip_fqdn c s ≡ s
unfolding strip_fqdn lower
strip_fqdn_id c s h =
    rw (strip-no_space s h.no_space, rstrip_by_id is_dot s h.no_dot, is_ascii-IsAscii s h.ascii)
      (map_id s h.lowered)

pub strip_fqdn-IsCanonical :
    (c : Codec) (s : Str) → IsAscii s → HasNoSpace s → IsCanonical (strip_fqdn c s)
unfolding strip_fqdn lower
strip_fqdn-IsCanonical c s a n =
    let kept : IsAscii (rstrip_by is_dot s) = rstrip_by-All is_dot (λ d. d < 128) s a in
    rw (strip-no_space s n, is_ascii-IsAscii (rstrip_by is_dot s) kept)
      (record {
        ascii = map-All (λ d. d < 128) (λ d. d < 128) lower_char-lt _ kept;
        no_space =
            map-All (λ d. is_space d ≡ false) (λ d. is_space d ≡ false) lower_char-no_space _
              (rstrip_by-All is_dot (λ d. is_space d ≡ false) s n);
        lowered = All-unit _;
        no_dot = map-LastNot (rstrip_by is_dot s) (rstrip_by-LastNot is_dot s);
      })

pub normalize_fqdn_lem :
    (c : Codec) (s : Str) → normalize_fqdn c s ≡ encode_stripped c (strip_fqdn c s)
unfolding normalize_fqdn
normalize_fqdn_lem c s = refl

encode_stripped_id :
    (c : Codec) (s : Str) → IsAscii s → labels_ok (split b'.' s) ≡ true → encode_stripped c s ≡ ok s
unfolding encode_idna
encode_stripped_id c [] a l = refl
encode_stripped_id c (d ∷ s) a l = rw (is_ascii-IsAscii (d ∷ s) a, l)

encode_stripped-eq-ok :
    (c : Codec) (s t : Str)
    → IsAscii s
    → encode_stripped c s ≡ ok t
    → (t ≡ s) × (labels_ok (split b'.' s) ≡ true)
unfolding encode_idna
encode_stripped-eq-ok c [] t a e = (cc, unfold labels_ok split in refl)
encode_stripped-eq-ok c (d ∷ s) t a e =
    let e' = rw (is_ascii-IsAscii (d ∷ s) a) at e in (ground arith, ground arith)

-- A canonical name whose labels the encoder takes is its own normal form.
pub normalize_fqdn_id :
    (c : Codec) (s : Str)
    → IsCanonical s
    → labels_ok (split b'.' s) ≡ true
    → normalize_fqdn c s ≡ ok s
normalize_fqdn_id c s h l =
    rw (normalize_fqdn_lem c s, strip_fqdn_id c s h) (encode_stripped_id c s h.ascii l)

-- A canonical name has no other normal form.
pub normalize_fqdn-eq-ok :
    (c : Codec) (s t : Str) → IsCanonical s → normalize_fqdn c s ≡ ok t → t ≡ s
normalize_fqdn-eq-ok c s t h e =
    (encode_stripped-eq-ok c s t h.ascii (rw (normalize_fqdn_lem c s, strip_fqdn_id c s h) at e)).0

-- The normal form of an ASCII name without white space is canonical, and its labels have lengths
-- that the encoder takes.
pub normalize_fqdn-IsCanonical :
    (c : Codec) (s t : Str)
    → IsAscii s
    → HasNoSpace s
    → normalize_fqdn c s ≡ ok t
    → IsCanonical t × (labels_ok (split b'.' t) ≡ true)
normalize_fqdn-IsCanonical c s t a n e =
    let canonical = strip_fqdn-IsCanonical c s a n in
    let (same, fits) =
      encode_stripped-eq-ok c (strip_fqdn c s) t canonical.ascii (rw normalize_fqdn_lem at e) in
    rw same (canonical, fits)

pub normalize_fqdn_idem :
    (c : Codec) (s t : Str)
    → IsAscii s
    → HasNoSpace s
    → normalize_fqdn c s ≡ ok t
    → normalize_fqdn c t ≡ ok t
normalize_fqdn_idem c s t a n e =
    let (canonical, fits) = normalize_fqdn-IsCanonical c s t a n e in
    normalize_fqdn_id c t canonical fits
