-- ===== src/Authz/Pattern.antt =====
-- `validate_name_pattern` and `name_matches` of src/cfproxy/authz/scope.py.
pub mod Zone
pub mod Matching
pub mod Wildcard
use mathlib.Core.Option
use cloudflare_manual_dns.Authz.Fqdn.{normalize_fqdn}
use cloudflare_manual_dns.Common.{
  ℕ, zero, suc, Bool, true, false, ◌||◌, Option, none, some, List, [], ◌∷◌, nat_eq, if◌then◌else◌,
  length, Str, codes, ◌==◌, has_char, count_char, ends_with, split, join, Codec, Exception, Result,
  ◌>>=◌, value_error, ok, raised,
}

abbrev pub star : Str
star = codes "*"

abbrev pub exact : Str
exact = codes "exact"

abbrev pub wildcard : Str
wildcard = codes "wildcard"

-- `next(i for i, label in enumerate(labels) if p(label))`
unfoldable pub index_where : (Str → Bool) → List Str → Option ℕ
index_where p [] = none
index_where p (l ∷ ls) = if p l then some 0 else Option.map suc (index_where p ls)

-- The loop over the zipped labels, from index `i` on.
unfoldable pub agree_except : ℕ → ℕ → List Str → List Str → Bool
agree_except at i (p ∷ ps) (t ∷ ts) =
    let rest = agree_except at (suc i) ps ts in
    if nat_eq i at then rest else if p == t then rest else false
agree_except at i _ _ = true

abbrev match_at : List Str → List Str → Option ℕ → Bool
match_at ps ts none = false
match_at ps ts (some at) = if nat_eq (length ps) (length ts) then agree_except at 0 ps ts else false

unfoldable pub wildcard_matches : List Str → List Str → Bool
wildcard_matches ps ts = match_at ps ts (index_where (λ l. l == star) ps)

unfoldable pub name_matches : Codec → Str → Str → Str → Result Bool
name_matches c pattern name_match target = do
  p ← normalize_fqdn c pattern
  t ← normalize_fqdn c target
  ok (
      if name_match == exact
      then p == t
      else if name_match == wildcard
      then wildcard_matches (split b'.' p) (split b'.' t)
      else false)

-- `candidate != zone and not candidate.endswith("." + zone)` refuses
unfoldable pub in_zone : Str → Str → Bool
in_zone candidate zone = candidate == zone || ends_with candidate (b'.' ∷ zone)

-- `labels[:i] + labels[i + 1 :]`, and `labels[i]`
unfoldable pub without_at : ℕ → List Str → List Str
without_at i [] = []
without_at zero (l ∷ ls) = ls
without_at (suc i) (l ∷ ls) = l ∷ without_at i ls

unfoldable pub label_at : ℕ → List Str → Str
label_at i [] = []
label_at zero (l ∷ ls) = l
label_at (suc i) (l ∷ ls) = label_at i ls

abbrev unknown_name_match : Exception
unknown_name_match = value_error (codes "unknown name_match")

abbrev exact_star : Exception
exact_star = value_error (codes "exact name_pattern must not contain '*'")

abbrev pub outside_zone : Exception
outside_zone = value_error (codes "name_pattern does not end in zone")

abbrev star_count : Exception
star_count = value_error (codes "wildcard name_pattern must contain exactly one '*'")

abbrev partial_label : Exception
partial_label = value_error (codes "'*' must occupy a whole label")

unfoldable pub validate_exact : Codec → Str → Str → Result (Unit {0})
validate_exact c pattern zone = if has_char b'*' pattern then raised exact_star else do
  candidate ← if pattern == codes "@" then ok zone else normalize_fqdn c pattern
  if in_zone candidate zone then ok tt else raised outside_zone

abbrev or_zero : Option ℕ → ℕ
or_zero none = 0
or_zero (some i) = i

-- `normalize_fqdn(remainder) if remainder else ""`
abbrev normalize_remainder : Codec → Str → Result Str
normalize_remainder c [] = ok []
normalize_remainder c (d ∷ s) = normalize_fqdn c (d ∷ s)

-- The label with the star is at `i`; a star there is the only one.
unfoldable pub validate_remainder : Codec → List Str → ℕ → Str → Result (Unit {0})
validate_remainder c labels i zone =
    if label_at i labels == star
    then (do
      remainder ← normalize_remainder c (join b'.' (without_at i labels))
      if in_zone remainder zone then ok tt else raised outside_zone)
    else raised partial_label

unfoldable pub validate_wildcard : Codec → Str → Str → Result (Unit {0})
validate_wildcard c pattern zone =
    if nat_eq (count_char b'*' pattern) 1
    then validate_remainder c (split b'.' pattern)
        (or_zero (index_where (has_char b'*') (split b'.' pattern))) zone
    else raised star_count

unfoldable pub validate_name_pattern : Codec → Str → Str → Str → Result (Unit {0})
validate_name_pattern c pattern name_match zone_name =
    if name_match == exact || name_match == wildcard
    then (do
      zone ← normalize_fqdn c zone_name
      if name_match == exact
          then validate_exact c pattern zone
          else validate_wildcard c pattern zone)
    else raised unknown_name_match
