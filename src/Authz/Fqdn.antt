-- ===== src/Authz/Fqdn.antt =====
-- `normalize_fqdn` of src/cfproxy/authz/scope.py, with the `idna` codec on ASCII names.
pub mod Canonical
pub mod Case
use cloudflare_manual_dns.Common.{
  ℕ, Bool, true, ◌&&◌, Option, none, some, List, [], ◌∷◌, ltb, nat_eq, if◌then◌else◌, length, Str,
  split, rstrip_by, strip, is_ascii, Codec, lower, Result, unicode_error, ok, raised,
}

-- the encoder's test of a label that is not the last one, and of the last one
abbrev inner_label_ok : Str → Bool
inner_label_ok l = ltb 0 (length l) && ltb (length l) 64

abbrev last_label_ok : Str → Bool
last_label_ok l = ltb (length l) 64

unfoldable pub labels_ok : List Str → Bool
labels_ok [] = true
labels_ok (l ∷ []) = last_label_ok l
labels_ok (l ∷ m ∷ ls) = inner_label_ok l && labels_ok (m ∷ ls)

abbrev wide_result : Option Str → Result Str
wide_result none = raised unicode_error
wide_result (some t) = ok t

-- `s.encode("idna").decode("ascii")` of a text that is not empty: an ASCII text is its own
-- encoding if its labels have the right lengths.
unfoldable pub encode_idna : Codec → Str → Result Str
unfolding labels_ok split
encode_idna c s =
    if is_ascii s
    then (if labels_ok (split b'.' s) then ok s else raised unicode_error)
    else wide_result (c.idna_wide s)

abbrev pub is_dot : ℕ → Bool
is_dot d = nat_eq d b'.'

-- `name.strip().rstrip(".").lower()`
unfoldable pub strip_fqdn : Codec → Str → Str
unfolding lower strip rstrip_by
strip_fqdn c name = lower c (rstrip_by is_dot (strip name))

abbrev pub encode_stripped : Codec → Str → Result Str
encode_stripped c [] = ok []
encode_stripped c (d ∷ s) = encode_idna c (d ∷ s)

unfoldable pub normalize_fqdn : Codec → Str → Result Str
unfolding encode_idna strip_fqdn
normalize_fqdn c name = encode_stripped c (strip_fqdn c name)
