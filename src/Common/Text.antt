-- ===== src/Common/Text.antt =====
-- Python's `str` as the list of its code points, and the methods of `str` that the program calls.
-- Equality, `split`, `join`, `endswith`, `in`, `count` and f-strings are exact. What depends on
-- tables of Unicode for a text that is not ASCII (`lower`, `upper`, the `idna` codec, `isalnum`,
-- `int`) is asked of a `Codec`.
use Prim.Native.Nat.{ℕ, zero, suc, ◌+◌, ◌*◌, ◌-◌, ◌/◌, ◌%◌}
use Prim.Native.Char.{code}
use Prim.Native.String.{String}
use mathlib.Core.Path.{◌≡◌, refl}
use mathlib.Core.Logic.{◌↔◌}
use mathlib.Core.Bool.{Bool, true, false, ◌&&◌, ◌||◌, not}
use mathlib.Core.Option.{Option, none, some}
use mathlib.Core.List.{List, [], ◌∷◌, ◌++◌, map}
use native.Mathlib.Omega.{arith}
use cloudflare_manual_dns.Common.Tests.{ltb, leb, nat_eq, if◌then◌else◌}
use cloudflare_manual_dns.Common.Lists.{all, In}
use cloudflare_manual_dns.Common.Int.{ℤ, pos, neg}

abbrev pub Str : Type 0
Str = List ℕ

abbrev pub codes : String → Str
codes String.[] = []
codes (String.◌∷◌ c s) = code c ∷ codes s

infix 50 ◌==◌
unfoldable pub ◌==◌ : Str → Str → Bool
[] == [] = true
(a ∷ s) == (b ∷ t) = nat_eq a b && s == t
_ == _ = false

pub eq_refl : (s : Str) → (s == s) ≡ true
unfolding ◌==◌
eq_refl [] = refl
eq_refl (a ∷ s) = ground (arith, eq_refl s)

pub eq_iff : (s t : Str) → ((s == t) ≡ true) ↔ (s ≡ t)
unfolding ◌==◌
eq_iff [] [] = ground arith
eq_iff (a ∷ s) (b ∷ t) = ground (arith, eq_iff s t)
eq_iff [] (b ∷ t) = ground arith
eq_iff (a ∷ s) [] = ground arith

pub ne_of_eq : (s t : Str) → (s == t) ≡ false → s ≡ t → ⊥
ne_of_eq s t h e = ground (arith, eq_iff s t)

pub eq_of_ne : (s t : Str) → (s ≡ t → ⊥) → (s == t) ≡ false
eq_of_ne s t h = ground (arith, eq_iff s t)

-- `s in l`
unfoldable pub mem_str : Str → List Str → Bool
mem_str s [] = false
mem_str s (t ∷ l) = s == t || mem_str s l

pub mem_str_iff : (s : Str) (l : List Str) → (mem_str s l ≡ true) ↔ In s l
unfolding mem_str
mem_str_iff s [] = ground arith
mem_str_iff s (t ∷ l) = ground (arith, mem_str_iff s l, eq_iff s t)

-- `chr(c) in s`
unfoldable pub has_char : ℕ → Str → Bool
has_char c [] = false
has_char c (d ∷ s) = nat_eq d c || has_char c s

-- `s.count(chr(c))`
unfoldable pub count_char : ℕ → Str → ℕ
count_char c [] = 0
count_char c (d ∷ s) = if nat_eq d c then suc (count_char c s) else count_char c s

-- `s.endswith(t)`
unfoldable pub ends_with : Str → Str → Bool
ends_with [] t = [] == t
ends_with (c ∷ s) t = (c ∷ s) == t || ends_with s t

-- a character is put before the first piece
abbrev pub cons_head : ℕ → List Str → List Str
cons_head c [] = (c ∷ []) ∷ []
cons_head c (w ∷ ws) = (c ∷ w) ∷ ws

-- `s.split(chr(sep))`: never empty
unfoldable pub split : ℕ → Str → List Str
split sep [] = [] ∷ []
split sep (c ∷ s) = let rest = split sep s in if nat_eq c sep then [] ∷ rest else cons_head c rest

-- `chr(sep).join(ws)`
unfoldable pub join : ℕ → List Str → Str
join sep [] = []
join sep (w ∷ []) = w
join sep (w ∷ v ∷ ws) = w ++ sep ∷ join sep (v ∷ ws)

-- the code points that `str.strip` takes for white space
unfoldable pub is_space : ℕ → Bool
is_space c =
    leb 9 c && leb c 13
    || leb 28 c && leb c 32
    || nat_eq c 0x85
    || nat_eq c 0xa0
    || nat_eq c 0x1680
    || leb 0x2000 c && leb c 0x200a
    || nat_eq c 0x2028
    || nat_eq c 0x2029
    || nat_eq c 0x202f
    || nat_eq c 0x205f
    || nat_eq c 0x3000

unfoldable pub lstrip_by : (ℕ → Bool) → Str → Str
lstrip_by p [] = []
lstrip_by p (c ∷ s) = let rest = lstrip_by p s in if p c then rest else c ∷ s

-- A character is kept if something is kept behind it.
abbrev pub keep : Bool → ℕ → Str → Str
keep drop c [] = if drop then [] else c ∷ []
keep drop c (d ∷ s) = c ∷ d ∷ s

unfoldable pub rstrip_by : (ℕ → Bool) → Str → Str
rstrip_by p [] = []
rstrip_by p (c ∷ s) = keep (p c) c (rstrip_by p s)

unfoldable pub strip : Str → Str
unfolding lstrip_by rstrip_by is_space
strip s = rstrip_by is_space (lstrip_by is_space s)

abbrev pub is_ascii : Str → Bool
is_ascii s = all (λ c. ltb c 128) s

unfoldable pub lower_char : ℕ → ℕ
lower_char c = if leb b'A' c && leb c b'Z' then c + 32 else c

unfoldable pub upper_char : ℕ → ℕ
upper_char c = if leb b'a' c && leb c b'z' then c - 32 else c

unfoldable pub is_alnum_char : ℕ → Bool
is_alnum_char c = leb b'0' c && leb c b'9' || leb b'A' c && leb c b'Z' || leb b'a' c && leb c b'z'

-- The methods of `str` on texts that are not ASCII.
pub record Codec : Type 0 where
  pub lower_wide : Str → Str
  pub upper_wide : Str → Str
  -- `none` is a `UnicodeError`
  pub idna_wide : Str → Option Str
  pub isalnum_wide : Str → Bool
  -- `none` is a `ValueError`
  pub int_wide : Str → Option ℤ

module _ (c : Codec) where
  unfoldable pub lower : Str → Str
  unfolding lower_char
  lower s = if is_ascii s then map lower_char s else c.lower_wide s

  unfoldable pub upper : Str → Str
  unfolding upper_char
  upper s = if is_ascii s then map upper_char s else c.upper_wide s

  -- false for the empty text
  unfoldable pub isalnum : Str → Bool
  unfolding is_alnum_char
  isalnum [] = false
  isalnum (d ∷ s) = if is_ascii (d ∷ s) then all is_alnum_char (d ∷ s) else c.isalnum_wide (d ∷ s)

-- The decimal digits of a number, `str(n)`; the fuel is above the number of digits.
unfoldable pub digits_from : ℕ → ℕ → Str → Str
digits_from zero n acc = acc
digits_from (suc f) n acc =
    let rest = digits_from f (n / 10) ((b'0' + n % 10) ∷ acc) in
    if ltb n 10 then (b'0' + n) ∷ acc else rest

unfoldable pub show_ℕ : ℕ → Str
unfolding digits_from
show_ℕ n = digits_from (suc n) n []

abbrev is_digit : ℕ → Bool
is_digit d = leb b'0' d && leb d b'9'

-- The digits of an `int` literal, from the value so far; a single `_` may stand between digits, so
-- a digit is wanted at the start and behind a `_`.
unfoldable pub digits_value : Bool → ℕ → Str → Option ℕ
digits_value wanted acc [] = if wanted then none else some acc
digits_value wanted acc (d ∷ s) =
    let more = digits_value false (acc * 10 + (d - b'0')) s in
    let skip = digits_value true acc s in
    if is_digit d then more else if nat_eq d b'_' && not wanted then skip else none

abbrev signed : (ℤ → ℤ) → Option ℕ → Option ℤ
signed f none = none
signed f (some n) = some (f (pos n))

unfoldable pub int_literal : Str → Option ℤ
int_literal [] = none
int_literal (d ∷ s) =
    if nat_eq d b'-'
    then signed neg (digits_value true 0 s)
    else if nat_eq d b'+'
    then signed (λ n. n) (digits_value true 0 s)
    else signed (λ n. n) (digits_value true 0 (d ∷ s))

-- `int(s)`; `none` is a `ValueError`. The limit on the number of digits is not modelled.
unfoldable pub parse_int : Codec → Str → Option ℤ
parse_int c s = if is_ascii s then int_literal (strip s) else c.int_wide s
