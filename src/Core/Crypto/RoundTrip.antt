-- ===== src/Core/Crypto/RoundTrip.antt =====
-- A generated token parses into its parts, and verifies against its hash.
use cloudflare_manual_dns.Core.Crypto.{
  token_alphabet, lookup_id_len, secret_len, char_at, GeneratedToken, generate_random_string,
  hash_token, verify_token, drawn_token, generate_scoped_token, check_parts, three_parts,
  parse_scoped_token,
}
use cloudflare_manual_dns.Runtime.{Event, Env, World}
use cloudflare_manual_dns.Common.{
  ℕ, zero, suc, ◌%◌, ◌<◌, ◌≡◌, refl, ap, ◌∙◌, Bool, true, false, some, List, [], ◌∷◌, ◌++◌, arith,
  ltb, nat_eq, nat_eq_iff, both_true, length, All, all, Str, eq_refl, split, is_ascii,
  is_alnum_char, Codec, isalnum, ok,
}

abbrev pub Lacks : ℕ → Str → Type 0
Lacks sep s = All (λ d. nat_eq d sep ≡ false) s

split-piece :
    (sep : ℕ) (s rest : Str) → Lacks sep s → split sep (s ++ sep ∷ rest) ≡ s ∷ split sep rest
unfolding split
split-piece sep [] rest h = rw ((nat_eq_iff sep sep).1 refl)
split-piece sep (d ∷ s) rest h = rw (h.0, split-piece sep s rest h.1)

split-last : (sep : ℕ) (s : Str) → Lacks sep s → split sep s ≡ s ∷ []
unfolding split
split-last sep [] h = refl
split-last sep (d ∷ s) h = rw (h.0, split-last sep s h.1)

-- A letter or a digit.
abbrev IsAlnum : ℕ → Type 0
IsAlnum d = is_alnum_char d ≡ true

alnum-lacks : (d : ℕ) → IsAlnum d → nat_eq d b'_' ≡ false
unfolding is_alnum_char
alnum-lacks d h = ground arith

alnum-ascii : (d : ℕ) → IsAlnum d → ltb d 128 ≡ true
unfolding is_alnum_char
alnum-ascii d h = ground arith

All-Lacks : (s : Str) → All IsAlnum s → Lacks b'_' s
All-Lacks [] h = tt
All-Lacks (d ∷ s) h = (alnum-lacks d h.0, All-Lacks s h.1)

all_alnum : (s : Str) → All IsAlnum s → all is_alnum_char s ≡ true
all_alnum [] h = refl
all_alnum (d ∷ s) h = rw (h.0, all_alnum s h.1)

is_ascii-All : (s : Str) → All IsAlnum s → is_ascii s ≡ true
is_ascii-All [] h = refl
is_ascii-All (d ∷ s) h = rw (alnum-ascii d h.0, is_ascii-All s h.1)

isalnum-All : (c : Codec) (d : ℕ) (s : Str) → All IsAlnum (d ∷ s) → isalnum c (d ∷ s) ≡ true
unfolding isalnum
isalnum-All c d s h = rw (is_ascii-All (d ∷ s) h, all_alnum (d ∷ s) h)

char_at-All : (P : ℕ → Type 0) (i : ℕ) (s : Str) → All P s → i < length s → P (char_at i s)
unfolding char_at
char_at-All P i [] h k = absurd (omega arith)
char_at-All P zero (d ∷ s) h k = h.0
char_at-All P (suc i) (d ∷ s) h k = char_at-All P i s h.1 (omega arith)

all-All : (p : ℕ → Bool) (s : Str) → all p s ≡ true → All (λ d. p d ≡ true) s
all-All p [] h = tt
all-All p (d ∷ s) h = let (here, there) = both_true _ _ h in (here, all-All p s there)

alphabet : All IsAlnum token_alphabet
unfolding is_alnum_char
alphabet = all-All is_alnum_char token_alphabet refl

module _ (env : Env) (t : List Event) where
  generate-All : (draw n : ℕ) → All IsAlnum (generate_random_string env t draw n)
  unfolding generate_random_string
  generate-All draw zero = tt
  generate-All draw (suc n) = (
    char_at-All IsAlnum (env.random_index t draw % 62) token_alphabet alphabet (omega arith),
    generate-All (suc draw) n,
  )

  length-generate : (draw n : ℕ) → length (generate_random_string env t draw n) ≡ n
  unfolding generate_random_string
  length-generate draw zero = refl
  length-generate draw (suc n) = ap suc (length-generate (suc draw) n)

  isalnum-generate :
      (draw n : ℕ) → isalnum env.codec (generate_random_string env t draw (suc n)) ≡ true
  unfolding generate_random_string
  isalnum-generate draw n = isalnum-All env.codec _ _ (generate-All draw (suc n))

  check-generate :
      (draw : ℕ)
      → check_parts env.codec
          (generate_random_string env t 0 16)
          (generate_random_string env t 16 40)
        ≡ some (generate_random_string env t 0 16, generate_random_string env t 16 40)
  unfolding check_parts
  check-generate draw =
      rw
        (length-generate 0 16, length-generate 16 40, isalnum-generate 0 15, isalnum-generate 16 39)
        refl

-- If the brand holds no underscore, a generated token parses into its lookup id and its secret, and
-- it verifies against the hash that is stored with it.
pub parse-generate :
    (env : Env) (w : World)
    → Lacks b'_' env.token_brand
    → (g : GeneratedToken) × ((generate_scoped_token env w).0 ≡ ok g)
      × (parse_scoped_token env.codec g.full ≡ some (g.lookup_id, g.secret))
      × (verify_token env g.full g.token_hash ≡ true)
unfolding generate_scoped_token drawn_token parse_scoped_token verify_token hash_token
parse-generate env w h =
    let first = generate_random_string env w.trace 0 lookup_id_len in
    let second = generate_random_string env w.trace lookup_id_len secret_len in
    (
      drawn_token env w.trace,
      refl,
      ap (three_parts env.codec) (
            split-piece b'_' env.token_brand _ h
            ∙ ap (λ l. env.token_brand ∷ l)
                (split-piece b'_' first second (All-Lacks first (generate-All env w.trace 0 16))
                  ∙ ap (λ l. first ∷ l)
                      (split-last b'_' second (All-Lacks second (generate-All env w.trace 16 40)))))
          ∙ check-generate env w.trace 0,
      eq_refl _,
    )
