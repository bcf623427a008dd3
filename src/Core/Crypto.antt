-- ===== src/Core/Crypto.antt =====
-- Scoped tokens in src/cfproxy/core/crypto.py: how they are generated, parsed, hashed and verified.
pub mod RoundTrip
use cloudflare_manual_dns.Runtime.{Event, drawn, Env, M, pure, get_world, record_event, ◌>>=◌, ◌>>◌}
use cloudflare_manual_dns.Common.{
  ℕ, zero, suc, ◌+◌, ◌-◌, ◌*◌, ◌/◌, ◌%◌, ◌^◌, ◌≤◌, ◌<◌, ◌≡◌, refl, sym, ap, ◌∙◌, ◌≢◌, ◌↔◌, ◌⊎◌, inl,
  inr, Bool, true, false, not, ◌&&◌, ◌||◌, Option, none, some, List, [], ◌∷◌, ◌++◌, map, arith, ltb,
  leb, nat_eq, if◌then◌else◌, nat_eq_iff, Bool-cases, Option-cases, both_true, length, take, drop,
  length-append, length-take, length-drop, take-append-drop, take-nil, take_ge, drop_ge, take-add,
  All, Any, All-append, In, all, ℤ, pos_part, neg_part, sub_ℕ, ◌+ℤ◌, ◌-ℤ◌, ◌*ℤ◌, neg, ltb_ℤ, leb_ℤ,
  eq_ℤ, floor_div, pos, negsuc, Str, codes, ◌==◌, eq_refl, eq_iff, ne_of_eq, eq_of_ne, mem_str,
  mem_str_iff, has_char, count_char, ends_with, cons_head, split, join, is_space, lstrip_by, keep,
  rstrip_by, strip, is_ascii, lower_char, upper_char, is_alnum_char, Codec, lower, upper, isalnum,
  digits_from, show_ℕ, digits_value, int_literal, parse_int, split-cons, join-split, join-label,
  ends_with_sound, Json, Items, Fields, truthy, lookup, or_else, get, items, field_count, py_eq,
  py_eq_items, py_eq_fields, mem_json, null, bool, int, str, arr, obj, nil, cons, end, field,
  Exception, Result, and_then, >>=-eq-ok, ok_injective, Returns, Returns-if, Returns-bind, Exec,
  dict_fields, value_error, unicode_error, attribute_error, key_error, type_error, http_error,
  runtime_error, lock_unavailable, not_found, invalid_token, out_of_fuel, ok, raised,
}

-- `_TOKEN_ALPHABET`, `_LOOKUP_ID_LEN` and `_SECRET_LEN`
abbrev pub token_alphabet : Str
token_alphabet = codes "ABCDEFGHIJKLMNOPQRSTUVWXYZabcdefghijklmnopqrstuvwxyz0123456789"

abbrev pub lookup_id_len : ℕ
lookup_id_len = 16

abbrev pub secret_len : ℕ
secret_len = 40

unfoldable pub char_at : ℕ → Str → ℕ
char_at i [] = 0
char_at zero (d ∷ s) = d
char_at (suc i) (d ∷ s) = char_at i s

pub record GeneratedToken : Type 0 where
  pub lookup_id : Str
  pub secret : Str
  pub full : Str
  pub token_hash : Str
  pub token_prefix : Str

module _ (env : Env) where
  -- `_generate_random_string`, from this draw on.
  unfoldable pub generate_random_string : List Event → ℕ → ℕ → Str
  generate_random_string t draw zero = []
  generate_random_string t draw (suc n) =
      char_at (env.random_index t draw % 62) token_alphabet ∷ generate_random_string t (suc draw) n

  unfoldable pub hash_token : Str → Str
  hash_token full = env.sha256_hex full

  unfoldable pub verify_token : Str → Str → Bool
  verify_token full token_hash = hash_token full == token_hash

  -- The fields of the token that is drawn at this point of the trace.
  unfoldable pub drawn_token : List Event → GeneratedToken
  drawn_token t =
      let lookup_id = generate_random_string t 0 lookup_id_len in
      let secret = generate_random_string t lookup_id_len secret_len in
      let full = env.token_brand ++ (b'_' ∷ (lookup_id ++ (b'_' ∷ secret))) in
      record {
        lookup_id = lookup_id;
        secret = secret;
        full = full;
        token_hash = hash_token full;
        token_prefix = env.token_brand ++ b'_' ∷ take 6 lookup_id;
      }

  unfoldable pub generate_scoped_token : M GeneratedToken
  generate_scoped_token = do w ← get_world; record_event drawn; pure (drawn_token w.trace)

-- What is made of the three parts.
unfoldable pub check_parts : Codec → Str → Str → Option (Str × Str)
check_parts c lookup_id secret =
    if not (nat_eq (length lookup_id) lookup_id_len) || not (nat_eq (length secret) secret_len)
    then none
    else if not (isalnum c lookup_id) || not (isalnum c secret)
    then none
    else some (lookup_id, secret)

abbrev pub three_parts : Codec → List Str → Option (Str × Str)
three_parts c (brand ∷ lookup_id ∷ secret ∷ []) = check_parts c lookup_id secret
three_parts c _ = none

unfoldable pub parse_scoped_token : Codec → Str → Option (Str × Str)
parse_scoped_token c full = three_parts c (split b'_' full)
