-- ===== src/Auth/ProxyAuth/Cached.antt =====
-- The cache of rules in src/cfproxy/auth/proxy_auth.py changes no answer.
use mathlib.Core.Path.{subst}
use cloudflare_manual_dns.Authz.Scope.{Rule}
use cloudflare_manual_dns.Db.{ScopedToken}
use cloudflare_manual_dns.Upstream.Auth.{
  rules_key, find_key, put_key, cache_get_json, cache_set_json, decoded,
}
use cloudflare_manual_dns.Auth.ProxyAuth.{
  optional_text, optional_texts, rules_of_token, rules_from_db, rules_from_cache, load_rules,
  elements, rules_of_items, cache_dict_to_rule, rule_of_fields, rule_to_cache_dict, as_texts,
  as_optional_texts, as_str, as_bool, as_optional_str, as_strs,
}
use cloudflare_manual_dns.Runtime.{Env, World, cached}
use cloudflare_manual_dns.Proxy.Listing.{to_items}
use cloudflare_manual_dns.Common.{
  ◌≡◌, refl, sym, ap, ◌∙◌, inl, inr, Bool, true, false, Option, none, some, List, [], ◌∷◌, map,
  if◌then◌else◌, Bool-cases, Str, ◌==◌, eq_refl, Json, lookup, items, str, arr, and_then, ok,
}

some_injective : {A : Type 0} {a b : A} → some a ≡ some b → a ≡ b
some_injective h = cc

items-to_items : (vs : List Json) → items (to_items vs) ≡ vs
unfolding items to_items
items-to_items [] = refl
items-to_items (v ∷ vs) = ap (λ r. v ∷ r) (items-to_items vs)

as_strs-map : (ss : List Str) → as_strs (map str ss) ≡ ok ss
unfolding as_strs
as_strs-map [] = refl
as_strs-map (s ∷ ss) = rw (as_strs-map ss) refl

as_texts-texts : (ss : List Str) → as_texts (some (arr (to_items (map str ss)))) ≡ ok ss
unfolding as_texts
as_texts-texts ss = rw (items-to_items (map str ss)) (as_strs-map ss)

as_optional_str-text : (o : Option Str) → as_optional_str (some (optional_text o)) ≡ ok o
unfolding as_optional_str
as_optional_str-text none = refl
as_optional_str-text (some s) = refl

as_optional_texts-texts :
    (o : Option (List Str)) → as_optional_texts (some (optional_texts o)) ≡ ok o
unfolding as_optional_texts
as_optional_texts-texts none = refl
as_optional_texts-texts (some ss) = rw (as_texts-texts ss) refl

-- A rule that went through the cache is the rule.
cache_dict_to_rule-rule : (r : Rule) → cache_dict_to_rule (rule_to_cache_dict r) ≡ ok r
unfolding cache_dict_to_rule rule_to_cache_dict rule_of_fields lookup ◌==◌ as_str as_bool
cache_dict_to_rule-rule r =
    rw
      (
        as_optional_str-text r.name_pattern,
        as_texts-texts r.record_types,
        as_optional_texts-texts r.record_ids,
      )
      refl

rules_of_items-rules : (rs : List Rule) → rules_of_items (map rule_to_cache_dict rs) ≡ ok rs
unfolding rules_of_items
rules_of_items-rules [] = refl
rules_of_items-rules (r ∷ rs) = rw (cache_dict_to_rule-rule r, rules_of_items-rules rs) refl

find_key-put_key :
    {V : Type 0} (k : Str) (v : V) (m : List (Str × V)) → find_key k (put_key k v m) ≡ some v
unfolding find_key put_key
find_key-put_key k v [] = rw (eq_refl k) refl
find_key-put_key k v ((j, old) ∷ m) = elim (Bool-cases (j == k)) [
  | inl e ↦ rw (e, eq_refl k) refl
  | inr e ↦ rw (e, e) (find_key-put_key k v m)
]

-- The rules as they are cached.
abbrev pub cached_form : List Rule → Json
cached_form rules = arr (to_items (map rule_to_cache_dict rules))

rules_of-cached_form :
    (rules : List Rule) → and_then (elements (cached_form rules)) rules_of_items ≡ ok rules
unfolding elements
rules_of-cached_form rules =
    rw (items-to_items (map rule_to_cache_dict rules)) (rules_of_items-rules rules)

module _ (env : Env) (token : ScopedToken) where
  abbrev pub db_rules : World → List Rule
  db_rules w = rules_of_token token.id w.db.rules

  -- What is cached under the token's present key are the rules of the database.
  abbrev pub CacheAgrees : World → Type 0
  CacheAgrees w =
      (raw : Str)
      → find_key (rules_key token.lookup_id token.version) w.cache ≡ some raw
      → env.loads raw ≡ some (cached_form (db_rules w))

  from_db-CacheAgrees :
      (w : World)
      → env.loads (env.dumps (cached_form (db_rules w))) ≡ some (cached_form (db_rules w))
      → CacheAgrees w
      → ((rules_from_db env token w).0 ≡ ok (db_rules w))
        × CacheAgrees (rules_from_db env token w).1
  unfolding rules_from_db cache_set_json
  from_db-CacheAgrees w round agrees = (refl, go (env.cache_answers w.trace))
    where
      go :
          (b : Bool)
          → CacheAgrees (
              if b
              then record w {
                trace = cached (rules_key token.lookup_id token.version) ∷ w.trace;
                cache =
                    put_key
                      (rules_key token.lookup_id token.version)
                      (env.dumps (cached_form (db_rules w)))
                      w.cache;
              }
              else w)
      go true raw h =
          subst (λ r. env.loads r ≡ some (cached_form (db_rules w)))
            (some_injective
              (sym (find_key-put_key (rules_key token.lookup_id token.version) _ w.cache) ∙ h))
            round
      go false raw h = agrees raw h

  -- If the cache agrees with the database, and the database's rules come out of JSON as they went
  -- in, the rules that are loaded are the database's, whether they come from the cache, from the
  -- database after a miss, or past a cache that fails; and the cache still agrees afterwards.
  pub load_rules-CacheAgrees :
      (w : World)
      → env.loads (env.dumps (cached_form (db_rules w))) ≡ some (cached_form (db_rules w))
      → CacheAgrees w
      → ((load_rules env token w).0 ≡ ok (db_rules w)) × CacheAgrees (load_rules env token w).1
  unfolding load_rules cache_get_json
  load_rules-CacheAgrees w round agrees =
      go (env.cache_answers w.trace) (find_key (rules_key token.lookup_id token.version) w.cache)
        refl
    where
      go :
          (b : Bool) (o : Option Str)
          → find_key (rules_key token.lookup_id token.version) w.cache ≡ o
          → ((rules_from_cache env token (if b then decoded env o else none) w).0 ≡ ok (db_rules w))
            × CacheAgrees (rules_from_cache env token (if b then decoded env o else none) w).1
      go false o e = from_db-CacheAgrees w round agrees
      go true none e = from_db-CacheAgrees w round agrees
      go true (some raw) e = rw (agrees raw e) (rules_of-cached_form (db_rules w), agrees)
