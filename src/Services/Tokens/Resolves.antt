-- ===== src/Services/Tokens/Resolves.antt =====
-- Minting in src/cfproxy/services/token_service.py against the resolution of tokens in
-- src/cfproxy/auth/proxy_auth.py: a minted token lets its holder in.
use mathlib.Core.Path.{subst}
use cloudflare_manual_dns.Core.Crypto.{
  drawn_token, generate_scoped_token, hash_token, parse_scoped_token, verify_token,
}
use cloudflare_manual_dns.Core.Crypto.RoundTrip.{Lacks, parse-generate}
use cloudflare_manual_dns.Auth.ProxyAuth.Cached.{CacheAgrees, cached_form, load_rules-CacheAgrees}
use cloudflare_manual_dns.Auth.ProxyAuth.{
  rules_of_token, find_by_lookup, is_expired, load_rules, with_credential, check_token,
  resolve_scoped_token,
}
use cloudflare_manual_dns.Upstream.Auth.{find_credential}
use cloudflare_manual_dns.Runtime.{drawn, Env, World, pure, continue}
use cloudflare_manual_dns.Services.Credentials.{get_owned_credential}
use cloudflare_manual_dns.Services.Tokens.{
  RuleInput, Minted, validate_scope_rules, new_token, mint_scoped_token,
}
use cloudflare_manual_dns.Runtime.Bind.{pair_injective, >>=-returns}
use cloudflare_manual_dns.Db.{Datetime, UpstreamCredential, ScopedToken}
use cloudflare_manual_dns.Authz.Scope.{Rule}
use cloudflare_manual_dns.Proxy.Audit.{ProxyAuthContext}
use cloudflare_manual_dns.Auth.ProxyAuth.Resolved.{find_by_lookup_lem}
use cloudflare_manual_dns.Common.{
  ◌≡◌, refl, sym, ap, ◌∙◌, ◌≢◌, inl, inr, true, Option, none, some, List, [], ◌∷◌, ◌++◌, Bool-cases,
  Option-cases, In, Str, codes, ◌==◌, eq_refl, Result, ok_injective, ok, raised,
}

-- The column of the lookup ids is unique.
abbrev pub UniqueLookups : List ScopedToken → Type 0
UniqueLookups ts = (t u : ScopedToken) → In t ts → In u ts → t.lookup_id ≡ u.lookup_id → t ≡ u

found_or_not :
    (t : ScopedToken) (ts : List ScopedToken) → In t ts → find_by_lookup t.lookup_id ts ≢ none
unfolding find_by_lookup
found_or_not t [] i = absurd i
found_or_not t (u ∷ ts) (inl e) = λ h. cc (rw (← e, eq_refl t.lookup_id) at h)
found_or_not t (u ∷ ts) (inr i) = elim (Bool-cases (u.lookup_id == t.lookup_id)) [
  | inl e ↦ λ h. cc (rw e at h)
  | inr e ↦ λ h. found_or_not t ts i (rw e at h)
]

find_by_lookup-In :
    (t : ScopedToken) (ts : List ScopedToken)
    → UniqueLookups ts
    → In t ts
    → find_by_lookup t.lookup_id ts ≡ some t
find_by_lookup-In t ts unique i = elim (Option-cases (find_by_lookup t.lookup_id ts)) [
  | inl e ↦ absurd (found_or_not t ts i e)
  | inr (u, e) ↦
      let (j, same) = find_by_lookup_lem t.lookup_id ts u e in e ∙ ap some (unique u t j i same)
]

abbrev pub let_in : ScopedToken → UpstreamCredential → List Rule → Result (Option ProxyAuthContext)
let_in t c rules = ok (some (record { token = t; rules = rules; credential = c }))

loaded_lem :
    (env : Env) (t : ScopedToken) (c : UpstreamCredential) (w : World) (rules : List Rule)
    → (load_rules env t w).0 ≡ ok rules
    → (with_credential env t (some c) w).0 ≡ let_in t c rules
loaded_lem env t c w rules h = go (load_rules env t w) h
  where
    go :
        (o : Result (List Rule) × World)
        → o.0 ≡ ok rules
        → (continue {B = Option ProxyAuthContext}
            (λ rs. pure (some (record { token = t; rules = rs; credential = c })))
            o).0
          ≡ let_in t c rules
    go (ok rs, v) k = ap (let_in t c) (ok_injective k)
    go (raised e, v) k = cc k

-- A token in the database with the hash of the text lets in, if it is active and never expires.
resolves :
    (env : Env) (full secret : Str) (t : ScopedToken) (c : UpstreamCredential) (w : World)
    (rules : List Rule)
    → parse_scoped_token env.codec full ≡ some (t.lookup_id, secret)
    → find_by_lookup t.lookup_id w.db.tokens ≡ some t
    → t.token_hash ≡ env.sha256_hex full
    → t.status ≡ codes "active"
    → t.expires_at ≡ none
    → find_credential t.upstream_credential_id w.db.credentials ≡ some c
    → (load_rules env t w).0 ≡ ok rules
    → (resolve_scoped_token env full w).0 ≡ let_in t c rules
unfolding resolve_scoped_token check_token verify_token hash_token is_expired
resolves env full secret t c w rules p f h a e k l =
    simp (p, f, h, eq_refl (env.sha256_hex full), a, eq_refl (codes "active"), e, k)
      (loaded_lem env t c w rules l)

In-last : {A : Type 0} (xs : List A) (x : A) → In x (xs ++ x ∷ [])
In-last [] x = inl refl
In-last (y ∷ xs) x = inr (In-last xs x)

-- A mint that returns has put the token of its answer into the database.
mint_lem :
    (env : Env) (user_id name credential_id : Str) (rules : List RuleInput)
    (expires_at : Option Datetime) (w w' : World) (minted : Minted)
    → mint_scoped_token env user_id name credential_id rules expires_at w ≡ (ok minted, w')
    → (u : World) × (now : Datetime) × (let t =
          new_token env user_id name credential_id expires_at minted.id
            (drawn_token env u.trace)
            now in
        In t w'.db.tokens)
      × (minted.token ≡ (drawn_token env u.trace).full)
unfolding mint_scoped_token generate_scoped_token
mint_lem env user_id name credential_id rules expires_at w w' minted h =
    let (credential, v, found, k) =
      >>=-returns (get_owned_credential user_id credential_id) _ w h in
    let (_, u, validated, m) = >>=-returns (validate_scope_rules env credential rules) _ v k in
    let now : Datetime = record { aware = true; seconds = env.now (drawn ∷ u.trace) } in
    let (answer, world) = pair_injective m in
    let row : Str → ScopedToken =
      λ i. new_token env user_id name credential_id expires_at i (drawn_token env u.trace) now in
    let id = env.new_uuid (drawn ∷ u.trace) 0 in
    (
      u,
      now,
      subst (λ (z : World). In (row minted.id) z.db.tokens) world
          (subst (λ i. In (row i) (u.db.tokens ++ row id ∷ []))
            (ap (λ (x : Minted). x.id) (ok_injective answer)) (In-last u.db.tokens (row id))),
      ap (λ (x : Minted). x.token) (sym (ok_injective answer)),
    )

-- A text is parsed as the token that was drawn with it.
parsed_lem :
    (env : Env) (u : World)
    → Lacks b'_' env.token_brand
    → (secret : Str) × (parse_scoped_token env.codec (drawn_token env u.trace).full
        ≡ some ((drawn_token env u.trace).lookup_id, secret))
unfolding generate_scoped_token
parsed_lem env u h =
    let (g, drew, parsed, _) = parse-generate env u h in
    let same : drawn_token env u.trace ≡ g = ok_injective drew in (g.secret, rw same parsed)

hash_lem :
    (env : Env) (u : World)
    → (drawn_token env u.trace).token_hash ≡ env.sha256_hex (drawn_token env u.trace).full
unfolding drawn_token hash_token
hash_lem env u = refl

-- A minted token that never expires lets its holder in, with the rules that the database has for
-- it and through the credential it was minted for: if the brand holds no underscore, the lookup ids
-- of the database are unique, the credential is still there, what the cache holds for a token of
-- the database are the rules that the database has for it, and the rules of the minted token come
-- out of JSON as they went in.
pub mint-resolve :
    (env : Env) (user_id name credential_id : Str) (rules : List RuleInput) (w w' : World)
    (minted : Minted) (credential : UpstreamCredential)
    → mint_scoped_token env user_id name credential_id rules none w ≡ (ok minted, w')
    → Lacks b'_' env.token_brand
    → UniqueLookups w'.db.tokens
    → find_credential credential_id w'.db.credentials ≡ some credential
    → ((t : ScopedToken) → In t w'.db.tokens → CacheAgrees env t w')
    → env.loads (env.dumps (cached_form (rules_of_token minted.id w'.db.rules)))
      ≡ some (cached_form (rules_of_token minted.id w'.db.rules))
    → (t : ScopedToken) × ((t.id ≡ minted.id) × (t.user_id ≡ user_id))
      × ((resolve_scoped_token env minted.token w').0
          ≡ let_in t credential (rules_of_token minted.id w'.db.rules))
mint-resolve env user_id name credential_id rules w w' minted credential h brand unique found agrees
      round =
    let (u, now, stored, text) = mint_lem env user_id name credential_id rules none w w' minted h in
    let t = new_token env user_id name credential_id none minted.id (drawn_token env u.trace) now in
    let (secret, parsed) = parsed_lem env u brand in
    (
      t,
      (refl, refl),
      subst
          (λ full.
            (resolve_scoped_token env full w').0
            ≡ let_in t credential (rules_of_token minted.id w'.db.rules))
          (sym text)
          (resolves env (drawn_token env u.trace).full secret t credential w'
            (rules_of_token minted.id w'.db.rules) parsed
            (find_by_lookup-In t w'.db.tokens unique stored) (hash_lem env u) refl refl found
            (load_rules-CacheAgrees env t w' round (agrees t stored)).0),
    )
