-- ===== src/Auth/ProxyAuth/Resolved.antt =====
-- `resolve_scoped_token` of src/cfproxy/auth/proxy_auth.py: whom it lets in.
use cloudflare_manual_dns.Db.{Datetime, UpstreamCredential, ScopedToken}
use mathlib.Core.Path.{subst}
use cloudflare_manual_dns.Core.Crypto.{parse_scoped_token, verify_token, hash_token}
use cloudflare_manual_dns.Upstream.Auth.{find_credential}
use cloudflare_manual_dns.Proxy.Audit.{ProxyAuthContext}
use cloudflare_manual_dns.Auth.ProxyAuth.{
  find_by_lookup, is_expired, load_rules, with_credential, unless_expired, check_token, with_token,
  with_parts, resolve_scoped_token,
}
use cloudflare_manual_dns.Runtime.{Env, World, lift}
use cloudflare_manual_dns.Runtime.Bind.{pair_injective, >>=-returns, lift-returns}
use cloudflare_manual_dns.Common.{
  ◌≡◌, refl, sym, ap, ◌∙◌, inl, inr, Bool, true, false, Option, none, some, List, [], ◌∷◌,
  Bool-cases, In, Str, codes, ◌==◌, eq_iff, Result, ok_injective, ok,
}

abbrev pub now_at : Env → World → Datetime
now_at env w = record { aware = true; seconds = env.now w.trace }

module _ (env : Env) (full_token : Str) (w w' : World) where
  -- The text is that of a token of the database, which is active and current, and has a credential
  -- there; the rules are what the load gave.
  pub record IsResolved (context : ProxyAuthContext) : Type 0 where
    pub secret : Str
    pub parsed : parse_scoped_token env.codec full_token ≡ some (context.token.lookup_id, secret)
    pub stored : In context.token w.db.tokens
    pub hash : env.sha256_hex full_token ≡ context.token.token_hash
    pub active : context.token.status ≡ codes "active"
    pub current : is_expired context.token.expires_at (now_at env w) ≡ ok false
    pub credential : In context.credential w.db.credentials
    pub bound : context.credential.id ≡ context.token.upstream_credential_id
    pub rules : load_rules env context.token w ≡ (ok context.rules, w')

some_injective : {A : Type 0} {a b : A} → some a ≡ some b → a ≡ b
some_injective h = cc

pub find_by_lookup_lem :
    (lookup_id : Str) (ts : List ScopedToken) (t : ScopedToken)
    → find_by_lookup lookup_id ts ≡ some t
    → In t ts × (t.lookup_id ≡ lookup_id)
unfolding find_by_lookup
find_by_lookup_lem lookup_id [] t h = cc
find_by_lookup_lem lookup_id (u ∷ ts) t h = elim (Bool-cases (u.lookup_id == lookup_id)) [
  | inl e ↦
      let same : u ≡ t = some_injective (rw e at h) in
      (
        inl (sym same),
        ap (λ (x : ScopedToken). x.lookup_id) (sym same) ∙ (eq_iff u.lookup_id lookup_id).0 e,
      )
  | inr e ↦ let (i, k) = find_by_lookup_lem lookup_id ts t (rw e at h) in (inr i, k)
]

find_credential_lem :
    (id : Str) (cs : List UpstreamCredential) (c : UpstreamCredential)
    → find_credential id cs ≡ some c
    → In c cs × (c.id ≡ id)
unfolding find_credential
find_credential_lem id [] c h = cc
find_credential_lem id (u ∷ cs) c h = elim (Bool-cases (u.id == id)) [
  | inl e ↦
      let same : u ≡ c = some_injective (rw e at h) in
      (inl (sym same), ap (λ (x : UpstreamCredential). x.id) (sym same) ∙ (eq_iff u.id id).0 e)
  | inr e ↦ let (i, k) = find_credential_lem id cs c (rw e at h) in (inr i, k)
]

none_not_some :
    {A : Type 0} {w w' : World} {a : A}
    → ◌≡◌ {A = Result (Option A) × World} (ok none, w) (ok (some a), w')
    → ⊥
none_not_some h = no_some (ok_injective (pair_injective h).0)
  where
    no_some : {A : Type 0} {a : A} → none ≡ some a → ⊥
    no_some k = cc

module _ (env : Env) (full_token : Str) (w w' : World) (context : ProxyAuthContext) where
  -- What is still to be checked of a token that was found.
  abbrev IsChecked : ScopedToken → Type 0
  IsChecked t =
      (context.token ≡ t)
      × (env.sha256_hex full_token ≡ t.token_hash)
      × (t.status ≡ codes "active")
      × (is_expired t.expires_at (now_at env w) ≡ ok false)
      × In context.credential w.db.credentials
      × (context.credential.id ≡ t.upstream_credential_id)
      × (load_rules env t w ≡ (ok context.rules, w'))

  with_credential_lem :
      (t : ScopedToken) (o : Option UpstreamCredential)
      → find_credential t.upstream_credential_id w.db.credentials ≡ o
      → with_credential env t o w ≡ (ok (some context), w')
      → (context.token ≡ t)
        × In context.credential w.db.credentials
        × (context.credential.id ≡ t.upstream_credential_id)
        × (load_rules env t w ≡ (ok context.rules, w'))
  with_credential_lem t none e h = absurd (none_not_some h)
  with_credential_lem t (some credential) e h =
      let (rules, v, loaded, k) = >>=-returns (load_rules env t) _ w h in
      let (returned, ended) = pair_injective k in
      let same = some_injective (ok_injective returned) in
      let (i, bound) = find_credential_lem t.upstream_credential_id w.db.credentials credential e in
      let its = ap (λ (x : ProxyAuthContext). x.credential) same in
      (
        ap (λ (x : ProxyAuthContext). x.token) (sym same),
        subst (λ c. In c w.db.credentials) its i,
        ap (λ (c : UpstreamCredential). c.id) (sym its) ∙ bound,
        loaded ∙ cc (ended, ap (λ (x : ProxyAuthContext). x.rules) same),
      )

  unless_expired_lem :
      (t : ScopedToken) (b : Bool)
      → unless_expired env t b w ≡ (ok (some context), w')
      → (b ≡ false)
        × ((context.token ≡ t)
            × In context.credential w.db.credentials
            × (context.credential.id ≡ t.upstream_credential_id)
            × (load_rules env t w ≡ (ok context.rules, w')))
  unless_expired_lem t true h = absurd (none_not_some h)
  unless_expired_lem t false h = (
    refl,
    with_credential_lem t (find_credential t.upstream_credential_id w.db.credentials) refl h,
  )

  check_token_lem :
      (t : ScopedToken) → check_token env full_token t w ≡ (ok (some context), w') → IsChecked t
  unfolding check_token verify_token hash_token
  check_token_lem t h = elim (Bool-cases (env.sha256_hex full_token == t.token_hash)) [
    | inr e ↦ absurd (none_not_some (rw e at h))
    | inl e ↦ elim (Bool-cases (t.status == codes "active")) [
      | inr f ↦ absurd (none_not_some (rw (e, f) at h))
      | inl f ↦
          let (b, v, lifted, k) =
            >>=-returns (lift (is_expired t.expires_at (now_at env w))) (unless_expired env t) w
              (rw (e, f) at h) in
          let (checked, same) = lift-returns (is_expired t.expires_at (now_at env w)) w lifted in
          let (current, (its, stored, bound, loaded)) = unless_expired_lem t b (rw (← same) at k) in
          (
            its,
            (eq_iff (env.sha256_hex full_token) t.token_hash).0 e,
            (eq_iff t.status (codes "active")).0 f,
            rw current at checked,
            stored,
            bound,
            loaded,
          )
    ]
  ]

  with_token_lem :
      (lookup_id secret : Str) (o : Option ScopedToken)
      → parse_scoped_token env.codec full_token ≡ some (lookup_id, secret)
      → find_by_lookup lookup_id w.db.tokens ≡ o
      → with_token env full_token o w ≡ (ok (some context), w')
      → IsResolved env full_token w w' context
  with_token_lem lookup_id secret none p e h = absurd (none_not_some h)
  with_token_lem lookup_id secret (some t) p e h =
      let (same, hash, active, current, credential, bound, rules) = check_token_lem t h in
      let (i, its) = find_by_lookup_lem lookup_id w.db.tokens t e in
      record {
        secret = secret;
        parsed = rw (same, its) p;
        stored = rw same i;
        hash = rw same hash;
        active = rw same active;
        current = rw same current;
        credential = credential;
        bound = rw same bound;
        rules = rw same rules;
      }

  with_parts_lem :
      (o : Option (Str × Str))
      → parse_scoped_token env.codec full_token ≡ o
      → with_parts env full_token o w ≡ (ok (some context), w')
      → IsResolved env full_token w w' context
  with_parts_lem none p h = absurd (none_not_some h)
  with_parts_lem (some (lookup_id, secret)) p h =
      with_token_lem lookup_id secret (find_by_lookup lookup_id w.db.tokens) p refl h

-- A text that is resolved to a context is that of a token of the database with the hash of the
-- text, which is active and not expired at that moment; the credential is the one of the database
-- that the token is bound to, and the rules are those that the load of the token's rules gives.
pub resolve_scoped_token-IsResolved :
    (env : Env) (full_token : Str) (w w' : World) (context : ProxyAuthContext)
    → resolve_scoped_token env full_token w ≡ (ok (some context), w')
    → IsResolved env full_token w w' context
unfolding resolve_scoped_token
resolve_scoped_token-IsResolved env full_token w w' context h =
    with_parts_lem env full_token w w' context (parse_scoped_token env.codec full_token) refl h
