-- ===== src/Services/Tokens/Revoked.antt =====
-- Revoking and rotating in src/cfproxy/services/token_service.py against the resolution of tokens in
-- src/cfproxy/auth/proxy_auth.py: nobody gets in by a token that was revoked or rotated away.
use cloudflare_manual_dns.Upstream.Auth.Keeps.{if-db, cache_del-db}
use cloudflare_manual_dns.Services.Tokens.{
  give_token, rotated, Rotated, rotate_scoped_token, find_owned_token, get_owned_scoped_token,
  revoke_scoped_token, change_token, generate_scoped_token,
}
use cloudflare_manual_dns.Core.Crypto.{generate_scoped_token, drawn_token, parse_scoped_token}
use cloudflare_manual_dns.Runtime.{Env, World, or_raise}
use mathlib.Core.Path.{subst}
use cloudflare_manual_dns.Upstream.Auth.{rules_key, cache_del}
use cloudflare_manual_dns.Proxy.Audit.{ProxyAuthContext}
use cloudflare_manual_dns.Services.Credentials.{commit, revoked}
use cloudflare_manual_dns.Auth.ProxyAuth.{resolve_scoped_token}
use cloudflare_manual_dns.Auth.ProxyAuth.Resolved.{resolve_scoped_token-IsResolved}
use cloudflare_manual_dns.Db.{Datetime, Database, ScopedToken}
use cloudflare_manual_dns.Runtime.Bind.{pair_injective, >>=-returns}
use cloudflare_manual_dns.Common.{
  ◌≡◌, refl, sym, ap, ◌∙◌, ◌≢◌, inl, inr, Bool, true, false, Option, none, some, List, [], ◌∷◌,
  if◌then◌else◌, In, Str, ◌==◌, ne_of_eq, Exception, Result, token_not_found, ok, raised,
}

-- A row of the changed table with this id is a changed row.
change_token-In :
    (id : Str) (f : ScopedToken → ScopedToken) (ts : List ScopedToken) (t : ScopedToken)
    → ((u : ScopedToken) → (f u).id ≡ u.id)
    → In t (change_token id f ts)
    → t.id ≡ id
    → (u : ScopedToken) × (t ≡ f u)
unfolding change_token
change_token-In id f [] t keeps i e = absurd i
change_token-In id f (u ∷ ts) t keeps (inr i) e = change_token-In id f ts t keeps i e
change_token-In id f (u ∷ ts) t keeps (inl i) e = go (u.id == id) refl i
  where
    go : (b : Bool) → (u.id == id) ≡ b → t ≡ (if b then f u else u) → (u : ScopedToken) × (t ≡ f u)
    go true h k = (u, k)
    go false h k = absurd (ne_of_eq u.id id h (ap (λ (x : ScopedToken). x.id) (sym k) ∙ e))

raised_not_ok : {A : Type 0} (e : Exception) {a : A} → ◌≡◌ {A = Result A} (raised e) (ok a) → ⊥
raised_not_ok e i = cc

or_raise-world :
    {A : Type 0} (e : Exception) {a : A} {w v : World} (o : Option A)
    → or_raise e o w ≡ (ok a, v)
    → w ≡ v
or_raise-world e none h = absurd (raised_not_ok e (pair_injective h).0)
or_raise-world e (some x) h = (pair_injective h).1

-- A revocation that returns has changed the rows of the token.
revoke_lem :
    (env : Env) (user_id token_id : Str) (w w' : World)
    → revoke_scoped_token env user_id token_id w ≡ (ok tt, w')
    → (now : Datetime) × (w'.db.tokens ≡ change_token token_id (revoked now) w.db.tokens)
unfolding revoke_scoped_token get_owned_scoped_token
revoke_lem env user_id token_id w w' h =
    let (old, v, found, k) = >>=-returns (get_owned_scoped_token user_id token_id) _ w h in
    let now : Datetime = record { aware = true; seconds = env.now v.trace } in
    let (_, u, done, m) =
      >>=-returns
        (commit (λ db. record db { tokens = change_token token_id (revoked now) db.tokens }))
        (λ _. cache_del env (rules_key old.lookup_id old.version)) v k in
    let same : v ≡ w = sym (
      or_raise-world (token_not_found token_id) (find_owned_token user_id token_id w.db.tokens)
        found) in
    (
      now,
      ap (λ (x : World). x.db.tokens) (sym (pair_injective m).1)
          ∙ ap (λ (d : Database). d.tokens)
              (cache_del-db env (rules_key old.lookup_id old.version) u)
          ∙ ap (λ (x : World). x.db.tokens) (sym (pair_injective done).1)
          ∙ ap (λ (x : World). change_token token_id (revoked now) x.db.tokens) same,
    )

-- After a token is revoked, no text is resolved to it: neither its own nor any other.
pub revoke-resolve :
    (env : Env) (user_id token_id full_token : Str) (w w' w'' : World) (context : ProxyAuthContext)
    → revoke_scoped_token env user_id token_id w ≡ (ok tt, w')
    → resolve_scoped_token env full_token w' ≡ (ok (some context), w'')
    → context.token.id ≢ token_id
revoke-resolve env user_id token_id full_token w w' w'' context h k e =
    let (now, changed) = revoke_lem env user_id token_id w w' h in
    let r = resolve_scoped_token-IsResolved env full_token w' w'' context k in
    let (u, row) =
      change_token-In token_id (revoked now) w.db.tokens context.token (λ t. refl)
        (subst (In context.token) changed r.stored) e in
    cc (r.active, ap (λ (t : ScopedToken). t.status) row)

give_token_lem :
    (env : Env) (token_id : Str) (old : ScopedToken) (w : World)
    → (give_token env token_id old w).1.db.tokens
      ≡ change_token token_id (rotated (drawn_token env w.trace)) w.db.tokens
unfolding give_token generate_scoped_token cache_del
give_token_lem env token_id old w =
    ap (λ (d : Database). d.tokens) (if-db (env.cache_answers _) _ _ refl)

-- A rotation that returns has given the row of the token what was drawn.
rotate_lem :
    (env : Env) (user_id token_id : Str) (w w' : World) (r : Rotated)
    → rotate_scoped_token env user_id token_id w ≡ (ok r, w')
    → w'.db.tokens ≡ change_token token_id (rotated (drawn_token env w.trace)) w.db.tokens
unfolding rotate_scoped_token get_owned_scoped_token
rotate_lem env user_id token_id w w' r h =
    let (old, v, found, k) =
      >>=-returns (get_owned_scoped_token user_id token_id) (give_token env token_id) w h in
    let same : v ≡ w = sym (
      or_raise-world (token_not_found token_id) (find_owned_token user_id token_id w.db.tokens)
        found) in
    ap (λ (o : Result Rotated × World). o.1.db.tokens) (sym k)
    ∙ give_token_lem env token_id old v
    ∙ ap (λ (z : World). change_token token_id (rotated (drawn_token env z.trace)) z.db.tokens) same

some_pair :
    {A B : Type 0} {a a' : A} {b b' : B}
    → ◌≡◌ {A = Option (A × B)} (some (a, b)) (some (a', b'))
    → a ≡ a'
some_pair h = cc

-- After a token is rotated, a text with another lookup id than the drawn one is not resolved to it:
-- the old text gets nobody in, unless the draw repeats its lookup id.
pub rotate-resolve :
    (env : Env) (user_id token_id full_token lookup_id secret : Str) (w w' w'' : World)
    (r : Rotated) (context : ProxyAuthContext)
    → rotate_scoped_token env user_id token_id w ≡ (ok r, w')
    → parse_scoped_token env.codec full_token ≡ some (lookup_id, secret)
    → lookup_id ≢ (drawn_token env w.trace).lookup_id
    → resolve_scoped_token env full_token w' ≡ (ok (some context), w'')
    → context.token.id ≢ token_id
rotate-resolve env user_id token_id full_token lookup_id secret w w' w'' r context h p differs k e =
    let i = resolve_scoped_token-IsResolved env full_token w' w'' context k in
    let (u, row) =
      change_token-In token_id (rotated (drawn_token env w.trace)) w.db.tokens context.token
        (λ t. refl) (subst (In context.token) (rotate_lem env user_id token_id w w' r h) i.stored)
        e in
    differs (some_pair (sym p ∙ i.parsed) ∙ ap (λ (t : ScopedToken). t.lookup_id) row)
