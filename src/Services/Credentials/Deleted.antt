-- ===== src/Services/Credentials/Deleted.antt =====
-- Deleting a credential in src/cfproxy/services/credential_service.py against the resolution of
-- tokens in src/cfproxy/auth/proxy_auth.py.
use mathlib.Core.Path.{subst}
use cloudflare_manual_dns.Upstream.Auth.Keeps.{cache_del-db}
use cloudflare_manual_dns.Services.Credentials.{
  get_owned_credential, zones_key, commit, depends, drop_rules, revoke_dependents,
  remove_credential, erase_credential, delete_credential,
}
use cloudflare_manual_dns.Upstream.Auth.{rules_key, oauth_at_key, cache_del}
use cloudflare_manual_dns.Proxy.Audit.{ProxyAuthContext}
use cloudflare_manual_dns.Auth.ProxyAuth.{resolve_scoped_token}
use cloudflare_manual_dns.Auth.ProxyAuth.Resolved.{resolve_scoped_token-IsResolved}
use cloudflare_manual_dns.Runtime.{Env, World, ◌>>◌}
use cloudflare_manual_dns.Db.{Datetime, Database, ScopedToken, UpstreamCredential}
use cloudflare_manual_dns.Runtime.Bind.{>>=-returns}
use cloudflare_manual_dns.Common.{
  ◌≡◌, refl, sym, ap, ◌∙◌, ◌≢◌, inl, inr, Bool, true, false, some, List, [], ◌∷◌, if◌then◌else◌, In,
  Str, ◌==◌, ne_of_eq, Result, ok,
}

removed-In :
    (b : Bool) (id : Str) (d c : UpstreamCredential) (rest : List UpstreamCredential)
    → (d.id == id) ≡ b
    → (In c rest → c.id ≢ id)
    → In c (if b then rest else d ∷ rest)
    → c.id ≢ id
removed-In true id d c rest h later i = later i
removed-In false id d c rest h later (inl i) =
    λ e. ne_of_eq d.id id h (ap (λ (x : UpstreamCredential). x.id) (sym i) ∙ e)
removed-In false id d c rest h later (inr i) = later i

remove_credential-In :
    (id : Str) (cs : List UpstreamCredential) (c : UpstreamCredential)
    → In c (remove_credential id cs)
    → c.id ≢ id
unfolding remove_credential
remove_credential-In id [] c i = absurd i
remove_credential-In id (d ∷ cs) c i =
    removed-In (d.id == id) id d c (remove_credential id cs) refl (remove_credential-In id cs c) i

drop_rules-db :
    (env : Env) (id : Str) (ts : List ScopedToken) (w : World)
    → (drop_rules env id ts w).1.db ≡ w.db
unfolding drop_rules cache_del
drop_rules-db env id [] w = refl
drop_rules-db env id (t ∷ ts) w = go (depends id t) (drop_rules-db env id ts)
  where
    go :
        (b : Bool)
        → ((v : World) → (drop_rules env id ts v).1.db ≡ v.db)
        → ((if b
              then cache_del env (rules_key t.lookup_id t.version) >> drop_rules env id ts
              else drop_rules env id ts)
            w).1.db
          ≡ w.db
    go true later = later _ ∙ cache_del-db env (rules_key t.lookup_id t.version) w
    go false later = later w

erase_lem :
    (env : Env) (id : Str) (w w' : World)
    → erase_credential env id w ≡ (ok tt, w')
    → w'.db.credentials ≡ remove_credential id w.db.credentials
unfolding erase_credential
erase_lem env id w w' h =
    let now : Datetime = record { aware = true; seconds = env.now w.trace } in
    let finish : Database → Database = λ db. record db {
      tokens = revoke_dependents id now db.tokens;
      credentials = remove_credential id db.credentials;
    } in
    let (_, w₁, dropped, k) =
      >>=-returns (drop_rules env id w.db.tokens)
        (λ _. cache_del env (oauth_at_key id) >> (cache_del env (zones_key id) >> commit finish)) w
        h in
    let (_, w₂, first, m) =
      >>=-returns (cache_del env (oauth_at_key id))
        (λ _. cache_del env (zones_key id) >> commit finish) w₁ k in
    let (_, w₃, second, n) = >>=-returns (cache_del env (zones_key id)) (λ _. commit finish) w₂ m in
    let kept : w₃.db ≡ w.db =
      ap (λ (o : Result (Unit {0}) × World). o.1.db) (sym second)
      ∙ cache_del-db env (zones_key id) w₂
      ∙ ap (λ (o : Result (Unit {0}) × World). o.1.db) (sym first)
      ∙ cache_del-db env (oauth_at_key id) w₁
      ∙ ap (λ (o : Result (Unit {0}) × World). o.1.db) (sym dropped)
      ∙ drop_rules-db env id w.db.tokens w in
    ap (λ (o : Result (Unit {0}) × World). o.1.db.credentials) (sym n)
    ∙ ap (λ (d : Database). remove_credential id d.credentials) kept

-- After a credential is deleted, no text is resolved to a token that forwards through it.
pub delete-resolve :
    (env : Env) (user_id credential_id full_token : Str) (w w' w'' : World)
    (context : ProxyAuthContext)
    → delete_credential env user_id credential_id w ≡ (ok tt, w')
    → resolve_scoped_token env full_token w' ≡ (ok (some context), w'')
    → context.token.upstream_credential_id ≢ credential_id
unfolding delete_credential
delete-resolve env user_id credential_id full_token w w' w'' context h k e =
    let (_, v, _, erased) =
      >>=-returns (get_owned_credential user_id credential_id)
        (λ _. erase_credential env credential_id) w h in
    let r = resolve_scoped_token-IsResolved env full_token w' w'' context k in
    remove_credential-In credential_id v.db.credentials context.credential
      (subst (In context.credential) (erase_lem env credential_id v w' erased) r.credential)
      (r.bound ∙ e)
