-- ===== src/Services/Login/Stored.antt =====
-- The user and the session that a login in src/cfproxy/services/oauth_service.py ends with.
use mathlib.Core.Path.{subst}
use cloudflare_manual_dns.Services.Login.{
  user_row, is_none, login_claims, login_credential, commit_login, store_both, store_for,
  store_login, open_session, with_claims, nullable,
}
use cloudflare_manual_dns.Services.Credentials.{given}
use cloudflare_manual_dns.Upstream.Auth.{as_text}
use cloudflare_manual_dns.Upstream.Client.{subscript, or_key_error}
use cloudflare_manual_dns.Db.{User, UpstreamCredential, Datetime}
use cloudflare_manual_dns.Db.Users.{write_user, write_user-ok, has_sub, same_value}
use cloudflare_manual_dns.Core.Security.{claims_of, create_jwt}
use cloudflare_manual_dns.Core.Security.Current.{as_text-ok}
use cloudflare_manual_dns.Runtime.{Env, World, lift, pure}
use cloudflare_manual_dns.Runtime.Bind.{>>=-returns, lift-returns, pair_injective}
use cloudflare_manual_dns.Common.{
  ℕ, ◌≡◌, refl, sym, ap, ◌∙◌, Bool, true, false, Option, none, some, List, if◌then◌else◌, In,
  find_first, find_first-In, change-In, In-append_last, Str, codes, ◌==◌, eq_iff, Json, Fields,
  lookup, get, null, bool, int, str, arr, obj, and_then, >>=-eq-ok, ok_injective, ok,
}

-- The user of this subject, in the table.
abbrev pub IsStored : Str → User → List User → Type 0
IsStored sub user users = (user.cf_sub ≡ some sub) × In user users

has_sub-eq : (sub : Str) (u : User) → has_sub sub u ≡ true → u.cf_sub ≡ some sub
has_sub-eq sub u h = go u.cf_sub h
  where
    go : (o : Option Str) → same_value o (some sub) ≡ true → o ≡ some sub
    go none h = cc h
    go (some s) h = ap some ((eq_iff s sub).0 h)

kept_id :
    (id sub : Str) (email : Option Str) (now : Datetime) (u : User)
    → (user_row id sub email now (some u)).id ≡ u.id
unfolding user_row
kept_id id sub email now u = go (given email)
  where
    go : (b : Bool) → (if b then record u { email = email; updated_at = now } else u).id ≡ u.id
    go true = refl
    go false = refl

kept_sub :
    (id sub : Str) (email : Option Str) (now : Datetime) (u : User)
    → (user_row id sub email now (some u)).cf_sub ≡ u.cf_sub
unfolding user_row
kept_sub id sub email now u = go (given email)
  where
    go :
        (b : Bool)
        → (if b then record u { email = email; updated_at = now } else u).cf_sub ≡ u.cf_sub
    go true = refl
    go false = refl

new_sub :
    (id sub : Str) (email : Option Str) (now : Datetime)
    → (user_row id sub email now none).cf_sub ≡ some sub
unfolding user_row
new_sub id sub email now = refl

user_row-IsStored :
    (id sub : Str) (email : Option Str) (now : Datetime) (us users : List User)
    → write_user
        (is_none (find_first (has_sub sub) us))
        (user_row id sub email now (find_first (has_sub sub) us))
        us
      ≡ ok users
    → IsStored sub (user_row id sub email now (find_first (has_sub sub) us)) users
user_row-IsStored id sub email now us users h = go (find_first (has_sub sub) us) refl h
  where
    go :
        (o : Option User)
        → find_first (has_sub sub) us ≡ o
        → write_user (is_none o) (user_row id sub email now o) us ≡ ok users
        → IsStored sub (user_row id sub email now o) users
    go none e h =
        let u = user_row id sub email now none in
        (
          new_sub id sub email now,
          subst (In u) (write_user-ok true u us users h).1 (In-append_last us u),
        )
    go (some v) e h =
        let u = user_row id sub email now (some v) in
        let (old, its_sub) = find_first-In (has_sub sub) us v e in
        (
          kept_sub id sub email now v ∙ has_sub-eq sub v its_sub,
          subst (In u) (write_user-ok false u us users h).1 (
              change-In (λ x. x.id == u.id) (λ _. u) us v old
                ((eq_iff v.id u.id).1 (sym (kept_id id sub email now v)))),
        )

or_key_error-ok : (o : Option Json) (v : Json) → or_key_error o ≡ ok v → o ≡ some v
or_key_error-ok none v h = cc h
or_key_error-ok (some x) v h = ap some (ok_injective h)

pub subscript-ok :
    (v : Json) (k : Str) (x : Json)
    → subscript v k ≡ ok x
    → (fs : Fields) × (v ≡ obj fs) × (lookup k fs ≡ some x)
unfolding subscript
subscript-ok (obj fs) k x h = (fs, refl, or_key_error-ok (lookup k fs) x h)
subscript-ok null k x h = cc h
subscript-ok (bool b) k x h = cc h
subscript-ok (int n) k x h = cc h
subscript-ok (str s) k x h = cc h
subscript-ok (arr vs) k x h = cc h

module _ (env : Env) where
  commit_login-db :
      (user got : User) (users : List User) (row : Bool × UpstreamCredential) (w w' : World)
      → commit_login env user users row w ≡ (ok got, w')
      → (user ≡ got) × (users ≡ w'.db.users)
  commit_login-db user got users (is_new, c) w w' h =
      (ok_injective (pair_injective h).0, ap (λ (x : World). x.db.users) (pair_injective h).1)

  store_for-IsStored :
      (tokens : Fields) (sub : Str) (email : Option Str) (w w' : World) (user : User)
      → store_for env tokens (sub, email) w ≡ (ok user, w')
      → IsStored sub user w'.db.users
  store_for-IsStored tokens sub email w w' user h =
      let now : Datetime = record { aware = true; seconds = env.now w.trace } in
      let old = find_first (has_sub sub) w.db.users in
      let u = user_row (env.new_uuid w.trace 0) sub email now old in
      let (users, w₁, written, h₁) =
        >>=-returns (lift (write_user (is_none old) u w.db.users)) (store_both env tokens now u) w
          h in
      let (row, w₂, _, h₂) =
        >>=-returns (login_credential env tokens now u) (commit_login env u users) w₁ h₁ in
      let (same, table) = commit_login-db u user users row w₂ w' h₂ in
      let stored =
        user_row-IsStored (env.new_uuid w.trace 0) sub email now w.db.users users
          (lift-returns (write_user (is_none old) u w.db.users) w written).0 in
      rw (← same, ← table) stored

  login_claims-ok :
      (claims : Fields) (sub : Str) (email : Option Str)
      → login_claims env claims ≡ ok (sub, email)
      → lookup (codes "sub") claims ≡ some (str sub)
  unfolding login_claims
  login_claims-ok claims sub email h =
      let (s, read, h₁) =
        >>=-eq-ok (and_then (or_key_error (lookup (codes "sub") claims)) as_text)
          (λ s. and_then (nullable (get (codes "email") claims)) λ e. ok (s, e)) h in
      let (e, _, h₂) = >>=-eq-ok (nullable (get (codes "email") claims)) (λ e. ok (s, e)) h₁ in
      let (v, there, text) = >>=-eq-ok (or_key_error (lookup (codes "sub") claims)) as_text read in
      or_key_error-ok (lookup (codes "sub") claims) v there
      ∙ ap some (as_text-ok v s text ∙ ap str (ap (λ p. p.0) (ok_injective h₂)))

  -- The claims' subject is the user's, who is in the table.
  pub record IsOf (claims : Fields) (user : User) (users : List User) : Type 0 where
    pub sub : Str
    pub subject : lookup (codes "sub") claims ≡ some (str sub)
    pub stored : IsStored sub user users

  store_login-IsOf :
      (tokens claims : Fields) (w w' : World) (user : User)
      → store_login env tokens claims w ≡ (ok user, w')
      → IsOf claims user w'.db.users
  unfolding store_login
  store_login-IsOf tokens claims w w' user h =
      let ((sub, email), w₁, read, h₁) =
        >>=-returns (lift (login_claims env claims)) (store_for env tokens) w h in
      record {
        sub = sub;
        subject =
            login_claims-ok claims sub email (lift-returns (login_claims env claims) w read).0;
        stored = store_for-IsStored tokens sub email w₁ w' user h₁;
      }

  -- The session is that of the user.
  abbrev pub IsSession : Str → User → Type 0
  IsSession jwt user =
      (now : ℕ) × (jwt ≡ env.jwt_encode (claims_of user.id now env.jwt_ttl_seconds) env.jwt_secret)

  create_jwt-returns :
      (sub jwt : Str) (w w' : World)
      → create_jwt env sub w ≡ (ok jwt, w')
      → (jwt ≡ env.jwt_encode (claims_of sub (env.now w.trace) env.jwt_ttl_seconds) env.jwt_secret)
        × (w ≡ w')
  unfolding create_jwt
  create_jwt-returns sub jwt w w' h =
      (sym (ok_injective (pair_injective h).0), (pair_injective h).1)

  pub with_claims-IsOf :
      (tokens claims : Fields) (w w' : World) (user : User) (jwt : Str)
      → with_claims env tokens claims w ≡ (ok (user, jwt), w')
      → IsOf claims user w'.db.users × IsSession jwt user
  with_claims-IsOf tokens claims w w' user jwt h =
      let (u, w₁, stored, h₁) =
        >>=-returns (store_login env tokens claims) (open_session env) w h in
      let (j, w₂, made, h₂) = >>=-returns (create_jwt env u.id) (λ j. pure (u, j)) w₁ h₁ in
      let (form, same) = create_jwt-returns u.id j w₁ w₂ made in
      let q = ok_injective (pair_injective h₂).0 in
      let same_world = same ∙ (pair_injective h₂).1 in
      (
        subst (λ (x : User). IsOf claims x w'.db.users) (ap (λ p. p.0) q)
            (subst (λ (x : World). IsOf claims u x.db.users) same_world
              (store_login-IsOf tokens claims w w₁ u stored)),
        (
          env.now w₁.trace,
          sym (ap (λ p. p.1) q)
              ∙ form
              ∙ ap
                  (λ (x : User × Str).
                    env.jwt_encode (claims_of x.0.id (env.now w₁.trace) env.jwt_ttl_seconds)
                      env.jwt_secret)
                  q,
        ),
      )
