-- ===== src/Routers/Account/Unique.antt =====
-- The accounts of src/cfproxy/routers/auth.py have emails, and subjects at Cloudflare, of their own.
use mathlib.Core.Path.{subst}
use cloudflare_manual_dns.Routers.Account.RoundTrip.{new_user, register_lem}
use cloudflare_manual_dns.Routers.Account.{
  AccountRequest, add_user, register_new, register, cf_callback, logged_in, user_response_data,
}
use cloudflare_manual_dns.Routers.Replies.{except_value_error, or_bad_request}
use cloudflare_manual_dns.Services.Login.{
  oauth_state_key, cache_getdel, stored_state, consume_oauth_state, commit_login, store_both,
  store_for, store_login, login_claims, login_credential, with_state, handle_cf_oauth_callback,
}
use cloudflare_manual_dns.Services.Login.Kept.{
  login_credential-Keeps, stored_state-Keeps, with_state-Keeps,
}
use cloudflare_manual_dns.Db.{User, Datetime}
use cloudflare_manual_dns.Db.Users.{has_email, write_user, same_value}
use cloudflare_manual_dns.Db.Users.Unique.{UniqueUsers, write_user-UniqueUsers}
use cloudflare_manual_dns.Core.Security.{hash_password}
use cloudflare_manual_dns.Core.Envelopes.{Reply, make_response}
use cloudflare_manual_dns.Services.Credentials.{commit}
use cloudflare_manual_dns.Runtime.{Env, World, M, lift, ◌>>=◌, continue, Event}
use cloudflare_manual_dns.Runtime.Keeps.{IsStable, Keeps, Keeps-bind}
use cloudflare_manual_dns.Common.{
  ◌≡◌, refl, sym, ap, ◌∙◌, ◌≢◌, inl, inr, Bool, true, false, Option, none, some, List, [], ◌∷◌,
  ◌++◌, Bool-cases, Option-cases, In, find_first, find_first-In, find_first-none, Str, codes,
  eq_refl, eq_iff, Fields, null, Result, ok, raised,
}

abbrev HasUnique : World → Type 0
HasUnique w = UniqueUsers w.db.users

HasUnique-IsStable : IsStable HasUnique
HasUnique-IsStable = record { traced = λ w t h. h; stored = λ w j h. h }

module _ (env : Env) where
  -- What becomes of a written table.
  written :
      {A : Type 0} (is_new : Bool) (u : User) (next : List User → M A) (w : World)
      → HasUnique w
      → ((users : List User) → UniqueUsers users → HasUnique (next users w).1)
      → HasUnique ((lift (write_user is_new u w.db.users) >>= next) w).1
  written {A} is_new u next w h rest = go (write_user is_new u w.db.users) refl
    where
      go :
          (r : Result (List User))
          → write_user is_new u w.db.users ≡ r
          → HasUnique (continue next (r, w)).1
      go (ok users) e = rest users (write_user-UniqueUsers is_new u w.db.users users h e)
      go (raised x) e = h

  store_both-UniqueUsers :
      (tokens : Fields) (now : Datetime) (user : User) (users : List User)
      → UniqueUsers users
      → Keeps HasUnique (store_both env tokens now user users)
  store_both-UniqueUsers tokens now user users whole =
      Keeps-bind HasUnique (login_credential env tokens now user) (commit_login env user users)
        (login_credential-Keeps env HasUnique tokens now user) λ (is_new, credential) w h. whole

  store_login-UniqueUsers :
      (tokens claims : Fields) → Keeps HasUnique (store_login env tokens claims)
  unfolding store_login
  store_login-UniqueUsers tokens claims =
      Keeps-bind HasUnique (lift (login_claims env claims)) (store_for env tokens) (λ w h. h)
        λ (cf_sub, email) w h.
          written _ _ (store_both env tokens _ _) w h
            λ users whole. store_both-UniqueUsers tokens _ _ users whole w h

  callback-UniqueUsers :
      (code state : Str) → Keeps HasUnique (handle_cf_oauth_callback env code state)
  unfolding handle_cf_oauth_callback consume_oauth_state cache_getdel
  callback-UniqueUsers code state =
      Keeps-bind HasUnique (consume_oauth_state env state) (with_state env code)
        (Keeps-bind HasUnique (cache_getdel env (oauth_state_key state)) (stored_state env)
          (getdel-UniqueUsers (oauth_state_key state)) (stored_state-Keeps env HasUnique))
        (with_state-Keeps env HasUnique HasUnique-IsStable store_login-UniqueUsers code)
    where
      getdel-UniqueUsers : (key : Str) → Keeps HasUnique (cache_getdel env key)
      getdel-UniqueUsers key w h = elim (Bool-cases (env.cache_answers w.trace)) [
        | inl a ↦ rw a h
        | inr a ↦ rw a h
      ]

  add_user-UniqueUsers : (user : User) → Keeps HasUnique (add_user env user)
  add_user-UniqueUsers user w h =
      written true user (λ users. commit λ db. record db { users = users }) w h λ users whole. whole

  register_new-UniqueUsers :
      (body : AccountRequest) (o : Option User) → Keeps HasUnique (register_new env body o)
  unfolding hash_password
  register_new-UniqueUsers body (some u) w h = h
  register_new-UniqueUsers body none w h =
      Keeps-bind HasUnique (add_user env _) _ (add_user-UniqueUsers _) (λ _ v k. k) w h

  or_bad_request-UniqueUsers :
      (m : M Reply) → Keeps HasUnique m → Keeps HasUnique (or_bad_request m)
  or_bad_request-UniqueUsers m first w h = go (m w) (first w h)
    where
      go : (r : Result Reply × World) → HasUnique r.1 → HasUnique (except_value_error r).1
      go (ok reply, v) k = k
      go (raised e, v) k = k

email_taken : (email : Str) (u : User) → has_email email u ≡ true → u.email ≡ some email
email_taken email u h = go u.email h
  where
    go : (o : Option Str) → same_value o (some email) ≡ true → o ≡ some email
    go none h = cc h
    go (some s) h = ap some ((eq_iff s email).0 h)

email_free : (email : Str) (u : User) → has_email email u ≡ false → u.email ≢ some email
email_free email u h e = cc (sym (eq_refl email) ∙ ap (λ o. same_value o (some email)) (sym e) ∙ h)

-- What registering does: it refuses an email that a user has, and else adds a user with it. The
-- unique columns of the table never come into it.
pub data Registered (env : Env) (body : AccountRequest) (w : World)
    : Result Reply × World → Type 0 where
  taken :
      (u : User)
      → In u w.db.users
      → u.email ≡ some body.email
      → Registered env body w (ok (make_response 409 (codes "Email already registered") null), w)
  added :
      (u : User) (t : List Event)
      → ((x : User) → In x w.db.users → x.email ≢ some body.email)
      → u.email ≡ some body.email
      → u.cf_sub ≡ none
      → Registered env body w (
        ok (make_response 201 (codes "User registered") (user_response_data env u)),
        record w { trace = t; db = record w.db { users = w.db.users ++ u ∷ [] } },
      )

register-Registered :
    (env : Env) (body : AccountRequest) (w : World) → Registered env body w (register env body w)
unfolding register
register-Registered env body w =
    elim (Option-cases (find_first (has_email body.email) w.db.users)) [
      | inl e ↦ subst (Registered env body w) (sym (register_lem env body w e)) (
          added (new_user env body w) _
            (λ x i.
              email_free body.email x (find_first-none (has_email body.email) w.db.users e x i))
            refl refl)
      | inr (u, e) ↦
          let (i, has) = find_first-In (has_email body.email) w.db.users u e in
          rw e (taken u i (email_taken body.email u has))
    ]

-- Registering answers 409 and changes nothing if a user has the email, and else adds one user with
-- it, so it never runs into the unique columns. If emails and subjects at Cloudflare are unique in
-- the table of users before, they are after it, and after the callback of the login at Cloudflare,
-- whatever that returns or raises.
pub accounts-UniqueUsers :
    (env : Env) (body : AccountRequest) (code state : Str) (w : World)
    → UniqueUsers w.db.users
    → Registered env body w (register env body w)
      × UniqueUsers (register env body w).1.db.users
      × UniqueUsers (cf_callback env code state w).1.db.users
unfolding register cf_callback
accounts-UniqueUsers env body code state w h = (
  register-Registered env body w,
  register_new-UniqueUsers env body (find_first (has_email body.email) w.db.users) w h,
  or_bad_request-UniqueUsers env (handle_cf_oauth_callback env code state >>= logged_in)
      (Keeps-bind HasUnique (handle_cf_oauth_callback env code state) logged_in
        (callback-UniqueUsers env code state) λ (user, jwt) v k. k)
      w h,
)
