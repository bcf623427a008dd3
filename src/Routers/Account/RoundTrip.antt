-- ===== src/Routers/Account/RoundTrip.antt =====
-- From the registration of an account to a request in its name, in src/cfproxy/routers/auth.py.
use cloudflare_manual_dns.Core.Envelopes.{make_response}
use cloudflare_manual_dns.Core.Security.{
  claims_of, find_user, hash_password, verify_password, create_jwt, get_current_user,
}
use cloudflare_manual_dns.Core.Security.Session.{
  read_session, claims_user, session_user, get_current_user-eq,
}
use cloudflare_manual_dns.Db.{Datetime, User}
use cloudflare_manual_dns.Db.Users.{same_value, has_email, clashes, write_user}
use cloudflare_manual_dns.Routers.Replies.{bearer_token, user_response_data}
use cloudflare_manual_dns.Routers.Account.{
  AccountRequest, local_user, refused_login, register, login_with, login,
}
use cloudflare_manual_dns.Runtime.{committed, Env, World}
use cloudflare_manual_dns.Common.{
  ◌≡◌, refl, ap, ◌∙◌, ◌≢◌, Bool, true, false, not, ◌&&◌, Option, none, some, List, [], ◌∷◌, ◌++◌,
  In, find_first, find_first-none, find_first-append, none_first, find_first-head, Str, codes, ◌==◌,
  eq_refl, eq_of_ne, Json, truthy, lookup, get, str, dict_fields, ok,
}

-- What the routes rely on: argon2 accepts a password for its hash, a session is read back with its
-- claims at the time when it is made, and a UUID is not empty.
pub record IsSound (env : Env) : Type 0 where
  pub accepts :
      (w : World) (pw : Str) → env.password_matches (env.hash_password w.trace pw) pw ≡ some true
  pub reads_back :
      (w : World) (sub : Str)
      → env.jwt_decode w.trace
          (env.jwt_encode (claims_of sub (env.now w.trace) env.jwt_ttl_seconds) env.jwt_secret)
          env.jwt_secret
        ≡ some (claims_of sub (env.now w.trace) env.jwt_ttl_seconds)
  pub named : (w : World) → truthy (str (env.new_uuid w.trace 0)) ≡ true

same_value-none : (o : Option Str) → same_value o none ≡ false
same_value-none none = refl
same_value-none (some s) = refl

-- Nothing clashes with a new local user whose email nobody has.
no_clash :
    (id email hash : Str) (now : Datetime) (us : List User)
    → find_first (has_email email) us ≡ none
    → find_first (clashes (local_user id email hash now)) us ≡ none
no_clash id email hash now us h = none_first (clashes (local_user id email hash now)) us λ x i.
    rw (find_first-none (has_email email) us h x i, same_value-none x.cf_sub)
      (both_false (not (x.id == id)))
  where
    both_false : (b : Bool) → (b && false) ≡ false
    both_false true = refl
    both_false false = refl

module _ (env : Env) (body : AccountRequest) (w : World) where
  abbrev pub new_user : User
  new_user =
      local_user (env.new_uuid w.trace 0) body.email (env.hash_password w.trace body.password)
        (record { aware = true; seconds = env.now w.trace })

  abbrev pub after : World
  after = record w {
    trace = committed ∷ w.trace;
    db = record w.db { users = w.db.users ++ new_user ∷ [] };
  }

  abbrev session : Str
  session =
      env.jwt_encode (claims_of new_user.id (env.now after.trace) env.jwt_ttl_seconds)
        env.jwt_secret

  pub register_lem :
      find_first (has_email body.email) w.db.users ≡ none
      → register env body w ≡ (
        ok (make_response 201 (codes "User registered") (user_response_data env new_user)),
        after,
      )
  unfolding register write_user hash_password
  register_lem h =
      rw
        (
          h,
          no_clash (env.new_uuid w.trace 0) body.email (env.hash_password w.trace body.password)
              (record { aware = true; seconds = env.now w.trace }) w.db.users h,
        )
        refl

  found_lem :
      find_first (has_email body.email) w.db.users ≡ none
      → find_first (has_email body.email) after.db.users ≡ some new_user
  found_lem h =
      find_first-append (has_email body.email) w.db.users (new_user ∷ []) h
      ∙ find_first-head (has_email body.email) new_user [] (eq_refl body.email)

  login_lem :
      (password : Str) (b : Bool)
      → find_first (has_email body.email) w.db.users ≡ none
      → env.password_matches (env.hash_password w.trace body.password) password ≡ some b
      → login env (record { email = body.email; password = password }) after
        ≡ login_with env new_user b after
  unfolding login verify_password
  login_lem password b h e = rw (found_lem h, e) refl

  login_with_lem :
      login_with env new_user true after
      ≡ (ok (make_response 200 (codes "Login successful") (bearer_token session)), after)
  unfolding create_jwt
  login_with_lem = refl

  found_id :
      find_user new_user.id w.db.users ≡ none → find_user new_user.id after.db.users ≡ some new_user
  found_id h =
      find_first-append (λ u. u.id == new_user.id) w.db.users (new_user ∷ []) h
      ∙ find_first-head (λ u. u.id == new_user.id) new_user [] (eq_refl new_user.id)

  session_lem :
      IsSound env
      → find_user new_user.id w.db.users ≡ none
      → get_current_user env (some session) after ≡ (ok new_user, after)
  unfolding session_user claims_user claims_of dict_fields get lookup truthy ◌==◌
  session_lem sound h =
      get_current_user-eq env (some session) after
      ∙ ap (λ (o : Option Json). (read_session after.db.users o, after))
          (sound.reads_back after new_user.id)
      ∙ rw (sound.named w, found_id h) refl

-- Where the email is not taken and the new id is fresh, a registration is answered with 201 and the
-- new user. The password then logs in, and the session that it is given is read as that user, who
-- has the email. Any other password that argon2 refuses for the hash is refused.
pub register-login :
    (env : Env) (body : AccountRequest) (w : World)
    → IsSound env
    → ((u : User) → In u w.db.users → u.email ≢ some body.email)
    → ((u : User) → In u w.db.users → u.id ≢ env.new_uuid w.trace 0)
    → (u : User) × (w' : World) × (jwt : Str) × (register env body w
        ≡ (ok (make_response 201 (codes "User registered") (user_response_data env u)), w'))
      × (login env body w'
          ≡ (ok (make_response 200 (codes "Login successful") (bearer_token jwt)), w'))
      × (get_current_user env (some jwt) w' ≡ (ok u, w'))
      × (u.email ≡ some body.email)
      × ((other : Str)
          → env.password_matches (env.hash_password w.trace body.password) other ≡ some false
          → login env (record { email = body.email; password = other }) w' ≡ (ok refused_login, w'))
register-login env body w sound free fresh =
    let no_email : find_first (has_email body.email) w.db.users ≡ none =
      none_first (has_email body.email) w.db.users λ u i. unequal u.email (free u i) in
    let no_id : find_user (env.new_uuid w.trace 0) w.db.users ≡ none =
      none_first (λ u. u.id == env.new_uuid w.trace 0) w.db.users
        λ u i. eq_of_ne u.id (env.new_uuid w.trace 0) (fresh u i) in
    (
      new_user env body w,
      after env body w,
      session env body w,
      register_lem env body w no_email,
      login_lem env body w body.password true no_email (sound.accepts w body.password)
          ∙ login_with_lem env body w,
      session_lem env body w sound no_id,
      refl,
      λ other h. login_lem env body w other false no_email h,
    )
  where
    unequal : (o : Option Str) → o ≢ some body.email → same_value o (some body.email) ≡ false
    unequal none h = refl
    unequal (some s) h = eq_of_ne s body.email (λ e. h (ap some e))
