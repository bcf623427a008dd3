-- ===== src/Core/Security/Session.antt =====
-- `get_current_user` of src/cfproxy/core/security.py as a function of the token and the table.
use cloudflare_manual_dns.Core.Security.{
  find_user, expire, decode_jwt, if_active, user_of_claims, get_current_user,
}
use cloudflare_manual_dns.Upstream.Auth.{as_text}
use cloudflare_manual_dns.Db.{User}
use cloudflare_manual_dns.Runtime.{
  Event, Env, World, pure, raise, lift, or_raise, get_world, continue, ◌>>=◌,
}
use cloudflare_manual_dns.Common.{
  ◌≡◌, refl, Bool, true, false, not, Option, none, some, List, if◌then◌else◌, Str, codes, Json,
  Fields, truthy, get, Result, and_then, dict_fields, not_authenticated, invalid_jwt, ok, raised,
}

abbrev pub active_user : Option User → Result User
active_user none = raised (not_authenticated (codes "Invalid or inactive user"))
active_user (some u) =
    if u.is_active then ok u else raised (not_authenticated (codes "Invalid or inactive user"))

abbrev pub subject_user : List User → Json → Result User
subject_user users sub =
    if not (truthy sub)
    then raised (not_authenticated (codes "Invalid token"))
    else and_then (as_text sub) λ id. active_user (find_user id users)

unfoldable pub claims_user : List User → Json → Result User
claims_user users payload =
    and_then (dict_fields payload) λ claims. subject_user users (get (codes "sub") claims)

abbrev pub read_session : List User → Option Json → Result User
read_session users none = raised (not_authenticated (codes "Invalid or expired token"))
read_session users (some payload) = claims_user users payload

unfoldable pub session_user : Env → List Event → List User → Option Str → Result User
session_user env t users none = raised (not_authenticated (codes "Not authenticated"))
session_user env t users (some token) = read_session users (env.jwt_decode t token env.jwt_secret)

user_of_claims-eq :
    (payload : Json) (w : World) → user_of_claims payload w ≡ (claims_user w.db.users payload, w)
unfolding user_of_claims claims_user
user_of_claims-eq payload w = with_claims (dict_fields payload)
  where
    with_user : (o : Option User) → if_active o w ≡ (active_user o, w)
    with_user none = refl
    with_user (some u) = active u.is_active
      where
        active :
            (b : Bool)
            → (if b then pure u else raise (not_authenticated (codes "Invalid or inactive user"))) w
              ≡ (
                (if b then ok u else raised (not_authenticated (codes "Invalid or inactive user"))),
                w,
              )
        active true = refl
        active false = refl

    with_id :
        (r : Result Str)
        → continue (λ id v. if_active (find_user id v.db.users) v) (r, w)
          ≡ (and_then r (λ id. active_user (find_user id w.db.users)), w)
    with_id (ok id) = with_user (find_user id w.db.users)
    with_id (raised e) = refl

    with_subject :
        (b : Bool) (sub : Json)
        → (if b
              then raise (not_authenticated (codes "Invalid token"))
              else (do id ← lift (as_text sub); v ← get_world; if_active (find_user id v.db.users)))
            w
          ≡ (
            (if b
                then raised (not_authenticated (codes "Invalid token"))
                else and_then (as_text sub) λ id. active_user (find_user id w.db.users)),
            w,
          )
    with_subject true sub = refl
    with_subject false sub = with_id (as_text sub)

    with_claims :
        (r : Result Fields)
        → continue
            (λ claims.
              let sub = get (codes "sub") claims in
              if not (truthy sub)
              then raise (not_authenticated (codes "Invalid token"))
              else (do id ← lift (as_text sub); v ← get_world; if_active (find_user id v.db.users)))
            (r, w)
          ≡ (and_then r (λ claims. subject_user w.db.users (get (codes "sub") claims)), w)
    with_claims (ok claims) =
        with_subject (not (truthy (get (codes "sub") claims))) (get (codes "sub") claims)
    with_claims (raised e) = refl

-- The answer depends on the token, the time and the users; the world stays as it is.
pub get_current_user-eq :
    (env : Env) (token : Option Str) (w : World)
    → get_current_user env token w ≡ (session_user env w.trace w.db.users token, w)
unfolding get_current_user session_user decode_jwt
get_current_user-eq env none w = refl
get_current_user-eq env (some t) w = go (env.jwt_decode w.trace t env.jwt_secret)
  where
    go :
        (o : Option Json)
        → continue user_of_claims (expire (or_raise invalid_jwt o w))
          ≡ (read_session w.db.users o, w)
    go none = refl
    go (some payload) = user_of_claims-eq payload w
