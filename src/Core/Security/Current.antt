-- ===== src/Core/Security/Current.antt =====
-- Who `get_current_user` of src/cfproxy/core/security.py lets in.
use mathlib.Core.Path.{subst}
use cloudflare_manual_dns.Core.Security.{
  find_user, expire, decode_jwt, if_active, user_of_claims, get_current_user, or_expired,
}
use cloudflare_manual_dns.Upstream.Auth.{as_text}
use cloudflare_manual_dns.Db.{User}
use cloudflare_manual_dns.Runtime.{Env, World, M, pure, raise, lift, or_raise, get_world, ◌>>=◌}
use cloudflare_manual_dns.Runtime.Bind.{>>=-returns, lift-returns, pair_injective}
use cloudflare_manual_dns.Common.{
  dict_fields-ok, ◌≡◌, refl, sym, ap, ◌∙◌, Bool, true, false, not, Option, none, some,
  if◌then◌else◌, In, find_first-In, Str, codes, ◌==◌, eq_iff, Json, Fields, truthy, get, null, bool,
  int, str, arr, obj, Result, ok_injective, dict_fields, not_authenticated, invalid_jwt, ok, raised,
}

-- The user that a token stands for.
pub record IsCurrent (env : Env) (token : Option Str) (w : World) (u : User) : Type 0 where
  pub bearer : Str
  pub given : token ≡ some bearer
  pub claims : Fields
  pub verified : env.jwt_decode w.trace bearer env.jwt_secret ≡ some (obj claims)
  pub subject : get (codes "sub") claims ≡ str u.id
  pub stored : In u w.db.users
  pub active : u.is_active ≡ true

pub as_text-ok : (v : Json) (s : Str) → as_text v ≡ ok s → v ≡ str s
as_text-ok (str s) t h = ap str (ok_injective h)
as_text-ok null t h = cc h
as_text-ok (bool b) t h = cc h
as_text-ok (int n) t h = cc h
as_text-ok (arr vs) t h = cc h
as_text-ok (obj fs) t h = cc h

expire-ok :
    {A : Type 0} (m : M A) (w : World) {a : A} {w' : World}
    → expire (m w) ≡ (ok a, w')
    → m w ≡ (ok a, w')
expire-ok {A} m w {a} {w'} h = go (m w) h
  where
    go : (r : Result A × World) → expire r ≡ (ok a, w') → r ≡ (ok a, w')
    go (ok b, v) h = h
    go (raised invalid_jwt, v) h = cc (pair_injective h).0
    go (raised e, v) h = h

decode_jwt-returns :
    (env : Env) (token : Str) (w w' : World) (v : Json)
    → decode_jwt env token w ≡ (ok v, w')
    → (env.jwt_decode w.trace token env.jwt_secret ≡ some v) × (w ≡ w')
unfolding decode_jwt
decode_jwt-returns env token w w' v h = go (env.jwt_decode w.trace token env.jwt_secret) h
  where
    go : (o : Option Json) → or_raise invalid_jwt o w ≡ (ok v, w') → (o ≡ some v) × (w ≡ w')
    go none h = cc (pair_injective h).0
    go (some x) h = (ap some (ok_injective (pair_injective h).0), (pair_injective h).1)

if_active-returns :
    (o : Option User) (w w' : World) (u : User)
    → if_active o w ≡ (ok u, w')
    → (o ≡ some u) × (u.is_active ≡ true) × (w ≡ w')
if_active-returns none w w' u h = cc (pair_injective h).0
if_active-returns (some x) w w' u h = go x.is_active refl h
  where
    go :
        (b : Bool)
        → x.is_active ≡ b
        → (if b then pure x else raise (not_authenticated (codes "Invalid or inactive user"))) w
          ≡ (ok u, w')
        → (some x ≡ some u) × (u.is_active ≡ true) × (w ≡ w')
    go false a h = cc (pair_injective h).0
    go true a h =
        let e = ok_injective (pair_injective h).0 in
        (ap some e, subst (λ (y : User). y.is_active ≡ true) e a, (pair_injective h).1)

-- The body behind the reading of the claims.
abbrev claimed : Fields → M User
claimed claims =
    if not (truthy (get (codes "sub") claims))
    then raise (not_authenticated (codes "Invalid token"))
    else (do
      id ← lift (as_text (get (codes "sub") claims))
      w ← get_world
      if_active (find_user id w.db.users))

claimed-returns :
    (claims : Fields) (w w' : World) (u : User)
    → claimed claims w ≡ (ok u, w')
    → (get (codes "sub") claims ≡ str u.id) × In u w.db.users × (u.is_active ≡ true) × (w ≡ w')
claimed-returns claims w w' u h = go (not (truthy (get (codes "sub") claims))) h
  where
    go :
        (b : Bool)
        → (if b then raise (not_authenticated (codes "Invalid token")) else (do
          id ← lift (as_text (get (codes "sub") claims))
          w ← get_world
          if_active (find_user id w.db.users)))
            w
          ≡ (ok u, w')
        → (get (codes "sub") claims ≡ str u.id) × In u w.db.users × (u.is_active ≡ true) × (w ≡ w')
    go true h = cc (pair_injective h).0
    go false h =
        let (id, v, read, found) =
          >>=-returns (lift (as_text (get (codes "sub") claims)))
            (λ id v. if_active (find_user id v.db.users) v) w h in
        let (text, same) = lift-returns (as_text (get (codes "sub") claims)) w read in
        let (row, active, kept) = if_active-returns (find_user id v.db.users) v w' u found in
        let (stored, named) = find_first-In (λ (x : User). x.id == id) v.db.users u row in
        (
          as_text-ok (get (codes "sub") claims) id text ∙ ap str (sym ((eq_iff u.id id).0 named)),
          subst (λ (x : World). In u x.db.users) (sym same) stored,
          active,
          same ∙ kept,
        )

user_of_claims-returns :
    (payload : Json) (w w' : World) (u : User)
    → user_of_claims payload w ≡ (ok u, w')
    → (claims : Fields) × (payload ≡ obj claims)
      × (get (codes "sub") claims ≡ str u.id)
      × In u w.db.users
      × (u.is_active ≡ true)
      × (w ≡ w')
unfolding user_of_claims
user_of_claims-returns payload w w' u h =
    let (claims, w₁, read, rest) =
      >>=-returns (lift (dict_fields payload)) (λ claims. claimed claims) w h in
    let (is_dict, same) = lift-returns (dict_fields payload) w read in
    let (subject, stored, active, kept) =
      claimed-returns claims w w' u
        (subst (λ (v : World). claimed claims v ≡ (ok u, w')) (sym same) rest) in
    (claims, dict_fields-ok payload claims is_dict, subject, stored, active, kept)

-- Whom a request is let in as: the token is verified with the service's secret, and its subject is
-- the id of a user in the database who is active. Nothing is changed.
pub get_current_user-IsCurrent :
    (env : Env) (token : Option Str) (w w' : World) (u : User)
    → get_current_user env token w ≡ (ok u, w')
    → IsCurrent env token w u × (w ≡ w')
unfolding get_current_user
get_current_user-IsCurrent env none w w' u h = cc (pair_injective h).0
get_current_user-IsCurrent env (some t) w w' u h =
    let (payload, v, decoded, rest) =
      >>=-returns (or_expired (decode_jwt env t)) user_of_claims w h in
    let (verified, same) =
      decode_jwt-returns env t w v payload (expire-ok (decode_jwt env t) w decoded) in
    let (claims, is_dict, subject, stored, active, kept) =
      user_of_claims-returns payload v w' u rest in
    (
      record {
        bearer = t;
        given = refl;
        claims = claims;
        verified = verified ∙ ap some is_dict;
        subject = subject;
        stored = subst (λ (x : World). In u x.db.users) (sym same) stored;
        active = active;
      },
      same ∙ kept,
    )
