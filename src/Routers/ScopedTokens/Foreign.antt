-- ===== src/Routers/ScopedTokens/Foreign.antt =====
-- A scoped token of another user, in the routes of src/cfproxy/routers/tokens.py.
use cloudflare_manual_dns.Core.Envelopes.{Reply, make_response}
use cloudflare_manual_dns.Core.Security.{get_current_user}
use cloudflare_manual_dns.Db.{User, ScopedToken}
use cloudflare_manual_dns.Services.Tokens
use cloudflare_manual_dns.Services.Tokens.{find_owned_token}
use cloudflare_manual_dns.Routers.ScopedTokens.{
  get_scoped_token, rotate_scoped_token, revoke_scoped_token,
}
use cloudflare_manual_dns.Runtime.{Env, World}
use cloudflare_manual_dns.Common.{
  ◌≡◌, refl, ◌≢◌, inl, inr, Bool, true, false, ◌&&◌, Option, none, some, List, [], ◌∷◌, ◌++◌,
  if◌then◌else◌, In, Str, codes, ◌==◌, eq_iff, null, ok,
}

not_owned-none :
    (user_id token_id : Str) (ts : List ScopedToken)
    → ((t : ScopedToken) → In t ts → t.id ≡ token_id → t.user_id ≢ user_id)
    → find_owned_token user_id token_id ts ≡ none
unfolding find_owned_token
not_owned-none user_id token_id [] h = refl
not_owned-none user_id token_id (t ∷ ts) h =
    go (t.id == token_id) (t.user_id == user_id) refl refl
      (not_owned-none user_id token_id ts (λ x i. h x (inr i)))
  where
    go :
        (a b : Bool)
        → (t.id == token_id) ≡ a
        → (t.user_id == user_id) ≡ b
        → find_owned_token user_id token_id ts ≡ none
        → (if a && b then some t else find_owned_token user_id token_id ts) ≡ none
    go true true e f ih =
        absurd (h t (inl refl) ((eq_iff t.id token_id).0 e) ((eq_iff t.user_id user_id).0 f))
    go true false e f ih = ih
    go false b e f ih = ih

-- The reply to a request for a token that is not there, and that no more is done.
abbrev pub missing_token : Env → Str → Reply
missing_token env token_id =
    make_response 404 (codes "scoped token " ++ env.py_repr token_id ++ codes " not found") null

-- A request of a signed-in user for the details, the rotation or the revocation of a token that no
-- row has under the user's id gets the reply 404 that the token is not found, the same whether
-- another user has it or nobody, and changes nothing.
pub foreign-missing :
    (env : Env) (bearer : Option Str) (token_id : Str) (w : World) (user : User)
    → get_current_user env bearer w ≡ (ok user, w)
    → ((t : ScopedToken) → In t w.db.tokens → t.id ≡ token_id → t.user_id ≢ user.id)
    → (get_scoped_token env bearer token_id w ≡ (ok (missing_token env token_id), w))
      × (rotate_scoped_token env bearer token_id w ≡ (ok (missing_token env token_id), w))
      × (revoke_scoped_token env bearer token_id w ≡ (ok (missing_token env token_id), w))
unfolding get_scoped_token rotate_scoped_token revoke_scoped_token Tokens.get_scoped_token_detail
    Tokens.rotate_scoped_token Tokens.revoke_scoped_token Tokens.get_owned_scoped_token
foreign-missing env bearer token_id w user signed_in foreign =
    let none_found = not_owned-none user.id token_id w.db.tokens foreign in
    (
      rw (signed_in, none_found) refl,
      rw (signed_in, none_found) refl,
      rw (signed_in, none_found) refl,
    )
