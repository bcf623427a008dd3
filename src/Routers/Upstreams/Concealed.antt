-- ===== src/Routers/Upstreams/Concealed.antt =====
-- The secrets of the credentials in the list of src/cfproxy/routers/credentials.py.
use cloudflare_manual_dns.Core.Envelopes.{make_response}
use cloudflare_manual_dns.Core.Security.Session.{session_user, get_current_user-eq}
use cloudflare_manual_dns.Db.{User, UpstreamCredential}
use cloudflare_manual_dns.Services.Credentials.{owned_by}
use cloudflare_manual_dns.Services.Credentials
use cloudflare_manual_dns.Proxy.Listing.{to_items}
use cloudflare_manual_dns.Routers.Replies.{credential_response_data}
use cloudflare_manual_dns.Routers.Upstreams.{show_credentials, list_credentials}
use cloudflare_manual_dns.Runtime.{Env, World, continue}
use cloudflare_manual_dns.Common.{
  ◌≡◌, refl, sym, ap, ◌∙◌, Bool, true, false, Option, none, List, [], ◌∷◌, map, if◌then◌else◌, Str,
  codes, ◌==◌, Json, arr, Result, ok, raised,
}

-- The row without its ciphertexts, its OAuth scopes, its expiry and its versions.
abbrev pub concealed : UpstreamCredential → UpstreamCredential
concealed c = record c {
  secret_enc = none;
  access_token_enc = none;
  refresh_token_enc = none;
  token_expires_at = none;
  oauth_scopes = none;
  key_version = 0;
  cred_version = 0;
}

abbrev pub with_credentials : List UpstreamCredential → World → World
with_credentials cs w = record w { db = record w.db { credentials = cs } }

owned_by-concealed :
    (id : Str) (cs : List UpstreamCredential)
    → owned_by id (map concealed cs) ≡ map concealed (owned_by id cs)
unfolding owned_by
owned_by-concealed id [] = refl
owned_by-concealed id (c ∷ cs) = go (c.user_id == id) (owned_by-concealed id cs)
  where
    go :
        (b : Bool)
        → owned_by id (map concealed cs) ≡ map concealed (owned_by id cs)
        → (if b
            then concealed c ∷ owned_by id (map concealed cs)
            else owned_by id (map concealed cs))
          ≡ map concealed (if b then c ∷ owned_by id cs else owned_by id cs)
    go true ih = ap (λ r. concealed c ∷ r) ih
    go false ih = ih

shown-concealed :
    (env : Env) (cs : List UpstreamCredential)
    → map (credential_response_data env) (map concealed cs) ≡ map (credential_response_data env) cs
unfolding credential_response_data
shown-concealed env [] = refl
shown-concealed env (c ∷ cs) = ap (λ r. credential_response_data env c ∷ r) (shown-concealed env cs)

-- What is shown of a user's rows depends on the concealed rows.
shown_owned :
    (env : Env) (id : Str) (cs : List UpstreamCredential)
    → map (credential_response_data env) (owned_by id cs)
      ≡ map (credential_response_data env) (owned_by id (map concealed cs))
shown_owned env id cs = sym (
    ap (map (credential_response_data env)) (owned_by-concealed id cs)
    ∙ shown-concealed env (owned_by id cs))

-- The list of credentials shows nothing of their secrets: with other ciphertexts, scopes, expiries
-- and versions in the table, and all else the same, every request gets the same answer.
pub list_credentials-concealed :
    (env : Env) (bearer : Option Str) (w : World) (cs : List UpstreamCredential)
    → map concealed cs ≡ map concealed w.db.credentials
    → (list_credentials env bearer (with_credentials cs w)).0 ≡ (list_credentials env bearer w).0
unfolding list_credentials Credentials.list_credentials
list_credentials-concealed env bearer w cs h =
    rw (get_current_user-eq env bearer w, get_current_user-eq env bearer (with_credentials cs w))
      (go (session_user env w.trace w.db.users bearer))
  where
    go :
        (r : Result User)
        → (continue (show_credentials env) (r, with_credentials cs w)).0
          ≡ (continue (show_credentials env) (r, w)).0
    go (raised e) = refl
    go (ok u) =
        ap
          (λ (rows : List Json).
            ok (make_response 200 (codes "Upstream credentials listed") (arr (to_items rows))))
          (shown_owned env u.id cs
            ∙ ap
                (λ (rows : List UpstreamCredential).
                  map (credential_response_data env) (owned_by u.id rows))
                h
            ∙ sym (shown_owned env u.id w.db.credentials))
