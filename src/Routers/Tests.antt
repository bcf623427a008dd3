-- ===== src/Routers/Tests.antt =====
-- Accounts, logins and the management API of src/cfproxy on a concrete environment.
use cloudflare_manual_dns.Core.Envelopes.{Reply, make_response}
use cloudflare_manual_dns.Core.Security.{claims_of, decode_jwt, get_current_user, user_of_claims}
use cloudflare_manual_dns.Db.{User, AuditLog, ScopedToken}
use cloudflare_manual_dns.Proxy.Fixtures.{env, credential, token, start, epoch}
use cloudflare_manual_dns.Services.AuditLogs.{
  AuditQuery, is_selected, insert_recent, order_recent, audit_page, list_audit_logs,
}
use cloudflare_manual_dns.Routers.Replies.{user_response_data, bearer_token}
use cloudflare_manual_dns.Db.Users.Unique.{UniqueUsers}
use cloudflare_manual_dns.Auth.ProxyAuth.{require_scoped_token, partition_space}
use cloudflare_manual_dns.Routers.Application.{
  verify_token_route, respond_to, handle_validation_error,
}
use cloudflare_manual_dns.Routers.Application.Shaped.{IsShaped, failure-IsShaped}
use cloudflare_manual_dns.Routers.Account.Unique.{Registered, accounts-UniqueUsers}
use cloudflare_manual_dns.Routers.Account.{
  AccountRequest, refused_login, register, login, cf_callback,
}
use cloudflare_manual_dns.Routers.Account.RoundTrip.{IsSound, register-login}
use cloudflare_manual_dns.Routers.Logs.{get_audit_logs}
use cloudflare_manual_dns.Routers.Logs.Owned.{IsOwned, get_audit_logs-IsOwned}
use cloudflare_manual_dns.Routers.Upstreams.{list_credentials}
use cloudflare_manual_dns.Routers.Upstreams.Concealed.{with_credentials, list_credentials-concealed}
use cloudflare_manual_dns.Routers.ScopedTokens.{
  get_scoped_token, rotate_scoped_token, revoke_scoped_token,
}
use cloudflare_manual_dns.Routers.ScopedTokens.Foreign.{missing_token, foreign-missing}
use cloudflare_manual_dns.Runtime.{Env, World}
use cloudflare_manual_dns.Common.{
  ℕ, ◌≡◌, refl, sym, ap, ◌∙◌, ◌≢◌, inl, inr, true, false, none, some, [], ◌∷◌, In, find_first,
  select, Str, codes, ◌==◌, eq_refl, ne_of_eq, lower, Json, truthy, lookup, get, null, str, obj,
  field, Result, dict_fields, unauthorized, ok, raised,
}

-- The session's text is the subject of its claims, and its claims are read back from it.
abbrev subject_of : Json → Str
subject_of (obj (field k (str s) rest)) = s
subject_of _ = []

abbrev sessions : Env
sessions = record env {
  jwt_encode = λ payload key. subject_of payload;
  jwt_decode = λ t s key. some (claims_of s (env.now t) 86400);
}

abbrev alice : User
alice = record {
  id = codes "u1";
  email = some (codes "a@x.org");
  password_hash = some (codes "pw");
  auth_provider = codes "local";
  cf_sub = none;
  is_active = true;
  created_at = epoch;
  updated_at = epoch;
}

abbrev row : ℕ → Str → AuditLog
row seconds user_id = record {
  id = codes "a1";
  ts = record { aware = true; seconds = seconds };
  user_id = some user_id;
  scoped_token_id = some (codes "t1");
  token_prefix = none;
  method = codes "GET";
  path = codes "/";
  zone_id = some (codes "z1");
  record_id = none;
  record_name = null;
  record_type = null;
  pre_image = null;
  post_image = null;
  decision = codes "deny";
  deny_reason = none;
  upstream_status = none;
  client_ip = none;
  latency_ms = none;
}

abbrev accounts : World
accounts = record start {
  db = record start.db {
    users = alice ∷ [];
    audit_logs = row 1 (codes "u1") ∷ row 7 (codes "u2") ∷ row 5 (codes "u1") ∷ [];
  };
}

routes : Unit {0}
unfolding find_first select claims_of decode_jwt get_current_user user_of_claims is_selected
    insert_recent order_recent audit_page list_audit_logs get_audit_logs dict_fields truthy lookup
    get ◌==◌
routes = tt

signed_in : get_current_user sessions (some (codes "u1")) accounts ≡ (ok alice, accounts)
unfolding routes
signed_in = refl

-- The two rows of the user, the last one first.
abbrev query : AuditQuery
query = record { token_id = none; zone_id = some (codes "z1"); since = none }

abbrev page_one : Result Reply × World
page_one = get_audit_logs sessions (some (codes "u1")) query 1 50 accounts

abbrev reply_of : Result Reply → Reply
reply_of (ok r) = r
reply_of (raised e) = refused_login

page_one_test : page_one ≡ (ok (reply_of page_one.0), accounts)
unfolding routes
page_one_test = refl

sorted_test :
    (audit_page (codes "u1") query 1 50 accounts.db.audit_logs).entries
    ≡ row 5 (codes "u1") ∷ row 1 (codes "u1") ∷ []
unfolding routes
sorted_test = refl

get_audit_logs-IsOwned_example :
    IsOwned sessions (some (codes "u1")) query 1 50 accounts (reply_of page_one.0)
    × (accounts ≡ accounts)
get_audit_logs-IsOwned_example =
    get_audit_logs-IsOwned sessions (some (codes "u1")) query 1 50 accounts accounts
      (reply_of page_one.0) refl page_one_test

abbrev other_token : World
other_token = record accounts {
  db = record accounts.db { tokens = record token { user_id = codes "u2" } ∷ [] };
}

signed_in_there :
    get_current_user sessions (some (codes "u1")) other_token ≡ (ok alice, other_token)
unfolding routes
signed_in_there = refl

foreign :
    (t : ScopedToken) → In t other_token.db.tokens → t.id ≡ codes "t1" → t.user_id ≢ codes "u1"
unfolding routes
foreign t (inl e) same owner =
    ne_of_eq (codes "u2") (codes "u1") refl (sym (ap (λ (x : ScopedToken). x.user_id) e) ∙ owner)
foreign t (inr i) same owner = absurd i

foreign-missing_example :
    (get_scoped_token sessions (some (codes "u1")) (codes "t1") other_token
      ≡ (ok (missing_token sessions (codes "t1")), other_token))
    × (rotate_scoped_token sessions (some (codes "u1")) (codes "t1") other_token
        ≡ (ok (missing_token sessions (codes "t1")), other_token))
    × (revoke_scoped_token sessions (some (codes "u1")) (codes "t1") other_token
        ≡ (ok (missing_token sessions (codes "t1")), other_token))
foreign-missing_example =
    foreign-missing sessions (some (codes "u1")) (codes "t1") other_token alice signed_in_there
      foreign

-- The same credential with another secret.
list_credentials-concealed_example :
    (list_credentials sessions
      (some (codes "u1"))
      (with_credentials (record credential { secret_enc = some (codes "x") } ∷ []) accounts)).0
    ≡ (list_credentials sessions (some (codes "u1")) accounts).0
list_credentials-concealed_example =
    list_credentials-concealed sessions (some (codes "u1")) accounts
      (record credential { secret_enc = some (codes "x") } ∷ []) refl

sound : IsSound sessions
unfolding routes
sound = record {
  accepts = λ w pw. ap some (eq_refl pw);
  reads_back = λ w sub. refl;
  named = λ w. refl;
}

abbrev newcomer : AccountRequest
newcomer = record { email = codes "b@x.org"; password = codes "secret" }

some_eq : {s t : Str} → some s ≡ some t → s ≡ t
some_eq h = cc h

free : (u : User) → In u accounts.db.users → u.email ≢ some (codes "b@x.org")
unfolding routes
free u (inl e) h =
    ne_of_eq (codes "a@x.org") (codes "b@x.org") refl
      (some_eq (sym (ap (λ (x : User). x.email) e) ∙ h))
free u (inr i) h = absurd i

fresh : (u : User) → In u accounts.db.users → u.id ≢ sessions.new_uuid accounts.trace 0
unfolding routes
fresh u (inl e) h =
    ne_of_eq (codes "u1") (sessions.new_uuid accounts.trace 0) refl
      (sym (ap (λ (x : User). x.id) e) ∙ h)
fresh u (inr i) h = absurd i

register-login_example :
    (u : User) × (w' : World) × (jwt : Str) × (register sessions newcomer accounts
      ≡ (ok (make_response 201 (codes "User registered") (user_response_data sessions u)), w'))
    × (login sessions newcomer w'
        ≡ (ok (make_response 200 (codes "Login successful") (bearer_token jwt)), w'))
    × (get_current_user sessions (some jwt) w' ≡ (ok u, w'))
    × (u.email ≡ some (codes "b@x.org"))
    × ((other : Str)
        → sessions.password_matches (sessions.hash_password accounts.trace (codes "secret")) other
          ≡ some false
        → login sessions (record { email = codes "b@x.org"; password = other }) w'
          ≡ (ok refused_login, w'))
register-login_example = register-login sessions newcomer accounts sound free fresh

only_alice : (u : User) → In u accounts.db.users → u ≡ alice
only_alice u (inl e) = e
only_alice u (inr i) = absurd i

unique_accounts : UniqueUsers accounts.db.users
unique_accounts = record {
  emails = λ x y s i j e f. ap (λ (u : User). u.id) (only_alice x i ∙ sym (only_alice y j));
  subs = λ x y s i j e f. ap (λ (u : User). u.id) (only_alice x i ∙ sym (only_alice y j));
}

accounts-UniqueUsers_example :
    Registered sessions newcomer accounts (register sessions newcomer accounts)
    × UniqueUsers (register sessions newcomer accounts).1.db.users
    × UniqueUsers (cf_callback sessions (codes "code") (codes "state") accounts).1.db.users
accounts-UniqueUsers_example =
    accounts-UniqueUsers sessions newcomer (codes "code") (codes "state") accounts unique_accounts

no_header : (verify_token_route sessions none accounts).0 ≡ raised unauthorized
unfolding verify_token_route require_scoped_token ◌==◌ lower partition_space
no_header = refl

failure-IsShaped_example :
    IsShaped
      (codes "/client/v4/user/tokens/verify")
      401
      401
      (respond_to sessions
        (codes "/client/v4/user/tokens/verify")
        (verify_token_route sessions none)
        accounts).0
    × IsShaped
        (codes "/client/v4/user/tokens/verify")
        400
        422
        (handle_validation_error sessions (codes "/client/v4/user/tokens/verify") null)
failure-IsShaped_example =
    failure-IsShaped sessions (codes "/client/v4/user/tokens/verify")
      (verify_token_route sessions none) accounts unauthorized null no_header
