-- ===== src/Services/Login/Tests.antt =====
-- A login at Cloudflare, of src/cfproxy/services/oauth_service.py, on a concrete issuer.
use cloudflare_manual_dns.Auth.OauthCf.{
  key_has, keys_of_kid, matches_of, hash_text, compare_digest, b64_unpadded, exchange_code,
  get_json, refetch_jwks, fetch_jwks, resolve_signing_key, compute_oidc_hash, match_hash,
  check_hash, check_claims, header_of, allowed_header, checked_claims, validate_id_token,
}
use cloudflare_manual_dns.Auth.OauthCf.Validated.{IsValid, validate_id_token-IsValid}
use cloudflare_manual_dns.Auth.ProxyAuth.{elements}
use cloudflare_manual_dns.Core.Security.{claims_of, create_jwt}
use cloudflare_manual_dns.Db.{User}
use cloudflare_manual_dns.Db.Users.{write_user}
use cloudflare_manual_dns.Proxy.Fixtures.{env, start}
use cloudflare_manual_dns.Services.Credentials.{given}
use cloudflare_manual_dns.Services.Login.{
  oauth_state_key, login_state, user_row, credential_row, store_credential, cache_getdel,
  consume_oauth_state, login_claims, login_credential, store_login, handle_cf_oauth_callback,
  start_cf_oauth_login,
}
use cloudflare_manual_dns.Services.Login.SingleUse.{
  drawn_state, at_once, called, started, handle-once,
}
use cloudflare_manual_dns.Services.Login.Authenticated.{IsLogin, handle-IsLogin}
use cloudflare_manual_dns.Upstream.Auth.{find_key, drop_key, post_form, encrypt_secret}
use cloudflare_manual_dns.Upstream.Client.{subscript}
use cloudflare_manual_dns.Runtime.{HttpResponse, Env, World}
use cloudflare_manual_dns.Common.{
  ◌≡◌, refl, ◌≢◌, true, none, some, [], ◌∷◌, find_first, change, Str, codes, ◌==◌, ne_of_eq,
  rstrip_by, show_ℕ, Json, Fields, truthy, lookup, get, items, py_eq, str, arr, obj, nil, cons, end,
  field, Result, dict_fields, value_error, ok, raised,
}

abbrev answer : Json → HttpResponse
answer v = record { status_code = 200; body = some v }

abbrev one_field : Str → Json → Fields
one_field k v = field k v end

-- The hash of a text and its base64 are the text itself, so the left half of "at" is "a".
abbrev issued : Fields
issued =
    field (codes "sub") (str (codes "s1"))
      (field (codes "nonce") (str (codes "n1")) (one_field (codes "at_hash") (str (codes "a"))))

abbrev tokens : Fields
tokens =
    field (codes "id_token") (str (codes "idt"))
      (one_field (codes "access_token") (str (codes "at")))

abbrev issuer : Env
issuer = record env {
  cache_answers = λ t. true;
  loads = λ raw. some (login_state (codes "v") (codes "n1"));
  issuer_responds = λ t form. some (answer (obj tokens));
  jwt_header = λ s. some (
      obj (field (codes "alg") (str (codes "RS256")) (one_field (codes "kid") (str (codes "k1")))));
  get_document = λ t url headers. some (
      answer (
        obj (
          one_field (codes "keys")
            (arr (cons (obj (one_field (codes "kid") (str (codes "k1")))) nil)))));
  jwt_verify = λ t s key audience issuer leeway. some (obj issued);
}

abbrev waiting : World
waiting = record start { cache = (oauth_state_key (codes "st"), codes "raw") ∷ [] }

logins : Unit {0}
unfolding key_has keys_of_kid matches_of hash_text compare_digest b64_unpadded exchange_code
    get_json refetch_jwks fetch_jwks resolve_signing_key compute_oidc_hash match_hash check_hash
    check_claims header_of allowed_header checked_claims validate_id_token elements claims_of
    create_jwt write_user given user_row credential_row store_credential cache_getdel
    consume_oauth_state login_claims login_credential store_login handle_cf_oauth_callback find_key
    drop_key post_form encrypt_secret subscript find_first change dict_fields truthy lookup get
    items py_eq ◌==◌ rstrip_by show_ℕ
logins = tt

abbrev validated : Result Fields × World
validated =
    validate_id_token issuer (str (codes "idt")) (str (codes "n1")) (str (codes "at"))
      (str (codes "c")) waiting

validated_test : validated ≡ (ok issued, validated.1)
unfolding logins
validated_test = refl

validate_id_token-IsValid_example :
    IsValid issuer
      (str (codes "idt"))
      (str (codes "n1"))
      (str (codes "at"))
      (str (codes "c"))
      waiting
      issued
validate_id_token-IsValid_example =
    validate_id_token-IsValid issuer (str (codes "idt")) (str (codes "n1")) (str (codes "at"))
      (str (codes "c")) waiting validated.1 issued validated_test

abbrev logged_in : Result (User × Str) × World
logged_in = handle_cf_oauth_callback issuer (codes "c") (codes "st") waiting

abbrev user : User
user = user_row (codes "id0") (codes "s1") none (record { aware = true; seconds = 0 }) none

logged_in_test : logged_in ≡ (ok (user, []), logged_in.1)
unfolding logins
logged_in_test = refl

handle-IsLogin_example :
    IsLogin issuer (codes "c") (codes "st") waiting user [] logged_in.1.db.users
handle-IsLogin_example =
    handle-IsLogin issuer (codes "c") (codes "st") waiting logged_in.1 user [] logged_in_test

-- After the callback another login is started, and a callback with its state comes.
abbrev restarted : World
restarted = (start_cf_oauth_login issuer logged_in.1).1

abbrev called_again : World
called_again = (handle_cf_oauth_callback issuer (codes "c3") (codes "r0") restarted).1

other_state : drawn_state issuer logged_in.1 ≢ codes "st"
unfolding logins
other_state h = ne_of_eq (drawn_state issuer logged_in.1) (codes "st") refl h

handle-once_example :
    ((handle_cf_oauth_callback issuer (codes "c2") (codes "st") called_again).0
      ≡ raised (value_error (codes "invalid or expired oauth state")))
    × ((handle_cf_oauth_callback issuer (codes "c2") (codes "st") called_again).1.db
        ≡ called_again.db)
handle-once_example =
    handle-once issuer (codes "c") (codes "c2") (codes "st") waiting called_again refl
      (called (codes "c3") (codes "r0") restarted (started logged_in.1 other_state at_once))
