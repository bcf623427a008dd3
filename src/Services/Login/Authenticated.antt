-- ===== src/Services/Login/Authenticated.antt =====
-- What a login in src/cfproxy/services/oauth_service.py rests on.
use cloudflare_manual_dns.Core.Security.Current.{as_text-ok}
use mathlib.Core.Path.{subst}
use cloudflare_manual_dns.Services.Login.{
  oauth_state_key, with_claims, with_tokens, handle_cf_oauth_callback, with_state,
  consume_oauth_state, stored_state, as_text, with_verifier, decoded_json, cache_getdel,
}
use cloudflare_manual_dns.Services.Login.Stored.{IsOf, IsSession, with_claims-IsOf, subscript-ok}
use cloudflare_manual_dns.Auth.OauthCf.{exchange_code, validate_id_token, code_form, is_null}
use cloudflare_manual_dns.Auth.OauthCf.Keys.{or_raise-returns}
use cloudflare_manual_dns.Auth.OauthCf.Validated.{IsValid, validate_id_token-IsValid}
use cloudflare_manual_dns.Upstream.Auth.{find_key, post_form}
use cloudflare_manual_dns.Upstream.Client.{json, subscript, raise_for_status}
use cloudflare_manual_dns.Db.{User}
use cloudflare_manual_dns.Runtime.{Event, HttpResponse, Env, World, M, lift, raise, ◌>>=◌, continue}
use cloudflare_manual_dns.Runtime.Bind.{>>=-returns, lift-returns, pair_injective}
use cloudflare_manual_dns.Common.{
  dict_fields-ok, ◌≡◌, refl, sym, ap, ◌∙◌, inl, inr, Bool, true, false, not, Option, none, some,
  List, if◌then◌else◌, Bool-cases, Str, codes, Json, Fields, truthy, lookup, get, str, obj, Result,
  and_then, >>=-eq-ok, dict_fields, value_error, http_error, ok,
}

obj_injective : {fs gs : Fields} → obj fs ≡ obj gs → fs ≡ gs
obj_injective h = cc h

module _ (env : Env) (code state : Str) where
  -- The issuer has given the tokens for the code and this verifier.
  pub record IsExchanged (verifier : Str) (tokens : Fields) : Type 0 where
    pub then_ : List Event
    pub response : HttpResponse
    pub answer : env.issuer_responds then_ (code_form env code verifier) ≡ some response
    pub body : json response ≡ ok (obj tokens)

  -- What a session rests on: the stored state, the exchange of the code, and the valid id token.
  pub record IsLogin (w : World) (user : User) (jwt : Str) (users : List User) : Type 0 where
    pub raw : Str
    pub entry : find_key (oauth_state_key state) w.cache ≡ some raw
    pub stored : Fields
    pub decoded : env.loads raw ≡ some (obj stored)
    pub verifier : Str
    pub its_verifier : lookup (codes "verifier") stored ≡ some (str verifier)
    pub nonce : Json
    pub its_nonce : lookup (codes "nonce") stored ≡ some nonce
    pub tokens : Fields
    pub exchanged : IsExchanged verifier tokens
    pub claims : Fields
    pub at : World
    pub held : at.jwks ≡ w.jwks
    pub valid :
        IsValid env
          (get (codes "id_token") tokens)
          nonce
          (get (codes "access_token") tokens)
          (str code)
          at
          claims
    pub owner : IsOf env claims user users
    pub session : IsSession env jwt user

  -- The same behind the reading of the tokens.
  record IsAccepted (stored : Json) (tokens : Fields) (w : World) (user : User) (jwt : Str)
      (users : List User) : Type 0 where
    pub state_fields : Fields
    pub is_dict : stored ≡ obj state_fields
    pub nonce : Json
    pub its_nonce : lookup (codes "nonce") state_fields ≡ some nonce
    pub claims : Fields
    pub valid :
        IsValid env
          (get (codes "id_token") tokens)
          nonce
          (get (codes "access_token") tokens)
          (str code)
          w
          claims
    pub owner : IsOf env claims user users
    pub session : IsSession env jwt user

  with_tokens-IsAccepted :
      (stored : Json) (tokens : Fields) (w w' : World) (user : User) (jwt : Str)
      → with_tokens env code stored tokens w ≡ (ok (user, jwt), w')
      → IsAccepted stored tokens w user jwt w'.db.users
  with_tokens-IsAccepted stored tokens w w' user jwt h =
      go (not (truthy (get (codes "id_token") tokens))) h
    where
      validated : Json → M (User × Str)
      validated nonce =
          validate_id_token env (get (codes "id_token") tokens) nonce
            (get (codes "access_token") tokens) (str code)
          >>= with_claims env tokens

      go :
          (b : Bool)
          → (if b
                then raise (value_error (codes "token response is missing id_token"))
                else lift (subscript stored (codes "nonce")) >>= validated)
              w
            ≡ (ok (user, jwt), w')
          → IsAccepted stored tokens w user jwt w'.db.users
      go true h = cc (pair_injective h).0
      go false h =
          let (nonce, w₁, read, h₁) =
            >>=-returns (lift (subscript stored (codes "nonce"))) validated w h in
          let (is_nonce, same) = lift-returns (subscript stored (codes "nonce")) w read in
          let (fs, is_dict, found) = subscript-ok stored (codes "nonce") nonce is_nonce in
          let (claims, w₂, validated_, h₂) =
            >>=-returns
              (validate_id_token env (get (codes "id_token") tokens) nonce
                (get (codes "access_token") tokens) (str code))
              (with_claims env tokens) w₁ h₁ in
          let valid =
            validate_id_token-IsValid env (get (codes "id_token") tokens) nonce
              (get (codes "access_token") tokens) (str code) w₁ w₂ claims validated_ in
          let (owner, session) = with_claims-IsOf env tokens claims w₂ w' user jwt h₂ in
          record {
            state_fields = fs;
            is_dict = is_dict;
            nonce = nonce;
            its_nonce = found;
            claims = claims;
            valid =
                subst
                  (λ (v : World).
                    IsValid env (get (codes "id_token") tokens) nonce
                      (get (codes "access_token") tokens) (str code) v claims)
                  (sym same) valid;
            owner = owner;
            session = session;
          }

  exchange_code-returns :
      (verifier : Str) (w w' : World) (v : Json)
      → exchange_code env code verifier w ≡ (ok v, w')
      → (r : HttpResponse) × (env.issuer_responds w.trace (code_form env code verifier) ≡ some r)
        × (json r ≡ ok v)
        × (w'.jwks ≡ w.jwks)
  unfolding exchange_code post_form
  exchange_code-returns verifier w w' v h =
      let (r, w₁, sent, h₁) =
        >>=-returns (post_form env (code_form env code verifier))
          (λ r. lift (raise_for_status env r) >>= λ _. lift (json r)) w h in
      let (answer, same) =
        or_raise-returns http_error (env.issuer_responds w.trace (code_form env code verifier)) _ w₁
          sent in
      let (_, w₂, checked, h₂) =
        >>=-returns (lift (raise_for_status env r)) (λ _. lift (json r)) w₁ h₁ in
      let (_, same₁) = lift-returns (raise_for_status env r) w₁ checked in
      let (body, same₂) = lift-returns (json r) w₂ h₂ in
      (r, answer, body, ap (λ (x : World). x.jwks) (sym (same ∙ same₁ ∙ same₂)))

  abbrev read_tokens : Json → Json → M (User × Str)
  read_tokens stored v = lift (dict_fields v) >>= with_tokens env code stored

  with_state-IsLogin :
      (stored : Json) (raw : Str) (w w₁ w' : World) (user : User) (jwt : Str)
      → find_key (oauth_state_key state) w.cache ≡ some raw
      → env.loads raw ≡ some stored
      → w₁.jwks ≡ w.jwks
      → with_state env code stored w₁ ≡ (ok (user, jwt), w')
      → IsLogin w user jwt w'.db.users
  with_state-IsLogin stored raw w w₁ w' user jwt entry decoded held h = go (is_null stored) h
    where
      read_verifier : Result Str
      read_verifier = and_then (subscript stored (codes "verifier")) as_text

      go :
          (b : Bool)
          → (if b
                then raise (value_error (codes "invalid or expired oauth state"))
                else lift read_verifier >>= with_verifier env code stored)
              w₁
            ≡ (ok (user, jwt), w')
          → IsLogin w user jwt w'.db.users
      go true h = cc (pair_injective h).0
      go false h =
          let (verifier, w₂, read, h₁) =
            >>=-returns (lift read_verifier) (with_verifier env code stored) w₁ h in
          let (is_verifier, same) = lift-returns read_verifier w₁ read in
          let (x, got, text) =
            >>=-eq-ok (subscript stored (codes "verifier")) as_text is_verifier in
          let (fs, is_dict, found) = subscript-ok stored (codes "verifier") x got in
          let (v, w₃, exchanged, h₂) =
            >>=-returns (exchange_code env code verifier) (read_tokens stored) w₂ h₁ in
          let (r, answer, body, kept) = exchange_code-returns verifier w₂ w₃ v exchanged in
          let (tokens, w₄, listed, h₃) =
            >>=-returns (lift (dict_fields v)) (with_tokens env code stored) w₃ h₂ in
          let (is_tokens, same₁) = lift-returns (dict_fields v) w₃ listed in
          let a = with_tokens-IsAccepted stored tokens w₄ w' user jwt h₃ in
          let same_fields : a.state_fields ≡ fs = obj_injective (sym a.is_dict ∙ is_dict) in
          record {
            raw = raw;
            entry = entry;
            stored = fs;
            decoded = decoded ∙ ap some is_dict;
            verifier = verifier;
            its_verifier = found ∙ ap some (as_text-ok x verifier text);
            nonce = a.nonce;
            its_nonce =
                subst (λ (f : Fields). lookup (codes "nonce") f ≡ some a.nonce) same_fields
                  a.its_nonce;
            tokens = tokens;
            exchanged = record {
              then_ = w₂.trace;
              response = r;
              answer = answer;
              body = body ∙ ap ok (dict_fields-ok v tokens is_tokens);
            };
            claims = a.claims;
            at = w₄;
            held =
                ap (λ (u : World). u.jwks) (sym same₁)
                ∙ kept
                ∙ ap (λ (u : World). u.jwks) (sym same)
                ∙ held;
            valid = a.valid;
            owner = a.owner;
            session = a.session;
          }

  with_entry :
      (o : Option Str) (w w₁ w' : World) (user : User) (jwt : Str)
      → find_key (oauth_state_key state) w.cache ≡ o
      → w₁.jwks ≡ w.jwks
      → continue (with_state env code) (stored_state env o w₁) ≡ (ok (user, jwt), w')
      → IsLogin w user jwt w'.db.users
  with_entry none w w₁ w' user jwt e held h = cc (pair_injective h).0
  with_entry (some raw) w w₁ w' user jwt e held h = go (env.loads raw) refl h
    where
      go :
          (o : Option Json)
          → env.loads raw ≡ o
          → continue (with_state env code) (decoded_json o w₁) ≡ (ok (user, jwt), w')
          → IsLogin w user jwt w'.db.users
      go none d h = cc (pair_injective h).0
      go (some v) d h = with_state-IsLogin v raw w w₁ w' user jwt e d held h

  -- A session is given only where the cache holds the state, with the verifier that the issuer has
  -- accepted for the code and the nonce of the id token in its answer; the id token is valid. The
  -- session is that of the user in the table whose `cf_sub` is the subject of the id token.
  pub handle-IsLogin :
      (w w' : World) (user : User) (jwt : Str)
      → handle_cf_oauth_callback env code state w ≡ (ok (user, jwt), w')
      → IsLogin w user jwt w'.db.users
  unfolding handle_cf_oauth_callback consume_oauth_state cache_getdel
  handle-IsLogin w w' user jwt h = elim (Bool-cases (env.cache_answers w.trace)) [
    | inl a ↦
        with_entry (find_key (oauth_state_key state) w.cache) w _ w' user jwt refl refl (rw a at h)
    | inr a ↦ cc (pair_injective (rw a at h)).0
  ]
