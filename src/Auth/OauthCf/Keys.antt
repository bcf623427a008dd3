-- ===== src/Auth/OauthCf/Keys.antt =====
-- The key that src/cfproxy/auth/oauth_cf.py verifies an id token with, and where it is from.
use mathlib.Core.Path.{subst}
use cloudflare_manual_dns.Upstream.Client.{json, raise_for_status}
use cloudflare_manual_dns.Auth.OauthCf.{
  key_has, send_get, checked_json, jwks_cache_ttl_seconds, keys_of_kid, is_null, get_json, jwks_url,
  fetch_jwks, refetch_jwks, store_jwks, jwks_at, resolve_signing_key, first_key, matches_of, pure,
  or_refetch, elements, with_matches, lift,
}
use cloudflare_manual_dns.Runtime.{HttpResponse, Event, Env, World, or_raise}
use cloudflare_manual_dns.Runtime.Bind.{>>=-returns, lift-returns, pair_injective}
use cloudflare_manual_dns.Common.{
  dict_fields-ok, ℕ, ◌-◌, ◌≡◌, refl, sym, ap, ◌∙◌, ◌⊎◌, inl, inr, Bool, true, false, not, ◌&&◌,
  Option, none, some, List, [], ◌∷◌, ltb, if◌then◌else◌, In, Str, codes, Json, Fields, lookup,
  or_else, get, py_eq, null, bool, int, str, arr, obj, nil, Exception, and_then, >>=-eq-ok,
  ok_injective, dict_fields, http_error, invalid_jwt, ok,
}

-- The key set is the one that the process holds, not older than an hour, or one that the issuer
-- has answered with.
pub data Published (env : Env) (held : Option (Json × ℕ)) (t : List Event) (jwks : Json)
    : Type 0 where
  in_memory :
      (at : ℕ)
      → held ≡ some (jwks, at)
      → ltb (env.monotonic t - at) jwks_cache_ttl_seconds ≡ true
      → Published env held t jwks
  answered :
      (u : List Event) (r : HttpResponse)
      → env.get_document u (jwks_url env) [] ≡ some r
      → json r ≡ ok jwks
      → Published env held t jwks

-- The key is asked for without an id, or has this one.
abbrev pub HasId : Json → Json → Type 0
HasId kid k =
    (kid ≡ null) ⊎ ((fs : Fields) × (k ≡ obj fs) × (py_eq (get (codes "kid") fs) kid ≡ true))

by_fields :
    (kid k : Json)
    → and_then (dict_fields k) (λ fs. ok (py_eq (get (codes "kid") fs) kid)) ≡ ok true
    → HasId kid k
by_fields kid k h =
    let (fs, is_dict, same) =
      >>=-eq-ok (dict_fields k) (λ fs. ok (py_eq (get (codes "kid") fs) kid)) h in
    inr (fs, dict_fields-ok k fs is_dict, ok_injective same)

key_has-HasId : (kid k : Json) → key_has kid k ≡ ok true → HasId kid k
unfolding key_has
key_has-HasId null k h = inl refl
key_has-HasId (bool b) k h = by_fields (bool b) k h
key_has-HasId (int n) k h = by_fields (int n) k h
key_has-HasId (str s) k h = by_fields (str s) k h
key_has-HasId (arr vs) k h = by_fields (arr vs) k h
key_has-HasId (obj fs) k h = by_fields (obj fs) k h

keys_of_kid-HasId :
    (kid : Json) (ks found : List Json)
    → keys_of_kid kid ks ≡ ok found
    → (k : Json) → In k found
    → In k ks × HasId kid k
unfolding keys_of_kid
keys_of_kid-HasId kid [] found h k i = absurd (subst (In k) (sym (ok_injective h)) i)
keys_of_kid-HasId kid (x ∷ ks) found h k i =
    let (has, tested, h') =
      >>=-eq-ok (key_has kid x)
        (λ has. and_then (keys_of_kid kid ks) λ rest. ok (if has then x ∷ rest else rest)) h in
    let (rest, later, h'') =
      >>=-eq-ok (keys_of_kid kid ks) (λ rest. ok (if has then x ∷ rest else rest)) h' in
    go has rest tested (keys_of_kid-HasId kid ks rest later k)
      (subst (In k) (sym (ok_injective h'')) i)
  where
    go :
        (has : Bool) (rest : List Json)
        → key_has kid x ≡ ok has
        → (In k rest → In k ks × HasId kid k)
        → In k (if has then x ∷ rest else rest)
        → In k (x ∷ ks) × HasId kid k
    go true rest t ih (inl e) = (inl e, subst (HasId kid) (sym e) (key_has-HasId kid x t))
    go true rest t ih (inr j) = (inr (ih j).0, (ih j).1)
    go false rest t ih j = (inr (ih j).0, (ih j).1)

pub or_raise-returns :
    {A : Type 0} (e : Exception) (o : Option A) (w w' : World) {a : A}
    → or_raise e o w ≡ (ok a, w')
    → (o ≡ some a) × (w ≡ w')
or_raise-returns e none w w' h = cc (pair_injective h).0
or_raise-returns e (some a) w w' h =
    (ap some (ok_injective (pair_injective h).0), (pair_injective h).1)

module _ (env : Env) where
  get_json-returns :
      (url : Str) (headers : List (Str × Str)) (w w' : World) (v : Json)
      → get_json env url headers w ≡ (ok v, w')
      → (r : HttpResponse) × (env.get_document w.trace url headers ≡ some r) × (json r ≡ ok v)
  unfolding get_json
  get_json-returns url headers w w' v h =
      let (r, w₁, sent, body) = >>=-returns (send_get env url headers) (checked_json env) w h in
      let (answer, _) =
        or_raise-returns http_error (env.get_document w.trace url headers) _ _ sent in
      let (_, _, decoded) =
        >>=-eq-ok (raise_for_status env r) (λ _. json r) (lift-returns _ w₁ body).0 in
      (r, answer, decoded)

  store-jwks :
      (now : ℕ) (v jwks : Json) (w w' : World) → store_jwks now v w ≡ (ok jwks, w') → v ≡ jwks
  store-jwks now v jwks w w' h = ok_injective (pair_injective h).0

  refetch_jwks-Published :
      (held : Option (Json × ℕ)) (t : List Event) (now : ℕ) (w w' : World) (jwks : Json)
      → refetch_jwks env now w ≡ (ok jwks, w')
      → Published env held t jwks
  unfolding refetch_jwks
  refetch_jwks-Published held t now w w' jwks h =
      let (v, w₁, got, stored) =
        >>=-returns (get_json env (jwks_url env) []) (store_jwks now) w h in
      let (r, answer, decoded) = get_json-returns (jwks_url env) [] w w₁ v got in
      answered w.trace r answer (decoded ∙ ap ok (store-jwks now v jwks w₁ w' stored))

  fetch_jwks-Published :
      (w w' : World) (jwks : Json)
      → fetch_jwks env w ≡ (ok jwks, w')
      → Published env w.jwks w.trace jwks
  unfolding fetch_jwks
  fetch_jwks-Published w w' jwks h = go w.jwks refl h
    where
      go :
          (o : Option (Json × ℕ))
          → w.jwks ≡ o
          → jwks_at env o (env.monotonic w.trace) w ≡ (ok jwks, w')
          → Published env w.jwks w.trace jwks
      go none e h = refetch_jwks-Published w.jwks w.trace _ w w' jwks h
      go (some (v, at)) e h =
          held_lem v at e (not (is_null v))
            (ltb (env.monotonic w.trace - at) jwks_cache_ttl_seconds) refl h
        where
          held_lem :
              (v : Json) (at : ℕ)
              → w.jwks ≡ some (v, at)
              → (a b : Bool) → ltb (env.monotonic w.trace - at) jwks_cache_ttl_seconds ≡ b
              → (if a && b then pure v else refetch_jwks env (env.monotonic w.trace)) w
                ≡ (ok jwks, w')
              → Published env w.jwks w.trace jwks
          held_lem v at e true true fresh h =
              let same = ok_injective (pair_injective h).0 in
              in_memory at (e ∙ ap (λ (x : Json). some (x, at)) same) fresh
          held_lem v at e true false fresh h = refetch_jwks-Published w.jwks w.trace _ w w' jwks h
          held_lem v at e false b fresh h = refetch_jwks-Published w.jwks w.trace _ w w' jwks h

-- A key set that was fetched for an empty memory is an answer of the issuer.
refetched :
    {env : Env} {held : Option (Json × ℕ)} {t u : List Event} {jwks : Json}
    → Published env none u jwks
    → Published env held t jwks
refetched (in_memory at e fresh) = cc e
refetched (answered u r answer decoded) = answered u r answer decoded

-- The key is the public key of an entry of the published key set that has this id.
pub record IsSigner (env : Env) (w : World) (kid key : Json) : Type 0 where
  pub jwks : Fields
  pub published : Published env w.jwks w.trace (obj jwks)
  pub keys : List Json
  pub listed : elements (or_else (lookup (codes "keys") jwks) (arr nil)) ≡ ok keys
  pub jwk : Json
  pub member : In jwk keys
  pub has_id : HasId kid jwk
  pub public_key : env.rsa_key jwk ≡ some key

-- What a list of matches comes from.
record IsFound (env : Env) (w : World) (kid : Json) (found : List Json) : Type 0 where
  pub fields : Fields
  pub source : Published env w.jwks w.trace (obj fields)
  pub members : List Json
  pub read : elements (or_else (lookup (codes "keys") fields) (arr nil)) ≡ ok members
  pub picked : keys_of_kid kid members ≡ ok found

module _ (env : Env) (kid : Json) where
  matches_of-IsFound :
      (w : World) (jwks : Json) (found : List Json)
      → Published env w.jwks w.trace jwks
      → matches_of kid jwks ≡ ok found
      → IsFound env w kid found
  unfolding matches_of
  matches_of-IsFound w jwks found p h =
      let (fs, is_dict, h') =
        >>=-eq-ok (dict_fields jwks)
          (λ fs.
            and_then (elements (or_else (lookup (codes "keys") fs) (arr nil))) (keys_of_kid kid))
          h in
      let (members, read, picked) =
        >>=-eq-ok (elements (or_else (lookup (codes "keys") fs) (arr nil))) (keys_of_kid kid) h' in
      record {
        fields = fs;
        source = subst (Published env w.jwks w.trace) (dict_fields-ok jwks fs is_dict) p;
        members = members;
        read = read;
        picked = picked;
      }

  first_key-IsSigner :
      (w v v' : World) (found : List Json) (key : Json)
      → IsFound env w kid found
      → first_key env found v ≡ (ok key, v')
      → IsSigner env w kid key
  first_key-IsSigner w v v' [] key f h = cc (pair_injective h).0
  first_key-IsSigner w v v' (k ∷ ks) key f h =
      let (member, has_id) = keys_of_kid-HasId kid f.members (k ∷ ks) f.picked k (inl refl) in
      record {
        jwks = f.fields;
        published = f.source;
        keys = f.members;
        listed = f.read;
        jwk = k;
        member = member;
        has_id = has_id;
        public_key = (or_raise-returns invalid_jwt (env.rsa_key k) v v' h).0;
      }

  or_refetch-IsSigner :
      (w v v' : World) (found : List Json) (key : Json)
      → IsFound env w kid found
      → or_refetch env kid found v ≡ (ok key, v')
      → IsSigner env w kid key
  or_refetch-IsSigner w v v' (k ∷ ks) key f h = first_key-IsSigner w v v' (k ∷ ks) key f h
  or_refetch-IsSigner w v v' [] key f h =
      let cleared : World = record v { jwks = none } in
      let (jwks, v₁, got, h₁) =
        >>=-returns (fetch_jwks env) (with_matches kid (first_key env)) cleared h in
      let (found, v₂, matched, h₂) =
        >>=-returns (lift (matches_of kid jwks)) (first_key env) v₁ h₁ in
      let p : Published env w.jwks w.trace jwks =
        refetched (fetch_jwks-Published env cleared v₁ jwks got) in
      first_key-IsSigner w v₂ v' found key
        (matches_of-IsFound w jwks found p (lift-returns (matches_of kid jwks) v₁ matched).0) h₂

  pub resolve_signing_key-IsSigner :
      (w w' : World) (key : Json)
      → resolve_signing_key env kid w ≡ (ok key, w')
      → IsSigner env w kid key
  unfolding resolve_signing_key
  resolve_signing_key-IsSigner w w' key h =
      let (jwks, v₁, got, h₁) =
        >>=-returns (fetch_jwks env) (with_matches kid (or_refetch env kid)) w h in
      let (found, v₂, matched, h₂) =
        >>=-returns (lift (matches_of kid jwks)) (or_refetch env kid) v₁ h₁ in
      or_refetch-IsSigner w v₂ w' found key
        (matches_of-IsFound w jwks found (fetch_jwks-Published env w v₁ jwks got)
          (lift-returns (matches_of kid jwks) v₁ matched).0)
        h₂
