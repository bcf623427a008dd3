-- ===== src/Services/Login/SingleUse.antt =====
-- The state of a login in src/cfproxy/services/oauth_service.py serves once.
use cloudflare_manual_dns.Services.Login.{
  start_cf_oauth_login, oauth_state_key, cache_getdel, stored_state, consume_oauth_state,
  commit_login, store_both, store_for, store_login, login_claims, login_credential, with_state,
  handle_cf_oauth_callback,
}
use cloudflare_manual_dns.Services.Login.Kept.{
  login_credential-Keeps, stored_state-Keeps, with_state-Keeps,
}
use cloudflare_manual_dns.Auth.OauthCf.{make_pkce}
use cloudflare_manual_dns.Upstream.Auth.{find_key, drop_key, put_key, cache_set_json}
use cloudflare_manual_dns.Runtime.{Env, World, drawn, lift, ◌>>=◌}
use cloudflare_manual_dns.Runtime.Keeps.{IsStable, Keeps, Keeps-bind}
use cloudflare_manual_dns.Common.{
  ◌≡◌, refl, ap, ◌∙◌, ◌≢◌, inl, inr, Bool, true, false, Option, none, List, [], ◌∷◌, if◌then◌else◌,
  Bool-cases, Str, codes, ◌==◌, eq_iff, eq_of_ne, Json, Fields, value_error, raised,
}

find_key-drop_key : (k : Str) (m : List (Str × Str)) → find_key k (drop_key k m) ≡ none
unfolding find_key drop_key
find_key-drop_key k [] = refl
find_key-drop_key k ((j, v) ∷ m) = go (j == k) refl (find_key-drop_key k m)
  where
    go :
        (b : Bool)
        → (j == k) ≡ b
        → find_key k (drop_key k m) ≡ none
        → find_key k (if b then drop_key k m else (j, v) ∷ drop_key k m) ≡ none
    go true e ih = ih
    go false e ih = rw e ih

find_key-drop_none :
    (k j : Str) (m : List (Str × Str)) → find_key k m ≡ none → find_key k (drop_key j m) ≡ none
unfolding find_key drop_key
find_key-drop_none k j [] h = refl
find_key-drop_none k j ((o, v) ∷ m) h = elim (Bool-cases (o == k)) [
  | inl e ↦ cc (rw e at h)
  | inr e ↦ elim (Bool-cases (o == j)) [
    | inl f ↦ rw f (find_key-drop_none k j m (rw e at h))
    | inr f ↦ rw (f, e) (find_key-drop_none k j m (rw e at h))
  ]
]

find_key-put_other :
    (k j v : Str) (m : List (Str × Str))
    → (j == k) ≡ false
    → find_key k (put_key j v m) ≡ find_key k m
unfolding find_key put_key
find_key-put_other k j v [] h = rw h refl
find_key-put_other k j v ((o, old) ∷ m) h = elim (Bool-cases (o == j)) [
  | inl e ↦ rw (e, h, ap (λ x. x == k) ((eq_iff o j).0 e) ∙ h) refl
  | inr e ↦ elim (Bool-cases (o == k)) [
    | inl f ↦ rw (e, f) refl
    | inr f ↦ rw (e, f) (find_key-put_other k j v m h)
  ]
]

key_injective : {s t : Str} → oauth_state_key s ≡ oauth_state_key t → s ≡ t
key_injective h = cc h

-- What is in the cache stays.
abbrev IsCache : List (Str × Str) → World → Type 0
IsCache c w = w.cache ≡ c

IsCache-IsStable : (c : List (Str × Str)) → IsStable (IsCache c)
IsCache-IsStable c = record { traced = λ w t h. h; stored = λ w j h. h }

module _ (env : Env) where
  store_login-Keeps :
      (c : List (Str × Str)) (tokens claims : Fields)
      → Keeps (IsCache c) (store_login env tokens claims)
  unfolding store_login
  store_login-Keeps c tokens claims =
      Keeps-bind (IsCache c) (lift (login_claims env claims)) (store_for env tokens) (λ w h. h)
        λ (cf_sub, email) w h.
          Keeps-bind (IsCache c) (lift _) (store_both env tokens _ _) (λ w h. h)
            (λ users.
              Keeps-bind (IsCache c) (login_credential env tokens _ _) (commit_login env _ users)
                (login_credential-Keeps env (IsCache c) tokens _ _) λ (is_new, credential) w h. h)
            w h

  with_kept :
      (code : Str) (c : List (Str × Str)) (o : Option Str)
      → Keeps (IsCache c) (stored_state env o >>= with_state env code)
  with_kept code c o =
      Keeps-bind (IsCache c) (stored_state env o) (with_state env code)
        (stored_state-Keeps env (IsCache c) o)
        (with_state-Keeps env (IsCache c) (IsCache-IsStable c) (store_login-Keeps c) code)

  -- The entry of the state is gone once it is asked for, if the store answers.
  gone_lem :
      (code state : Str) (w : World)
      → env.cache_answers w.trace ≡ true
      → find_key (oauth_state_key state) (handle_cf_oauth_callback env code state w).1.cache ≡ none
  unfolding handle_cf_oauth_callback consume_oauth_state cache_getdel
  gone_lem code state w h = rw h (
      ap (find_key (oauth_state_key state)) (
        with_kept code (drop_key (oauth_state_key state) w.cache)
          (find_key (oauth_state_key state) w.cache) _ refl)
      ∙ find_key-drop_key (oauth_state_key state) w.cache)

  -- A login whose state is not there ends at once.
  abbrev IsSpent : Str → Str → World → Type 0
  IsSpent code state w =
      ((handle_cf_oauth_callback env code state w).0
        ≡ raised (value_error (codes "invalid or expired oauth state")))
      × ((handle_cf_oauth_callback env code state w).1.db ≡ w.db)

  spent_lem :
      (code state : Str) (w : World)
      → find_key (oauth_state_key state) w.cache ≡ none
      → IsSpent code state w
  unfolding handle_cf_oauth_callback consume_oauth_state cache_getdel
  spent_lem code state w h = elim (Bool-cases (env.cache_answers w.trace)) [
    | inl a ↦ (rw (a, h) refl, rw (a, h) refl)
    | inr a ↦ (rw a refl, rw a refl)
  ]

  -- The state that a start of a login in this world draws, after the verifier.
  abbrev pub drawn_state : World → Str
  drawn_state w = env.token_urlsafe (drawn ∷ w.trace) 0 32

  -- The worlds after this one that the state is not stored in again: callbacks with any state, starts
  -- of logins that draw other states, and whatever else leaves the entry of the state as it is.
  pub data Later (state : Str) (w : World) : World → Type 0 where
    at_once : Later state w w
    called :
        (code other : Str) (v : World)
        → Later state w v
        → Later state w (handle_cf_oauth_callback env code other v).1
    started :
        (v : World)
        → drawn_state v ≢ state
        → Later state w v
        → Later state w (start_cf_oauth_login env v).1
    changed :
        (v u : World)
        → find_key (oauth_state_key state) u.cache ≡ find_key (oauth_state_key state) v.cache
        → Later state w v
        → Later state w u

  called_lem :
      (code other : Str) (k : Str) (v : World)
      → find_key k v.cache ≡ none
      → find_key k (handle_cf_oauth_callback env code other v).1.cache ≡ none
  unfolding handle_cf_oauth_callback consume_oauth_state cache_getdel
  called_lem code other k v h = elim (Bool-cases (env.cache_answers v.trace)) [
    | inl a ↦ rw a (
        ap (find_key k) (
          with_kept code (drop_key (oauth_state_key other) v.cache)
            (find_key (oauth_state_key other) v.cache) _ refl)
        ∙ find_key-drop_none k (oauth_state_key other) v.cache h)
    | inr a ↦ rw a (ap (find_key k) (with_kept code v.cache none v refl) ∙ h)
  ]

  cache_set_json-other :
      (k key : Str) (value : Json) (w : World)
      → (key == k) ≡ false
      → find_key k (cache_set_json env key value w).1.cache ≡ find_key k w.cache
  unfolding cache_set_json
  cache_set_json-other k key value w h = elim (Bool-cases (env.cache_answers w.trace)) [
    | inl a ↦ rw a (find_key-put_other k key (env.dumps value) w.cache h)
    | inr a ↦ rw a refl
  ]

  started_lem :
      (state : Str) (v : World)
      → drawn_state v ≢ state
      → find_key (oauth_state_key state) (start_cf_oauth_login env v).1.cache
        ≡ find_key (oauth_state_key state) v.cache
  unfolding start_cf_oauth_login make_pkce cache_set_json
  started_lem state v n =
      let key = oauth_state_key (drawn_state v) in
      cache_set_json-other (oauth_state_key state) key _
        (record v { trace = drawn ∷ drawn ∷ drawn ∷ v.trace })
        (eq_of_ne key (oauth_state_key state) (λ e. n (key_injective e)))

  still_gone :
      (state : Str) (w v : World)
      → Later state w v
      → find_key (oauth_state_key state) w.cache ≡ none
      → find_key (oauth_state_key state) v.cache ≡ none
  still_gone state w _ at_once h = h
  still_gone state w _ (called code other v l) h =
      called_lem code other (oauth_state_key state) v (still_gone state w v l h)
  still_gone state w _ (started v n l) h = started_lem state v n ∙ still_gone state w v l h
  still_gone state w u (changed v _ e l) h = e ∙ still_gone state w v l h

-- A state serves one callback: when the cache has answered one, whatever became of it, every later
-- callback with the same state is refused as invalid or expired, and leaves the database as it is,
-- through any callbacks, starts of logins and other changes in between that do not store the state
-- again (a start that draws the same state does).
pub handle-once :
    (env : Env) (code later_code state : Str) (w v : World)
    → env.cache_answers w.trace ≡ true
    → Later env state (handle_cf_oauth_callback env code state w).1 v
    → ((handle_cf_oauth_callback env later_code state v).0
        ≡ raised (value_error (codes "invalid or expired oauth state")))
      × ((handle_cf_oauth_callback env later_code state v).1.db ≡ v.db)
handle-once env code later_code state w v h l = spent_lem env later_code state v (
    still_gone env state (handle_cf_oauth_callback env code state w).1 v l
      (gone_lem env code state w h))
