-- ===== src/Services/Tokens/Zones.antt =====
-- The names of zones that `_validate_scope_rules` of src/cfproxy/services/token_service.py goes by.
use cloudflare_manual_dns.Db.{UpstreamCredential}
use cloudflare_manual_dns.Db.Locks.Bounds.{Adds}
use cloudflare_manual_dns.Upstream.Auth.{find_key}
use cloudflare_manual_dns.Upstream.Auth.Kept.{IsNeutral, resolve_upstream_auth-Keeps}
use cloudflare_manual_dns.Upstream.Client.{Headers, forward_request}
use cloudflare_manual_dns.Upstream.Client.Sent.{
  or_http_error, request_of, send, forward_request_lem,
}
use cloudflare_manual_dns.Services.Tokens.{
  Memo, headers_once, read_zone_name, resolve_named, resolve_zone_name,
}
use cloudflare_manual_dns.Runtime.{HttpRequest, HttpResponse, Event, sent, Env, World, lift}
use cloudflare_manual_dns.Runtime.Bind.{pair_injective, >>=-returns, lift-returns}
use mathlib.Core.Path.{subst}
use mathlib.Core.List.{append_assoc}
use cloudflare_manual_dns.Common.{
  ◌≡◌, refl, sym, ap, ◌∙◌, inl, inr, Option, none, some, List, [], ◌∷◌, ◌++◌, Bool-cases, Str,
  codes, ◌==◌, eq_iff, Json, ok_injective, ok,
}

pub Adds-refl : (t : List Event) → Adds t t
Adds-refl t = ([], refl)

pub Adds-cons : (e : Event) (t u : List Event) → Adds t u → Adds t (e ∷ u)
Adds-cons e t u (events, h) = (e ∷ events, ap (λ v. e ∷ v) h)

pub Adds-trans : (t u v : List Event) → Adds t u → Adds u v → Adds t v
Adds-trans t u v (first, h) (second, k) =
    (second ++ first, k ∙ ap (λ x. second ++ x) h ∙ sym (append_assoc second first t))

Adds-IsNeutral : (t : List Event) → IsNeutral (λ w. Adds t w.trace)
Adds-IsNeutral t = record {
  posting = λ w form h. Adds-cons _ t w.trace h;
  committing = λ w db h. Adds-cons _ t w.trace h;
  caching = λ w key cache h. Adds-cons _ t w.trace h;
}

some_eq : {A : Type 0} {x y : A} → some x ≡ some y → x ≡ y
some_eq h = cc h

or_http_error-ok :
    (o : Option HttpResponse) (r : HttpResponse) → or_http_error o ≡ ok r → o ≡ some r
or_http_error-ok none r h = cc h
or_http_error-ok (some x) r h = ap some (ok_injective h)

module _ (env : Env) where
  abbrev pub zone_request : Str → Headers → HttpRequest
  zone_request zone_id auth_headers =
      request_of (codes "GET") (codes "/client/v4/zones/" ++ zone_id) none auth_headers

  -- The upstream answered to a GET of this zone, sent in the run, with a zone of this name.
  pub record IsZoneName (t : List Event) (zone_id : Str) (name : Json) : Type 0 where
    pub auth_headers : Headers
    pub earlier : List Event
    pub response : HttpResponse
    pub answered : env.respond earlier (zone_request zone_id auth_headers) ≡ some response
    pub its_name : read_zone_name env response ≡ ok name
    pub in_run : Adds (sent (zone_request zone_id auth_headers) ∷ earlier) t

  pub IsZoneName-later :
      (t u : List Event) (zone_id : Str) (name : Json)
      → Adds t u
      → IsZoneName t zone_id name
      → IsZoneName u zone_id name
  IsZoneName-later t u zone_id name h z = record {
    auth_headers = z.auth_headers;
    earlier = z.earlier;
    response = z.response;
    answered = z.answered;
    its_name = z.its_name;
    in_run = Adds-trans _ t u z.in_run h;
  }

  -- What is remembered of the zones are their names.
  abbrev pub KnowsZones : List Event → Memo → Type 0
  KnowsZones t memo =
      (zone_id : Str) (name : Json)
      → find_key zone_id memo.zone_names ≡ some name
      → IsZoneName t zone_id name

  pub headers_once-Adds :
      (credential : UpstreamCredential) (o : Option Headers) (w w' : World) (hs : Headers)
      → headers_once env credential o w ≡ (ok hs, w')
      → Adds w.trace w'.trace
  headers_once-Adds credential none w w' hs h =
      subst (λ r. Adds w.trace r.1.trace) h
        (resolve_upstream_auth-Keeps env (λ v. Adds w.trace v.trace) (Adds-IsNeutral w.trace)
          credential w (Adds-refl w.trace))
  headers_once-Adds credential (some hs) w w' hs' h =
      subst (λ v. Adds w.trace v.trace) (pair_injective h).1 (Adds-refl w.trace)

  -- What a resolved name leaves behind.
  abbrev pub Resolved : Str → World → Json × Memo → World → Type 0
  Resolved zone_id w (name, next) w' =
      Adds w.trace w'.trace × IsZoneName w'.trace zone_id name × KnowsZones w'.trace next

  -- A name that is new is remembered with the others.
  remembered :
      (t : List Event) (zone_id : Str) (name : Json) (memo : Memo)
      → KnowsZones t memo
      → IsZoneName t zone_id name
      → KnowsZones t (record memo { zone_names = (zone_id, name) ∷ memo.zone_names })
  unfolding find_key
  remembered t zone_id name memo knows z other found h = elim (Bool-cases (zone_id == other)) [
    | inl e ↦
        subst (λ n. IsZoneName t other n) (some_eq (rw e at h))
          (subst (λ i. IsZoneName t i name) ((eq_iff zone_id other).0 e) z)
    | inr e ↦ knows other found (rw e at h)
  ]

  resolve_named-Resolved :
      (zone_id : Str) (hs : Headers) (memo : Memo) (o : Option Json) (w w' : World)
      (r : Json × Memo)
      → find_key zone_id memo.zone_names ≡ o
      → KnowsZones w.trace memo
      → resolve_named env zone_id hs memo o w ≡ (ok r, w')
      → Resolved zone_id w r w'
  resolve_named-Resolved zone_id hs memo (some name) w w' r e knows h =
      let (same, world) = pair_injective h in
      subst (λ x. Resolved zone_id w x w') (ok_injective same)
        (subst (Resolved zone_id w (name, memo)) world
          (Adds-refl w.trace, knows zone_id name e, knows))
  resolve_named-Resolved zone_id hs memo none w w' r e knows h =
      let (response, v, sending, h₁) =
        >>=-returns
          (forward_request env (codes "GET") (codes "/client/v4/zones/" ++ zone_id) [] [] none hs) _
          w h in
      let (answer, world) = pair_injective (
        sym (forward_request_lem env (codes "GET") (codes "/client/v4/zones/" ++ zone_id) none hs w)
        ∙ sending) in
      let (name, v', lifted, h₂) = >>=-returns (lift (read_zone_name env response)) _ v h₁ in
      let (named, same) = lift-returns (read_zone_name env response) v lifted in
      let (result, ended) = pair_injective h₂ in
      let z : IsZoneName (send (zone_request zone_id hs) w).trace zone_id name = record {
        auth_headers = hs;
        earlier = w.trace;
        response = response;
        answered = or_http_error-ok _ response answer;
        its_name = named;
        in_run = Adds-refl _;
      } in
      let longer = Adds-cons (sent (zone_request zone_id hs)) w.trace w.trace (Adds-refl w.trace) in
      subst (λ x. Resolved zone_id w x w') (ok_injective result)
        (subst
          (Resolved zone_id w
            (name, record memo { zone_names = (zone_id, name) ∷ memo.zone_names }))
          (world ∙ same ∙ ended)
          (
            longer,
            z,
            remembered _ zone_id name memo
                (λ i n f. IsZoneName-later w.trace _ i n longer (knows i n f)) z,
          ))

  pub resolve_zone_name-Resolved :
      (zone_id : Str) (hs : Headers) (memo : Memo) (w w' : World) (r : Json × Memo)
      → KnowsZones w.trace memo
      → resolve_zone_name env zone_id hs memo w ≡ (ok r, w')
      → Resolved zone_id w r w'
  unfolding resolve_zone_name
  resolve_zone_name-Resolved zone_id hs memo w w' r knows h =
      resolve_named-Resolved zone_id hs memo (find_key zone_id memo.zone_names) w w' r refl knows h
