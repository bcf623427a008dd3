-- ===== src/Upstream/Client/Stripped.antt =====
-- The headers of `forward_request` in src/cfproxy/upstream/client.py: whose credential goes out.
use cloudflare_manual_dns.Upstream.Client.{
  forward_request, Headers, stripped_auth_headers, strip_headers, set_key, update, get_header,
}
use cloudflare_manual_dns.Upstream.Client.Sent.{answered_lem}
use cloudflare_manual_dns.Runtime.{HttpRequest, sent, Env, World}
use cloudflare_manual_dns.Common.{
  ◌≡◌, refl, sym, ap, ◌∙◌, inl, inr, Bool, true, false, Option, none, some, List, [], ◌∷◌,
  if◌then◌else◌, Bool-cases, Str, ◌==◌, eq_refl, eq_iff, ne_of_eq, eq_of_ne, mem_str, Codec, lower,
}

-- A name that is stripped in some spelling of it.
abbrev pub IsAuthHeader : Codec → Str → Type 0
IsAuthHeader c k = mem_str (lower c k) stripped_auth_headers ≡ true

get_header-strip_headers :
    (c : Codec) (k : Str) (hs : Headers)
    → IsAuthHeader c k
    → get_header k (strip_headers c hs) ≡ none
unfolding strip_headers
get_header-strip_headers c k [] h = refl
get_header-strip_headers c k ((j, v) ∷ hs) h =
    elim (Bool-cases (mem_str (lower c j) stripped_auth_headers)) [
      | inl e ↦ rw e (get_header-strip_headers c k hs h)
      | inr e ↦ elim (Bool-cases (j == k)) [
        | inl same ↦ cc (e, h, (eq_iff j k).0 same)
        | inr other ↦ rw (e, other) (get_header-strip_headers c k hs h)
      ]
    ]

get_header-set_key :
    (k j v : Str) (hs : Headers)
    → get_header k (set_key j v hs) ≡ (if j == k then some v else get_header k hs)
unfolding set_key
get_header-set_key k j v [] = refl
get_header-set_key k j v ((i, w) ∷ hs) = elim (Bool-cases (i == j)) [
  | inl same ↦ rw ((eq_iff i j).0 same, eq_refl j) (shadowed (j == k))
  | inr other ↦ rw other (elim (Bool-cases (i == k)) [
    | inl here ↦ rw (here, other_key i j k other here) refl
    | inr later ↦ rw later (get_header-set_key k j v hs)
  ])
]
  where
    shadowed :
        (b : Bool)
        → (if b then some v else get_header k hs)
          ≡ (if b then some v else if b then some w else get_header k hs)
    shadowed true = refl
    shadowed false = refl

    other_key : (i j k : Str) → (i == j) ≡ false → (i == k) ≡ true → (j == k) ≡ false
    other_key i j k o h = eq_of_ne j k (λ e. ne_of_eq i j o ((eq_iff i k).0 h ∙ sym e))

get_header-update :
    (k : Str) (es hs hs' : Headers)
    → get_header k hs ≡ get_header k hs'
    → get_header k (update hs es) ≡ get_header k (update hs' es)
unfolding update
get_header-update k [] hs hs' h = h
get_header-update k ((j, v) ∷ es) hs hs' h =
    get_header-update k es (set_key j v hs) (set_key j v hs') (
      get_header-set_key k j v hs
      ∙ ap (λ o. if j == k then some v else o) h
      ∙ sym (get_header-set_key k j v hs'))

update-strip_headers :
    (c : Codec) (k : Str) (headers auth_headers : Headers)
    → IsAuthHeader c k
    → get_header k (update (strip_headers c headers) auth_headers)
      ≡ get_header k (update [] auth_headers)
update-strip_headers c k headers auth_headers h =
    get_header-update k auth_headers (strip_headers c headers) []
      (get_header-strip_headers c k headers h)

-- A forwarded request is one request sent. Under a credential header, however it is spelled, the
-- upstream sees what the resolved credential puts there and nothing that the client has sent.
pub forward_request-credentials :
    (env : Env) (method path : Str) (headers : Headers) (params : List (Str × Str))
    (content : Option Str) (auth_headers : Headers) (w : World) (k : Str)
    → IsAuthHeader env.codec k
    → (r : HttpRequest) × ((forward_request env method path headers params content auth_headers
          w).1.trace
        ≡ sent r ∷ w.trace)
      × (get_header k r.headers ≡ get_header k (update [] auth_headers))
unfolding forward_request
forward_request-credentials env method path headers params content auth_headers w k h =
    let request : HttpRequest = record {
      method = method;
      path = path;
      headers = update (strip_headers env.codec headers) auth_headers;
      params = params;
      content = content;
    } in
    (
      request,
      ap (λ o. o.1.trace)
          (answered_lem env (env.respond w.trace request)
            (record w { trace = sent request ∷ w.trace })),
      update-strip_headers env.codec k headers auth_headers h,
    )
