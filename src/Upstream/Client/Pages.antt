-- ===== src/Upstream/Client/Pages.antt =====
-- The loop of `list_all_records` in src/cfproxy/upstream/client.py: what it returns, and how many
-- rounds it takes.
use mathlib.Core.List.{append_assoc}
use mathlib.Core.Path.{subst}
use cloudflare_manual_dns.Upstream.Client.Sent.{or_http_error, answered_lem}
use cloudflare_manual_dns.Upstream.Client.{
  Headers, forward_request, page_params, read_page, next_page, list_pages, strip_headers, update,
  list_all_records, records_path,
}
use cloudflare_manual_dns.Runtime.{
  HttpRequest, HttpResponse, Event, sent, Env, World, M, lift, continue, ◌>>=◌,
}
use cloudflare_manual_dns.Common.{
  ℕ, zero, suc, ◌≡◌, refl, sym, ap, ◌∙◌, ◌≢◌, Bool, true, false, Option, none, some, List, [], ◌∷◌,
  ◌++◌, ℤ, leb_ℤ, pos, Str, codes, Json, Exception, Result, ok_injective, http_error, ok, raised,
}

module _ (env : Env) (path : Str) (params : List (Str × Str)) (auth_headers : Headers) where
  -- The request for one page.
  abbrev pub page_request : ℕ → HttpRequest
  page_request page = record {
    method = codes "GET";
    path = path;
    headers = update [] auth_headers;
    params = page_params env params page (codes "100");
    content = none;
  }

  -- The upstream's pages from this one to the last, each asked for after the one before it: the
  -- loop ends at the first page that is not below the number of pages it reports.
  pub data Walk : List Event → ℕ → List Json → List Event → Type 0 where
    last :
        {t : List Event} {page : ℕ} (r : HttpResponse) (xs : List Json) (total : ℤ)
        → env.respond t (page_request page) ≡ some r
        → read_page env r ≡ ok (xs, total)
        → leb_ℤ total (pos page) ≡ true
        → Walk t page xs (sent (page_request page) ∷ t)
    further :
        {t u : List Event} {page : ℕ} (r : HttpResponse) (xs rest : List Json) (total : ℤ)
        → env.respond t (page_request page) ≡ some r
        → read_page env r ≡ ok (xs, total)
        → leb_ℤ total (pos page) ≡ false
        → Walk (sent (page_request page) ∷ t) (suc page) rest u
        → Walk t page (xs ++ rest) u

  abbrev pub ask : ℕ → World → World
  ask page w = record w { trace = sent (page_request page) ∷ w.trace }

  abbrev pub turn : ℕ → ℕ → List Json → List Json × ℤ → M (List Json)
  turn fuel page records (new, total) =
      next_page (leb_ℤ total (pos page)) (records ++ new)
        (list_pages env fuel path params auth_headers (suc page) (records ++ new))

  abbrev pub page_read : Option HttpResponse → Result (List Json × ℤ)
  page_read none = raised http_error
  page_read (some r) = read_page env r

  read_lem :
      (fuel page : ℕ) (records : List Json) (o : Option HttpResponse) (w : World)
      → continue
          (λ response. lift (read_page env response) >>= turn fuel page records)
          (or_http_error o, w)
        ≡ continue (turn fuel page records) (page_read o, w)
  read_lem fuel page records none w = refl
  read_lem fuel page records (some r) w = refl

  pub list_pages-suc :
      (fuel page : ℕ) (records : List Json) (w : World)
      → list_pages env (suc fuel) path params auth_headers page records w
        ≡ continue
            (turn fuel page records)
            (page_read (env.respond w.trace (page_request page)), ask page w)
  unfolding list_pages forward_request strip_headers
  list_pages-suc fuel page records w =
      ap (continue (λ response. lift (read_page env response) >>= turn fuel page records))
        (answered_lem env (env.respond w.trace (page_request page)) (ask page w))
      ∙ read_lem fuel page records (env.respond w.trace (page_request page)) (ask page w)

  Walked : ℕ → List Json → World → List Json → World → Type 0
  Walked page records w out w' =
      (rest : List Json) × (out ≡ records ++ rest) × Walk w.trace page rest w'.trace

  turn_sound :
      (fuel page : ℕ) (records new : List Json) (total : ℤ) (r : HttpResponse) (w w' : World)
      (out : List Json)
      → ((records' : List Json) (v : World)
          → list_pages env fuel path params auth_headers (suc page) records' v ≡ (ok out, w')
          → Walked (suc page) records' v out w')
      → env.respond w.trace (page_request page) ≡ some r
      → read_page env r ≡ ok (new, total)
      → (b : Bool) → leb_ℤ total (pos page) ≡ b
      → next_page b
          (records ++ new)
          (list_pages env fuel path params auth_headers (suc page) (records ++ new))
          (ask page w)
        ≡ (ok out, w')
      → Walked page records w out w'
  unfolding Walked
  turn_sound fuel page records new total r w w' out ih a b true e h = (
    new,
    ok_injective (sym (ap (λ o. o.0) h)),
    subst (λ (v : World). Walk w.trace page new v.trace) (ap (λ o. o.1) h) (last r new total a b e),
  )
  turn_sound fuel page records new total r w w' out ih a b false e h =
      let (rest, same, walk) = ih (records ++ new) (ask page w) h in
      (new ++ rest, same ∙ append_assoc records new rest, further r new rest total a b e walk)

  pub page_read-cases :
      (o : Option HttpResponse) (v : List Json × ℤ)
      → page_read o ≡ ok v
      → (r : HttpResponse) × (o ≡ some r) × (read_page env r ≡ ok v)
  page_read-cases none v h = cc
  page_read-cases (some r) v h = (r, refl, h)

  no_fuel :
      (page : ℕ) (records : List Json) (w : World) (out : List Json)
      → (list_pages env zero path params auth_headers page records w).0 ≢ ok out
  unfolding list_pages
  no_fuel page records w out h = cc h

  raised_not_ok :
      (e : Exception) (out : List Json) → ◌≡◌ {A = Result (List Json)} (raised e) (ok out) → ⊥
  raised_not_ok e out i = cc

  round_Walked :
      (fuel page : ℕ) (records : List Json) (w w' : World) (out : List Json)
      → ((records' : List Json) (v : World)
          → list_pages env fuel path params auth_headers (suc page) records' v ≡ (ok out, w')
          → Walked (suc page) records' v out w')
      → (v : Result (List Json × ℤ)) → page_read (env.respond w.trace (page_request page)) ≡ v
      → continue (turn fuel page records) (v, ask page w) ≡ (ok out, w')
      → Walked page records w out w'
  round_Walked fuel page records w w' out ih (raised e) a k =
      absurd (raised_not_ok e out (ap (λ o. o.0) k))
  round_Walked fuel page records w w' out ih (ok (new, total)) a k =
      let (r, b, c) = page_read-cases (env.respond w.trace (page_request page)) (new, total) a in
      turn_sound fuel page records new total r w w' out ih b c (leb_ℤ total (pos page)) refl k

  list_pages-Walked :
      (fuel page : ℕ) (records : List Json) (w w' : World) (out : List Json)
      → list_pages env fuel path params auth_headers page records w ≡ (ok out, w')
      → Walked page records w out w'
  list_pages-Walked zero page records w w' out h =
      absurd (no_fuel page records w out (ap (λ o. o.0) h))
  list_pages-Walked (suc fuel) page records w w' out h =
      round_Walked fuel page records w w' out
        (λ records' v j. list_pages-Walked fuel (suc page) records' v w' out j)
        (page_read (env.respond w.trace (page_request page))) refl
        (sym (list_pages-suc fuel page records w) ∙ h)

-- The records of a zone, as far as they are returned, are the upstream's pages from the first to
-- the last, in order and one behind the other; nothing was sent but one GET for each page.
pub list_all_records-Walk :
    (env : Env) (fuel : ℕ) (zone_id : Str) (params : List (Str × Str)) (auth_headers : Headers)
    (w w' : World) (records : List Json)
    → list_all_records env fuel zone_id params auth_headers w ≡ (ok records, w')
    → Walk env (records_path zone_id) params auth_headers w.trace 1 records w'.trace
unfolding list_all_records Walked
list_all_records-Walk env fuel zone_id params auth_headers w w' records h =
    let (rest, same, walk) =
      list_pages-Walked env (records_path zone_id) params auth_headers fuel 1 [] w w' records h in
    subst (λ xs. Walk env (records_path zone_id) params auth_headers w.trace 1 xs w'.trace)
      (sym same) walk
