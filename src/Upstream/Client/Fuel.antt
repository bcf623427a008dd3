-- ===== src/Upstream/Client/Fuel.antt =====
-- The loop of `list_all_records` in src/cfproxy/upstream/client.py ends: a round for each page that
-- the upstream may report is enough.
use cloudflare_manual_dns.Upstream.Client.{
  Headers, json, iterate, fields_or_empty, total_pages_of, as_int, read_page, next_page, list_pages,
  list_all_records, records_path,
}
use cloudflare_manual_dns.Upstream.Client.Pages.{
  page_request, ask, turn, page_read, page_read-cases, list_pages-suc,
}
use cloudflare_manual_dns.Runtime.{HttpRequest, HttpResponse, Event, Env, World, continue}
use cloudflare_manual_dns.Common.{
  ℕ, zero, suc, ◌+◌, ◌≤◌, ◌≡◌, refl, ◌∙◌, ◌≢◌, ◌⊎◌, inl, inr, Bool, true, false, Option, none, some,
  List, [], ◌++◌, arith, if◌then◌else◌, ℤ, leb_ℤ, pos, Str, codes, Json, Fields, truthy, bool, int,
  str, arr, obj, Result, and_then, dict_fields, value_error, out_of_fuel, ok, raised,
}

-- The code itself does not run out of the model's fuel.
abbrev pub InFuel {ℓ} : {A : Type ℓ} → Result A → Type ℓ
InFuel r = r ≢ raised out_of_fuel

InFuel-bind :
    {A B : Type 0} (m : Result A) (f : A → Result B)
    → InFuel m
    → ((a : A) → InFuel (f a))
    → InFuel (and_then m f)
InFuel-bind (ok a) f h k = k a
InFuel-bind (raised e) f h k = λ g. h (cc g)

InFuel-if :
    {A : Type 0} (b : Bool) {m n : Result A} → InFuel m → InFuel n → InFuel (if b then m else n)
InFuel-if true h k = h
InFuel-if false h k = k

InFuel-json : (r : HttpResponse) → InFuel (json r)
InFuel-json r = go r.body
  where
    go :
        (b : Option Json)
        → InFuel (elim b [ none ↦ raised (value_error (codes "JSONDecodeError")) | some v ↦ ok v ])
    go none = λ h. cc h
    go (some v) = λ h. cc h

InFuel-dict_fields : (v : Json) → InFuel (dict_fields v)
unfolding dict_fields
InFuel-dict_fields (obj fs) = λ h. cc h
InFuel-dict_fields _ = λ h. cc h

InFuel-iterate : (v : Json) → InFuel (iterate v)
unfolding iterate
InFuel-iterate (arr xs) = λ h. cc h
InFuel-iterate (obj fs) = λ h. cc h
InFuel-iterate (str s) = λ h. cc h
InFuel-iterate v = InFuel-if (truthy v) (λ h. cc h) (λ h. cc h)

InFuel-fields_or_empty : (v : Json) → InFuel (fields_or_empty v)
unfolding fields_or_empty
InFuel-fields_or_empty (obj fs) = λ h. cc h
InFuel-fields_or_empty v = InFuel-if (truthy v) (λ h. cc h) (λ h. cc h)

InFuel-as_int : (v : Json) → InFuel (as_int v)
InFuel-as_int (int n) = λ h. cc h
InFuel-as_int (bool true) = λ h. cc h
InFuel-as_int (bool false) = λ h. cc h
InFuel-as_int _ = λ h. cc h

InFuel-total_pages_of : (fs : Fields) → InFuel (total_pages_of fs)
unfolding total_pages_of
InFuel-total_pages_of fs = InFuel-bind _ _ (InFuel-fields_or_empty _) (λ info. InFuel-as_int _)

module _ (env : Env) where
  InFuel-read_page : (r : HttpResponse) → InFuel (read_page env r)
  unfolding read_page
  InFuel-read_page r =
      InFuel-bind _ _ (InFuel-if (env.raises_for_status r) (λ h. cc h) (λ h. cc h)) (λ _.
        InFuel-bind _ _ (InFuel-json r) (λ v. InFuel-bind _ _ (InFuel-dict_fields v) (λ body.
          InFuel-bind _ _ (InFuel-iterate _)
            (λ records. InFuel-bind _ _ (InFuel-total_pages_of body) (λ total h. cc h)))))

  -- The upstream reports no more than so many pages, whenever it is asked.
  abbrev pub AtMost : ℕ → Type 0
  AtMost bound =
      (t : List Event) (request : HttpRequest) (r : HttpResponse) (xs : List Json) (total : ℤ)
      → env.respond t request ≡ some r
      → read_page env r ≡ ok (xs, total)
      → leb_ℤ total (pos bound) ≡ true

  module _ (path : Str) (params : List (Str × Str)) (auth_headers : Headers) (bound : ℕ)
      (at_most : AtMost bound) where
    page_read-InFuel : (o : Option HttpResponse) → InFuel (page_read env path params auth_headers o)
    page_read-InFuel none = λ h. cc h
    page_read-InFuel (some r) = InFuel-read_page r

    enough :
        (total : ℤ) (page : ℕ)
        → leb_ℤ total (pos bound) ≡ true
        → bound ≤ page
        → leb_ℤ total (pos page) ≡ true
    enough total page h k = ground arith

    -- After this page the loop is over, or goes on within its fuel.
    abbrev GoesOn : ℕ → ℕ → Type 0
    GoesOn fuel page =
        (bound ≤ page)
        ⊎ ((records : List Json) (w : World)
            → InFuel (list_pages env fuel path params auth_headers (suc page) records w).0)

    turn-InFuel :
        (fuel page : ℕ) (records new : List Json) (total : ℤ) (w : World) (b : Bool)
        → GoesOn fuel page
        → leb_ℤ total (pos bound) ≡ true
        → leb_ℤ total (pos page) ≡ b
        → InFuel
            (next_page b
              (records ++ new)
              (list_pages env fuel path params auth_headers (suc page) (records ++ new))
              w).0
    turn-InFuel fuel page records new total w true g i e = λ h. cc h
    turn-InFuel fuel page records new total w false (inl j) i e = cc (e, enough total page i j)
    turn-InFuel fuel page records new total w false (inr f) i e = f (records ++ new) w

    round-InFuel :
        (fuel page : ℕ) (records : List Json) (w : World) (o : Option HttpResponse)
        (v : Result (List Json × ℤ))
        → GoesOn fuel page
        → env.respond w.trace (page_request env path params auth_headers page) ≡ o
        → page_read env path params auth_headers o ≡ v
        → InFuel
            (continue
              (turn env path params auth_headers fuel page records)
              (v, ask env path params auth_headers page w)).0
    round-InFuel fuel page records w o (raised e) g a b = λ h. page_read-InFuel o (b ∙ cc h)
    round-InFuel fuel page records w o (ok (new, total)) g a b =
        let (r, c, d) = page_read-cases env path params auth_headers o (new, total) b in
        turn-InFuel fuel page records new total _ (leb_ℤ total (pos page)) g
          (at_most _ _ r new total (a ∙ c) d) refl

    list_pages-InFuel :
        (fuel page : ℕ) (records : List Json) (w : World)
        → bound ≤ page + fuel
        → InFuel (list_pages env (suc fuel) path params auth_headers page records w).0
    list_pages-InFuel zero page records w h =
        rw (list_pages-suc env path params auth_headers zero page records w)
          (round-InFuel zero page records w _ _ (inl (omega arith)) refl refl)
    list_pages-InFuel (suc fuel) page records w h =
        rw (list_pages-suc env path params auth_headers (suc fuel) page records w) (
          round-InFuel (suc fuel) page records w _ _
            (inr (λ records' v. list_pages-InFuel fuel (suc page) records' v (omega arith))) refl
            refl)

-- If the upstream never reports more than `bound` pages, the loop ends within one round more than
-- that: the model's fuel is not used up.
pub list_all_records-InFuel :
    (env : Env) (bound : ℕ) (zone_id : Str) (params : List (Str × Str)) (auth_headers : Headers)
    (w : World)
    → AtMost env bound
    → InFuel (list_all_records env (suc bound) zone_id params auth_headers w).0
unfolding list_all_records
list_all_records-InFuel env bound zone_id params auth_headers w h =
    list_pages-InFuel env (records_path zone_id) params auth_headers bound h bound 1 [] w
      (omega arith)
