-- ===== src/Upstream/Client.antt =====
-- The requests that src/cfproxy/upstream/client.py sends: `forward_request`, `fetch_cf_record`,
-- `list_all_records` and `verify_upstream`.
pub mod Sent
pub mod Stripped
pub mod Pages
pub mod Fuel
use cloudflare_manual_dns.Runtime.{
  HttpRequest, HttpResponse, sent, Env, M, pure, raise, lift, ◌>>=◌,
}
use cloudflare_manual_dns.Common.{
  ℕ, zero, suc, Bool, true, false, Option, none, some, List, [], ◌∷◌, ◌++◌, map, nat_eq,
  if◌then◌else◌, ℤ, leb_ℤ, pos, Str, codes, ◌==◌, mem_str, Codec, lower, show_ℕ, Json, Fields,
  truthy, lookup, or_else, get, items, null, bool, int, str, arr, obj, end, field, Result, and_then,
  dict_fields, value_error, attribute_error, key_error, type_error, http_error, out_of_fuel, ok,
  raised,
}

abbrev pub Headers : Type 0
Headers = List (Str × Str)

-- `_STRIPPED_AUTH_HEADERS`
abbrev pub stripped_auth_headers : List Str
stripped_auth_headers =
    codes "authorization"
    ∷ codes "x-auth-email"
    ∷ codes "x-auth-key"
    ∷ codes "x-auth-user-service-key"
    ∷ []

-- The client's headers without its credentials.
unfoldable pub strip_headers : Codec → Headers → Headers
strip_headers c [] = []
strip_headers c ((k, v) ∷ hs) =
    let rest = strip_headers c hs in
    if mem_str (lower c k) stripped_auth_headers then rest else (k, v) ∷ rest

-- `d[k] = v`: a key that is there keeps its place.
unfoldable pub set_key : Str → Str → Headers → Headers
set_key name value [] = (name, value) ∷ []
set_key name value ((other, old) ∷ hs) =
    if other == name then (name, value) ∷ hs else (other, old) ∷ set_key name value hs

-- `d.update(e)`
unfoldable pub update : Headers → Headers → Headers
update hs [] = hs
update hs ((k, v) ∷ es) = update (set_key k v hs) es

abbrev pub get_header : Str → Headers → Option Str
get_header k [] = none
get_header k ((j, v) ∷ hs) = if j == k then some v else get_header k hs

module _ (env : Env) where
  abbrev pub answered : Option HttpResponse → M HttpResponse
  answered none = raise http_error
  answered (some r) = pure r

  unfoldable pub forward_request :
      Str → Str → Headers → List (Str × Str) → Option Str → Headers → M HttpResponse
  forward_request method path headers params content auth_headers w =
      let request : HttpRequest = record {
        method = method;
        path = path;
        headers = update (strip_headers env.codec headers) auth_headers;
        params = params;
        content = content;
      } in
      answered (env.respond w.trace request) (record w { trace = sent request ∷ w.trace })

  -- `response.raise_for_status()`
  abbrev pub raise_for_status : HttpResponse → Result (Unit {0})
  raise_for_status r = if env.raises_for_status r then raised http_error else ok tt

-- `response.json()`
abbrev pub json : HttpResponse → Result Json
json r = elim r.body [ none ↦ raised (value_error (codes "JSONDecodeError")) | some v ↦ ok v ]

-- `v["key"]`
abbrev pub or_key_error : Option Json → Result Json
or_key_error none = raised key_error
or_key_error (some v) = ok v

unfoldable pub subscript : Json → Str → Result Json
subscript (obj fs) k = or_key_error (lookup k fs)
subscript _ k = raised type_error

-- `/client/v4/zones/{zone_id}/dns_records`, and with `/{record_id}`
abbrev pub records_path : Str → Str
records_path zone_id = codes "/client/v4/zones/" ++ zone_id ++ codes "/dns_records"

abbrev pub record_path : Str → Str → Str
record_path zone_id record_id = records_path zone_id ++ codes "/" ++ record_id

-- The items that `list.extend` takes from a value: of a dict its keys, of a text its characters.
unfoldable pub field_names : Fields → List Json
field_names end = []
field_names (field k v fs) = str k ∷ field_names fs

abbrev pub characters : Str → List Json
characters s = map (λ d. str (d ∷ [])) s

-- `v or []`, iterated
unfoldable pub iterate : Json → Result (List Json)
iterate (arr xs) = ok (items xs)
iterate (obj fs) = ok (field_names fs)
iterate (str s) = ok (characters s)
iterate v = if truthy v then raised type_error else ok []

-- `v or {}`, of which the attribute `get` is taken
unfoldable pub fields_or_empty : Json → Result Fields
fields_or_empty (obj fs) = ok fs
fields_or_empty v = if truthy v then raised attribute_error else ok end

-- What an integer is compared with: an integer or a boolean.
abbrev pub as_int : Json → Result ℤ
as_int (int n) = ok n
as_int (bool true) = ok (pos 1)
as_int (bool false) = ok (pos 0)
as_int _ = raised type_error

-- `(body.get("result_info") or {}).get("total_pages", 1)`, as a number to compare with
unfoldable pub total_pages_of : Fields → Result ℤ
total_pages_of body =
    and_then (fields_or_empty (get (codes "result_info") body))
      λ info. as_int (or_else (lookup (codes "total_pages") info) (int (pos 1)))

-- After the last page the loop ends; the other branch waits.
abbrev pub next_page : Bool → List Json → M (List Json) → M (List Json)
next_page true records rest = pure records
next_page false records rest = rest

module _ (env : Env) where
  -- What the caller makes of the response to the GET of a record.
  unfoldable pub read_record : HttpResponse → Result Json
  read_record r =
      if nat_eq r.status_code 404
      then ok null
      else and_then (raise_for_status env r)
          λ _. and_then (json r) λ v. subscript v (codes "result")

  unfoldable pub fetch_cf_record : Str → Str → Headers → M Json
  fetch_cf_record zone_id record_id auth_headers = do
    response ←
        forward_request env (codes "GET") (record_path zone_id record_id) [] [] none auth_headers
    lift (read_record response)

  -- `page_params["page"] = page; page_params.setdefault("per_page", default)`
  unfoldable pub set_default : Str → Str → List (Str × Str) → List (Str × Str)
  set_default k v ps = elim (get_header k ps) [ none ↦ ps ++ (k, v) ∷ [] | some _ ↦ ps ]

  abbrev pub page_params : List (Str × Str) → ℕ → Str → List (Str × Str)
  page_params params page per_page =
      set_default (codes "per_page") per_page (set_key (codes "page") (show_ℕ page) params)

  -- What the loop makes of one response: its records and the number of pages.
  unfoldable pub read_page : HttpResponse → Result (List Json × ℤ)
  read_page r = and_then (raise_for_status env r) λ _. and_then (json r) λ v.
      and_then (dict_fields v) λ body.
        and_then (iterate (get (codes "result") body))
          λ records. and_then (total_pages_of body) λ total. ok (records, total)

  -- The loop, on fuel; `page` is the next page to ask for.
  unfoldable pub list_pages : ℕ → Str → List (Str × Str) → Headers → ℕ → List Json → M (List Json)
  list_pages zero path params auth_headers page records = raise out_of_fuel
  list_pages (suc fuel) path params auth_headers page records = do
    response ←
        forward_request env (codes "GET") path [] (page_params params page (codes "100")) none
          auth_headers
    (new, total) ← lift (read_page response)
    next_page (leb_ℤ total (pos page)) (records ++ new)
        (list_pages fuel path params auth_headers (suc page) (records ++ new))

  unfoldable pub list_all_records : ℕ → Str → List (Str × Str) → Headers → M (List Json)
  list_all_records fuel zone_id params auth_headers =
      list_pages fuel (records_path zone_id) params auth_headers 1 []

  unfoldable pub verify_upstream : Headers → M Json
  verify_upstream auth_headers = do
    response ←
        forward_request env (codes "GET") (codes "/client/v4/user/tokens/verify") [] [] none
          auth_headers
    lift (json response)
