-- ===== src/Common/Results.antt =====
-- Python code that may raise: a pure function returns a `Result`, and code with effects is an
-- action on a state, which comes back beside the exception too.
use mathlib.Core.Path.{◌≡◌, refl, ap}
use mathlib.Core.Bool.{Bool, true, false}
use cloudflare_manual_dns.Common.Tests.{if◌then◌else◌}
use cloudflare_manual_dns.Common.Text.{Str}
use cloudflare_manual_dns.Common.Values.{Json, Fields, null, bool, int, str, arr, obj}

pub data Exception : Type 0 where
  value_error : Str → Exception
  unicode_error attribute_error key_error type_error : Exception
  http_error runtime_error lock_unavailable not_found invalid_token : Exception
  -- `NotFoundError` of the services, with the id of the row; `not_found` is the database's own
  credential_not_found token_not_found : Str → Exception
  -- the `HTTPException` of status 401 of the proxy, and that of the management API with its detail
  unauthorized : Exception
  not_authenticated : Str → Exception
  -- `jwt.InvalidTokenError`, and a hash that argon2 cannot read
  invalid_jwt invalid_hash : Exception
  -- a unique column of the database has the value already
  integrity_error : Exception
  -- no exception of the program: a loop of the model has used up its fuel
  out_of_fuel : Exception

pub data Result {ℓ} (A : Type ℓ) : Type ℓ where
  ok : A → Result A
  raised : Exception → Result A

module _ {ℓ κ} {A : Type ℓ} {B : Type κ} where
  infixl 5 ◌>>=◌
  abbrev pub ◌>>=◌ : Result A → (A → Result B) → Result B
  raised e >>= next = raised e
  ok x >>= next = next x

  -- the same, where the sign is taken for another monad
  abbrev pub and_then : Result A → (A → Result B) → Result B
  and_then m f = m >>= f

  -- What returns in the end has returned first.
  pub >>=-eq-ok :
      (first : Result A) (next : A → Result B) {v : B}
      → and_then first next ≡ ok v
      → (x : A) × (first ≡ ok x) × (next x ≡ ok v)
  >>=-eq-ok (raised e) next returned = cc
  >>=-eq-ok (ok x) next returned = (x, refl, returned)

pub ok_injective {ℓ} : {A : Type ℓ} {a b : A} → ok a ≡ ok b → a ≡ b
ok_injective h = cc

-- The code returns: it raises nothing.
module _ {ℓ} {A : Type ℓ} where
  abbrev pub Returns : Result A → Type ℓ
  Returns r = (a : A) × (r ≡ ok a)

  pub Returns-if :
      (b : Bool) {m n : Result A} → Returns m → Returns n → Returns (if b then m else n)
  Returns-if true h k = h
  Returns-if false h k = k

module _ {ℓ κ} {A : Type ℓ} {B : Type κ} where
  pub Returns-bind :
      {m : Result B} (f : B → Result A)
      → Returns m
      → ((b : B) → m ≡ ok b → Returns (f b))
      → Returns (m >>= f)
  Returns-bind f (b, e) k = let (a, h) = k b e in (a, rw e h)

abbrev pub Exec {ℓ} : Type ℓ → Type ℓ → Type ℓ
Exec S A = S → Result A × S

-- The value's attribute `get`, which only a dict has.
unfoldable pub dict_fields : Json → Result Fields
dict_fields (obj fs) = ok fs
dict_fields _ = raised attribute_error

pub dict_fields-ok : (v : Json) (fs : Fields) → dict_fields v ≡ ok fs → v ≡ obj fs
unfolding dict_fields
dict_fields-ok (obj fs) t h = ap obj (ok_injective h)
dict_fields-ok null t h = cc h
dict_fields-ok (bool b) t h = cc h
dict_fields-ok (int n) t h = cc h
dict_fields-ok (arr vs) t h = cc h
dict_fields-ok (str s) t h = cc h
