-- ===== src/Common/Values.antt =====
-- Decoded JSON, as the program's dynamic values; a fractional number has no value here.
use Prim.Native.Nat.{ℕ, suc}
use mathlib.Core.Bool.{Bool, true, false, not, ◌&&◌}
use mathlib.Core.Option.{Option, none, some}
use mathlib.Core.List.{List, [], ◌∷◌}
use cloudflare_manual_dns.Common.Tests.{nat_eq, if◌then◌else◌}
use cloudflare_manual_dns.Common.Int.{ℤ, pos, eq_ℤ}
use cloudflare_manual_dns.Common.Text.{Str, ◌==◌, mem_str}

mutual
  pub data Json : Type 0 where
    null : Json
    bool : Bool → Json
    int : ℤ → Json
    str : Str → Json
    arr : Items → Json
    obj : Fields → Json

  pub data Items : Type 0 where
    nil : Items
    cons : Json → Items → Items

  pub data Fields : Type 0 where
    end : Fields
    field : Str → Json → Fields → Fields

-- `bool(v)`
unfoldable pub truthy : Json → Bool
truthy null = false
truthy (bool b) = b
truthy (int n) = not (eq_ℤ n (pos 0))
truthy (str []) = false
truthy (str (_ ∷ _)) = true
truthy (arr nil) = false
truthy (arr (cons _ _)) = true
truthy (obj end) = false
truthy (obj (field _ _ _)) = true

-- `d.get(key)` of a dict: null if the key is missing
unfoldable pub lookup : Str → Fields → Option Json
lookup k end = none
lookup k (field j v fs) = if j == k then some v else lookup k fs

abbrev pub or_else : Option Json → Json → Json
or_else none d = d
or_else (some v) d = v

unfoldable pub get : Str → Fields → Json
unfolding lookup
get k fs = or_else (lookup k fs) null

unfoldable pub items : Items → List Json
items nil = []
items (cons v vs) = v ∷ items vs

abbrev pub field_count : Fields → ℕ
field_count end = 0
field_count (field _ _ fs) = suc (field_count fs)

abbrev bit : Bool → ℤ
bit true = pos 1
bit false = pos 0

abbrev found_eq : (Json → Bool) → Option Json → Bool
found_eq same none = false
found_eq same (some w) = same w

-- `a == b`: `True` is 1, and a dict has no order.
unfoldable mutual
  pub py_eq : Json → Json → Bool
  py_eq null null = true
  py_eq (bool a) (bool b) = eq_ℤ (bit a) (bit b)
  py_eq (bool a) (int n) = eq_ℤ (bit a) n
  py_eq (int n) (bool a) = eq_ℤ n (bit a)
  py_eq (int n) (int m) = eq_ℤ n m
  py_eq (str s) (str t) = s == t
  py_eq (arr xs) (arr ys) = py_eq_items xs ys
  py_eq (obj fs) (obj gs) = nat_eq (field_count fs) (field_count gs) && py_eq_fields fs gs
  py_eq _ _ = false

  pub py_eq_items : Items → Items → Bool
  py_eq_items nil nil = true
  py_eq_items (cons x xs) (cons y ys) = py_eq x y && py_eq_items xs ys
  py_eq_items _ _ = false

  pub py_eq_fields : Fields → Fields → Bool
  py_eq_fields end gs = true
  py_eq_fields (field k v fs) gs = found_eq (py_eq v) (lookup k gs) && py_eq_fields fs gs

-- `v in l` for a list of texts
unfoldable pub mem_json : Json → List Str → Bool
mem_json (str s) l = mem_str s l
mem_json _ l = false
