-- ===== src/Db/Users.antt =====
-- The table `users` of src/cfproxy/db/models.py, whose columns `email` and `cf_sub` are unique.
pub mod Unique
use cloudflare_manual_dns.Db.{User}
use cloudflare_manual_dns.Common.{
  ◌≡◌, refl, Bool, false, not, ◌&&◌, ◌||◌, Option, none, some, List, [], ◌∷◌, ◌++◌, if◌then◌else◌,
  find_first, change, Str, ◌==◌, Result, ok_injective, integrity_error, ok, raised,
}

-- `NULL` clashes with nothing.
abbrev pub same_value : Option Str → Option Str → Bool
same_value (some a) (some b) = a == b
same_value _ _ = false

abbrev pub has_email : Str → User → Bool
has_email email u = same_value u.email (some email)

abbrev pub has_sub : Str → User → Bool
has_sub cf_sub u = same_value u.cf_sub (some cf_sub)

-- Another row has a value of this one in a unique column.
abbrev pub clashes : User → User → Bool
clashes u other =
    not (other.id == u.id) && (same_value other.email u.email || same_value other.cf_sub u.cf_sub)

abbrev pub unless_clash : Option User → List User → Result (List User)
unless_clash none us = ok us
unless_clash (some other) us = raised integrity_error

abbrev pub replace_user : User → List User → List User
replace_user u = change (λ x. x.id == u.id) (λ _. u)

-- A row is written, where the unique columns let it be: a new one, or in place of that of its id.
unfoldable pub write_user : Bool → User → List User → Result (List User)
write_user is_new u us =
    unless_clash (find_first (clashes u) us) (if is_new then us ++ u ∷ [] else replace_user u us)

pub write_user-ok :
    (is_new : Bool) (u : User) (us users : List User)
    → write_user is_new u us ≡ ok users
    → (find_first (clashes u) us ≡ none)
      × ((if is_new then us ++ u ∷ [] else replace_user u us) ≡ users)
unfolding write_user
write_user-ok is_new u us users h = go (find_first (clashes u) us) h
  where
    go :
        (o : Option User)
        → unless_clash o (if is_new then us ++ u ∷ [] else replace_user u us) ≡ ok users
        → (o ≡ none) × ((if is_new then us ++ u ∷ [] else replace_user u us) ≡ users)
    go none h = (refl, ok_injective h)
    go (some v) h = cc h
