-- ===== src/Db/Users/Unique.antt =====
-- What the unique columns of `users` in src/cfproxy/db/models.py keep true of the table.
use mathlib.Core.Path.{subst}
use cloudflare_manual_dns.Db.{User}
use cloudflare_manual_dns.Db.Users.{same_value, clashes, replace_user, write_user, write_user-ok}
use cloudflare_manual_dns.Common.{
  ◌≡◌, refl, sym, ap, ◌∙◌, ◌⊎◌, inl, inr, Bool, true, false, not, ◌&&◌, ◌||◌, some, List, [], ◌∷◌,
  ◌++◌, if◌then◌else◌, In, change, find_first-none, Str, ◌==◌, eq_refl, eq_iff, ok,
}

-- Two rows with one email, or one subject at Cloudflare, have one id.
pub record UniqueUsers (us : List User) : Type 0 where
  pub emails :
      (x y : User) (s : Str) → In x us → In y us → x.email ≡ some s → y.email ≡ some s → x.id ≡ y.id
  pub subs :
      (x y : User) (s : Str)
      → In x us
      → In y us
      → x.cf_sub ≡ some s
      → y.cf_sub ≡ some s
      → x.id ≡ y.id

same_value_self : (s : Str) → same_value (some s) (some s) ≡ true
same_value_self s = eq_refl s

not_guarded : (a b : Bool) → (not a && b) ≡ false → b ≡ true → a ≡ true
not_guarded true b h e = refl
not_guarded false b h e = cc

or_left : (a b : Bool) → a ≡ true → (a || b) ≡ true
or_left true b h = refl
or_left false b h = cc h

or_right : (a b : Bool) → b ≡ true → (a || b) ≡ true
or_right true b h = refl
or_right false b h = h

-- A row that does not clash, and has the email or the subject, has the id.
module _ (u y : User) (s : Str) (apart : clashes u y ≡ false) where
  same_id : (same_value y.email u.email || same_value y.cf_sub u.cf_sub) ≡ true → y.id ≡ u.id
  same_id h = (eq_iff y.id u.id).0 (not_guarded (y.id == u.id) _ apart h)

  by_email : u.email ≡ some s → y.email ≡ some s → y.id ≡ u.id
  by_email e f = same_id (or_left (same_value y.email u.email) _ (rw (e, f) (same_value_self s)))

  by_sub : u.cf_sub ≡ some s → y.cf_sub ≡ some s → y.id ≡ u.id
  by_sub e f = same_id (or_right (same_value y.email u.email) _ (rw (e, f) (same_value_self s)))

In-append : (us : List User) (u z : User) → In z (us ++ u ∷ []) → In z us ⊎ (z ≡ u)
In-append [] u z (inl e) = inr e
In-append [] u z (inr i) = absurd i
In-append (x ∷ us) u z (inl e) = inl (inl e)
In-append (x ∷ us) u z (inr i) = elim (In-append us u z i) [ inl j ↦ inl (inr j) | inr e ↦ inr e ]

In-replace : (us : List User) (u z : User) → In z (replace_user u us) → In z us ⊎ (z ≡ u)
unfolding change
In-replace [] u z i = absurd i
In-replace (x ∷ us) u z (inl e) = go (x.id == u.id) e
  where
    go : (b : Bool) → z ≡ (if b then u else x) → In z (x ∷ us) ⊎ (z ≡ u)
    go true e = inr e
    go false e = inl (inl e)
In-replace (x ∷ us) u z (inr i) = elim (In-replace us u z i) [ inl j ↦ inl (inr j) | inr e ↦ inr e ]

In-write :
    (is_new : Bool) (us : List User) (u z : User)
    → In z (if is_new then us ++ u ∷ [] else replace_user u us)
    → In z us ⊎ (z ≡ u)
In-write true us u z i = In-append us u z i
In-write false us u z i = In-replace us u z i

-- Rows that are old or the row `u`, which clashes with no old one.
module _ (us users : List User) (u : User) (whole : UniqueUsers us)
    (apart : (y : User) → In y us → clashes u y ≡ false)
    (members : (z : User) → In z users → In z us ⊎ (z ≡ u)) where
  written-UniqueUsers : UniqueUsers users
  written-UniqueUsers = record {
    emails = λ x y s i j e f. email_lem x y s (members x i) (members y j) e f;
    subs = λ x y s i j e f. sub_lem x y s (members x i) (members y j) e f;
  }
    where
      email_lem :
          (x y : User) (s : Str)
          → In x us ⊎ (x ≡ u)
          → In y us ⊎ (y ≡ u)
          → x.email ≡ some s
          → y.email ≡ some s
          → x.id ≡ y.id
      email_lem x y s (inl i) (inl j) e f = whole.emails x y s i j e f
      email_lem x y s (inl i) (inr q) e f =
          by_email u x s (apart x i) (ap (λ (v : User). v.email) (sym q) ∙ f) e
          ∙ ap (λ (v : User). v.id) (sym q)
      email_lem x y s (inr p) (inl j) e f =
          ap (λ (v : User). v.id) p
          ∙ sym (by_email u y s (apart y j) (ap (λ (v : User). v.email) (sym p) ∙ e) f)
      email_lem x y s (inr p) (inr q) e f = ap (λ (v : User). v.id) (p ∙ sym q)

      sub_lem :
          (x y : User) (s : Str)
          → In x us ⊎ (x ≡ u)
          → In y us ⊎ (y ≡ u)
          → x.cf_sub ≡ some s
          → y.cf_sub ≡ some s
          → x.id ≡ y.id
      sub_lem x y s (inl i) (inl j) e f = whole.subs x y s i j e f
      sub_lem x y s (inl i) (inr q) e f =
          by_sub u x s (apart x i) (ap (λ (v : User). v.cf_sub) (sym q) ∙ f) e
          ∙ ap (λ (v : User). v.id) (sym q)
      sub_lem x y s (inr p) (inl j) e f =
          ap (λ (v : User). v.id) p
          ∙ sym (by_sub u y s (apart y j) (ap (λ (v : User). v.cf_sub) (sym p) ∙ e) f)
      sub_lem x y s (inr p) (inr q) e f = ap (λ (v : User). v.id) (p ∙ sym q)

pub write_user-UniqueUsers :
    (is_new : Bool) (u : User) (us users : List User)
    → UniqueUsers us
    → write_user is_new u us ≡ ok users
    → UniqueUsers users
write_user-UniqueUsers is_new u us users whole h =
    let (free, same) = write_user-ok is_new u us users h in
    written-UniqueUsers us users u whole (find_first-none (clashes u) us free)
      (λ z i. In-write is_new us u z (subst (In z) (sym same) i))
