-- ===== src/Common/Rows.antt =====
-- The rows of a table that meet a test: the first, all of them, and a change of them.
use mathlib.Core.Path.{◌≡◌, refl, sym, ap}
use mathlib.Core.Logic.{inl, inr}
use mathlib.Core.Bool.{Bool, true, false}
use mathlib.Core.Option.{Option, none, some}
use mathlib.Core.List.{List, [], ◌∷◌, ◌++◌}
use cloudflare_manual_dns.Common.Tests.{if◌then◌else◌}
use cloudflare_manual_dns.Common.Lists.{In}

module _ {A : Type 0} where
  unfoldable pub find_first : (A → Bool) → List A → Option A
  find_first p [] = none
  find_first p (x ∷ xs) = if p x then some x else find_first p xs

  unfoldable pub select : (A → Bool) → List A → List A
  select p [] = []
  select p (x ∷ xs) = let rest = select p xs in if p x then x ∷ rest else rest

  -- Every row that meets the test, changed.
  unfoldable pub change : (A → Bool) → (A → A) → List A → List A
  change p f [] = []
  change p f (x ∷ xs) = (if p x then f x else x) ∷ change p f xs

  pub find_first-In :
      (p : A → Bool) (xs : List A) (x : A) → find_first p xs ≡ some x → In x xs × (p x ≡ true)
  unfolding find_first
  find_first-In p [] x h = cc h
  find_first-In p (y ∷ xs) x h = go (p y) refl h (find_first-In p xs x)
    where
      go :
          (b : Bool)
          → p y ≡ b
          → (if b then some y else find_first p xs) ≡ some x
          → (find_first p xs ≡ some x → In x xs × (p x ≡ true))
          → In x (y ∷ xs) × (p x ≡ true)
      go true e k later = (inl (cc), cc)
      go false e k later = (inr (later k).0, (later k).1)

  pub find_first-none :
      (p : A → Bool) (xs : List A) → find_first p xs ≡ none → (x : A) → In x xs → p x ≡ false
  unfolding find_first
  find_first-none p [] h x i = absurd i
  find_first-none p (y ∷ xs) h x i = go (p y) refl h i (find_first-none p xs)
    where
      go :
          (b : Bool)
          → p y ≡ b
          → (if b then some y else find_first p xs) ≡ none
          → In x (y ∷ xs)
          → (find_first p xs ≡ none → (z : A) → In z xs → p z ≡ false)
          → p x ≡ false
      go true e k j later = cc
      go false e k (inl q) later = cc
      go false e k (inr j) later = later k x j

  pub select-In : (p : A → Bool) (xs : List A) (x : A) → In x (select p xs) → In x xs × (p x ≡ true)
  unfolding select
  select-In p [] x i = absurd i
  select-In p (y ∷ xs) x i = go (p y) refl i (select-In p xs x)
    where
      go :
          (b : Bool)
          → p y ≡ b
          → In x (if b then y ∷ select p xs else select p xs)
          → (In x (select p xs) → In x xs × (p x ≡ true))
          → In x (y ∷ xs) × (p x ≡ true)
      go true e (inl q) later = (inl q, cc)
      go true e (inr j) later = (inr (later j).0, (later j).1)
      go false e j later = (inr (later j).0, (later j).1)

  -- A row that meets the test is changed in its place.
  pub change-In :
      (p : A → Bool) (f : A → A) (xs : List A) (x : A)
      → In x xs
      → p x ≡ true
      → In (f x) (change p f xs)
  unfolding change
  change-In p f [] x i h = absurd i
  change-In p f (y ∷ xs) x (inl e) h =
      inl (sym (rw (← e) (ap (λ (b : Bool). if b then f x else x) h)))
  change-In p f (y ∷ xs) x (inr j) h = inr (change-In p f xs x j h)

  pub In-append_last : (xs : List A) (x : A) → In x (xs ++ x ∷ [])
  In-append_last [] x = inl refl
  In-append_last (y ∷ xs) x = inr (In-append_last xs x)

  -- The search goes on behind rows that do not meet the test.
  pub find_first-append :
      (p : A → Bool) (xs ys : List A)
      → find_first p xs ≡ none
      → find_first p (xs ++ ys) ≡ find_first p ys
  unfolding find_first
  find_first-append p [] ys h = refl
  find_first-append p (x ∷ xs) ys h = go (p x) h (find_first-append p xs ys)
    where
      go :
          (b : Bool)
          → (if b then some x else find_first p xs) ≡ none
          → (find_first p xs ≡ none → find_first p (xs ++ ys) ≡ find_first p ys)
          → (if b then some x else find_first p (xs ++ ys)) ≡ find_first p ys
      go true h ih = cc h
      go false h ih = ih h

  pub none_first :
      (p : A → Bool) (xs : List A) → ((x : A) → In x xs → p x ≡ false) → find_first p xs ≡ none
  unfolding find_first
  none_first p [] h = refl
  none_first p (x ∷ xs) h = rw (h x (inl refl)) (none_first p xs (λ y i. h y (inr i)))

  pub find_first-head :
      (p : A → Bool) (x : A) (xs : List A) → p x ≡ true → find_first p (x ∷ xs) ≡ some x
  unfolding find_first
  find_first-head p x xs h = rw h refl
