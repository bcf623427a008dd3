-- ===== src/Filtering/Pages.antt =====
-- The pages of `paginate_and_result_info`: together they are the list.
use native.Mathlib.Nat.{zero-mul, div-add-mod, mod-lt}
use cloudflare_manual_dns.Filtering.{
  ResultInfo, page_count, slice_index, slice, paginate_and_result_info,
}
use cloudflare_manual_dns.Common.{
  ℕ, zero, suc, ◌+◌, ◌-◌, ◌*◌, ◌/◌, ◌≤◌, ◌<◌, ◌≡◌, refl, sym, ap, ◌∙◌, inl, inr, List, [], ◌++◌,
  arith, ltb, if◌then◌else◌, Bool-cases, length, take, drop, length-take, length-drop, take-nil,
  take_ge, drop_ge, take-add, ◌+ℤ◌, ◌-ℤ◌, ◌*ℤ◌, pos,
}

page_start : (k p : ℕ) → (pos (suc k) -ℤ pos 1) *ℤ pos (suc p) ≡ pos (k * suc p)
page_start k p = ground arith

page_end : (a b : ℕ) → pos a +ℤ pos b ≡ pos (a + b)
page_end a b = ground arith

page_size : (n b : ℕ) → suc n * b ≡ n * b + b
page_size n b = grind arith

-- `n` pages of `p` records hold `total` records, and a page less does not.
abbrev pub IsPageCount : ℕ → ℕ → ℕ → Type 0
IsPageCount total p n = (total ≤ n * p) × (n * p < total + p)

-- The negated floor division rounds up.
page_count_lem :
    (total p : ℕ) → (n : ℕ) × (page_count total (pos (suc p)) ≡ pos n) × IsPageCount total (suc p) n
unfolding page_count
page_count_lem zero p = (0, grind arith, omega arith)
page_count_lem (suc t) p =
    (suc (t / suc p), ground arith, grind (arith, div-add-mod t (suc p), mod-lt))

-- A page before the last starts within the list.
earlier_page : (total k n b : ℕ) → k < n → n * b < total + b → k * b < total
earlier_page total k n b h tight =
    let further : suc k * b ≤ n * b = grind arith in omega (arith, page_size k b)

module _ {ℓ} {A : Type ℓ} where
  -- The records of page k + 1, for pages of p + 1 records.
  abbrev pub page_of : List A → ℕ → ℕ → List A
  page_of records k p = (paginate_and_result_info records (pos (suc k)) (pos (suc p))).0

  abbrev pub info_of : List A → ℕ → ℕ → ResultInfo
  info_of records k p = (paginate_and_result_info records (pos (suc k)) (pos (suc p))).1

  -- Pages 1 to n, one behind the other.
  abbrev pub pages : List A → ℕ → ℕ → List A
  pages records p zero = []
  pages records p (suc n) = pages records p n ++ page_of records n p

  slice_from :
      (xs : List A) (a b from stop : ℕ)
      → from ≡ (if ltb (length xs) a then length xs else a)
      → stop ≡ (if ltb (length xs) (a + b) then length xs else a + b)
      → take (stop - from) (drop from xs) ≡ take b (drop a xs)
  slice_from xs a b from stop f s = elim (Bool-cases (ltb (length xs) a)) [
    | inl out ↦
        rw (drop_ge from xs (ground arith), drop_ge a xs (ground arith))
          (take-nil (stop - from) ∙ sym (take-nil b))
    | inr within ↦ elim (Bool-cases (ltb (length xs) (a + b))) [
      | inl long ↦
          rw (f, within)
            (take_ge (stop - a) (drop a xs) (ground (arith, length-drop a xs))
              ∙ sym (take_ge b (drop a xs) (ground (arith, length-drop a xs))))
      | inr short ↦ rw (f, within) (ap (λ n. take n (drop a xs)) (ground arith))
    ]
  ]

  slice_lem : (xs : List A) (a b : ℕ) → slice xs (pos a) (pos (a + b)) ≡ take b (drop a xs)
  unfolding slice slice_index
  slice_lem xs a b = slice_from xs a b _ _ refl refl

  page_of_lem : (xs : List A) (k p : ℕ) → page_of xs k p ≡ take (suc p) (drop (k * suc p) xs)
  unfolding paginate_and_result_info
  page_of_lem xs k p =
      rw (page_start k p, page_end (k * suc p) (suc p)) (slice_lem xs (k * suc p) (suc p))

  pages_lem : (xs : List A) (p n : ℕ) → pages xs p n ≡ take (n * suc p) xs
  pages_lem xs p zero = rw zero-mul
  pages_lem xs p (suc n) =
      rw (pages_lem xs p n, page_of_lem xs n p, page_size n (suc p))
        (sym (take-add (n * suc p) (suc p) xs))

  total_pages_lem :
      (xs : List A) (k p : ℕ) → (info_of xs k p).total_pages ≡ page_count (length xs) (pos (suc p))
  unfolding paginate_and_result_info
  total_pages_lem xs k p = refl

  count_lem : (xs : List A) (k p : ℕ) → (info_of xs k p).count ≡ length (page_of xs k p)
  unfolding paginate_and_result_info
  count_lem xs k p = refl

  count_bounds :
      (xs : List A) (k p : ℕ)
      → ((info_of xs k p).count ≤ suc p) × (k * suc p < length xs → 0 < (info_of xs k p).count)
  count_bounds xs k p =
      rw (count_lem xs k p, page_of_lem xs k p)
        (omega (arith, length-take (suc p) (drop (k * suc p) xs), length-drop (k * suc p) xs))

  -- What a client sees that walks from page 1 to the last page, n, with p + 1 records to a page.
  pub record IsPaginated (xs : List A) (p n : ℕ) : Type ℓ where
    pub total : (k : ℕ) → (info_of xs k p).total_pages ≡ pos n
    pub whole : pages xs p n ≡ xs
    pub bounded : (k : ℕ) → (info_of xs k p).count ≤ suc p
    pub filled : (k : ℕ) → k < n → 0 < (info_of xs k p).count
    pub counted : (k : ℕ) → (info_of xs k p).count ≡ length (page_of xs k p)

  -- For pages of at least one record, the reported number of pages is the number n such that pages
  -- 1 to n are together the whole list, in order, none of them empty and none too long. The
  -- reported counts are the lengths of the pages.
  pub paginate-IsPaginated : (xs : List A) (p : ℕ) → (n : ℕ) × IsPaginated xs p n
  paginate-IsPaginated xs p =
      let (n, count, (enough, tight)) = page_count_lem (length xs) p in
      (
        n,
        record {
          total = λ k. total_pages_lem xs k p ∙ count;
          whole = pages_lem xs p n ∙ take_ge (n * suc p) xs enough;
          bounded = λ k. (count_bounds xs k p).0;
          filled = λ k h. (count_bounds xs k p).1 (earlier_page (length xs) k n (suc p) h tight);
          counted = λ k. count_lem xs k p;
        },
      )
