-- ===== src/Local/Pages/Laws.antt =====
-- The pages of a listing hold every item once
-- (backend/internal/application/service/local_storage_helpers.go).
use yunxia.Prelude.{
  ℕ, ◌+◌, ◌-◌, ◌*◌, ◌/◌, ◌≤◌, ◌<◌, zero, suc, List, [], ◌∷◌, ◌++◌, length, take, drop, false, ltb,
  leb, ◌==◌, if◌then◌else◌, ℤ, pos, Option, none, some, ◌≡◌, refl, sym, ap, ◌∙◌, inl, inr,
  Bool-cases, arith,
}
use native.Mathlib.Nat.{mul-le-mul_right}
use yunxia.Local.Pages.{wrap, total_pages, Page, paginate_items}

wrap_small : (n : ℕ) → n < 9223372036854775808 → wrap n ≡ pos n
unfolding wrap
wrap_small n h = ground arith

-- The number of pages, while no number wraps.
ceiling : ℕ → ℕ → ℕ
ceiling total size = (total + size - 1) / size

enough_pages : (total m : ℕ) → total ≤ ceiling total (suc m) * suc m
unfolding ceiling
enough_pages total m = omega arith

pages_of : ℕ → ℕ → ℤ
pages_of total size = if total == 0 then pos 0 else pos (ceiling total size)

total_pages-exact :
    (total m : ℕ)
    → total + suc m < 9223372036854775808
    → total_pages total (suc m) ≡ pages_of total (suc m)
unfolding total_pages pages_of ceiling
total_pages-exact total m h = rw (wrap_small (total + suc m - 1) (omega (arith, h))) refl

not_too_many : (total m : ℕ) → ceiling total (suc m) * suc m ≤ total + m
unfolding ceiling
not_too_many total m = omega arith

fits : (b a m : ℕ) → b * suc m < 9223372036854775808 → a ≤ b → a * suc m < 9223372036854775808
fits b a m h le = omega (arith, h, mul-le-mul_right (suc m) le)

nonempty : (l : ℕ) → (suc l == 0) ≡ false
nonempty l = ground arith

pages_of-some : (l m : ℕ) → pages_of (suc l) (suc m) ≡ pos (ceiling (suc l) (suc m))
unfolding pages_of
pages_of-some l m = rw (nonempty l) refl

module _ {ℓ} {A : Type ℓ} where
  drop-past : (n : ℕ) (xs : List A) → length xs ≤ n → drop n xs ≡ []
  drop-past zero [] h = refl
  drop-past (suc n) [] h = refl
  drop-past zero (x ∷ xs) h = absurd (omega (arith, h))
  drop-past (suc n) (x ∷ xs) h = drop-past n xs (omega (arith, h))

  take-past : (n : ℕ) (xs : List A) → length xs ≤ n → take n xs ≡ xs
  take-past zero [] h = refl
  take-past (suc n) [] h = refl
  take-past zero (x ∷ xs) h = absurd (omega (arith, h))
  take-past (suc n) (x ∷ xs) h = ap (λ t. x ∷ t) (take-past n xs (omega (arith, h)))

  take-nil : (n : ℕ) → take {A = A} n [] ≡ []
  take-nil zero = refl
  take-nil (suc n) = refl

  drop-nil : (n : ℕ) → drop {A = A} n [] ≡ []
  drop-nil zero = refl
  drop-nil (suc n) = refl

  length-drop : (n : ℕ) (xs : List A) → length (drop n xs) ≡ length xs - n
  length-drop zero xs = omega arith
  length-drop (suc n) [] = omega arith
  length-drop (suc n) (x ∷ xs) = length-drop n xs ∙ (omega arith)

  take-append : (a b : ℕ) (xs : List A) → take a xs ++ take b (drop a xs) ≡ take (a + b) xs
  take-append zero b xs = let e : b ≡ 0 + b = omega arith in ap (λ k. take k xs) e
  take-append (suc a) b [] = take-nil b ∙ sym (take-nil (suc a + b))
  take-append (suc a) b (x ∷ xs) =
      let e : suc (a + b) ≡ suc a + b = omega arith in
      ap (λ t. x ∷ t) (take-append a b xs) ∙ ap (λ k. take k (x ∷ xs)) e

  drop-drop : (a b : ℕ) (xs : List A) → drop b (drop a xs) ≡ drop (a + b) xs
  drop-drop zero b xs = let e : b ≡ 0 + b = omega arith in ap (λ k. drop k xs) e
  drop-drop (suc a) b [] = drop-nil b ∙ sym (drop-nil (suc a + b))
  drop-drop (suc a) b (x ∷ xs) =
      let e : suc (a + b) ≡ suc a + b = omega arith in
      drop-drop a b xs ∙ ap (λ k. drop k (x ∷ xs)) e

  -- The items of a page.
  page_of : List A → ℕ → ℕ → List A
  page_of xs n m = take (suc m) (drop (n * suc m) xs)

  within_end :
      (xs : List A) (start m : ℕ)
      → start < length xs
      → take
          ((if ltb (length xs) (start + suc m) then length xs else (start + suc m)) - start)
          (drop start xs)
        ≡ take (suc m) (drop start xs)
  within_end xs start m h = elim (Bool-cases (ltb (length xs) (start + suc m))) [
    | inl x ↦
        let l = length-drop start xs in
        rw x (
          take-past (length xs - start) (drop start xs) (omega (arith, l))
          ∙ sym (take-past (suc m) (drop start xs) (ground (arith, l))))
    | inr x ↦ let e : start + suc m - start ≡ suc m = omega arith in rw (x, e) refl
  ]

  -- While the numbers are small, a page is the slice of its number and its size, and no index panics.
  paginate_items-exact :
      (xs : List A) (n m : ℕ)
      → suc n * suc m < 9223372036854775808
      → paginate_items xs (pos (suc n)) (pos (suc m))
        ≡ some (page_of xs n m, length xs, total_pages (length xs) (suc m))
  unfolding paginate_items page_of
  paginate_items-exact xs n m h =
      let start : (suc n - 1) * suc m ≡ n * suc m =
        (let e : suc n - 1 ≡ n = omega arith in ap (λ k. k * suc m) e) in
      let end : n * suc m + suc m ≡ suc n * suc m = omega arith in
      let s : wrap ((suc n - 1) * suc m) ≡ pos (n * suc m) =
        ap wrap start ∙ wrap_small (n * suc m) (omega (arith, h, end)) in
      elim (Bool-cases (leb (length xs) (n * suc m))) [
        | inl x ↦ rw (s, x, drop-past (n * suc m) xs (ground (arith, x))) refl
        | inr x ↦
            rw (s, x, wrap_small (n * suc m + suc m) (omega (arith, h, end)))
              (ap (λ t. some (t, length xs, total_pages (length xs) (suc m)))
                (within_end xs (n * suc m) m (ground (arith, x))))
      ]

  pub items_of : Option (Page A) → List A
  items_of none = []
  items_of (some page) = page.0

  -- The items of `count` pages behind the first `n`, one page behind the other.
  unfoldable pub all_pages : List A → ℕ → ℕ → ℕ → List A
  unfolding items_of
  all_pages xs size zero n = []
  all_pages xs size (suc count) n =
      let rest = all_pages xs size count (suc n) in
      items_of (paginate_items xs (pos (suc n)) (pos size)) ++ rest

  all_pages-exact :
      (xs : List A) (m count n : ℕ)
      → (n + count) * suc m < 9223372036854775808
      → all_pages xs (suc m) count n ≡ take (count * suc m) (drop (n * suc m) xs)
  unfolding all_pages page_of
  all_pages-exact xs m zero n h =
      let e : 0 ≡ 0 * suc m = omega arith in ap (λ k. take k (drop (n * suc m) xs)) e
  all_pages-exact xs m (suc count) n h =
      let later : (suc n + count) * suc m < 9223372036854775808 = omega (arith, h) in
      let here : suc n * suc m < 9223372036854775808 =
        fits (n + suc count) (suc n) m h (omega arith) in
      let next : n * suc m + suc m ≡ suc n * suc m = omega arith in
      let whole : suc m + count * suc m ≡ suc count * suc m = omega arith in
      ap (λ p. items_of p ++ all_pages xs (suc m) count (suc n)) (paginate_items-exact xs n m here)
      ∙ ap (λ t. page_of xs n m ++ t) (all_pages-exact xs m count (suc n) later)
      ∙ ap (λ k. page_of xs n m ++ take (count * suc m) (drop k xs)) (sym next)
      ∙ ap (λ t. page_of xs n m ++ take (count * suc m) t) (sym (drop-drop (n * suc m) (suc m) xs))
      ∙ take-append (suc m) (count * suc m) (drop (n * suc m) xs)
      ∙ ap (λ k. take k (drop (n * suc m) xs)) whole

  -- While the number of items and the size of a page are small enough for an `int`, every page
  -- reports the same number of pages, none panics, and the pages from the first to the last, one
  -- behind the other, are the items: each item is on one page, and in its place.
  pub paginate_items_partitions :
      (xs : List A) (m : ℕ)
      → length xs + suc m < 9223372036854775808
      → (count : ℕ) × ((n : ℕ)
          → n < count
          → (ys : List A) × (paginate_items xs (pos (suc n)) (pos (suc m))
              ≡ some (ys, length xs, pos count)))
        × (all_pages xs (suc m) count 0 ≡ xs)
  unfolding all_pages
  paginate_items_partitions [] m h = (0, λ n b. absurd (omega (arith, b)), refl)
  paginate_items_partitions (x ∷ xs) m h =
      let total = length (x ∷ xs) in
      let count = ceiling total (suc m) in
      let pages : total_pages total (suc m) ≡ pos count =
        total_pages-exact total m h ∙ pages_of-some (length xs) m in
      let small : count * suc m < 9223372036854775808 = omega (arith, h, not_too_many total m) in
      let all : (0 + count) * suc m < 9223372036854775808 = omega (arith, small) in
      (
        count,
        λ n b. (
          page_of (x ∷ xs) n m,
          paginate_items-exact (x ∷ xs) n m (fits count (suc n) m small (omega (arith, b)))
              ∙ ap (λ k. some (page_of (x ∷ xs) n m, total, k)) pages,
        ),
        all_pages-exact (x ∷ xs) m count 0 all
            ∙ (let z : 0 * suc m ≡ 0 = omega arith in
                ap (λ k. take (count * suc m) (drop k (x ∷ xs))) z)
            ∙ take-past (count * suc m) (x ∷ xs) (enough_pages total m),
      )
