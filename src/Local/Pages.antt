-- ===== src/Local/Pages.antt =====
-- The pages of a listing (`paginateItems` in
-- backend/internal/application/service/local_storage_helpers.go), with Go's `int` of 64 bits: a
-- product that is too large wraps around, and a negative index panics.
pub mod Laws
use yunxia.Prelude.{
  ℕ, ◌+◌, ◌-◌, ◌*◌, ◌/◌, ◌%◌, zero, suc, List, [], ◌∷◌, length, take, drop, Bool, ltb, leb, ◌==◌,
  if◌then◌else◌, ℤ, pos, negsuc, Option, none, some, ◌≡◌, refl,
}

-- A natural number as an `int` of 64 bits.
unfoldable pub wrap : ℕ → ℤ
wrap n =
    let r = n % 18446744073709551616 in
    if ltb r 9223372036854775808 then pos r else negsuc (18446744073709551615 - r)

abbrev pub negated : ℕ → ℤ
negated zero = pos 0
negated (suc k) = negsuc k

-- Go's division by a positive number, towards zero.
abbrev pub quot : ℤ → ℕ → ℤ
quot (pos n) d = pos (n / d)
quot (negsuc n) d = negated (suc n / d)

abbrev pub positive_or : ℕ → ℤ → ℕ
positive_or d (pos zero) = d
positive_or d (pos (suc n)) = suc n
positive_or d (negsuc n) = d

unfoldable pub total_pages : ℕ → ℕ → ℤ
unfolding wrap
total_pages total size = if total == 0 then pos 0 else quot (wrap (total + size - 1)) size

-- The items of a page, the number of items, and that of pages.
abbrev pub Page {ℓ} : Type ℓ → Type ℓ
Page A = List A × ℕ × ℤ

module _ {ℓ} {A : Type ℓ} where
  -- `items[start:end]`; none where it panics.
  unfoldable pub slice : List A → ℕ → ℤ → ℕ → Option (Page A)
  unfolding total_pages
  slice xs start (negsuc k) size = none
  slice xs start (pos end) size = some (
    take ((if ltb (length xs) end then length xs else end) - start) (drop start xs),
    length xs,
    total_pages (length xs) size,
  )

  unfoldable pub page_from : List A → ℤ → ℕ → Option (Page A)
  unfolding slice wrap total_pages
  page_from xs (negsuc k) size = none
  page_from xs (pos start) size =
      if leb (length xs) start
      then some ([], length xs, total_pages (length xs) size)
      else slice xs start (wrap (start + size)) size

  -- `paginateItems`; none where it panics.
  unfoldable pub paginate_items : List A → ℤ → ℤ → Option (Page A)
  unfolding page_from wrap
  paginate_items xs page page_size =
      page_from xs (wrap ((positive_or 1 page - 1) * positive_or 200 page_size))
        (positive_or 200 page_size)

-- A page far behind the end panics: 2^61 times 4 is a negative number.
far_page_panics : paginate_items {A = ℕ} (1 ∷ 2 ∷ []) (pos 2305843009213693953) (pos 4) ≡ none
unfolding paginate_items
far_page_panics = refl

last_page : paginate_items {A = ℕ} (1 ∷ 2 ∷ 3 ∷ []) (pos 2) (pos 2) ≡ some (3 ∷ [], 3, pos 2)
unfolding paginate_items
last_page = refl
