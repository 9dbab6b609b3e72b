-- ===== src/Journal/Lists.antt =====
-- What holds of every item of a list still does after the list is cut down or sorted.
use yunxia.Prelude.{
  ℕ, zero, suc, List, [], ◌∷◌, Bool, true, keep, take, ◌≡◌, All, inl, inr, Bool-cases,
}
use yunxia.Journal.{VfsOperation, insert, sort, comes_first}

module _ {κ} (P : VfsOperation → Type κ) where
  insert-All : (o : VfsOperation) (ps : List VfsOperation) → P o → All P ps → All P (insert o ps)
  unfolding insert
  insert-All o [] h _ = (h, tt)
  insert-All o (p ∷ ps) h (k, ks) = elim (Bool-cases (comes_first o p)) [
    | inl first ↦ rw first (h, (k, ks))
    | inr later ↦ rw later (k, insert-All o ps h ks)
  ]

  pub sort-All : (os : List VfsOperation) → All P os → All P (sort os)
  unfolding sort
  sort-All [] _ = tt
  sort-All (o ∷ os) (h, hs) = insert-All o (sort os) h (sort-All os hs)

  pub take-All : (n : ℕ) (os : List VfsOperation) → All P os → All P (take n os)
  take-All zero os _ = tt
  take-All (suc n) [] _ = tt
  take-All (suc n) (o ∷ os) (h, hs) = (h, take-All n os hs)

  -- Items that are kept pass the test.
  pub keep-All :
      (p : VfsOperation → Bool) (os : List VfsOperation)
      → All (λ o. p o ≡ true → P o) os
      → All P (keep p os)
  keep-All p [] _ = tt
  keep-All p (o ∷ os) (h, hs) = elim (Bool-cases (p o)) [
    | inl passes ↦ rw passes (h passes, keep-All p os hs)
    | inr fails ↦ rw fails (keep-All p os hs)
  ]

  pub every : (os : List VfsOperation) → ((o : VfsOperation) → P o) → All P os
  every [] h = tt
  every (o ∷ os) h = (h o, every os h)
