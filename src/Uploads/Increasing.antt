-- ===== src/Uploads/Increasing.antt =====
-- Strictly rising lists of indices, as the sessions of uploads keep them
-- (backend/internal/application/service/upload_service.go).
use yunxia.Prelude.{
  ℕ, ◌+◌, ◌≤◌, ◌<◌, zero, suc, List, [], ◌∷◌, ◌++◌, true, false, ◌||◌, length, ◌==◌, leb, ◌≡◌, refl,
  ap, ◌∙◌, arith, inl, inr, Bool-cases, ==_iff, ==_refl,
}
use mathlib.Core.Path.{subst}
use yunxia.Uploads.{insert, sort, has_index, with_chunk}

-- From `lo` on, and below `hi`.
abbrev pub Increasing : ℕ → ℕ → List ℕ → Type 0
Increasing lo hi [] = Unit {0}
Increasing lo hi (i ∷ is) = (lo ≤ i) × (i < hi) × Increasing (suc i) hi is

weaken : (lo lo' hi : ℕ) (is : List ℕ) → lo' ≤ lo → Increasing lo hi is → Increasing lo' hi is
weaken lo lo' hi [] h i = tt
weaken lo lo' hi (j ∷ js) h (a, b, c) = (omega (arith, h, a), b, c)

insert-Increasing :
    (lo hi i : ℕ) (is : List ℕ)
    → lo ≤ i
    → i < hi
    → has_index i is ≡ false
    → Increasing lo hi is
    → Increasing lo hi (insert i is)
unfolding insert
insert-Increasing lo hi i [] a b n h = (a, b, tt)
insert-Increasing lo hi i (j ∷ js) a b n (c, d, e) = elim (Bool-cases (leb i j)) [
  | inl x ↦ rw x (a, b, (ground arith, d, e))
  | inr x ↦ rw x (c, d, insert-Increasing (suc j) hi i js (ground arith) b (ground arith) e)
]

-- One index put in front of another goes behind it if it is larger.
insert_twice :
    (lo hi i j : ℕ) (js : List ℕ)
    → Increasing (suc j) hi js
    → has_index i (j ∷ js) ≡ false
    → insert j (insert i js) ≡ insert i (j ∷ js)
unfolding insert
insert_twice lo hi i j [] h n = ground arith
insert_twice lo hi i j (k ∷ ks) (a, b, c) n = ground (arith, a)

sort-concat :
    (lo hi i : ℕ) (is : List ℕ)
    → Increasing lo hi is
    → has_index i is ≡ false
    → sort (is ++ i ∷ []) ≡ insert i is
unfolding sort
sort-concat lo hi i [] h n = refl
sort-concat lo hi i (j ∷ js) (a, b, c) n =
    ap (insert j) (sort-concat (suc j) hi i js c (ground arith)) ∙ insert_twice lo hi i j js c n

has_index-insert : (k i : ℕ) (is : List ℕ) → has_index k (insert i is) ≡ (i == k || has_index k is)
unfolding insert
has_index-insert k i [] = refl
has_index-insert k i (j ∷ js) = ground (arith, has_index-insert k i js)

known :
    (k i : ℕ) (is : List ℕ) → has_index i is ≡ true → has_index k is ≡ (i == k || has_index k is)
known k i is h = elim (Bool-cases (i == k)) [
  | inr y ↦ rw y refl
  | inl y ↦
      subst (λ m. has_index m is ≡ (i == m || has_index m is)) ((==_iff i k).0 y) (rw (==_refl i) h)
]

-- A chunk that arrives is put in, the rest stays.
pub with_chunk-Increasing :
    (hi i : ℕ) (is : List ℕ) → i < hi → Increasing 0 hi is → Increasing 0 hi (with_chunk i is)
unfolding with_chunk
with_chunk-Increasing hi i is b h = elim (Bool-cases (has_index i is)) [
  | inl x ↦ rw x h
  | inr x ↦ rw (x, sort-concat 0 hi i is h x) (insert-Increasing 0 hi i is (omega arith) b x h)
]

pub with_chunk-known : (i : ℕ) (is : List ℕ) → has_index i is ≡ true → with_chunk i is ≡ is
unfolding with_chunk
with_chunk-known i is h = rw h refl

pub has_index-with_chunk :
    (hi k i : ℕ) (is : List ℕ)
    → Increasing 0 hi is
    → has_index k (with_chunk i is) ≡ (i == k || has_index k is)
unfolding with_chunk
has_index-with_chunk hi k i is h = elim (Bool-cases (has_index i is)) [
  | inl x ↦ rw x (known k i is x)
  | inr x ↦ rw (x, sort-concat 0 hi i is h x) (has_index-insert k i is)
]

none_below : (lo hi k : ℕ) (is : List ℕ) → Increasing lo hi is → k < lo → has_index k is ≡ false
none_below lo hi k [] h below = refl
none_below lo hi k (i ∷ is) (a, b, c) below =
    ground (arith, none_below (suc i) hi k is c (omega arith))

-- As many indices as there are in a range that is there as a whole.
pub length_covers :
    (lo hi n : ℕ) (is : List ℕ)
    → Increasing lo hi is
    → ((k : ℕ) → lo ≤ k → k < lo + n → has_index k is ≡ true)
    → n ≤ length is
length_covers lo hi zero is h covers = omega arith
length_covers lo hi (suc n) [] h covers = absurd (cc (covers lo (omega arith) (omega arith)))
length_covers lo hi (suc n) (i ∷ is) (a, b, c) covers =
    let none = none_below (suc i) hi lo is c (omega arith) in
    let first : i ≡ lo = ground (arith, covers lo (omega arith) (omega arith)) in
    let rest =
      length_covers (suc i) hi n is c
        (λ k x y. ground (arith, covers k (omega arith) (omega (arith, first)))) in
    omega (arith, rest)
