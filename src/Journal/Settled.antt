-- ===== src/Journal/Settled.antt =====
-- Operations that have succeeded stay as they are.
use yunxia.Prelude.{
  ℕ, ◌<◌, List, [], ◌∷◌, ◌++◌, map, Bool, true, false, ◌==◌, ==_iff, any, ok, ◌≡◌, ◌≢◌, refl, sym,
  ap, ◌∙◌, arith, All, All-concat, inl, inr, Bool-cases, Result-cases, Option-cases, ok_injective,
}
use mathlib.Core.Path.{subst}
use yunxia.Journal.{
  VfsOperation, Table, Outages, lookup, find_operation, update_operation, create_operation, put,
  write_back, mark, is_succeeded,
}
use yunxia.Journal.Lists.{every}

-- Every row with the key is that operation, which has succeeded, and one is found; the key was
-- given out.
pub record IsSettled (id : ℕ) (o : VfsOperation) (t : Table) : Type 0 where
  pub ended : is_succeeded o ≡ true
  pub given : id < t.next_id
  pub only : All (λ r. r.id ≡ id → r ≡ o) t.operations
  pub found : lookup id t.operations ≡ ok o

-- A change that keeps keys and the rows with one key.
abbrev pub Spares : ℕ → (VfsOperation → VfsOperation) → VfsOperation → Type 0
Spares id g r = ((g r).id ≡ r.id) × (r.id ≡ id → g r ≡ r)

map_only :
    (id : ℕ) (o : VfsOperation) (g : VfsOperation → VfsOperation) (os : List VfsOperation)
    → All (Spares id g) os
    → All (λ r. r.id ≡ id → r ≡ o) os
    → All (λ r. r.id ≡ id → r ≡ o) (map g os)
map_only id o g [] _ _ = tt
map_only id o g (r ∷ os) ((k, s), ss) (h, hs) =
    ((λ e. let same = sym k ∙ e in s same ∙ h same), map_only id o g os ss hs)

lookup_hit :
    (id : ℕ) (r : VfsOperation) (os : List VfsOperation)
    → (r.id == id) ≡ true
    → lookup id (r ∷ os) ≡ ok r
unfolding lookup
lookup_hit id r os a = rw a

lookup_miss :
    (id : ℕ) (r : VfsOperation) (os : List VfsOperation)
    → (r.id == id) ≡ false
    → lookup id (r ∷ os) ≡ lookup id os
unfolding lookup
lookup_miss id r os a = rw a

-- What is found has the key, and what every row satisfies.
lookup-All {κ} :
    (P : VfsOperation → Type κ) (id : ℕ) (os : List VfsOperation) {o : VfsOperation}
    → All P os
    → lookup id os ≡ ok o
    → P o × (o.id ≡ id)
unfolding lookup
lookup-All P id [] _ h = absurd (cc)
lookup-All P id (r ∷ os) (p, ps) h = elim (Bool-cases (r.id == id)) [
  | inl a ↦
      let same = ok_injective (rw a at h) in
      (subst P same p, ap (λ x. x.id) (sym same) ∙ (==_iff _ _).0 a)
  | inr a ↦ lookup-All P id os ps (rw a at h)
]

lookup-append :
    (id : ℕ) (os qs : List VfsOperation) {o : VfsOperation}
    → lookup id os ≡ ok o
    → lookup id (os ++ qs) ≡ ok o
unfolding lookup
lookup-append id [] qs h = absurd (cc)
lookup-append id (r ∷ os) qs h = elim (Bool-cases (r.id == id)) [
  | inl a ↦ lookup_hit id r (os ++ qs) a ∙ (sym (lookup_hit id r os a) ∙ h)
  | inr a ↦ lookup_miss id r (os ++ qs) a ∙ lookup-append id os qs (sym (lookup_miss id r os a) ∙ h)
]

lookup-map :
    (id : ℕ) (o : VfsOperation) (g : VfsOperation → VfsOperation) (os : List VfsOperation)
    → All (Spares id g) os
    → lookup id os ≡ ok o
    → lookup id (map g os) ≡ ok o
lookup-map id o g [] _ h = h
lookup-map id o g (r ∷ os) ((k, s), ss) h = elim (Bool-cases (r.id == id)) [
  | inl a ↦
      lookup_hit id (g r) (map g os) (ap (λ x. x == id) k ∙ a)
      ∙ ap ok (s ((==_iff _ _).0 a))
      ∙ (sym (lookup_hit id r os a) ∙ h)
  | inr a ↦
      lookup_miss id (g r) (map g os) (ap (λ x. x == id) k ∙ a)
      ∙ lookup-map id o g os ss (sym (lookup_miss id r os a) ∙ h)
]

pub map-IsSettled :
    (id : ℕ) (o : VfsOperation) (g : VfsOperation → VfsOperation) (t : Table)
    → IsSettled id o t
    → All (Spares id g) t.operations
    → IsSettled id o (record t { operations = map g t.operations })
map-IsSettled id o g t i s = record {
  ended = i.ended;
  given = i.given;
  only = map_only id o g t.operations s i.only;
  found = lookup-map id o g t.operations s i.found;
}

-- A new row is the last one, and has another key.
pub create_operation-IsSettled :
    (id : ℕ) (o : VfsOperation) (f : Outages) (new : VfsOperation) (t : Table)
    → IsSettled id o t
    → IsSettled id o ((create_operation f new t).0)
unfolding create_operation
create_operation-IsSettled id o f new t i = elim (Option-cases f.write) [
  | inr (e, a) ↦ rw a i
  | inl a ↦ rw a (record {
    ended = i.ended;
    given = omega (arith, i.given);
    only =
        All-concat (λ r. r.id ≡ id → r ≡ o) t.operations i.only
          (λ e. absurd (omega (arith, e, i.given)));
    found = lookup-append id t.operations _ i.found;
  })
]

put-Spares : (id : ℕ) (new x : VfsOperation) → new.id ≢ id → Spares id (put new) x
put-Spares id new x away = elim (Bool-cases (x.id == new.id)) [
  | inl a ↦ rw a (sym ((==_iff _ _).0 a), λ e. absurd (away (sym ((==_iff _ _).0 a) ∙ e)))
  | inr a ↦ rw a (refl, λ e. refl)
]

write_back-IsSettled :
    (id : ℕ) (o : VfsOperation) (f : Outages) (k : ℕ) (new : VfsOperation) (t : Table)
    → new.id ≢ id
    → IsSettled id o t
    → IsSettled id o ((write_back f k new t).0)
unfolding write_back update_operation
write_back-IsSettled id o f k new t away i = elim (Option-cases f.write) [
  | inr (e, a) ↦ rw (write_back, update_operation, a) i
  | inl a ↦ elim (Bool-cases (any (λ o. o.id == new.id) t.operations)) [
    | inr b ↦ rw (write_back, update_operation, a, b) i
    | inl b ↦
        rw (write_back, update_operation, a, b)
          (map-IsSettled id o (put new) t i
            (every (Spares id (put new)) t.operations (λ x. put-Spares id new x away)))
  ]
]

-- A mark spares what has succeeded.
pub mark-IsSettled :
    (id : ℕ) (o : VfsOperation) (f : Outages) (k : ℕ) (ended : VfsOperation → Bool)
    (edit : VfsOperation → VfsOperation) (t : Table)
    → ended o ≡ true
    → ((r : VfsOperation) → (edit r).id ≡ r.id)
    → IsSettled id o t
    → IsSettled id o ((mark f k ended edit t).0)
unfolding mark find_operation
mark-IsSettled id o f k ended edit t e same i = elim (Option-cases f.find) [
  | inr (x, a) ↦ rw (mark, find_operation, a) i
  | inl a ↦ elim (Result-cases (lookup k t.operations)) [
    | inr (x, b) ↦ rw (mark, find_operation, a, b) i
    | inl (r, b) ↦ elim (Bool-cases (ended r)) [
      | inl c ↦ rw (mark, find_operation, a, b, c) i
      | inr c ↦
          let (h, _) = lookup-All (λ r. r.id ≡ id → r ≡ o) k t.operations i.only b in
          rw (mark, find_operation, a, b, c)
            (write_back-IsSettled id o f k (edit r) t
              (λ q. absurd (cc (sym (ap ended (h (sym (same r) ∙ q))), e, c))) i)
    ]
  ]
]
