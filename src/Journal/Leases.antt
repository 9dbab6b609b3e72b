-- ===== src/Journal/Leases.antt =====
-- Leases: what one worker has acquired, no other is served until the lease ends.
use yunxia.Prelude.{
  ℕ, ◌+◌, ◌<◌, ◌≤◌, List, [], ◌∷◌, map, Bool, true, false, ◌&&◌, keep, Text, Option, none, some,
  Result, ok, err, Error, ◌≡◌, ◌≢◌, refl, ap, ◌∙◌, arith, All, inl, inr, Bool-cases, ok_injective,
  leb,
}
use mathlib.Core.Path.{subst}
use yunxia.Journal.{
  VfsOperation, Table, Outages, is_due, due_rows, list_due, has_key, lease, leased, finish_acquire,
  served, acquire_due, sort, page_limit, worker_or_default, or_outage, not_after, retry_backoff,
}
use yunxia.Journal.Lists.{sort-All, take-All, keep-All, every}

-- A retry never comes sooner than the one before, within two hours.
pub retry_backoff_monotone :
    (m n : ℕ)
    → m ≤ n
    → (retry_backoff m ≤ retry_backoff n) × (60 ≤ retry_backoff m) × (retry_backoff n ≤ 7200)
unfolding retry_backoff
retry_backoff_monotone m n h = (ground (arith, h), ground arith, ground arith)

and_false : (b c : Bool) → c ≡ false → (b && c) ≡ false
and_false true c h = h
and_false false c h = refl

-- A row with a lease is not due before the lease ends.
lease_not_due :
    (due : List VfsOperation) (worker : Text) (until now : ℕ) (o : VfsOperation)
    → now < until
    → has_key o.id due ≡ true
    → is_due now (lease due worker until o) ≡ false
unfolding is_due
lease_not_due due worker until now o h k =
    rw k (and_false (not_after now o.next_retry_at) (leb until now) (ground (arith, h)))

lease-id :
    (due : List VfsOperation) (worker : Text) (until : ℕ) (o : VfsOperation)
    → (lease due worker until o).id ≡ o.id
lease-id due worker until o = elim (Bool-cases (has_key o.id due)) [
  | inl a ↦ rw a refl
  | inr a ↦ rw a refl
]

row_away :
    (due : List VfsOperation) (worker : Text) (until now : ℕ) (o : VfsOperation)
    → now < until
    → is_due now (lease due worker until o) ≡ true
    → has_key ((lease due worker until o).id) due ≡ false
row_away due worker until now o h d = elim (Bool-cases (has_key o.id due)) [
  | inl a ↦ absurd (cc (lease_not_due due worker until now o h a, d))
  | inr a ↦ ap (λ k. has_key k due) (lease-id due worker until o) ∙ a
]

-- Of the rows after an acquisition, those that are due are not among the acquired keys.
leased_due_away :
    (due : List VfsOperation) (worker : Text) (until now : ℕ) (os : List VfsOperation)
    → now < until
    → All (λ r. is_due now r ≡ true → has_key r.id due ≡ false) (map (lease due worker until) os)
leased_due_away due worker until now [] h = tt
leased_due_away due worker until now (o ∷ os) h =
    (row_away due worker until now o h, leased_due_away due worker until now os h)

keys_apart :
    (due acquired : List VfsOperation) (r : VfsOperation)
    → All (λ a. has_key a.id due ≡ true) acquired
    → has_key r.id due ≡ false
    → All (λ a. a.id ≢ r.id) acquired
keys_apart due [] r _ k = tt
keys_apart due (a ∷ acquired) r (h, hs) k =
    (λ e. absurd (cc (ap (λ i. has_key i due) e, h, k)), keys_apart due acquired r hs k)

everyone_apart :
    (due acquired listed : List VfsOperation)
    → All (λ a. has_key a.id due ≡ true) acquired
    → All (λ r. has_key r.id due ≡ false) listed
    → All (λ r. All (λ a. a.id ≢ r.id) acquired) listed
everyone_apart due acquired [] h _ = tt
everyone_apart due acquired (r ∷ listed) h (k, ks) =
    (keys_apart due acquired r h k, everyone_apart due acquired listed h ks)

finish_acquire-ok :
    (t u : Table) (r : Result (List VfsOperation)) {os : List VfsOperation}
    → (finish_acquire t u r).1 ≡ ok os
    → (r ≡ ok os) × ((finish_acquire t u r).0 ≡ u)
unfolding finish_acquire
finish_acquire-ok t u (err e) h = absurd (cc)
finish_acquire-ok t u (ok os) h = (h, refl)

or_outage-ok {ℓ} :
    {A : Type ℓ} (e : Option Error) (r : Result A) {a : A} → or_outage e r ≡ ok a → r ≡ ok a
or_outage-ok none r h = h
or_outage-ok (some e) r h = absurd (cc)

served-All :
    (P : VfsOperation → Type 0) (f : Outages) (due acquired : List VfsOperation)
    {os : List VfsOperation}
    → served f due acquired ≡ ok os
    → All P acquired
    → All P os
unfolding served
served-All P f [] acquired h p = subst (All P) (ok_injective h) tt
served-All P f (o ∷ due) acquired h p =
    subst (All P) (ok_injective (or_outage-ok f.find_again _ (or_outage-ok f.write _ h))) p

acquired_keys :
    (due os : List VfsOperation)
    → All (λ a. has_key a.id due ≡ true) (sort (keep (λ o. has_key o.id due) os))
acquired_keys due os =
    sort-All (λ a. has_key a.id due ≡ true) _
      (keep-All (λ a. has_key a.id due ≡ true) (λ o. has_key o.id due) os
        (every (λ o. has_key o.id due ≡ true → has_key o.id due ≡ true) os (λ o h. h)))

listed_keys :
    (due : List VfsOperation) (worker : Text) (until later again : ℕ) (os : List VfsOperation)
    → later < until
    → All (λ r. has_key r.id due ≡ false) (due_rows later again (map (lease due worker until) os))
unfolding due_rows
listed_keys due worker until later again os h =
    take-All (λ r. has_key r.id due ≡ false) (page_limit again) _
      (sort-All (λ r. has_key r.id due ≡ false) _
        (keep-All (λ r. has_key r.id due ≡ false) (is_due later) (map (lease due worker until) os)
          (leased_due_away due worker until later os h)))

-- What a worker is served is not listed as due before its lease ends, in the table that the
-- acquisition leaves.
pub acquire_due_exclusive :
    (now lock_duration limit : ℕ) (f : Outages) (worker : Text) (t : Table)
    {acquired : List VfsOperation} (later again : ℕ) (g : Outages) {listed : List VfsOperation}
    → (acquire_due now lock_duration limit f worker t).1 ≡ ok acquired
    → later < now + lock_duration
    → list_due later again g ((acquire_due now lock_duration limit f worker t).0) ≡ ok listed
    → All (λ r. All (λ a. a.id ≢ r.id) acquired) listed
unfolding acquire_due list_due leased
acquire_due_exclusive now lock_duration limit f worker t later again g h l k =
    let due = due_rows now limit t.operations in
    let u = leased due (worker_or_default worker) (now + lock_duration) t in
    let (e, after) = finish_acquire-ok t u _ h in
    let shown = ok_injective (or_outage-ok g.find _ k) in
    rw (← shown, after)
      (everyone_apart due _ _
        (served-All (λ a. has_key a.id due ≡ true) f due _ (or_outage-ok f.find _ e)
          (acquired_keys due u.operations))
        (listed_keys due (worker_or_default worker) (now + lock_duration) later again t.operations
          l))
