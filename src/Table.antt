-- ===== src/Table.antt =====
-- SQL tables with a unique key, as lists of rows: deploy/postgres/migrations declares the keys.
-- A statement whose WHERE clause names the whole key reaches at most one row, the first match.
pub mod Replaces
use parallax_telemetry_playg.Prelude.{
  ℕ, ◌+◌, ◌≡◌, refl, sym, inl, inr, Bool, true, false, Option, none, some, List, [], ◌∷◌, arith,
  if◌then◌else◌, Bool-cases, Option-cases, Eq, sum_by, All, subst, keep, is_empty,
}

-- `DO UPDATE SET` and `UPDATE … SET` of the row with the key.
module _ {ℓ κ} {K : Type κ} {A : Type ℓ} ⦃e : Eq K⦄ (key : A → K) where
  -- `SELECT … WHERE key = k`.
  unfoldable pub find : K → List A → Option A
  find k [] = none
  find k (x ∷ xs) = if e.beq (key x) k then some x else find k xs

  -- The row with the key, rewritten.
  unfoldable pub alter : K → (A → A) → List A → List A
  alter k f [] = []
  alter k f (x ∷ xs) = if e.beq (key x) k then f x ∷ xs else x ∷ alter k f xs

  -- `UPDATE … SET f WHERE key = k AND guard RETURNING *`: `none` if no row qualifies.
  unfoldable pub update : K → (A → Bool) → (A → A) → List A → Option (A × List A)
  unfolding find alter
  update k guard f xs = elim (find k xs) [
    | none ↦ none
    | some a ↦ if guard a then some (f a, alter k f xs) else none
  ]

  -- `INSERT`: a row with the key already there violates its uniqueness.
  unfoldable pub insert : A → List A → Option (List A)
  unfolding find
  insert a xs = elim (find (key a) xs) [ none ↦ some (a ∷ xs) | some b ↦ none ]

  pub find-key : (k : K) (xs : List A) {a : A} → find k xs ≡ some a → key a ≡ k
  unfolding find
  find-key k [] h = absurd (cc)
  find-key k (x ∷ xs) {a} h = elim (Bool-cases (e.beq (key x) k)) [
    | inl hit ↦ ground (arith, (e.beq_iff (key x) k).0 hit)
    | inr miss ↦ find-key k xs (ground arith)
  ]

  -- The update is made of the row that a look-up finds, if the guard holds of it.
  pub update-inv :
      (k : K) (guard : A → Bool) (f : A → A) (xs : List A) {a' : A} {xs' : List A}
      → update k guard f xs ≡ some (a', xs')
      → (a : A) × (find k xs ≡ some a) × (guard a ≡ true) × (a' ≡ f a) × (xs' ≡ alter k f xs)
  unfolding update
  update-inv k guard f xs {a'} {xs'} h = elim (Option-cases (find k xs)) [
    | inl no_row ↦ absurd (ground (arith, no_row))
    | inr (a, row) ↦ (a, row, ground (arith, row), ground (arith, row), ground (arith, row))
  ]

  pub update_of_find :
      (k : K) (guard : A → Bool) (f : A → A) (xs : List A) (a : A)
      → find k xs ≡ some a
      → guard a ≡ true
      → update k guard f xs ≡ some (f a, alter k f xs)
  unfolding update
  update_of_find k guard f xs a row holds = ground (arith, row, holds)

  -- A row that fails the guard is not updated.
  pub update_refused :
      (k : K) (guard : A → Bool) (f : A → A) (xs : List A) (a : A)
      → find k xs ≡ some a
      → guard a ≡ false
      → update k guard f xs ≡ none
  unfolding update
  update_refused k guard f xs a row fails = ground (arith, row, fails)

  pub insert_missing : (a : A) (xs : List A) → find (key a) xs ≡ none → insert a xs ≡ some (a ∷ xs)
  unfolding insert
  insert_missing a xs absent = ground (arith, absent)

  pub insert-inv :
      (a : A) (xs : List A) {xs' : List A}
      → insert a xs ≡ some xs'
      → (find (key a) xs ≡ none) × (xs' ≡ a ∷ xs)
  unfolding insert
  insert-inv a xs h = ground arith

  -- A new row hides no other.
  pub find-behind :
      (k : K) (a : A) (xs : List A) {b : A}
      → find (key a) xs ≡ none
      → find k xs ≡ some b
      → find k (a ∷ xs) ≡ some b
  unfolding find
  find-behind k a xs {b} absent row = elim (Bool-cases (e.beq (key a) k)) [
    | inl hit ↦
        let same = (e.beq_iff (key a) k).0 hit in
        absurd (cc (absent, subst (λ j. find j xs ≡ some b) (sym same) row))
    | inr miss ↦ rw miss row
  ]

  module _ (k : K) (f : A → A) (same_key : (a : A) → key (f a) ≡ key a) where
    pub find-alter_self :
        (xs : List A) {a : A} → find k xs ≡ some a → find k (alter k f xs) ≡ some (f a)
    unfolding find alter
    find-alter_self [] h = absurd (cc)
    find-alter_self (x ∷ xs) {a} h = elim (Bool-cases (e.beq (key x) k)) [
      | inl hit ↦ ground (arith, hit, same_key x)
      | inr miss ↦
          let ih = find-alter_self xs {a = a} (ground (arith, miss)) in rw miss (rw miss ih)
    ]

    pub find-alter_other :
        (j : K) (xs : List A) → e.beq k j ≡ false → find j (alter k f xs) ≡ find j xs
    unfolding find alter
    find-alter_other j [] h = refl
    find-alter_other j (x ∷ xs) h =
        ground
          (arith, same_key x, e.beq_iff (key x) k, e.beq_iff (key x) j, find-alter_other j xs h)

  -- An update moves a sum over the table by the change of the one row.
  pub sum_by-alter :
      (k : K) (f : A → A) (w : A → ℕ) (xs : List A) {a : A}
      → find k xs ≡ some a
      → sum_by w (alter k f xs) + w a ≡ sum_by w xs + w (f a)
  unfolding find alter
  sum_by-alter k f w [] h = absurd (cc)
  sum_by-alter k f w (x ∷ xs) {a} h = elim (Bool-cases (e.beq (key x) k)) [
    | inl hit ↦ ground (arith, hit)
    | inr miss ↦
        let ih = sum_by-alter k f w xs {a = a} (ground (arith, miss)) in rw miss (omega (arith, ih))
  ]

  -- A filter that a row passes keeps something.
  pub find-keep :
      (k : K) (p : A → Bool) (xs : List A) {a : A}
      → find k xs ≡ some a
      → p a ≡ true
      → is_empty (keep p xs) ≡ false
  unfolding find
  find-keep k p [] row passes = absurd (cc)
  find-keep k p (x ∷ xs) {a} row passes = elim (Bool-cases (p x)) [
    | inl kept ↦ rw kept refl
    | inr dropped ↦ rw dropped (find-keep k p xs {a = a} (ground arith) passes)
  ]

  pub All-alter {μ} :
      (P : A → Type μ) (k : K) (f : A → A) (xs : List A)
      → All P xs
      → ((a : A) → find k xs ≡ some a → P a → P (f a))
      → All P (alter k f xs)
  unfolding find alter
  All-alter P k f [] h step = tt
  All-alter P k f (x ∷ xs) h step = elim (Bool-cases (e.beq (key x) k)) [
    | inl hit ↦ rw hit (step x (rw hit) h.0, h.1)
    | inr miss ↦ rw miss (h.0, All-alter P k f xs h.1 (λ a row. step a (rw miss row)))
  ]

  pub All-find {μ} :
      (P : A → Type μ) (k : K) (xs : List A) {a : A} → All P xs → find k xs ≡ some a → P a
  unfolding find
  All-find P k [] h row = absurd (cc)
  All-find P k (x ∷ xs) {a} h row = elim (Bool-cases (e.beq (key x) k)) [
    | inl hit ↦ subst P (ground (arith, hit)) h.0
    | inr miss ↦ All-find P k xs h.1 (ground (arith, miss))
  ]

  -- No two rows have the same key.
  abbrev pub Distinct : List A → Type 0
  Distinct [] = Unit {0}
  Distinct (x ∷ xs) = All (λ y. e.beq (key x) (key y) ≡ false) xs × Distinct xs

  found_below :
      (x : A) (xs ys : List A)
      → All (λ y. e.beq (key x) (key y) ≡ false) ys
      → All (λ y. find (key y) xs ≡ some y) ys
      → All (λ y. find (key y) (x ∷ xs) ≡ some y) ys
  unfolding find
  found_below x xs [] away h = tt
  found_below x xs (y ∷ ys) away h = (rw away.0 h.0, found_below x xs ys away.1 h.1)

  -- Each row is the row of its key.
  pub Distinct-find : (xs : List A) → Distinct xs → All (λ y. find (key y) xs ≡ some y) xs
  unfolding find
  Distinct-find [] d = tt
  Distinct-find (x ∷ xs) d =
      (rw ((e.beq_iff (key x) (key x)).1 refl), found_below x xs xs d.0 (Distinct-find xs d.1))

  beq-sym : (a b : K) → e.beq a b ≡ false → e.beq b a ≡ false
  beq-sym a b h = ground (arith, e.beq_iff a b, e.beq_iff b a)

  missing-All : (k : K) (xs : List A) → find k xs ≡ none → All (λ y. e.beq k (key y) ≡ false) xs
  unfolding find
  missing-All k [] h = tt
  missing-All k (x ∷ xs) h = elim (Bool-cases (e.beq (key x) k)) [
    | inl hit ↦ absurd (ground (arith, hit))
    | inr miss ↦ (beq-sym (key x) k miss, missing-All k xs (ground (arith, miss)))
  ]

  pub Distinct-insert :
      (a : A) (xs : List A) → find (key a) xs ≡ none → Distinct xs → Distinct (a ∷ xs)
  Distinct-insert a xs h d = (missing-All (key a) xs h, d)

  module _ (k : K) (f : A → A) (same_key : (a : A) → key (f a) ≡ key a) where
    pub Distinct-alter : (xs : List A) → Distinct xs → Distinct (alter k f xs)
    unfolding alter
    Distinct-alter [] d = tt
    Distinct-alter (x ∷ xs) d = elim (Bool-cases (e.beq (key x) k)) [
      | inl hit ↦ rw hit (rw (same_key x) d.0, d.1)
      | inr miss ↦ rw miss (
        All-alter (λ y. e.beq (key x) (key y) ≡ false) k f xs d.0
            (λ a _ away. rw (same_key a) away),
        Distinct-alter xs d.1,
      )
    ]
