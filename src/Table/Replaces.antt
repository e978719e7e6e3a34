-- ===== src/Table/Replaces.antt =====
-- A table in which one row has become another, told without the statement that did it.
use parallax_telemetry_playg.Prelude.{
  ◌≡◌, refl, inl, inr, Bool-cases, ap, some, List, [], ◌∷◌, ◌++◌, Eq, arith,
}
use parallax_telemetry_playg.Table.{find, alter}

-- The tables are the same but for one place, where the one has `x` and the other `x'`.
pub record Replaces {ℓ} {A : Type ℓ} (x x' : A) (xs xs' : List A) : Type ℓ where
  pub before : List A
  pub after : List A
  pub old : xs ≡ before ++ (x ∷ after)
  pub new : xs' ≡ before ++ (x' ∷ after)

module _ {ℓ κ} {K : Type κ} {A : Type ℓ} ⦃e : Eq K⦄ (key : A → K) (k : K) where
  pub alter-Replaces :
      (f : A → A) (xs : List A) {a : A}
      → find key k xs ≡ some a
      → Replaces a (f a) xs (alter key k f xs)
  unfolding find alter
  alter-Replaces f [] h = absurd (cc)
  alter-Replaces f (x ∷ xs) {a} h = elim (Bool-cases (e.beq (key x) k)) [
    | inl hit ↦
        let same : x ≡ a = ground (arith, hit, h) in
        rw hit (record {
          before = [];
          after = xs;
          old = ap (λ y. y ∷ xs) same;
          new = ap (λ y. f y ∷ xs) same;
        })
    | inr miss ↦
        let rest = alter-Replaces f xs {a = a} (ground (arith, miss)) in
        rw miss (record {
          before = x ∷ rest.before;
          after = rest.after;
          old = ap (λ ys. x ∷ ys) rest.old;
          new = ap (λ ys. x ∷ ys) rest.new;
        })
  ]

  -- Two updates of a row are one.
  pub alter-alter :
      (f g : A → A)
      → ((a : A) → key (f a) ≡ key a)
      → (xs : List A) → alter key k g (alter key k f xs) ≡ alter key k (λ a. g (f a)) xs
  unfolding alter
  alter-alter f g same [] = refl
  alter-alter f g same (x ∷ xs) = elim (Bool-cases (e.beq (key x) k)) [
    | inl hit ↦ rw hit (rw (same x) (rw hit refl))
    | inr miss ↦ rw miss (rw miss (ap (λ ys. x ∷ ys) (alter-alter f g same xs)))
  ]
