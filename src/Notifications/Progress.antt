-- ===== src/Notifications/Progress.antt =====
-- What becomes of a row of the notification queue, in tables whose rows are rewritten in place.
use parallax_telemetry_playg.Prelude.{
  ◌≡◌, ◌≤◌, refl, subst, inl, inr, Bool, true, false, some, List, [], ◌∷◌, Text, Bool-cases, All,
  arith, map, Eq, text_eq, text_Eq,
}
use parallax_telemetry_playg.Table.{find, alter, Distinct}
use parallax_telemetry_playg.Notifications.Schema.{
  DeliveryStatus, delivered, dead_lettered, Delivery, delivery_id,
}

module _ {ℓ} {A : Type ℓ} where
  -- Each row is followed by the row in its place.
  abbrev pub Pointwise : (A → A → Type 0) → List A → List A → Type 0
  Pointwise R [] [] = Unit
  Pointwise R [] (y ∷ ys) = ⊥
  Pointwise R (x ∷ xs) [] = ⊥
  Pointwise R (x ∷ xs) (y ∷ ys) = R x y × Pointwise R xs ys

  module _ (R : A → A → Type 0) where
    pub Pointwise-refl : ((a : A) → R a a) → (xs : List A) → Pointwise R xs xs
    Pointwise-refl r [] = tt
    Pointwise-refl r (x ∷ xs) = (r x, Pointwise-refl r xs)

    pub Pointwise-map :
        (f : A → A) → ((a : A) → R a (f a)) → (xs : List A) → Pointwise R xs (map f xs)
    Pointwise-map f r [] = tt
    Pointwise-map f r (x ∷ xs) = (r x, Pointwise-map f r xs)

module _ {ℓ μ} {A : Type ℓ} {K : Type μ} ⦃e : Eq K⦄ (key : A → K) (R : A → A → Type 0) where
  pub Pointwise-alter :
      (k : K) (f : A → A) (xs : List A)
      → ((a : A) → R a a)
      → ((a : A) → find key k xs ≡ some a → R a (f a))
      → Pointwise R xs (alter key k f xs)
  unfolding find alter
  Pointwise-alter k f [] same step = tt
  Pointwise-alter k f (x ∷ xs) same step = elim (Bool-cases (e.beq (key x) k)) [
    | inl hit ↦ rw hit (step x (rw hit), Pointwise-refl R same xs)
    | inr miss ↦ rw miss (same x, Pointwise-alter k f xs same (λ a row. step a (rw miss row)))
  ]

-- What becomes of a delivery: it keeps its identity, it is not attempted less often, and once it
-- is delivered or dead-lettered it stays so, with no further attempt.
abbrev pub is_terminal : DeliveryStatus → Bool
is_terminal delivered = true
is_terminal dead_lettered = true
is_terminal _ = false

pub record Progress {J : Type 0} (d d' : Delivery J) : Type 0 where
  pub same_id : d'.id ≡ d.id
  pub same_tenant : d'.tenant_id ≡ d.tenant_id
  pub same_event : d'.event_key ≡ d.event_key
  pub same_order : d'.order_id ≡ d.order_id
  pub same_channel : d'.channel ≡ d.channel
  pub same_payload : d'.payload ≡ d.payload
  pub attempts_grow : d.attempts ≤ d'.attempts
  pub settled_status : is_terminal d.status ≡ true → d'.status ≡ d.status
  pub settled_attempts : is_terminal d.status ≡ true → d'.attempts ≡ d.attempts

module _ {J : Type 0} where
  pub Progress-refl : (d : Delivery J) → Progress d d
  Progress-refl d = record {
    same_id = refl;
    same_tenant = refl;
    same_event = refl;
    same_order = refl;
    same_channel = refl;
    same_payload = refl;
    attempts_grow = omega arith;
    settled_status = λ t. refl;
    settled_attempts = λ t. refl;
  }

  pub Progress-trans : (a b c : Delivery J) → Progress a b → Progress b c → Progress a c
  Progress-trans a b c p q = record {
    same_id = cc;
    same_tenant = cc;
    same_event = cc;
    same_order = cc;
    same_channel = cc;
    same_payload = cc;
    attempts_grow = omega (arith, p.attempts_grow, q.attempts_grow);
    settled_status = λ t. ground (arith, p.settled_status t, q.settled_status, t);
    settled_attempts =
        λ t. ground (arith, p.settled_status t, p.settled_attempts t, q.settled_attempts);
  }

  -- The row of an identity is followed by the row of that identity.
  pub Pointwise-find :
      (id : Text) (xs ys : List (Delivery J)) {d : Delivery J}
      → Pointwise Progress xs ys
      → find delivery_id id xs ≡ some d
      → (d' : Delivery J) × (find delivery_id id ys ≡ some d') × Progress d d'
  unfolding find
  Pointwise-find id [] ys h row = absurd (cc)
  Pointwise-find id (x ∷ xs) [] h row = absurd h
  Pointwise-find id (x ∷ xs) (y ∷ ys) {d} h row = elim (Bool-cases (text_eq x.id id)) [
    | inl hit ↦ (y, rw h.0.same_id (rw hit), subst (λ z. Progress z y) (ground (arith, hit)) h.0)
    | inr miss ↦
        let below = Pointwise-find id xs ys {d = d} h.1 (ground (arith, miss)) in
        (below.0, rw h.0.same_id (rw miss below.1), below.2)
  ]

  away-All :
      (x y : Delivery J) (xs ys : List (Delivery J))
      → Progress x y
      → Pointwise Progress xs ys
      → All (λ z. text_eq x.id z.id ≡ false) xs
      → All (λ z. text_eq y.id z.id ≡ false) ys
  away-All x y [] [] p h away = tt
  away-All x y [] (w ∷ ys) p h away = absurd h
  away-All x y (z ∷ xs) [] p h away = absurd h
  away-All x y (z ∷ xs) (w ∷ ys) p h away =
      (rw p.same_id (rw h.0.same_id away.0), away-All x y xs ys p h.1 away.1)

  -- Identities stay distinct.
  pub Pointwise-Distinct :
      (xs ys : List (Delivery J))
      → Pointwise Progress xs ys
      → Distinct delivery_id xs
      → Distinct delivery_id ys
  Pointwise-Distinct [] [] h d = tt
  Pointwise-Distinct [] (y ∷ ys) h d = absurd h
  Pointwise-Distinct (x ∷ xs) [] h d = absurd h
  Pointwise-Distinct (x ∷ xs) (y ∷ ys) h d =
      (away-All x y xs ys h.0 h.1 d.0, Pointwise-Distinct xs ys h.1 d.1)
