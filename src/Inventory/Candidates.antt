-- ===== src/Inventory/Candidates.antt =====
-- Which row of stock the candidate query of `reserve` picks.
use parallax_telemetry_playg.Prelude.{
  ℕ, ◌≤◌, ◌≡◌, refl, subst, sym, is_empty, false, inl, inr, Bool, true, ◌&&◌, Option, none, some,
  List, [], ◌∷◌, Text, text_eq_iff, Bool-cases, All, arith, sort_by, sort_by-All, any, text_eq,
}
use parallax_telemetry_playg.Table.{find}
use parallax_telemetry_playg.Inventory.Schema.{
  cell_eq, cell_Eq, stock_cell, Stock, available_quantity, Location, slot_Eq, Db,
}
use parallax_telemetry_playg.Inventory.Reserve.{
  threshold, is_candidate, location_slot, add_candidate, candidates, by_code, first,
}

-- A row of stock of the tenant, at an active location, of an active variant with the SKU, with
-- enough of it available.
pub record IsCandidate (db : Db) (tenant_id sku : Text) (q : ℕ) (code : Text) (s : Stock)
    : Type 0 where
  pub tenant : s.tenant_id ≡ tenant_id
  pub place : Location
  pub found :
      find location_slot (record { tenant_id = s.tenant_id; id = s.location_id }) db.locations
      ≡ some place
  pub active : place.is_active ≡ true
  pub named : place.code ≡ code
  pub stocked :
      any
        (λ v.
          text_eq v.tenant_id s.tenant_id
          && text_eq v.id s.variant_id
          && text_eq v.sku sku
          && v.is_active)
        db.variants
      ≡ true
  pub enough : threshold q ≤ available_quantity s

module _ (db : Db) (tenant_id sku : Text) (q : ℕ) where
  candidate :
      (s : Stock) (l : Location)
      → find location_slot (record { tenant_id = s.tenant_id; id = s.location_id }) db.locations
        ≡ some l
      → is_candidate db tenant_id sku q s l ≡ true
      → IsCandidate db tenant_id sku q l.code s
  unfolding is_candidate
  candidate s l e test = record {
    tenant = ground (arith, text_eq_iff s.tenant_id tenant_id);
    place = l;
    found = e;
    active = ground arith;
    named = refl;
    stocked = ground arith;
    enough = ground arith;
  }

  add_candidate-All :
      (s : Stock) (o : Option Location) (others : List (Text × Stock))
      → find location_slot (record { tenant_id = s.tenant_id; id = s.location_id }) db.locations ≡ o
      → All (λ p. IsCandidate db tenant_id sku q p.0 p.1) others
      → All
          (λ p. IsCandidate db tenant_id sku q p.0 p.1)
          (add_candidate db tenant_id sku q s o others)
  unfolding add_candidate
  add_candidate-All s none others e h = h
  add_candidate-All s (some l) others e h =
      elim (Bool-cases (is_candidate db tenant_id sku q s l)) [
        | inl test ↦ rw test (candidate s l e test, h)
        | inr test ↦ rw test h
      ]

  candidates-All :
      (rows : List Stock)
      → All (λ p. IsCandidate db tenant_id sku q p.0 p.1) (candidates db tenant_id sku q rows)
  unfolding candidates
  candidates-All [] = tt
  candidates-All (s ∷ rest) = add_candidate-All s _ _ refl (candidates-All rest)

  first-All {κ} :
      (P : Text × Stock → Type κ) (rows : List (Text × Stock)) {p : Text × Stock}
      → All P rows
      → first rows ≡ some p
      → P p
  first-All P [] h e = absurd (cc)
  first-All P (x ∷ rows) h e = subst P (cc) h.0

  -- The row of stock that the candidate query picks belongs to the tenant, holds an active
  -- variant with the SKU at an active location, and has enough available.
  pub candidate-of :
      (collate : Text → Text → Bool) (code : Text) (s : Stock)
      → first (sort_by (by_code collate) (candidates db tenant_id sku q db.stocks)) ≡ some (code, s)
      → IsCandidate db tenant_id sku q code s
  candidate-of collate code s e =
      first-All (λ p. IsCandidate db tenant_id sku q p.0 p.1) _
        (sort_by-All (by_code collate) _ _ (candidates-All db.stocks)) e

  -- A row that is a candidate is among the candidates.
  is_candidate-true :
      (code : Text) (s : Stock) (c : IsCandidate db tenant_id sku q code s)
      → is_candidate db tenant_id sku q s c.place ≡ true
  unfolding is_candidate
  is_candidate-true code s c =
      ground (arith, (text_eq_iff s.tenant_id tenant_id).1 c.tenant, c.stocked, c.active, c.enough)

  add_candidate-some :
      (s : Stock) (o : Option Location) (others : List (Text × Stock))
      → is_empty others ≡ false
      → is_empty (add_candidate db tenant_id sku q s o others) ≡ false
  unfolding add_candidate
  add_candidate-some s none others h = h
  add_candidate-some s (some l) others h = elim (Bool-cases (is_candidate db tenant_id sku q s l)) [
    | inl test ↦ rw test refl
    | inr test ↦ rw test h
  ]

  add_candidate-own :
      (code : Text) (s : Stock) (others : List (Text × Stock))
      → IsCandidate db tenant_id sku q code s
      → is_empty (
          add_candidate db tenant_id sku q s
            (find location_slot
              (record { tenant_id = s.tenant_id; id = s.location_id })
              db.locations)
            others)
        ≡ false
  unfolding add_candidate
  add_candidate-own code s others c = rw c.found (rw (is_candidate-true code s c) refl)

  pub candidates-some :
      (code : Text) (s : Stock) (rows : List Stock)
      → find stock_cell (stock_cell s) rows ≡ some s
      → IsCandidate db tenant_id sku q code s
      → is_empty (candidates db tenant_id sku q rows) ≡ false
  unfolding candidates find
  candidates-some code s [] row c = absurd (cc)
  candidates-some code s (x ∷ rows) row c =
      elim (Bool-cases (cell_eq (stock_cell x) (stock_cell s))) [
        | inl hit ↦
            let same : x ≡ s = ground (arith, hit, row) in
            subst
              (λ y.
                is_empty (
                  add_candidate db tenant_id sku q y
                    (find location_slot (record { tenant_id = y.tenant_id; id = y.location_id })
                      db.locations)
                    (candidates db tenant_id sku q rows))
                ≡ false)
              (sym same) (add_candidate-own code s _ c)
        | inr miss ↦
            add_candidate-some x _ _ (candidates-some code s rows (ground (arith, miss, row)) c)
      ]
