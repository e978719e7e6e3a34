-- ===== src/Prelude/Split.antt =====
-- `str::split`, `str::split_once` and `[T]::join` for an ASCII separator.
use Prim.Native.Nat.{ℕ}
use mathlib.Core.Path.{◌≡◌, refl, sym, ap, subst, ◌∙◌}
use mathlib.Core.Logic.{inl, inr}
use mathlib.Core.Bool.{true, false, not}
use mathlib.Core.Option.{Option, none, some}
use mathlib.Core.List.{List, [], ◌∷◌, ◌++◌}
use native.Mathlib.Omega.{arith}
use parallax_telemetry_playg.Prelude.Tests.{◌==◌, if◌then◌else◌, ==_iff, Bool-cases}
use parallax_telemetry_playg.Prelude.Lists.{all, All}
use parallax_telemetry_playg.Prelude.Strings.{Text}

-- Put a byte in front: a separator begins a new piece.
abbrev extend_pieces : ℕ → ℕ → Text × List Text → Text × List Text
extend_pieces c b (p, ps) = if b == c then ([], p ∷ ps) else (b ∷ p, ps)

-- The first piece and the others.
unfoldable pub pieces : ℕ → Text → Text × List Text
pieces c [] = ([], [])
pieces c (b ∷ bs) = extend_pieces c b (pieces c bs)

-- `str::split`.
abbrev pub split : ℕ → Text → List Text
split c s = (pieces c s).0 ∷ (pieces c s).1

abbrev behind : ℕ → Text × Text → Text × Text
behind b (front, rest) = (b ∷ front, rest)

abbrev behind_option : ℕ → Option (Text × Text) → Option (Text × Text)
behind_option b none = none
behind_option b (some halves) = some (behind b halves)

-- `str::split_once`.
unfoldable pub split_once : ℕ → Text → Option (Text × Text)
split_once c [] = none
split_once c (b ∷ bs) =
    let rest = split_once c bs in if b == c then some ([], bs) else behind_option b rest

-- The pieces after the first, each behind its separator.
unfoldable pub tails : ℕ → List Text → Text
tails c [] = []
tails c (p ∷ ps) = c ∷ (p ++ tails c ps)

-- `[T]::join`.
unfoldable pub join : ℕ → List Text → Text
join c [] = []
join c (p ∷ ps) = p ++ tails c ps

-- No byte of the text is the separator.
abbrev pub Lacks : ℕ → Text → Type 0
Lacks c s = All (λ b. (b == c) ≡ false) s

module _ (c : ℕ) where
  extend-glue :
      (b : ℕ) (p : Text) (ps : List Text)
      → join c ((extend_pieces c b (p, ps)).0 ∷ (extend_pieces c b (p, ps)).1) ≡ b ∷ join c (p ∷ ps)
  unfolding join tails
  extend-glue b p ps = elim (Bool-cases (b == c)) [
    | inl hit ↦ rw hit (ap (λ x. x ∷ (p ++ tails c ps)) (sym ((==_iff b c).0 hit)))
    | inr miss ↦ rw miss refl
  ]

  -- Joining what a split leaves gives the text back.
  pub join-split : (s : Text) → join c (split c s) ≡ s
  unfolding join pieces tails
  join-split [] = refl
  join-split (b ∷ bs) =
      extend-glue b (pieces c bs).0 (pieces c bs).1 ∙ ap (λ x. b ∷ x) (join-split bs)

  extend-Lacks :
      (b : ℕ) (p : Text) (ps : List Text)
      → All (Lacks c) (p ∷ ps)
      → All (Lacks c) ((extend_pieces c b (p, ps)).0 ∷ (extend_pieces c b (p, ps)).1)
  extend-Lacks b p ps h = elim (Bool-cases (b == c)) [
    | inl hit ↦ rw hit (tt, h)
    | inr miss ↦ rw miss ((miss, h.0), h.1)
  ]

  -- No piece of a split has the separator.
  pub split-Lacks : (s : Text) → All (Lacks c) (split c s)
  unfolding pieces
  split-Lacks [] = (tt, tt)
  split-Lacks (b ∷ bs) = extend-Lacks b (pieces c bs).0 (pieces c bs).1 (split-Lacks bs)

  pieces-glue :
      (p : Text) (ps : List Text)
      → Lacks c p
      → pieces c (tails c ps) ≡ ([], ps)
      → pieces c (p ++ tails c ps) ≡ (p, ps)
  unfolding pieces
  pieces-glue [] ps lacks h = h
  pieces-glue (b ∷ p) ps lacks h = rw (pieces-glue p ps lacks.1 h) (rw lacks.0 refl)

  pieces-tails : (ps : List Text) → All (Lacks c) ps → pieces c (tails c ps) ≡ ([], ps)
  unfolding pieces tails
  pieces-tails [] h = refl
  pieces-tails (p ∷ ps) h =
      rw (pieces-glue p ps h.0 (pieces-tails ps h.1)) (rw ((==_iff c c).1 refl) refl)

  -- Splitting what was joined from pieces without the separator gives the pieces back.
  pub split-join :
      (p : Text) (ps : List Text) → All (Lacks c) (p ∷ ps) → split c (join c (p ∷ ps)) ≡ p ∷ ps
  unfolding join
  split-join p ps h = rw (pieces-glue p ps h.0 (pieces-tails ps h.1)) refl

  -- A text is split once at the first separator.
  pub split_once-++ : (p rest : Text) → Lacks c p → split_once c (p ++ (c ∷ rest)) ≡ some (p, rest)
  unfolding split_once
  split_once-++ [] rest h = rw ((==_iff c c).1 refl) refl
  split_once-++ (b ∷ p) rest h = rw h.0 (rw (split_once-++ p rest h.1) refl)

  -- A text without the separator is one piece.
  pub pieces-Lacks : (p : Text) → Lacks c p → pieces c p ≡ (p, [])
  unfolding pieces
  pieces-Lacks [] h = refl
  pieces-Lacks (b ∷ p) h = rw (pieces-Lacks p h.1) (rw h.0 refl)

  abbrev Once : Option (Text × Text) → Text → Type 0
  Once none s = Unit {0}
  Once (some (front, rest)) s = (s ≡ front ++ (c ∷ rest)) × Lacks c front

  behind_option-Once :
      (b : ℕ) (bs : Text) (o : Option (Text × Text))
      → (b == c) ≡ false
      → Once o bs
      → Once (behind_option b o) (b ∷ bs)
  behind_option-Once b bs none miss h = tt
  behind_option-Once b bs (some (front, rest)) miss h = (ap (λ x. b ∷ x) h.0, (miss, h.1))

  once : (s : Text) → Once (split_once c s) s
  unfolding split_once
  once [] = tt
  once (b ∷ bs) = elim (Bool-cases (b == c)) [
    | inl hit ↦ rw hit (ap (λ x. x ∷ bs) ((==_iff b c).0 hit), tt)
    | inr miss ↦ rw miss (behind_option-Once b bs (split_once c bs) miss (once bs))
  ]

  -- The two halves with the separator between them are the text, and the first half has none.
  pub split_once-some :
      (s front rest : Text)
      → split_once c s ≡ some (front, rest)
      → (s ≡ front ++ (c ∷ rest)) × Lacks c front
  split_once-some s front rest h = subst (λ o. Once o s) h (once s)

  -- `Lacks` by a run.
  pub lacks : (s : Text) → all (λ b. not (b == c)) s ≡ true → Lacks c s
  lacks [] h = tt
  lacks (b ∷ bs) h = (ground (arith, h), lacks bs (ground (arith, h)))
