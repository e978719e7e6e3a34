-- ===== src/Prelude/Strings.antt =====
-- Rust strings as their UTF-8 bytes, with the operations of `str` that the services call.
use Prim.Native.Nat.{ℕ}
use Prim.Native.Char.{code}
use Prim.Native.String.{String}
use mathlib.Core.Path.{◌≡◌, refl}
use mathlib.Core.Logic.{◌≢◌, ◌↔◌}
use mathlib.Core.Bool.{Bool, true, false, ◌&&◌}
use mathlib.Core.Option.{Option, none, some}
use mathlib.Core.List.{List, [], ◌∷◌}
use native.Mathlib.Omega.{arith}
use parallax_telemetry_playg.Prelude.Lists.{any, All}
use parallax_telemetry_playg.Prelude.Tests.{ltb, ◌==◌, if◌then◌else◌}

-- The UTF-8 bytes of a string.
abbrev pub Text : Type 0
Text = List ℕ

-- An ASCII literal.
abbrev pub codes : String → Text
codes String.[] = []
codes (String.◌∷◌ c s) = code c ∷ codes s

-- An equality test that is right; keys of tables have one.
pub record Eq {ℓ} (A : Type ℓ) : Type ℓ where
  pub beq : A → A → Bool
  pub beq_iff : (x y : A) → (beq x y ≡ true) ↔ (x ≡ y)

unfoldable pub text_eq : Text → Text → Bool
text_eq [] [] = true
text_eq [] (b ∷ bs) = false
text_eq (a ∷ as') [] = false
text_eq (a ∷ as') (b ∷ bs) = (a == b) && text_eq as' bs

pub text_eq_sound : (a b : Text) → text_eq a b ≡ true → a ≡ b
unfolding text_eq
text_eq_sound [] [] h = refl
text_eq_sound [] (b ∷ bs) h = cc
text_eq_sound (a ∷ as') [] h = cc
text_eq_sound (a ∷ as') (b ∷ bs) h = ground (arith, text_eq_sound as' bs)

pub text_eq_refl : (a : Text) → text_eq a a ≡ true
unfolding text_eq
text_eq_refl [] = refl
text_eq_refl (a ∷ as') = ground (arith, text_eq_refl as')

pub text_eq_iff : (a b : Text) → (text_eq a b ≡ true) ↔ (a ≡ b)
text_eq_iff a b = (text_eq_sound a b, λ e. rw e (text_eq_refl b))

instance abbrev pub text_Eq : Eq Text
text_Eq = record { beq = text_eq; beq_iff = text_eq_iff }

-- `a.as_deref() == Some(b)`.
abbrev pub is_text : Option Text → Text → Bool
is_text none b = false
is_text (some a) b = text_eq a b

-- `Ord for str`: the bytes, left to right; a proper prefix comes first.
unfoldable pub text_le : Text → Text → Bool
text_le [] b = true
text_le (a ∷ as') [] = false
text_le (a ∷ as') (b ∷ bs) = if ltb a b then true else (a == b) && text_le as' bs

-- No text of the list is the given one.
pub any-text_eq_iff :
    (k : Text) (ks : List Text) → (any (text_eq k) ks ≡ false) ↔ All (λ x. k ≢ x) ks
any-text_eq_iff k [] = (λ _. tt, λ _. refl)
any-text_eq_iff k (x ∷ ks) = ground (arith, text_eq_iff k x, any-text_eq_iff k ks)
