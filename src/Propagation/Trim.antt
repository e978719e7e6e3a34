-- ===== src/Propagation/Trim.antt =====
-- `str::trim` on text of visible ASCII characters.
use mathlib.Core.List.{reverse, reverse_aux, reverse-reverse}
use parallax_telemetry_playg.Prelude.{
  ℕ, ◌≡◌, refl, ap, ◌∙◌, ◌&&◌, true, [], ◌∷◌, Text, leb, All, trim, drop_spaces, space_width,
  space_width_back, arith,
}

-- A visible ASCII character.
abbrev pub IsVisible : ℕ → Type 0
IsVisible b = (leb 33 b && leb b 126) ≡ true

All-reverse_aux :
    (xs ys : Text) → All IsVisible xs → All IsVisible ys → All IsVisible (reverse_aux xs ys)
All-reverse_aux [] ys h g = g
All-reverse_aux (x ∷ xs) ys h g = All-reverse_aux xs (x ∷ ys) h.1 (h.0, g)

visible-width : (s : Text) → All IsVisible s → space_width s ≡ 0
visible-width [] h = refl
visible-width (a ∷ []) h = ground (arith, h.0)
visible-width (a ∷ b ∷ []) h = ground (arith, h.0)
visible-width (a ∷ b ∷ c ∷ rest) h = ground (arith, h.0)

visible-width_back : (s : Text) → All IsVisible s → space_width_back s ≡ 0
visible-width_back [] h = refl
visible-width_back (a ∷ []) h = ground (arith, h.0)
visible-width_back (b ∷ a ∷ []) h = ground (arith, h.0, h.1.0)
visible-width_back (c ∷ b ∷ a ∷ rest) h = ground (arith, h.0, h.1.0, h.1.1.0)

drop-none : (width : Text → ℕ) (s : Text) → width s ≡ 0 → drop_spaces width 0 s ≡ s
unfolding drop_spaces
drop-none width [] h = refl
drop-none width (x ∷ xs) h = rw h refl

-- Text of visible characters is trimmed already.
pub trim-visible : (s : Text) → All IsVisible s → trim s ≡ s
unfolding trim
trim-visible s h =
    ap (λ t. reverse (drop_spaces space_width_back 0 (reverse t)))
      (drop-none space_width s (visible-width s h))
    ∙ ap reverse (
        drop-none space_width_back (reverse s)
          (visible-width_back (reverse s) (All-reverse_aux s [] h tt)))
    ∙ reverse-reverse s
