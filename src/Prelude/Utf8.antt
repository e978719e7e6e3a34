-- ===== src/Prelude/Utf8.antt =====
-- `str` operations that look at characters, on the UTF-8 bytes of a string.
use Prim.Native.Nat.{ℕ, zero, suc, ◌-◌, ◌≤◌}
use mathlib.Core.Bool.{Bool, true, false, ◌&&◌, ◌||◌}
use mathlib.Core.List.{[], ◌∷◌, reverse}
use native.Mathlib.Omega.{arith}
use parallax_telemetry_playg.Prelude.Tests.{ltb, leb, ◌==◌, if◌then◌else◌}
use parallax_telemetry_playg.Prelude.Strings.{Text}

-- The characters with the property White_Space, by their one, two or three bytes.
abbrev pub is_space1 : ℕ → Bool
is_space1 a = (leb 9 a && leb a 13) || a == 32

abbrev pub is_space2 : ℕ → ℕ → Bool
is_space2 a b = a == 194 && (b == 133 || b == 160)

abbrev pub is_space3 : ℕ → ℕ → ℕ → Bool
is_space3 a b c =
    (a == 225 && b == 154 && c == 128)
    || (a == 226 && b == 128 && ((leb 128 c && leb c 138) || c == 168 || c == 169 || c == 175))
    || (a == 226 && b == 129 && c == 159)
    || (a == 227 && b == 128 && c == 128)

-- How many bytes the white space at the front takes.
abbrev pub space_width : Text → ℕ
space_width [] = 0
space_width (a ∷ []) = if is_space1 a then 1 else 0
space_width (a ∷ b ∷ []) = if is_space1 a then 1 else if is_space2 a b then 2 else 0
space_width (a ∷ b ∷ c ∷ rest) =
    if is_space1 a then 1 else if is_space2 a b then 2 else if is_space3 a b c then 3 else 0

-- The same for the bytes in reverse.
abbrev pub space_width_back : Text → ℕ
space_width_back [] = 0
space_width_back (a ∷ []) = if is_space1 a then 1 else 0
space_width_back (b ∷ a ∷ []) = if is_space1 b then 1 else if is_space2 a b then 2 else 0
space_width_back (c ∷ b ∷ a ∷ rest) =
    if is_space1 c then 1 else if is_space2 b c then 2 else if is_space3 a b c then 3 else 0

-- Drop the bytes of a character that has begun, then the white space after it.
unfoldable pub drop_spaces : (Text → ℕ) → ℕ → Text → Text
drop_spaces width skip [] = []
drop_spaces width (suc skip) (x ∷ xs) = drop_spaces width skip xs
drop_spaces width zero (x ∷ xs) =
    let rest = drop_spaces width (width (x ∷ xs) - 1) xs in
    if width (x ∷ xs) == 0 then x ∷ xs else rest

-- `str::trim`.
unfoldable pub trim : Text → Text
unfolding drop_spaces
trim s = reverse (drop_spaces space_width_back 0 (reverse (drop_spaces space_width 0 s)))

abbrev pub is_continuation : ℕ → Bool
is_continuation b = leb 128 b && leb b 191

-- `chars().take(n).collect()`.
unfoldable pub take_chars : ℕ → Text → Text
take_chars n [] = []
take_chars zero (b ∷ bs) = if is_continuation b then b ∷ take_chars zero bs else []
take_chars (suc n) (b ∷ bs) =
    if is_continuation b then b ∷ take_chars (suc n) bs else b ∷ take_chars n bs

-- `chars().count()`.
abbrev pub count_chars : Text → ℕ
count_chars [] = 0
count_chars (b ∷ bs) = if is_continuation b then count_chars bs else suc (count_chars bs)

pub count_chars-take_chars : (n : ℕ) (s : Text) → count_chars (take_chars n s) ≤ n
unfolding take_chars
count_chars-take_chars n [] = ground arith
count_chars-take_chars zero (b ∷ bs) = ground (arith, count_chars-take_chars zero bs)
count_chars-take_chars (suc n) (b ∷ bs) =
    ground (arith, count_chars-take_chars (suc n) bs, count_chars-take_chars n bs)

-- `u8::is_ascii_alphanumeric`, its letters and its digits.
abbrev pub is_ascii_digit : ℕ → Bool
is_ascii_digit b = leb b'0' b && leb b b'9'

abbrev pub is_ascii_uppercase : ℕ → Bool
is_ascii_uppercase b = leb b'A' b && leb b b'Z'

abbrev pub is_ascii_lowercase : ℕ → Bool
is_ascii_lowercase b = leb b'a' b && leb b b'z'

-- How many bytes of a character follow its first byte, and the bounds on the next of them.
pub record Demand : Type 0 where
  pub count : ℕ
  pub low : ℕ
  pub high : ℕ

abbrev demand : ℕ → ℕ → ℕ → Demand
demand count low high = record { count = count; low = low; high = high }

-- What the first byte of a character demands (RFC 3629, section 4); nothing meets the last.
abbrev lead : ℕ → Demand
lead b =
    if ltb b 128
    then demand 0 128 191
    else if leb 194 b && leb b 223
    then demand 1 128 191
    else if b == 224
    then demand 2 160 191
    else if b == 237
    then demand 2 128 159
    else if leb 225 b && leb b 239
    then demand 2 128 191
    else if b == 240
    then demand 3 144 191
    else if leb 241 b && leb b 243
    then demand 3 128 191
    else if b == 244
    then demand 3 128 143
    else demand 1 1 0

unfoldable utf8_from : ℕ → ℕ → ℕ → Text → Bool
utf8_from zero low high [] = true
utf8_from (suc count) low high [] = false
utf8_from (suc count) low high (b ∷ bs) = leb low b && leb b high && utf8_from count 128 191 bs
utf8_from zero low high (b ∷ bs) = utf8_from (lead b).count (lead b).low (lead b).high bs

-- `String::from_utf8` takes the bytes.
unfoldable pub is_utf8 : Text → Bool
unfolding utf8_from
is_utf8 s = utf8_from 0 0 0 s

abbrev after_194 : Text → Bool
after_194 [] = false
after_194 (b ∷ bs) = leb 128 b && leb b 159

-- `chars().any(char::is_control)`: U+0000 to U+001F, U+007F to U+009F.
unfoldable pub has_control : Text → Bool
has_control [] = false
has_control (b ∷ bs) = ltb b 32 || b == 127 || (b == 194 && after_194 bs) || has_control bs
