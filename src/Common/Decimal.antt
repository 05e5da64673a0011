-- ===== src/Common/Decimal.antt =====
-- strconv.FormatUint(n, 10) and fmt's %d on unsigned numbers, most significant digit first.
use wevibe_chain.Common.Tests.{ltb, if◌then◌else◌}
use wevibe_chain.Common.Bytes.{Text}
use wevibe_chain.Common.Join.{Without, last_byte}
use Prim.Native.Nat.{ℕ, zero, suc, ◌+◌, ◌-◌, ◌*◌, ◌/◌, ◌%◌, ◌<◌}
use mathlib.Core.Path.{◌≡◌, refl, ap, sym, ◌∙◌}
use mathlib.Core.List.{[], ◌∷◌, ◌++◌}
use native.Mathlib.Omega.{arith}

digits : ℕ → ℕ → Text → Text
digits zero n acc = acc
digits (suc f) n acc =
    let rest = digits f (n / 10) ((48 + n % 10) ∷ acc) in
    if ltb n 10 then (48 + n % 10) ∷ acc else rest

-- n + 1 rounds are enough, since each divides by ten.
unfoldable pub format_uint : ℕ → Text
unfolding digits
format_uint n = digits (n + 1) n []

-- The number that digits denote, after those read so far.
value : ℕ → Text → ℕ
value a [] = a
value a (c ∷ s) = value (a * 10 + (c - 48)) s

value-digits : (f n : ℕ) (acc : Text) → n < f → value 0 (digits f n acc) ≡ value n acc
unfolding value digits
value-digits zero n acc h = absurd (omega arith)
value-digits (suc f) n acc h = ground (
  arith,
  value-digits f (n / 10) ((48 + n % 10) ∷ acc),
  ap (λ (m : ℕ). value m acc) (digit_sum n),
)
  where
    digit_sum : (m : ℕ) → m / 10 * 10 + (48 + m % 10 - 48) ≡ m
    digit_sum m = omega arith

value-format_uint : (n : ℕ) → value 0 (format_uint n) ≡ n
unfolding format_uint value
value-format_uint n = value-digits (n + 1) n [] (omega arith)

-- Different numbers have different decimal texts.
pub format_uint-injective : (m n : ℕ) → format_uint m ≡ format_uint n → m ≡ n
format_uint-injective m n h = sym (value-format_uint m) ∙ ap (value 0) h ∙ value-format_uint n

abbrev pub NoSlash : Text → Type 0
NoSlash = Without 47

digits-Without : (b f n : ℕ) (acc : Text) → b < 48 → Without b acc → Without b (digits f n acc)
unfolding digits
digits-Without b zero n acc small h = h
digits-Without b (suc f) n acc small h =
    ground (arith, digits-Without b f (n / 10) ((48 + n % 10) ∷ acc))

-- No byte below the digits occurs in a number.
pub format_uint-Without : (b n : ℕ) → b < 48 → Without b (format_uint n)
unfolding format_uint
format_uint-Without b n small = digits-Without b (n + 1) n [] small tt

pub format_uint-NoSlash : (n : ℕ) → NoSlash (format_uint n)
format_uint-NoSlash n = format_uint-Without 47 n (omega arith)

-- A text is split in one way at its last slash.
pub last_slash :
    (s t a b : Text) → NoSlash a → NoSlash b → s ++ (47 ∷ a) ≡ t ++ (47 ∷ b) → (s ≡ t) × (a ≡ b)
last_slash = last_byte 47

format_uint_sample : format_uint 907 ≡ 57 ∷ 48 ∷ 55 ∷ []
unfolding format_uint
format_uint_sample = refl
