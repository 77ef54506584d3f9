-- ===== src/Base/Decimal.antt =====
-- strconv.FormatUint in base 10, and the value of a decimal text.
use Prim.Native.Nat.{ℕ, zero, suc, ◌+◌, ◌-◌, ◌*◌, ◌/◌, ◌%◌, ◌<◌}
use mathlib.Core.Path.{◌≡◌, sym, ap, ◌∙◌}
use mathlib.Core.Logic.{inl, inr}
use mathlib.Core.List.{[], ◌∷◌}
use native.Mathlib.Omega.{arith}
use cafe_discovery.Base.Tests.{if◌then◌else◌, ltb, Bool-cases}
use cafe_discovery.Base.Strings.{Text}

-- The digits before `acc`, on fuel: the number itself and one more are enough.
digits_onto : ℕ → ℕ → Text → Text
digits_onto zero n acc = acc
digits_onto (suc f) n acc =
    let rest = digits_onto f (n / 10) ((b'0' + n % 10) ∷ acc) in
    if ltb n 10 then (b'0' + n) ∷ acc else rest

unfoldable pub format_uint : ℕ → Text
unfolding digits_onto
format_uint n = digits_onto (suc n) n []

-- The value that digits add to a number read so far.
value_after : ℕ → Text → ℕ
value_after a [] = a
value_after a (c ∷ s) = value_after (a * 10 + (c - b'0')) s

value-digits_onto :
    (f n : ℕ) (acc : Text) → n < f → value_after 0 (digits_onto f n acc) ≡ value_after n acc
unfolding digits_onto value_after
value-digits_onto zero n acc h = elim h [ ]
value-digits_onto (suc f) n acc h = elim (Bool-cases (ltb n 10)) [
  | inl small ↦
      let same : 0 * 10 + (b'0' + n - b'0') ≡ n = omega arith in
      rw small (ap (λ v. value_after v acc) same)
  | inr large ↦
      let same : n / 10 * 10 + (b'0' + n % 10 - b'0') ≡ n = omega arith in
      rw large (
        value-digits_onto f (n / 10) ((b'0' + n % 10) ∷ acc) (ground arith)
        ∙ ap (λ v. value_after v acc) same)
]

-- The text of a number determines it.
pub format_uint-injective : (m n : ℕ) → format_uint m ≡ format_uint n → m ≡ n
unfolding format_uint value_after
format_uint-injective m n h =
    sym (value-digits_onto (suc m) m [] (omega arith))
    ∙ (ap (value_after 0) h ∙ value-digits_onto (suc n) n [] (omega arith))
