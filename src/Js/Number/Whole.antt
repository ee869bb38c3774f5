-- ===== src/Js/Number/Whole.antt =====
-- Whole numbers among the JavaScript numbers, and the tests that the sources make of them.
use native.Mathlib.Nat.{one-le-pow, mul_comm, le_of_mul-le-mul_right}
use native.Mathlib.Omega.{div_any}
use node_red_contrib_bull.Prelude.{
  ℕ, suc, ◌*◌, ◌/◌, ◌%◌, ◌^◌, ◌≤◌, ◌<◌, ◌≡◌, true, false, arith, ltb, ◌==◌, ap, subst,
}
use node_red_contrib_bull.Js.Number.{Number, nan, inf, dec, is_integer, is_below, is_above}

-- The number is the natural number `value`, from `least` on; 5.0 is written 50 / 10^1.
pub record IsWhole (least : ℕ) (n : Number) : Type 0 where
  pub value : ℕ
  pub scale : ℕ
  pub shape : n ≡ dec false (value * 10 ^ scale) scale
  pub at_least : least ≤ value

pow_pos : (s : ℕ) → 0 < 10 ^ s
pow_pos s = one-le-pow s 10 (omega arith)

-- A whole decimal is its quotient times the power of ten.
whole_digits : (d p : ℕ) → (d % p == 0) ≡ true → d ≡ (d / p) * p
whole_digits d p h = grind (arith, div_any d p, mul_comm p (d / p))

not_ltb : (a b : ℕ) → ltb a b ≡ false → b ≤ a
not_ltb a b h = ground arith

-- What is left after `!Number.isInteger(n) || n < least` is refused.
pub IsWhole-checks :
    (k : ℕ) (n : Number) → is_integer n ≡ true → is_below n (suc k) ≡ false → IsWhole (suc k) n
unfolding is_integer is_below
IsWhole-checks k (dec true d s) whole enough = ground arith
IsWhole-checks k (dec false d s) whole enough =
    let digits = whole_digits d (10 ^ s) whole in
    record {
      value = d / 10 ^ s;
      scale = s;
      shape = ap (λ x. dec false x s) digits;
      at_least =
          le_of_mul-le-mul_right
            (subst (λ x. suc k * 10 ^ s ≤ x) digits (not_ltb d (suc k * 10 ^ s) enough))
            (pow_pos s);
    }
IsWhole-checks k nan whole enough = ground arith
IsWhole-checks k (inf _) whole enough = ground arith

-- What is left after `n > most` is refused, too.
pub whole-at_most :
    (least most : ℕ) (n : Number) (w : IsWhole least n) → is_above n most ≡ false → w.value ≤ most
unfolding is_above
whole-at_most least most n w below =
    le_of_mul-le-mul_right
      (not_ltb (most * 10 ^ w.scale) (w.value * 10 ^ w.scale)
        (subst (λ x. is_above x most ≡ false) w.shape below))
      (pow_pos w.scale)
