-- ===== src/Number/Division.antt =====
-- `*mody` and the quotient that `raleighsl_number_div` leaves.
use native.Mathlib.Nat.{div-add-mod, mod-lt, mul_comm}
use raleigh_fs.Common.{ℕ, ◌/◌, ◌<◌, ◌≤◌, ◌^◌, ◌-◌, Option, some, ◌≡◌, ◌≢◌, ◌⊎◌, arith, suc}
use raleigh_fs.Errno.{Errno}
use raleigh_fs.Object.{World, Site}
use raleigh_fs.Number.{Number, div}
use raleigh_fs.Number.Locking.{join-state}
use raleigh_fs.Common.Int.{ℤ, IsInt64, pos, negsuc, ◌+ℤ◌, ◌*ℤ◌, magnitude, quot, rem}

-- C's rule for division by anything but zero: the quotient times the divisor and the remainder
-- make up the dividend, the remainder is smaller than the divisor in magnitude, and the quotient
-- is truncated towards zero.
pub quot-rem :
    (a d : ℤ)
    → d ≢ pos 0
    → (quot a d *ℤ d +ℤ rem a d ≡ a)
      × (magnitude (rem a d) < magnitude d)
      × (magnitude (quot a d) ≡ magnitude a / magnitude d)
unfolding quot rem ◌+ℤ◌ ◌*ℤ◌
quot-rem (pos m) (pos n) h = ground (arith, div-add-mod m n, mul_comm n (m / n), mod-lt m {m = n})
quot-rem (pos m) (negsuc n) h =
    ground (arith, div-add-mod m (suc n), mul_comm (suc n) (m / suc n), mod-lt m {m = suc n})
quot-rem (negsuc m) (pos n) h =
    ground (arith, div-add-mod (suc m) n, mul_comm n (suc m / n), mod-lt (suc m) {m = n})
quot-rem (negsuc m) (negsuc n) h = ground (
  arith,
  div-add-mod (suc m) (suc n),
  mul_comm (suc n) (suc m / suc n),
  mod-lt (suc m) {m = suc n},
)

div-le : (m n : ℕ) → m / n ≤ m
div-le m n = grind arith

half : (m n : ℕ) → 0 < n → suc m / suc n ≤ suc m / 2
half m n h = grind arith

quot-IsInt64 :
    (a d : ℤ)
    → IsInt64 a
    → d ≢ pos 0
    → (d ≢ negsuc 0) ⊎ (a ≢ negsuc (2 ^ 63 - 1))
    → IsInt64 (quot a d)
unfolding quot
quot-IsInt64 (pos m) (pos n) b z o = ground (arith, div-le m n)
quot-IsInt64 (pos m) (negsuc n) b z o = ground (arith, div-le m (suc n))
quot-IsInt64 (negsuc m) (pos n) b z o = ground (arith, div-le (suc m) n)
quot-IsInt64 (negsuc m) (negsuc n) b z o = ground (arith, div-le (suc m) (suc n), half m n)

div_parts :
    (site : Site) (atom : ℕ) (d : ℤ) (w w' : World Number) (m : Option ℤ)
    → div site atom d w ≡ some (Errno.ok, m, w')
    → (m ≡ some (rem w.state.write_value d))
      × (w'.state.write_value ≡ quot w.state.write_value d)
      × (d ≢ pos 0)
      × ((d ≢ negsuc 0) ⊎ (w.state.write_value ≢ negsuc (2 ^ 63 - 1)))
unfolding div
div_parts site atom d w w' m h = ground (arith, join-state site atom w)

-- A division of an int64_t that succeeds leaves the quotient as the pending value and hands the
-- remainder back. They are those of C: the quotient times the divisor and the remainder make up
-- the value before, the remainder is smaller than the divisor in magnitude, the quotient is
-- truncated towards zero, and it is an int64_t.
pub div_lem :
    (site : Site) (atom : ℕ) (d : ℤ) (w w' : World Number) (m : Option ℤ)
    → IsInt64 w.state.write_value
    → div site atom d w ≡ some (Errno.ok, m, w')
    → (r : ℤ) × (m ≡ some r)
      × (w'.state.write_value *ℤ d +ℤ r ≡ w.state.write_value)
      × (magnitude r < magnitude d)
      × (magnitude w'.state.write_value ≡ magnitude w.state.write_value / magnitude d)
      × IsInt64 w'.state.write_value
div_lem site atom d w w' m b h =
    let (remainder, quotient, nonzero, fits) = div_parts site atom d w w' m h in
    let (exact, small, truncated) = quot-rem w.state.write_value d nonzero in
    (
      rem w.state.write_value d,
      remainder,
      rw quotient exact,
      small,
      rw quotient truncated,
      rw quotient (quot-IsInt64 w.state.write_value d b nonzero fits),
    )
