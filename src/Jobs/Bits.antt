-- ===== src/Jobs/Bits.antt =====
-- The bit set of a cron field: bits&(1<<n) != 0, bits |= 1<<n and bits &^= 1<<n, digit by digit.
use control_center.Common.{
  ℕ, zero, suc, ◌+◌, ◌*◌, ◌/◌, ◌%◌, ◌≡◌, Bool, ◌||◌, ◌&&◌, not, arith, ◌==◌,
}

unfoldable pub has_bit : ℕ → ℕ → Bool
has_bit b zero = b % 2 == 1
has_bit b (suc n) = has_bit (b / 2) n

unfoldable pub set_bit : ℕ → ℕ → ℕ
set_bit b zero = 2 * (b / 2) + 1
set_bit b (suc n) = 2 * set_bit (b / 2) n + b % 2

unfoldable pub clear_bit : ℕ → ℕ → ℕ
clear_bit b zero = 2 * (b / 2)
clear_bit b (suc n) = 2 * clear_bit (b / 2) n + b % 2

pub has-set_bit : (b n m : ℕ) → has_bit (set_bit b n) m ≡ (n == m || has_bit b m)
unfolding has_bit set_bit
has-set_bit b zero zero = ground arith
has-set_bit b zero (suc m) =
    let e : (2 * (b / 2) + 1) / 2 ≡ b / 2 = omega arith in rw e (ground arith)
has-set_bit b (suc n) zero = ground arith
has-set_bit b (suc n) (suc m) =
    let e : (2 * set_bit (b / 2) n + b % 2) / 2 ≡ set_bit (b / 2) n = omega arith in
    rw (e, has-set_bit (b / 2) n m) (ground arith)

pub has-clear_bit : (b n m : ℕ) → has_bit (clear_bit b n) m ≡ (not (n == m) && has_bit b m)
unfolding has_bit clear_bit
has-clear_bit b zero zero = ground arith
has-clear_bit b zero (suc m) =
    let e : (2 * (b / 2)) / 2 ≡ b / 2 = omega arith in rw e (ground arith)
has-clear_bit b (suc n) zero = ground arith
has-clear_bit b (suc n) (suc m) =
    let e : (2 * clear_bit (b / 2) n + b % 2) / 2 ≡ clear_bit (b / 2) n = omega arith in
    rw (e, has-clear_bit (b / 2) n m) (ground arith)
