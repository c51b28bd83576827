-- ===== src/Jobs/Retries.antt =====
-- BackoffPolicy.delay of internal/core/jobs/queue.go.
use control_center.Common.{
  ℕ, zero, suc, ◌-◌, ◌*◌, ◌^◌, ◌≤◌, ◌<◌, ◌≡◌, inl, inr, arith, if◌then◌else◌, leb, Bool-cases,
}
use native.Mathlib.Nat.{pow-suc}
use control_center.Jobs.Types.{Backoff}
use control_center.Backoff.{delay_rounds}
use control_center.Jobs.Queue.{delay}

-- The delay without machine arithmetic: the doubled delay, cut off at the maximum.
abbrev pub ideal_rounds : ℕ → ℕ → ℕ → ℕ
ideal_rounds zero maximum d = d
ideal_rounds (suc n) maximum d =
    let rest = ideal_rounds n maximum (2 * d) in if leb maximum (2 * d) then maximum else rest

delay_rounds-ideal :
    (n maximum d : ℕ)
    → d < maximum
    → maximum ≤ 4611686018427387904
    → (delay_rounds n maximum d ≡ ideal_rounds n maximum d) × (delay_rounds n maximum d ≤ maximum)
unfolding delay_rounds
delay_rounds-ideal zero maximum d lt small = ground arith
delay_rounds-ideal (suc n) maximum d lt small = elim (Bool-cases (leb maximum (2 * d))) [
  | inl e ↦ ground arith
  | inr e ↦ ground (arith, delay_rounds-ideal n maximum (2 * d))
]

pow_pos : (n : ℕ) → 1 ≤ 2 ^ n
pow_pos zero = omega arith
pow_pos (suc n) = rw (pow-suc) (omega (arith, pow_pos n))

le_scaled : (d n : ℕ) → d ≤ d * 2 ^ n
le_scaled d n = let h = pow_pos n in grind arith

scaled_suc : (d n : ℕ) → d * 2 ^ suc n ≡ 2 * d * 2 ^ n
scaled_suc d n = rw (pow-suc) (omega arith)

ideal_rounds-closed :
    (n maximum d : ℕ)
    → d ≤ maximum
    → ideal_rounds n maximum d ≡ (if leb maximum (d * 2 ^ n) then maximum else d * 2 ^ n)
ideal_rounds-closed zero maximum d h = ground arith
ideal_rounds-closed (suc n) maximum d h = elim (Bool-cases (leb maximum (2 * d))) [
  | inl e ↦ rw (scaled_suc d n) (ground (arith, le_scaled (2 * d) n))
  | inr e ↦ rw (scaled_suc d n) (ground (arith, ideal_rounds-closed n maximum (2 * d)))
]

-- The delay before the retry of an attempt is the initial delay doubled once for each attempt but the
-- first, cut off at the maximum, and so never above it. This holds where the initial delay is below the
-- maximum and the maximum is at most 2 ^ 62 nanoseconds (146 years), so that no doubling overflows int64.
pub delay_exponential :
    (b : Backoff) (attempt : ℕ)
    → b.initial < b.maximum
    → b.maximum ≤ 4611686018427387904
    → (delay b attempt ≡ (
        if leb b.maximum (b.initial * 2 ^ (attempt - 1))
        then b.maximum
        else b.initial * 2 ^ (attempt - 1)))
      × (delay b attempt ≤ b.maximum)
unfolding delay
delay_exponential b attempt lt small = ground (
  arith,
  delay_rounds-ideal (attempt - 1) b.maximum b.initial lt small,
  ideal_rounds-closed (attempt - 1) b.maximum b.initial,
)
