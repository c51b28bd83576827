-- ===== src/Ai/Cost.antt =====
-- tokensCost and charge of internal/core/ai/compile.go.
use control_center.Common.Word.{half64, mod64, mul64, div64}
use control_center.Common.{
  inl, inr, ℕ, ◌+◌, ◌-◌, ◌*◌, ◌/◌, ◌≤◌, ◌<◌, ◌≡◌, ◌≢◌, sym, ◌∙◌, subst, some, arith, if◌then◌else◌,
  ◌==◌, Option-cases,
}
use control_center.Ai.Route.{
  Attempt, metered, tokens_cost, round_up, add_checked, attempt_cost, charge,
}
use native.Mathlib.Nat.{div-le_self, div-mul-le_self, mul-div_left, mul_comm}

-- The price of a number of tokens, rounded up to a whole micro dollar.
abbrev pub ceil_cost : (tokens per_million : ℕ) → ℕ
ceil_cost tokens per_million = (tokens * per_million + 999999) / 1000000

-- A positive quotient has a dividend that is not negative.
div64_positive :
    (n t p : ℕ) → n < mod64 → div64 n t ≡ p → p ≢ 0 → p < half64 → (n < half64) × (n / t ≡ p)
div64_positive n t p hn e nz hp = let small = div-le_self (mod64 - n) t in ground (arith, small)

-- What the check by a division finds.
mul64_exact : (t p : ℕ) → p < half64 → p ≢ 0 → div64 (mul64 t p) t ≡ p → t * p < half64
mul64_exact t p hp nz e =
    let (small, q) = div64_positive (mul64 t p) t p (omega arith) e nz hp in
    let le = subst (λ x. x * t ≤ mul64 t p) q (div-mul-le_self (mul64 t p) t) in grind arith

-- What is known of a cost that tokensCost returns.
pub record Costs (tokens per_million cost : ℕ) : Type 0 where
  pub small : tokens < half64
  pub priced : per_million ≢ 0
  pub bounded : per_million < half64
  pub exact : tokens * per_million < half64
  pub rounded : cost ≡ round_up (tokens * per_million)

pub tokens_cost-Costs : (t p c : ℕ) → tokens_cost t p ≡ some c → Costs t p c
unfolding tokens_cost
tokens_cost-Costs t p c h =
    let ex = mul64_exact t p in
    record {
      small = ground arith;
      priced = ground arith;
      bounded = ground arith;
      exact = ground (arith, ex);
      rounded = ground (arith, ex);
    }

product_div : (t p : ℕ) → t ≢ 0 → t * p / t ≡ p
product_div t p nz = rw (mul_comm t p) (mul-div_left p (omega arith))

pub tokens_cost-exact :
    (t p : ℕ)
    → t < half64
    → p < half64
    → p ≢ 0
    → t * p + 999999 < half64
    → tokens_cost t p ≡ some (ceil_cost t p)
unfolding tokens_cost
tokens_cost-exact t p ht hp nz h = let q = product_div t p in ground (arith, q)

pub product_mono : (i t p : ℕ) → i ≤ t → i * p ≤ t * p
product_mono i t p le = grind arith

-- Fewer tokens cost no more.
pub ceil_cost_mono : (i t p : ℕ) → i ≤ t → ceil_cost i p ≤ ceil_cost t p
ceil_cost_mono i t p le = let prod = product_mono i t p le in omega arith

-- What the bound on an attempt is, where the price of its input does not wrap.
pub record Bounds (t o n : ℕ) (a : Attempt) : Type 0 where
  pub input : Costs t a.in_per_m (ceil_cost t a.in_per_m)
  pub output : Costs o a.out_per_m (ceil_cost o a.out_per_m)
  pub output_fits : o * a.out_per_m + 999999 < half64
  pub sum : n ≡ ceil_cost t a.in_per_m + ceil_cost o a.out_per_m
  pub small : n < half64

round_up_exact : (n : ℕ) → n + 999999 < half64 → round_up n ≡ (n + 999999) / 1000000
round_up_exact n h = ground arith

-- A sum that tests as no smaller than a word that is not negative has not wrapped.
pub add_checked_fits :
    (x n y : ℕ)
    → x < half64
    → n < half64 + 1000000
    → add_checked x (round_up n) ≡ some y
    → (n + 999999 < half64) × (y < half64) × (y ≡ x + round_up n)
unfolding add_checked
add_checked_fits x n y hx hn h = ground arith

pub attempt_cost-Bounds :
    (t o n : ℕ) (a : Attempt)
    → attempt_cost t o a ≡ some n
    → t * a.in_per_m + 999999 < half64
    → Bounds t o n a
unfolding attempt_cost
attempt_cost-Bounds t o n a h fits = elim (Option-cases (tokens_cost t a.in_per_m)) [
  | inl none_in ↦ absurd (ground arith)
  | inr (x, ex) ↦ elim (Option-cases (tokens_cost o a.out_per_m)) [
    | inl none_out ↦ absurd (ground arith)
    | inr (y, ey) ↦
        of_costs (tokens_cost-Costs t a.in_per_m x ex) (tokens_cost-Costs o a.out_per_m y ey)
          (ground arith)
  ]
]
  where
    of_costs :
        {x y : ℕ}
        → Costs t a.in_per_m x
        → Costs o a.out_per_m y
        → add_checked x y ≡ some n
        → Bounds t o n a
    of_costs {x} {y} cx cy e =
        let rx = cx.rounded ∙ round_up_exact (t * a.in_per_m) fits in
        let at =
          subst (λ z. add_checked (ceil_cost t a.in_per_m) z ≡ some n) cy.rounded
            (subst (λ z. add_checked z y ≡ some n) rx e) in
        let small = cy.exact in
        let sum =
          add_checked_fits (ceil_cost t a.in_per_m) (o * a.out_per_m) n (omega arith) (omega arith)
            at in
        let ry = round_up_exact (o * a.out_per_m) sum.0 in
        record {
          input = subst (Costs t a.in_per_m) rx cx;
          output = subst (Costs o a.out_per_m) (cy.rounded ∙ ry) cy;
          output_fits = sum.0;
          sum = rw (sym ry) sum.2;
          small = sum.1;
        }

-- What an attempt that bills by the token costs.
abbrev pub price : Attempt → (in_tok out_tok : ℕ) → ℕ
price a i j = ceil_cost i a.in_per_m + (if j == 0 then 0 else ceil_cost j a.out_per_m)

abbrev pub cost_of : Attempt → (in_tok out_tok : ℕ) → ℕ
cost_of a i j = if metered a then price a i j else 0

-- A charge for input alone is at most the cost of the limit on it.
pub charge-within_input :
    (t n i j : ℕ) (a : Attempt)
    → Costs t a.in_per_m n
    → t * a.in_per_m + 999999 < half64
    → i ≤ t
    → j ≤ 0
    → (charge a i j ≡ some (cost_of a i j)) × (cost_of a i j ≤ n)
unfolding charge
charge-within_input t n i j a c fits hi hj =
    let le = ceil_cost_mono i t a.in_per_m hi in
    let prod = product_mono i t a.in_per_m hi in
    let e = tokens_cost-exact i a.in_per_m in
    let r = round_up_exact (t * a.in_per_m) fits in
    (ground (arith, c.small, c.bounded, c.priced), ground (arith, c.rounded))

-- A charge for tokens within the limits is the price, and is within the bound.
module _ (t o n i j : ℕ) (a : Attempt) (b : Bounds t o n a)
    (fits : t * a.in_per_m + 999999 < half64) (hi : i ≤ t) (hj : j ≤ o) where
  pub price-le : price a i j ≤ n
  price-le =
      ground (arith, b.sum, ceil_cost_mono i t a.in_per_m hi, ceil_cost_mono j o a.out_per_m hj)

  pub charge-within : charge a i j ≡ some (cost_of a i j)
  unfolding charge add_checked
  charge-within =
      let prod_in = product_mono i t a.in_per_m hi in
      let prod_out = product_mono j o a.out_per_m hj in
      let ei = tokens_cost-exact i a.in_per_m in
      let ej = tokens_cost-exact j a.out_per_m in
      ground (
        arith, b.output_fits, b.small, price-le, b.input.small, b.input.bounded, b.input.priced,
        b.output.small, b.output.bounded, b.output.priced,
      )
