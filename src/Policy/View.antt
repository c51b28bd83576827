-- ===== src/Policy/View.antt =====
-- What the theorems on internal/core/policy read off the tables.
use control_center.Common.{
  ℕ, ◌+◌, ◌≡◌, refl, Bool, true, false, ◌&&◌, none, some, Bytes, bytes_key, lookup, ◌==◌,
}
use control_center.Policy.Types.{Period, period_eq, period_eq_iff, Db}
use control_center.Policy.Queries.{reserved_in, committed_in, budget_of}

-- Reserved plus committed money of a period.
abbrev pub usage : Period → Db → ℕ
usage k d = reserved_in k d.reservations + committed_in k d

abbrev pub is_known : Bytes → Db → Bool
is_known id d = elim (lookup id d.states) [ none ↦ false | some _ ↦ true ]

abbrev pub is_enabled : Bytes → Db → Bool
is_enabled id d = elim (lookup id d.states) [ none ↦ false | some st ↦ st.enabled ]

-- An enabled automated plugin with no finite daily budget.
abbrev pub uncapped : Bytes → Db → Bool
uncapped id d = elim (lookup id d.states) [
  | none ↦ false
  | some st ↦ st.enabled && st.automated && (budget_of id d).daily == 0
]

pub period_eq_refl : (k : Period) → period_eq k k ≡ true
period_eq_refl k = (period_eq_iff k k).1 refl
