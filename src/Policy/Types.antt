-- ===== src/Policy/Types.antt =====
-- internal/core/policy/policy.go and the tables of migrations.go. An amount of money that a call
-- brings is an int64 word; an amount that a table holds has passed the test for a negative one.
use control_center.Common.{
  ℕ, ◌≡◌, ◌↔◌, Bool, true, false, ◌&&◌, ◌||◌, Option, List, [], ◌∷◌, ◌==◌, Bytes, codes, bytes_eq,
  bytes_eq_iff, Eq, arith,
}

-- An instant in UTC, by its calendar fields; `rest` counts nanoseconds within the hour.
pub record Time : Type 0 where
  pub year : ℕ
  pub month : ℕ
  pub day : ℕ
  pub hour : ℕ
  pub rest : ℕ

pub data Window : Type 0 where
  hour_window day_window month_window : Window

abbrev pub all_windows : List Window
all_windows = hour_window ∷ day_window ∷ month_window ∷ []

unfoldable pub period_start : Window → Time → Time
period_start hour_window t = record t { rest = 0 }
period_start day_window t = record t { hour = 0; rest = 0 }
period_start month_window t = record t { day = 1; hour = 0; rest = 0 }

abbrev pub exceed_reject : Bytes
exceed_reject = codes "reject"

abbrev pub exceed_disable : Bytes
exceed_disable = codes "disable"

-- ExceedAction.valid
unfoldable pub valid_action : Bytes → Bool
valid_action a = bytes_eq a exceed_reject || bytes_eq a exceed_disable

pub record Budget : Type 0 where
  pub hourly : ℕ
  pub daily : ℕ
  pub monthly : ℕ
  pub on_exceed : Bytes

unfoldable pub limit_for : Budget → Window → ℕ
limit_for b hour_window = b.hourly
limit_for b day_window = b.daily
limit_for b month_window = b.monthly

pub data Error : Type 0 where
  plugin_disabled : Error
  unknown_plugin : Bytes → Error
  budget_exceeded : Window → Error
  unknown_reservation : Bytes → Error
  invalid_plugin_id : Bytes → Error
  negative_amount : Error
  budget_below_spend : Window → Error
  automated_needs_budget : Error
  invalid_exceed : Bytes → Error
  sql_error : Error

-- errors.Is(err, ErrPluginDisabled): an unknown plugin is denied as a disabled one is.
unfoldable pub is_plugin_disabled : Error → Bool
is_plugin_disabled plugin_disabled = true
is_plugin_disabled (unknown_plugin id) = true
is_plugin_disabled _ = false

-- errors.Is(err, ErrUnknownPlugin)
unfoldable pub is_unknown : Error → Bool
is_unknown (unknown_plugin id) = true
is_unknown _ = false

-- errors.Is(err, ErrUnknownReservation)
unfoldable pub is_unknown_reservation : Error → Bool
is_unknown_reservation (unknown_reservation id) = true
is_unknown_reservation _ = false

unfoldable pub is_domain_rejection : Error → Bool
is_domain_rejection (budget_exceeded w) = true
is_domain_rejection _ = false

-- A row of core_plugin_state, less its key.
pub record PluginState : Type 0 where
  pub enabled : Bool
  pub automated : Bool
  pub disabled_at : Option Time
  pub disabled_by : Bytes
  pub disabled_reason : Bytes
  pub accounting_failed_at : Option Time

-- A row of core_plugin_spend_reservations, less its id.
pub record Reservation : Type 0 where
  pub plugin : Bytes
  pub maximum : ℕ
  pub admitted_at : Time
  pub hour_start : Time
  pub day_start : Time
  pub month_start : Time

-- The key of core_plugin_spend and of core_plugin_budget_events.
pub record Period : Type 0 where
  pub plugin : Bytes
  pub window : Window
  pub start : Time

pub data Event : Type 0 where
  enabled_event : (plugin actor reason : Bytes) → Event
  disabled_event : (plugin actor reason : Bytes) → Event
  budget_event : (period : Period) (limit reserved committed : ℕ) (action : Bytes) → Event
  accounting_event : (plugin reservation : Bytes) (maximum actual : ℕ) → Event

-- The policy tables, the events published to the log, and the watcher calls that commit releases.
pub record Db : Type 0 where
  pub states : List (Bytes × PluginState)
  pub budgets : List (Bytes × Budget)
  pub spend : List (Period × ℕ)
  pub reservations : List (Bytes × Reservation)
  pub budget_events : List Period
  pub published : List Event
  pub notified : List (Bytes × Bool)

unfoldable pub time_eq : Time → Time → Bool
time_eq a b =
    a.year == b.year && a.month == b.month && a.day == b.day && a.hour == b.hour && a.rest == b.rest

unfoldable pub window_eq : Window → Window → Bool
window_eq hour_window hour_window = true
window_eq day_window day_window = true
window_eq month_window month_window = true
window_eq _ _ = false

unfoldable pub period_eq : Period → Period → Bool
period_eq a b = bytes_eq a.plugin b.plugin && window_eq a.window b.window && time_eq a.start b.start

pub time_eq_iff : (a b : Time) → (time_eq a b ≡ true) ↔ (a ≡ b)
unfolding time_eq
time_eq_iff a b = ground arith

pub window_eq_iff : (a b : Window) → (window_eq a b ≡ true) ↔ (a ≡ b)
unfolding window_eq
window_eq_iff a b = ground arith

pub period_eq_iff : (a b : Period) → (period_eq a b ≡ true) ↔ (a ≡ b)
unfolding period_eq
period_eq_iff a b = ground (
  arith,
  bytes_eq_iff a.plugin b.plugin,
  window_eq_iff a.window b.window,
  time_eq_iff a.start b.start,
)

instance abbrev pub period_key : Eq Period
period_key = record { beq = period_eq; beq_iff = period_eq_iff }

-- A step of a transaction: it returns a value with the tables as it left them, or an error.
pub data Outcome {ℓ} (A : Type ℓ) : Type ℓ where
  done : A → Db → Outcome A
  failed : Error → Db → Outcome A

abbrev pub M {ℓ} : Type ℓ → Type ℓ
M A = Db → Outcome A

infixl 5 ◌>>=◌ ◌>>◌
abbrev pub ◌>>=◌ {ℓ κ} : {A : Type ℓ} {B : Type κ} → M A → (A → M B) → M B
◌>>=◌ m f d = elim (m d) [ done a e ↦ f a e | failed x e ↦ failed x e ]

abbrev pub ◌>>◌ {ℓ κ} : {A : Type ℓ} {B : Type κ} → M A → M B → M B
m >> k = m >>= λ _. k

abbrev pub return {ℓ} : {A : Type ℓ} → A → M A
return a d = done a d

abbrev pub fail {ℓ} : {A : Type ℓ} → Error → M A
fail x d = failed x d

abbrev pub modify : (Db → Db) → M (Unit {0})
modify f d = done tt (f d)

-- storage.DB.Tx: an error rolls everything back, the watcher calls too.
abbrev pub in_tx {ℓ} : {A : Type ℓ} → M A → M A
in_tx m d = elim (m d) [ done a e ↦ done a e | failed x e ↦ failed x d ]

-- The tables that a step leaves, whichever way it ends.
abbrev pub after {ℓ} : {A : Type ℓ} → Outcome A → Db
after (done a d) = d
after (failed x d) = d
