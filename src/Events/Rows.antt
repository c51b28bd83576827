-- ===== src/Events/Rows.antt =====
-- The log of internal/core/events/log.go in the order of its ids, and what a pass over it finds.
use control_center.Common.Word.{half64, le64→le, le→le64}
use control_center.Common.{
  ℕ, zero, suc, ◌≤◌, ◌<◌, ◌≡◌, refl, ◌⊎◌, inl, inr, Bool, true, false, some, List, [], ◌∷◌, ◌++◌,
  arith, Bool-cases, Bytes, bytes_key, lookup, All, All-lookup, Has, take, filter,
}
use control_center.Events.Log.{Event, Cursor}
use control_center.Events.Durable.{skip_to}
use control_center.Events.Cleanup.{is_lower, lowest, pin_of, minus_one}

-- Ids rise from `lo` and stay below `hi`.
abbrev pub Between : ℕ → List Event → ℕ → Type 0
Between lo [] hi = lo ≤ hi
Between lo (e ∷ es) hi = (lo ≤ e.id) × Between (suc e.id) es hi

pub Between-append :
    (lo hi : ℕ) (e : Event) (es : List Event)
    → Between lo es hi
    → e.id ≡ hi
    → Between lo (es ++ e ∷ []) (suc hi)
Between-append lo hi e [] b q = (omega arith, omega arith)
Between-append lo hi e (x ∷ es) b q = (b.0, Between-append (suc x.id) hi e es b.1 q)

pub Between-weaken : (k lo hi : ℕ) (es : List Event) → k ≤ lo → Between lo es hi → Between k es hi
Between-weaken k lo hi [] h b = omega arith
Between-weaken k lo hi (x ∷ es) h b = (omega arith, b.1)

pub Between-filter :
    (p : Event → Bool) (lo hi : ℕ) (es : List Event)
    → Between lo es hi
    → Between lo (filter p es) hi
unfolding filter
Between-filter p lo hi [] b = b
Between-filter p lo hi (x ∷ es) b = elim (Bool-cases (p x)) [
  | inl q ↦ rw q (b.0, Between-filter p (suc x.id) hi es b.1)
  | inr q ↦ rw q (
      Between-weaken lo (suc x.id) hi (filter p es) (omega (arith, b.0))
        (Between-filter p (suc x.id) hi es b.1))
]

pub Between-Has :
    (lo hi : ℕ) (e : Event) (es : List Event)
    → Between lo es hi
    → Has e es
    → (lo ≤ e.id) × (e.id < hi)
Between-Has lo hi e [] b h = absurd h
Between-Has lo hi e (x ∷ es) b (inl q) = ground (arith, Between-hi (suc x.id) hi es b.1)
  where
    Between-hi : (lo hi : ℕ) (es : List Event) → Between lo es hi → lo ≤ hi
    Between-hi lo hi [] b = b
    Between-hi lo hi (y ∷ ys) b = omega (arith, b.0, Between-hi (suc y.id) hi ys b.1)
Between-Has lo hi e (x ∷ es) b (inr h) = omega (arith, b.0, Between-Has (suc x.id) hi e es b.1 h)

-- The run that a step skips holds no match.
pub skip_to-lt :
    (m : Bytes → Bool) (lo hi n last : ℕ) (e : Event) (es : List Event)
    → Between lo es hi
    → last < lo
    → last < e.id
    → Has e es
    → m e.type ≡ true
    → skip_to m last (take n es) < e.id
unfolding skip_to
skip_to-lt m lo hi zero last e es b l q h t = q
skip_to-lt m lo hi (suc n) last e [] b l q h t = absurd h
skip_to-lt m lo hi (suc n) last e (x ∷ es) b l q (inl s) t = ground arith
skip_to-lt m lo hi (suc n) last e (x ∷ es) b l q (inr h) t = elim (Bool-cases (m x.type)) [
  | inl c ↦ rw c q
  | inr c ↦ rw c (
      skip_to-lt m (suc x.id) hi n x.id e es b.1 (omega arith)
        (omega (arith, Between-Has (suc x.id) hi e es b.1 h)) h t)
]

-- An id that a step skips to is one of the batch, or the one that it began from.
pub skip_to-bounded :
    (m : Bytes → Bool) (lo hi n last k : ℕ) (es : List Event)
    → Between lo es hi
    → last < k
    → hi ≤ k
    → skip_to m last (take n es) < k
unfolding skip_to
skip_to-bounded m lo hi zero last k es b l q = l
skip_to-bounded m lo hi (suc n) last k [] b l q = l
skip_to-bounded m lo hi (suc n) last k (x ∷ es) b l q = elim (Bool-cases (m x.type)) [
  | inl c ↦ rw c l
  | inr c ↦ rw c (
      skip_to-bounded m (suc x.id) hi n x.id k es b.1
        (omega (arith, Between-Has lo hi x (x ∷ es) b (inl refl))) q)
]

-- The first event of a batch comes no later than any other.
pub first-le :
    (lo hi n : ℕ) (x : Event) (xs es : List Event) (e : Event)
    → Between lo es hi
    → take n es ≡ x ∷ xs
    → Has e es
    → x.id ≤ e.id
first-le lo hi zero x xs es e b t h = cc
first-le lo hi (suc n) x xs [] e b t h = absurd h
first-le lo hi (suc n) x xs (y ∷ es) e b t (inl q) = ground arith
first-le lo hi (suc n) x xs (y ∷ es) e b t (inr h) =
    ground (arith, Between-Has (suc y.id) hi e es b.1 h)

-- The lowest position is no higher than that of any cursor, where none is negative.
abbrev pub IsCounted : Bytes × Cursor → Type 0
IsCounted (n, c) = c.last_event_id < half64

pub lowest-le :
    (cs : List (Bytes × Cursor)) (pin : ℕ) (by : Bytes)
    → All IsCounted cs
    → pin < half64
    → ((lowest cs (pin, by)).0 ≤ pin)
unfolding lowest is_lower
lowest-le [] pin by a l = omega arith
lowest-le ((n, c) ∷ cs) pin by (k, a) l = ground (
  arith,
  lowest-le cs c.last_event_id n a k,
  lowest-le cs pin by a l,
  le→le64 pin c.last_event_id l k,
)

not_lower :
    (pin last : ℕ)
    → (pin < half64) ⊎ (pin ≡ minus_one)
    → last < half64
    → is_lower pin last ≡ false
    → (pin < half64) × (pin ≤ last)
unfolding is_lower
not_lower pin last l k q = ground (arith, le64→le pin last)

pub lowest-lookup :
    (cs : List (Bytes × Cursor)) (pin : ℕ) (by s : Bytes) (c : Cursor)
    → All IsCounted cs
    → (pin < half64) ⊎ (pin ≡ minus_one)
    → lookup s cs ≡ some c
    → ((lowest cs (pin, by)).0 ≤ c.last_event_id)
unfolding lowest lookup
lowest-lookup [] pin by s c a l h = cc
lowest-lookup ((n, x) ∷ cs) pin by s c (k, a) l h =
    elim (Bool-cases (is_lower pin x.last_event_id)) [
      | inl q ↦
          rw (q, lowest)
            (ground (
              arith,
              lowest-le cs x.last_event_id n a k,
              lowest-lookup cs x.last_event_id n s c a (inl k),
            ))
      | inr q ↦
          let below : (pin < half64) × (pin ≤ x.last_event_id) =
            not_lower pin x.last_event_id l k q in
          rw (q, lowest)
            (ground
              (arith, lowest-le cs pin by a below.0, lowest-lookup cs pin by s c a (inl below.0)))
    ]

-- With a cursor in the table, the pin is a position that is no higher than it.
pub pin-le :
    (cs : List (Bytes × Cursor)) (s : Bytes) (c : Cursor)
    → All IsCounted cs
    → lookup s cs ≡ some c
    → ((pin_of cs).0 ≤ c.last_event_id)
unfolding pin_of
pin-le cs s c a h =
    ground
      (arith, lowest-lookup cs minus_one [] s c a (inr refl) h, All-lookup IsCounted s c cs h a)
