-- ===== src/Events/Draining.antt =====
-- drainOnce of internal/core/events/log.go: its rounds, and the events that it offers.
use control_center.Common.Word.{half64, le64, le64→le, le→le64}
use control_center.Common.{
  ℕ, zero, suc, ◌≤◌, ◌<◌, ◌≡◌, refl, sym, subst, ◌∙◌, ap, false, ◌&&◌, some, inl, List, [], ◌∷◌,
  arith, length, take, filter, filter-Has, Has,
}
use control_center.Events.Log.{Event, Db, is_above, read_after}
use control_center.Events.Live.{LiveSub, fan_all, last_id, drain_once}
use control_center.Events.Progress.{is_above-lt}
use control_center.Events.Querying.{filter-filter}
use control_center.Events.Rows.{Between, Between-filter, Between-Has}

abbrev pub drop : ℕ → List Event → List Event
drop zero xs = xs
drop (suc n) [] = []
drop (suc n) (x ∷ xs) = drop n xs

last_id-ge :
    (lo hi n : ℕ) (x : Event) (xs : List Event)
    → Between lo (x ∷ xs) hi
    → x.id ≤ last_id x (take n xs)
unfolding last_id
last_id-ge lo hi zero x xs b = omega arith
last_id-ge lo hi (suc n) x [] b = omega arith
last_id-ge lo hi (suc n) x (y ∷ ys) b = omega (arith, last_id-ge (suc x.id) hi n y ys b.1, b.1)

last_id-lt :
    (lo hi n : ℕ) (x : Event) (xs : List Event)
    → Between lo (x ∷ xs) hi
    → last_id x (take n xs) < hi
unfolding last_id
last_id-lt lo hi zero x xs b = (Between-Has lo hi x (x ∷ xs) b (inl refl)).1
last_id-lt lo hi (suc n) x [] b = (Between-Has lo hi x (x ∷ []) b (inl refl)).1
last_id-lt lo hi (suc n) x (y ∷ ys) b = last_id-lt (suc x.id) hi n y ys b.1

above-lt : (from id : ℕ) → from < id → id < half64 → le64 id from ≡ false
above-lt from id l h = ground (arith, le64→le id from)

all_above :
    (lo hi from : ℕ) (es : List Event)
    → Between lo es hi
    → hi ≤ half64
    → from < lo
    → filter (is_above from) es ≡ es
unfolding filter
all_above lo hi from [] b h l = refl
all_above lo hi from (x ∷ es) b h l = ground (
  arith,
  above-lt from x.id (omega arith) (omega (arith, (Between-Has lo hi x (x ∷ es) b (inl refl)).1)),
  all_above (suc x.id) hi from es b.1 h (omega arith),
)

-- Past the last event of a batch there is what the batch has left.
pub past_batch :
    (lo hi n : ℕ) (x : Event) (xs : List Event)
    → Between lo (x ∷ xs) hi
    → hi ≤ half64
    → filter (is_above (last_id x (take n xs))) (x ∷ xs) ≡ drop n xs
unfolding filter last_id
past_batch lo hi zero x xs b h =
    let small = (Between-Has lo hi x (x ∷ xs) b (inl refl)).1 in
    ground (
      arith,
      le→le64 x.id x.id (omega (arith, small)) (omega (arith, small)) (omega arith),
      all_above (suc x.id) hi x.id xs b.1 h (omega arith),
    )
past_batch lo hi (suc n) x [] b h =
    let small = (Between-Has lo hi x (x ∷ []) b (inl refl)).1 in
    ground (arith, le→le64 x.id x.id (omega (arith, small)) (omega (arith, small)) (omega arith))
past_batch lo hi (suc n) x (y ∷ ys) b h =
    let far = last_id-ge (suc x.id) hi n y ys b.1 in
    let small = last_id-lt (suc x.id) hi n y ys b.1 in
    ground (
      arith,
      le→le64 x.id (last_id y (take n ys)) (omega (arith, far, small, b.1.0)) (omega (arith, small))
          (omega (arith, far, b.1.0)),
      past_batch (suc x.id) hi n y ys b.1 h,
    )

fan_all-split :
    (n : ℕ) (es : List Event) (subs : List LiveSub)
    → fan_all (drop n es) (fan_all (take n es) subs) ≡ fan_all es subs
unfolding fan_all
fan_all-split zero es subs = refl
fan_all-split (suc n) [] subs = refl
fan_all-split (suc n) (e ∷ es) subs = fan_all-split n es _

length-drop : (n : ℕ) (es : List Event) → length (drop n es) ≤ length es
length-drop zero es = omega arith
length-drop (suc n) [] = omega arith
length-drop (suc n) (e ∷ es) = omega (arith, length-drop n es)

pub narrower :
    (from last : ℕ) (x : Event)
    → from ≤ last
    → last < half64
    → (is_above from x && is_above last x) ≡ is_above last x
narrower from last x l h = ground arith

round_end :
    (fuel from : ℕ) (subs : List LiveSub) (d : Db)
    → filter (is_above from) d.events ≡ []
    → drain_once (suc fuel) from subs d ≡ some (subs, from)
unfolding drain_once read_after
round_end fuel from subs d q = rw (q, drain_once, read_after) refl

round_next :
    (fuel from : ℕ) (subs : List LiveSub) (d : Db) (x : Event) (xs : List Event)
    → filter (is_above from) d.events ≡ x ∷ xs
    → drain_once (suc fuel) from subs d
      ≡ drain_once fuel (last_id x (take 199 xs)) (fan_all (x ∷ take 199 xs) subs) d
unfolding drain_once read_after
round_next fuel from subs d x xs q = rw (q, drain_once, read_after) refl

-- What is above the last event of a batch is what the batch has left.
left_above :
    (from : ℕ) (d : Db) (x : Event) (xs : List Event)
    → Between 1 d.events d.next_id
    → d.next_id ≤ half64
    → from < half64
    → filter (is_above from) d.events ≡ x ∷ xs
    → (filter (is_above (last_id x (take 199 xs))) d.events ≡ drop 199 xs)
      × (last_id x (take 199 xs) < half64)
left_above from d x xs b h l q =
    let ordered : Between 1 (x ∷ xs) d.next_id =
      subst (λ es. Between 1 es d.next_id) q
        (Between-filter (is_above from) 1 d.next_id d.events b) in
    let lower = last_id-lt 1 d.next_id 199 x xs ordered in
    let small : last_id x (take 199 xs) < half64 = omega (arith, lower) in
    let first = (Between-Has 1 d.next_id x (x ∷ xs) ordered (inl refl)).1 in
    let above = (filter-Has (is_above from) x d.events (subst (Has x) (sym q) (inl refl))).1 in
    let below : from ≤ last_id x (take 199 xs) = omega (
      arith,
      is_above-lt from x.id l (omega (arith, first)) above,
      last_id-ge 1 d.next_id 199 x xs ordered,
    ) in
    (
      sym (
            filter-filter (is_above (last_id x (take 199 xs))) (is_above from)
              (is_above (last_id x (take 199 xs))) d.events
              (λ e. narrower from (last_id x (take 199 xs)) e below small))
          ∙ ap (filter (is_above (last_id x (take 199 xs)))) q
          ∙ past_batch 1 d.next_id 199 x xs ordered h,
      small,
    )

-- Where the log is in order of its ids, nothing is published meanwhile and `from` is not negative,
-- drainOnce ends with as many rounds as there are events above `from`, and one: each of these has
-- been offered once, in order, to each live subscription, and no event of the log is above the
-- position that it leaves.
pub drain_once-reference :
    (fuel from : ℕ) (subs : List LiveSub) (d : Db)
    → Between 1 d.events d.next_id
    → d.next_id ≤ half64
    → from < half64
    → length (filter (is_above from) d.events) < fuel
    → (to : ℕ) × (drain_once fuel from subs d
        ≡ some (fan_all (filter (is_above from) d.events) subs, to))
      × (filter (is_above to) d.events ≡ [])
unfolding fan_all
drain_once-reference zero from subs d b h l f = absurd (omega arith)
drain_once-reference (suc fuel) from subs d b h l f =
    go (filter (is_above from) d.events) refl (λ at more. drain_once-reference fuel at more d b h)
  where
    go :
        (es : List Event)
        → filter (is_above from) d.events ≡ es
        → ((at : ℕ) (more : List LiveSub)
            → at < half64
            → length (filter (is_above at) d.events) < fuel
            → (to : ℕ) × (drain_once fuel at more d
                ≡ some (fan_all (filter (is_above at) d.events) more, to))
              × (filter (is_above to) d.events ≡ []))
        → (to : ℕ) × (drain_once (suc fuel) from subs d
            ≡ some (fan_all (filter (is_above from) d.events) subs, to))
          × (filter (is_above to) d.events ≡ [])
    go [] q again = (from, rw q (round_end fuel from subs d q), q)
    go (x ∷ xs) q again =
        let (left, small) = left_above from d x xs b h l q in
        let (to, ran, done) =
          again (last_id x (take 199 xs)) (fan_all (x ∷ take 199 xs) subs) small
            (omega (arith, ap length left, length-drop 199 xs, ap length q)) in
        (
          to,
          round_next fuel from subs d x xs q
              ∙ ran
              ∙ ap (λ es. some (es, to))
                  (ap (λ es. fan_all es (fan_all (x ∷ take 199 xs) subs)) left
                    ∙ fan_all-split 200 (x ∷ xs) subs
                    ∙ ap (λ es. fan_all es subs) (sym q)),
          done,
        )
