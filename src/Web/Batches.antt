-- ===== src/Web/Batches.antt =====
-- The batches of handleStream of internal/core/web/stream.go, and the positions that they leave.
use control_center.Common.Word.{half64}
use control_center.Common.{
  ℕ, zero, suc, ◌≤◌, ◌<◌, ◌≡◌, refl, sym, subst, ◌∙◌, ap, Bool, true, false, inl, Option, some,
  none, List, [], ◌∷◌, ◌++◌, arith, Bytes, bytes_eq, if◌then◌else◌, take, filter, filter-Has, Has,
}
use control_center.Events.Log.{Event, Db, is_above, in_window, query_compiled, query}
use control_center.Events.Pattern.{
  double_star, compile_pattern, sql_prefix, prefix_from, is_wildcard, split, pattern_segments_ok,
  matches, match_segments,
}
use control_center.Events.Live.{last_id}
use control_center.Events.Progress.{is_above-lt}
use control_center.Events.Querying.{filter-filter}
use control_center.Events.Rows.{Between, Between-filter, Between-Has}
use control_center.Events.Draining.{drop, narrower, past_batch}
use control_center.Web.Stream.{
  Library, Chunk, event_chunk, Sent, Round, send_batch, read_batch, to_wire,
}

-- The events of the chunks.
abbrev pub delivered : List Chunk → List Event
delivered [] = []
delivered (event_chunk e body ∷ cs) = e ∷ delivered cs
delivered (_ ∷ cs) = delivered cs

-- A log in the order of its ids.
abbrev pub IsOrdered : List Event → Type 0
IsOrdered es = Between 1 es half64

-- Past the first event above a position there are the others.
pub next_above :
    (after : ℕ) (es rest : List Event) (x : Event)
    → IsOrdered es
    → after < half64
    → filter (is_above after) es ≡ x ∷ rest
    → (filter (is_above x.id) es ≡ rest) × (x.id < half64)
unfolding last_id
next_above after es rest x b l q =
    let ordered : Between 1 (x ∷ rest) half64 =
      subst (λ ys. Between 1 ys half64) q (Between-filter (is_above after) 1 half64 es b) in
    let small = (Between-Has 1 half64 x (x ∷ rest) ordered (inl refl)).1 in
    let above = (filter-Has (is_above after) x es (subst (Has x) (sym q) (inl refl))).1 in
    let below = is_above-lt after x.id l small above in
    (
      sym (
            filter-filter (is_above x.id) (is_above after) (is_above x.id) es
              (λ e. narrower after x.id e (omega (arith, below)) small))
          ∙ ap (filter (is_above x.id)) q
          ∙ past_batch 1 half64 0 x rest ordered (omega arith),
      small,
    )

pub filter-append :
    (p : Event → Bool) (xs ys : List Event) → filter p (xs ++ ys) ≡ filter p xs ++ filter p ys
unfolding filter
filter-append p [] ys = refl
filter-append p (x ∷ xs) ys = ground (arith, filter-append p xs ys)

pub take-drop : (n : ℕ) (xs : List Event) → take n xs ++ drop n xs ≡ xs
take-drop zero xs = refl
take-drop (suc n) [] = refl
take-drop (suc n) (x ∷ xs) = ap (λ ys. x ∷ ys) (take-drop n xs)

-- What a batch that stands first above a position leaves, in the log `es`.
pub record Leaves (es : List Event) (after : ℕ) (rest : List Event) (s : Sent) : Type 0 where
  pub small : s.after < half64
  pub split : filter (is_above after) es ≡ delivered s.chunks ++ filter (is_above s.after) es
  pub all_taken : s.still_open ≡ true → filter (is_above s.after) es ≡ rest

module _ (lib : Library) (takes : Chunk → Bool) (es : List Event) (ordered : IsOrdered es) where
  closed-Leaves :
      (rest : List Event) (after : ℕ)
      → after < half64
      → Leaves es after rest (record { chunks = []; after = after; still_open = false })
  closed-Leaves rest after l = record { small = l; split = refl; all_taken = λ o. absurd cc }

  pub send_batch-Leaves :
      (batch rest : List Event) (after : ℕ)
      → after < half64
      → filter (is_above after) es ≡ batch ++ rest
      → Leaves es after rest (send_batch lib takes batch after)
  unfolding send_batch
  send_batch-Leaves [] rest after l q = record { small = l; split = refl; all_taken = λ o. q }
  send_batch-Leaves (e ∷ batch) rest after l q =
      let (left, small) = next_above after es (batch ++ rest) e ordered l q in
      go (lib.marshal (to_wire lib e)) (send_batch-Leaves batch rest e.id small left) left
    where
      by_write :
          (b : Bool) (body : Bytes)
          → Leaves es e.id rest (send_batch lib takes batch e.id)
          → filter (is_above e.id) es ≡ batch ++ rest
          → Leaves es after rest (
              if b
              then record (send_batch lib takes batch e.id) {
                chunks = event_chunk e body ∷ (send_batch lib takes batch e.id).chunks;
              }
              else record { chunks = []; after = after; still_open = false })
      by_write true body later left = record {
        small = later.small;
        split = q ∙ ap (λ ys. e ∷ ys) (sym left ∙ later.split);
        all_taken = later.all_taken;
      }
      by_write false body later left = closed-Leaves rest after l

      go :
          (o : Option Bytes)
          → Leaves es e.id rest (send_batch lib takes batch e.id)
          → filter (is_above e.id) es ≡ batch ++ rest
          → Leaves es after rest (elim o [
            | none ↦ record { chunks = []; after = after; still_open = false }
            | some body ↦
                if takes (event_chunk e body)
                then record (send_batch lib takes batch e.id) {
                  chunks = event_chunk e body ∷ (send_batch lib takes batch e.id).chunks;
                }
                else record { chunks = []; after = after; still_open = false }
          ])
      go none later left = closed-Leaves rest after l
      go (some body) later left = by_write (takes (event_chunk e body)) body later left

-- A read returns the first events above the position, whatever their types.
take-take : (n m : ℕ) (xs : List Event) → n ≤ m → take n (take m xs) ≡ take n xs
take-take zero m xs h = refl
take-take (suc n) zero xs h = absurd (omega arith)
take-take (suc n) (suc m) [] h = refl
take-take (suc n) (suc m) (x ∷ xs) h = ap (λ ys. x ∷ ys) (take-take n m xs (omega arith))

all_pass : (p : Event → Bool) (xs : List Event) → ((x : Event) → p x ≡ true) → filter p xs ≡ xs
unfolding filter
all_pass p [] h = refl
all_pass p (x ∷ xs) h = ground (arith, h x, all_pass p xs h)

filter-ext :
    (p q : Event → Bool) (xs : List Event) → ((x : Event) → p x ≡ q x) → filter p xs ≡ filter q xs
unfolding filter
filter-ext p q [] h = refl
filter-ext p q (x ∷ xs) h = ground (arith, h x, filter-ext p q xs h)

abbrev pub any_segs : List Bytes
any_segs = double_star ∷ []

any_type : (e : Event) → matches any_segs e.type ≡ true
unfolding matches match_segments bytes_eq
any_type e = refl

any_window :
    (like : Bytes → Bytes → Bool) (after : ℕ) (e : Event)
    → in_window like (sql_prefix any_segs) after e ≡ is_above after e
unfolding in_window sql_prefix prefix_from bytes_eq is_wildcard
any_window like after e = ground arith

pub compiled_any : compile_pattern double_star ≡ some any_segs
unfolding compile_pattern bytes_eq pattern_segments_ok split is_wildcard
compiled_any = refl

pub query_any :
    (like : Bytes → Bytes → Bool) (after : ℕ) (d : Db)
    → query_compiled like any_segs after 200 d ≡ take 200 (filter (is_above after) d.events)
unfolding query_compiled
query_any like after d =
    rw
      (
        all_pass (λ e. matches any_segs e.type)
            (take 800 (filter (in_window like (sql_prefix any_segs) after) d.events)) any_type,
        take-take 200 800 (filter (in_window like (sql_prefix any_segs) after) d.events)
            (omega arith),
        filter-ext (in_window like (sql_prefix any_segs) after) (is_above after) d.events
            (any_window like after),
      )
      refl

pub read_batch-reference :
    (lib : Library) (r : Round) (after : ℕ) (batch : List Event)
    → read_batch lib r after ≡ some batch
    → batch ≡ take 200 (filter (is_above after) r.log.events)
unfolding read_batch query
read_batch-reference lib r after batch h =
    ground (arith, compiled_any, query_any lib.like after r.log)
