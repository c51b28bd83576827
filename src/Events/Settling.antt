-- ===== src/Events/Settling.antt =====
-- internal/core/events: what finished work and a skip do to an event that is owed.
use control_center.Common.{
  ℕ, zero, suc, ◌≡◌, refl, subst, ◌⊎◌, inl, inr, Bool, true, false, ◌&&◌, Option, none, some, List,
  [], ◌∷◌, arith, if◌then◌else◌, ◌==◌, Bool-cases, Bytes, bytes_eq, bytes_eq_iff, bytes_key, lookup,
  update, All, All-lookup,
}
use control_center.Events.Log.{Event, Cursor, Db, ok, refused}
use control_center.Events.Durable.{
  Sub, Work, wait, advance_to, deliver, Result, succeeded, unacknowledged, failed_with, stopped,
  dispatch, mutate_paused, is_paused, moved, skip_paused,
}
use control_center.Events.World.{World, perform}
use control_center.Events.Owed.{Done, RowOk, WorkOk, Owed}
use control_center.Events.Log.{unknown_name, not_paused}
use control_center.Events.World.{nth, without, is_handled, skip_with}
use control_center.Events.Keeping.{Holds-update, Holds-advance, Holds-failure}

pub without-All :
    {A : Type 0} (P : A → Type 0) (n : ℕ) (xs : List A) → All P xs → All P (without n xs)
unfolding without
without-All P n [] a = tt
without-All P zero (x ∷ xs) a = a.1
without-All P (suc n) (x ∷ xs) a = (a.0, without-All P n xs a.1)

pub nth-All :
    {A : Type 0} (P : A → Type 0) (n : ℕ) (xs : List A) (x : A) → All P xs → nth n xs ≡ some x → P x
unfolding nth
nth-All P n [] x a h = cc
nth-All P zero (y ∷ ys) x a h = let q : y ≡ x = cc in subst P q (a.0)
nth-All P (suc n) (y ∷ ys) x a h = nth-All P n ys x a.1 h

module _ (s : Bytes) (e : Event) where
  -- Still owed, or done.
  abbrev pub Settled : World → Type 0
  Settled w = Owed s e w ⊎ Done s e w

  pub Settled-if : (b : Bool) (x y : World) → Settled x → Settled y → Settled (if b then x else y)
  Settled-if true x y h k = h
  Settled-if false x y h k = k

  -- The work that a process finishes.
  pub perform-Settled :
      (now : ℕ) (payload : Bytes) (r : Result) (t : Sub) (k : Work) (w : World)
      → WorkOk s e (t, k)
      → Owed s e w
      → Settled (perform now payload r t k w)
  unfolding perform dispatch
  perform-Settled now payload r t wait w h o = inl o
  perform-Settled now payload r t (advance_to id) w h o =
      Settled-if (is_handled r) _ _
        (inl (record {
          tables = Holds-advance s e t.name id w.db (h.0) (h.1) o.tables;
          works = o.works;
          subs = o.subs;
        }))
        (inl o)
  perform-Settled now payload succeeded t (deliver f) w h o =
      elim (Bool-cases (bytes_eq t.name s && f.id == e.id)) [
        | inl q ↦ inr (inl (inl (ground (arith, bytes_eq_iff t.name s))))
        | inr q ↦ inl (record {
          tables = Holds-advance s e t.name f.id w.db (h.0) (λ r. ground (arith, h.1 r)) o.tables;
          works = o.works;
          subs = o.subs;
        })
      ]
  perform-Settled now payload (unacknowledged msg) t (deliver f) w h o = inl (record {
    tables = Holds-failure s e now t f msg payload w.db (h.0) (h.1) o.tables;
    works = o.works;
    subs = o.subs;
  })
  perform-Settled now payload (failed_with msg) t (deliver f) w h o = inl (record {
    tables = Holds-failure s e now t f msg payload w.db (h.0) (h.1) o.tables;
    works = o.works;
    subs = o.subs;
  })
  perform-Settled now payload (stopped b) t (deliver f) w h o =
      inl (record { tables = o.tables; works = o.works; subs = o.subs })

  pub skip-Settled :
      (n : Bytes) (w : World) → Owed s e w → Settled (skip_with n (skip_paused n w.db) w)
  unfolding skip_paused mutate_paused
  skip-Settled n w o = found (lookup n w.db.cursors) refl
    where
      paused_if :
          (b : Bool) (d : Db)
          → Settled (skip_with n (ok d) w)
          → Settled (skip_with n (if b then ok d else refused not_paused) w)
      paused_if true d h = h
      paused_if false d h = inl o

      at_row :
          (c : Cursor)
          → lookup n w.db.cursors ≡ some c
          → Settled (
              skip_with n
                (ok (record w.db { cursors = update n (moved c.failed_event_id) w.db.cursors }))
                w)
      at_row c q =
          let row = All-lookup (RowOk s e) n c w.db.cursors q o.tables.rows in
          elim (Bool-cases (bytes_eq n s && c.failed_event_id == e.id)) [
            | inl p ↦ inr (inr (inl (ground (arith, bytes_eq_iff n s))))
            | inr p ↦ inl (record {
              tables =
                  Holds-update s e n (moved c.failed_event_id) w.db
                    (λ j x h r. ground (arith, bytes_eq_iff j n, row.1, row.3)) o.tables;
              works = o.works;
              subs = o.subs;
            })
          ]

      found :
          (l : Option Cursor)
          → lookup n w.db.cursors ≡ l
          → Settled (
              skip_with n
                (elim l [
                  | none ↦ refused unknown_name
                  | some c ↦
                      if is_paused c.state
                      then ok (record w.db {
                        cursors = update n (moved c.failed_event_id) w.db.cursors;
                      })
                      else refused not_paused
                ])
                w)
      found none q = inl o
      found (some c) q = paused_if (is_paused c.state) _ (at_row c q)
