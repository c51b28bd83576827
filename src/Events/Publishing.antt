-- ===== src/Events/Publishing.antt =====
-- PublishTx of internal/core/events/log.go, and what a plugin can publish through scoped.go.
use control_center.Common.{
  ℕ, ◌≡◌, refl, ap, true, false, none, [], ◌∷◌, ◌++◌, arith, Bytes, codes, bytes_eq,
}
use control_center.Events.Pattern.{
  dot, split, segment_char, all_segment_chars, valid_segment, validate_source, namespace_of,
  first_segment,
}
use control_center.Events.Log.{
  Event, Db, Payload, Input, Reply, ok, refused, prepare, publish_tx, new_event, append_event,
  scoped_input,
}

-- A valid segment holds no dot, so it is the first segment of what it is put before.
split-segment : (a s : Bytes) → all_segment_chars a ≡ true → split (a ++ dot ∷ s) ≡ a ∷ split s
unfolding split all_segment_chars segment_char
split-segment [] s h = ground arith
split-segment (c ∷ a) s h = ground (arith, split-segment a s)

split-single : (a : Bytes) → all_segment_chars a ≡ true → split a ≡ a ∷ []
unfolding split all_segment_chars segment_char
split-single [] h = refl
split-single (c ∷ a) h = ground (arith, split-single a)

valid-all_segment_chars : (a : Bytes) → valid_segment a ≡ true → all_segment_chars a ≡ true
unfolding valid_segment all_segment_chars segment_char
valid-all_segment_chars [] h = cc
valid-all_segment_chars (c ∷ a) h = ground arith

publish-inv :
    (now id : ℕ) (i : Input) (d d' : Db)
    → publish_tx now i d ≡ ok (id, d')
    → (b : Bytes) × (prepare i ≡ ok b) × (d' ≡ append_event (new_event now d.next_id i b) d)
unfolding publish_tx
publish-inv now id i d d' h = go (prepare i) refl
  where
    go :
        (r : Reply Bytes)
        → prepare i ≡ r
        → (b : Bytes) × (prepare i ≡ ok b) × (d' ≡ append_event (new_event now d.next_id i b) d)
    go (ok b) q = (b, q, ground arith)
    go (refused x) q = absurd (ground arith)

prepare-source : (i : Input) (b : Bytes) → prepare i ≡ ok b → validate_source i.source i.type ≡ none
unfolding prepare
prepare-source i b h = ground arith

not_core :
    (plugin event_type : Bytes)
    → split plugin ≡ plugin ∷ []
    → validate_source plugin event_type ≡ none
    → bytes_eq plugin (codes "core") ≡ false
unfolding validate_source namespace_of
not_core plugin event_type q h = ground arith

-- What a plugin publishes through its scoped bus, if the log accepts it, becomes the last event of the
-- log under the next id; it bears the plugin as its source and as the first segment of its type, and
-- the plugin's id is not "core". The plugin's id is a valid segment.
pub scoped_publish_isolated :
    (now : ℕ) (plugin event_type subject : Bytes) (p : Payload) (id : ℕ) (d d' : Db)
    → valid_segment plugin ≡ true
    → publish_tx now (scoped_input plugin event_type subject p) d ≡ ok (id, d')
    → (e : Event) × (d'.events ≡ d.events ++ e ∷ [])
      × (e.id ≡ d.next_id)
      × (e.source ≡ plugin)
      × (first_segment (split e.type) ≡ plugin)
      × (bytes_eq plugin (codes "core") ≡ false)
unfolding scoped_input
scoped_publish_isolated now plugin event_type subject p id d d' v h =
    let i = scoped_input plugin event_type subject p in
    let chars = valid-all_segment_chars plugin v in
    let (b, r, q) = publish-inv now id i d d' h in
    (
      new_event now d.next_id i b,
      ground arith,
      refl,
      refl,
      ap first_segment (split-segment plugin event_type chars),
      not_core plugin (plugin ++ dot ∷ event_type) (split-single plugin chars)
          (prepare-source i b r),
    )
