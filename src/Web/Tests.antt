-- ===== src/Web/Tests.antt =====
-- Runs of the model of internal/core/web at concrete inputs.
use control_center.Common.{
  ℕ, ◌≡◌, ◌+◌, ◌-◌, refl, true, false, none, some, List, [], ◌∷◌, arith, ltb, codes, bytes_eq,
  filter, strip_prefix,
}
use control_center.Events.Log.{Event, Db, is_above, query, query_compiled, in_window}
use control_center.Events.Pattern.{
  compile_pattern, pattern_segments_ok, split, is_wildcard, sql_prefix, prefix_from, matches,
  match_segments,
}
use control_center.Web.Stream.{
  Library, Chunk, reset_chunk, event_chunk, heartbeat_chunk, woken, heartbeat, Round, sse_message,
  render, to_wire, resume_point, needs_reset, start_after, send_batch, next_step, read_batch,
  stream_loop, handle_stream,
}
use control_center.Web.Batches.{delivered}
use control_center.Web.Replay.{IsReplay, StartsReset, handle_stream-IsReplay}
use control_center.Web.Delivery.{stream_loop-delivers}

-- Ids below ten, and an event's JSON is its type.
abbrev digit_library : Library
digit_library = record {
  format_id = λ n. (48 + n) ∷ [];
  parse_int = λ s. elim s [ [] ↦ none | ◌∷◌ c t ↦ some (c - 48) ];
  marshal = λ w. some w.type;
  like = λ s p. elim (strip_prefix p s) [ none ↦ false | some t ↦ true ];
}

abbrev event : ℕ → Event
event n = record {
  id = n;
  type = codes "core.job.done";
  source = codes "core";
  subject = [];
  payload = codes "{}";
  created_at = n;
}

abbrev log_of : List Event → Db
log_of es = record { events = es; next_id = 9; cursors = []; oldest_retained = 4 }

abbrev late_events : List Event
late_events = event 4 ∷ event 5 ∷ event 7 ∷ []

-- The log grows by event 7 between the rounds.
abbrev rounds : List Round
rounds =
    record {
      read_fails = false;
      log = log_of (event 4 ∷ event 5 ∷ []);
      takes = λ c. true;
      wake = heartbeat true;
    }
    ∷ record { read_fails = false; log = log_of late_events; takes = λ c. true; wake = woken }
    ∷ []

abbrev written : List Chunk
written =
    reset_chunk 4
    ∷ event_chunk (event 4) (codes "core.job.done")
    ∷ event_chunk (event 5) (codes "core.job.done")
    ∷ heartbeat_chunk
    ∷ event_chunk (event 7) (codes "core.job.done")
    ∷ []

stream_runs : handle_stream digit_library (codes "1") [] 4 true rounds ≡ some written
unfolding handle_stream resume_point bytes_eq needs_reset stream_loop read_batch query
    compile_pattern pattern_segments_ok split is_wildcard send_batch query_compiled filter in_window
    start_after sql_prefix control_center.Events.Pattern.all_segment_chars
    control_center.Events.Pattern.any_suffix match_segments matches prefix_from
    control_center.Events.Pattern.segment_char control_center.Events.Pattern.valid_segment next_step
    to_wire
stream_runs = refl

frame_text :
    render digit_library (event_chunk (event 4) (codes "{}"))
    ≡ codes "id: 4\nevent: event\ndata: {}\n\n"
unfolding render sse_message bytes_eq
frame_text = refl

handle_stream-IsReplay_example :
    IsReplay late_events 3 written × ((ltb 2 4 ≡ true) → StartsReset 4 written)
unfolding resume_point bytes_eq
handle_stream-IsReplay_example =
    handle_stream-IsReplay digit_library (codes "1") [] 1 4 true rounds late_events written
      (omega arith, (omega arith, (omega arith, omega arith)))
      ((event 7 ∷ [], refl), (([], refl), tt)) refl (omega arith) (omega arith) stream_runs

abbrev calm_round : Round
calm_round = record {
  read_fails = false;
  log = log_of late_events;
  takes = λ c. true;
  wake = woken;
}

stream_loop-delivers_example :
    delivered (stream_loop digit_library (calm_round ∷ []) 4) ≡ filter (is_above 4) late_events
unfolding filter
stream_loop-delivers_example =
    stream_loop-delivers digit_library late_events (calm_round ∷ []) 4 (λ w. (w.type, refl))
      (omega arith, (omega arith, (omega arith, omega arith))) (omega arith)
      ((refl, refl, refl, λ c. refl), tt) (omega arith)
