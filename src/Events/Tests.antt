-- ===== src/Events/Tests.antt =====
-- Runs of the models of the patterns, the log and the durable subscriptions at concrete inputs.
use control_center.Common.{
  ℕ, ◌≤◌, ◌≡◌, refl, ◌↔◌, ◌⊎◌, inl, Bool, true, false, ◌&&◌, some, List, [], ◌∷◌, ◌++◌, arith,
  Bytes, codes, bytes_eq, bytes_key, take, filter, Has, lookup, update,
}
use control_center.Stamp.{add_duration, stamp_lt}
use control_center.Events.Pattern.{
  split, compile_pattern, matches, match_segments, sql_prefix, double_star, pattern_segments_ok,
  is_wildcard, valid_segment, all_segment_chars, segment_char, first_segment, all_valid,
  validate_type, validate_source, namespace_of, dot,
}
use control_center.Events.Matching.{Matches, match_iff}
use control_center.Events.Log.{
  Event, Cursor, Db, Payload, Input, prepare, payload_text, bounded, publish_tx, scoped_input,
  new_event, append_event, is_above, in_window, query_compiled,
}
use control_center.Events.Live.{LiveSub, fan_all, drain_once}
use control_center.Events.Draining.{drain_once-reference}
use control_center.Events.Durable.{
  Sub, new_cursor, default_retry, retry_delay, acquire_lease, leased, poll, record_failure,
  poisoned, retried, moved, failed_with, reset_cursor, reset_position, after_event, valid_retry,
}
use control_center.Events.Cleanup.{minus_one, run_retention}
use control_center.Events.World.{World, Op, poll_op, publish_op, finish_op, retention_op, run}
use control_center.Events.Owed.{Owed, Done}
use control_center.Events.Delivery.{run_delivers}
use control_center.Events.Querying.{query-reference}
use control_center.Events.Retained.{from_position, retention_boundary, negative_cursor_unpinned}
use control_center.Events.Progress.{Moves, poll_progress}
use control_center.Events.Publishing.{scoped_publish_isolated}

abbrev job_events : List Bytes
job_events = codes "core" ∷ codes "job" ∷ double_star ∷ []

abbrev job_dead : Bytes
job_dead = codes "core.job.dead"

match_iff_example :
    (match_segments job_events (codes "core" ∷ codes "job" ∷ codes "dead" ∷ []) ≡ true)
    ↔ Matches job_events (codes "core" ∷ codes "job" ∷ codes "dead" ∷ [])
match_iff_example = match_iff job_events (codes "core" ∷ codes "job" ∷ codes "dead" ∷ [])

abbrev sub_name : Bytes
sub_name = codes "jobs.watch"

abbrev watch_jobs : Sub
watch_jobs = record { name = sub_name; segs = job_events; retry = default_retry }

abbrev dead_event : Event
dead_event = record {
  id = 1;
  type = job_dead;
  source = codes "core.jobs";
  subject = codes "7";
  payload = codes "{}";
  created_at = 10;
}

-- One active cursor before the only event of the log.
abbrev watch_cursor : Cursor
watch_cursor = new_cursor (codes "core.job.**") 0

abbrev log_db : Db
log_db = record {
  events = dead_event ∷ [];
  next_id = 2;
  cursors = (sub_name, watch_cursor) ∷ [];
  oldest_retained = 0;
}

abbrev log_world : World
log_world = record {
  db = log_db;
  subs = watch_jobs ∷ [];
  pending = [];
  delivered = [];
  skipped = [];
}

log_world-Owed : Owed sub_name dead_event log_world
unfolding compile_pattern bytes_eq pattern_segments_ok split is_wildcard valid_segment
    all_segment_chars segment_char matches match_segments lookup
log_world-Owed = record {
  tables = record {
    ordered = (omega arith, omega arith);
    small = omega arith;
    there = inl refl;
    rows = ((omega arith, omega arith, λ q. omega arith, λ q. omega arith, λ q. refl), tt);
    known = refl;
  };
  works = tt;
  subs = ((λ q. refl), tt);
}

-- A poll, a publication meanwhile, a failed attempt, a retention pass.
abbrev log_history : List (ℕ × Op)
log_history =
    (20, poll_op (codes "p1") 30 0)
    ∷ (21, publish_op (scoped_input (codes "tid") (codes "tick") [] Payload.absent))
    ∷ (22, finish_op 0 [] (failed_with (codes "no")))
    ∷ (90, retention_op 50)
    ∷ []

run_delivers_example :
    Owed sub_name dead_event (run log_history log_world)
    ⊎ Done sub_name dead_event (run log_history log_world)
run_delivers_example =
    run_delivers sub_name dead_event log_history log_world (refl, (refl, (refl, (refl, tt))))
      log_world-Owed

-- A LIKE whose patterns all end in ".%", as the code's do.
abbrev like_all : Bytes → Bytes → Bool
like_all text pattern = true

query-reference_example :
    query_compiled like_all job_events 0 5 log_db
    ≡ take 5 (filter (λ e. is_above 0 e && matches job_events e.type) log_db.events)
unfolding compile_pattern bytes_eq pattern_segments_ok split is_wildcard valid_segment
    all_segment_chars segment_char filter in_window sql_prefix
    control_center.Events.Pattern.prefix_from
query-reference_example =
    query-reference like_all (λ b r. refl) (codes "core.job.**") job_events 0 5 log_db refl
      (omega arith)

retention_boundary_example :
    let d' = (run_retention 50 log_db).1 in
    (log_db.oldest_retained ≤ d'.oldest_retained)
    × (from_position d'.oldest_retained d'.events ≡ from_position d'.oldest_retained log_db.events)
retention_boundary_example = retention_boundary 50 log_db

abbrev negative_db : Db
negative_db = record log_db { cursors = (sub_name, moved minus_one watch_cursor) ∷ [] }

negative_cursor_unpinned_example :
    (is_above minus_one dead_event ≡ true)
    × ¬ Has dead_event (run_retention 50 negative_db).1.events
unfolding reset_cursor lookup bytes_eq reset_position update stamp_lt control_center.Stamp.stamp_le
    control_center.Stamp.text_le control_center.Stamp.fraction_text control_center.Stamp.trim_zeros
    control_center.Stamp.digits control_center.Stamp.trim_one
negative_cursor_unpinned_example =
    negative_cursor_unpinned 50 minus_one sub_name watch_cursor dead_event log_db negative_db refl
      refl (omega arith) refl (omega arith) refl

abbrev leased_db : Db
leased_db = record log_db { cursors = (sub_name, leased 20 (codes "p1") 30 watch_cursor) ∷ [] }

poll_progress_example : Moves 0 (poll 20 (codes "p1") 30 watch_jobs log_db).0
unfolding lookup bytes_eq control_center.Events.Durable.may_lease
poll_progress_example =
    poll_progress 20 (codes "p1") 30 watch_jobs dead_event watch_cursor log_db
      (omega arith, omega arith) (omega arith) refl refl refl refl (omega arith) (inl refl) refl

abbrev failed_db : Db
failed_db = record log_db {
  cursors = (sub_name, retried 1 1000000020 (codes "no") watch_cursor) ∷ [];
}

abbrev tick_input : Input
tick_input = scoped_input (codes "tid") (codes "tick") [] Payload.absent

abbrev ticked_db : Db
ticked_db = append_event (new_event 30 2 tick_input (codes "null")) log_db

scoped_publish_isolated_example :
    (e : Event) × (ticked_db.events ≡ log_db.events ++ e ∷ [])
    × (e.id ≡ log_db.next_id)
    × (e.source ≡ codes "tid")
    × (first_segment (split e.type) ≡ codes "tid")
    × (bytes_eq (codes "tid") (codes "core") ≡ false)
unfolding valid_segment all_segment_chars segment_char publish_tx prepare validate_type split
    scoped_input all_valid validate_source bytes_eq namespace_of payload_text bounded
scoped_publish_isolated_example =
    scoped_publish_isolated 30 (codes "tid") (codes "tick") [] Payload.absent 2 log_db ticked_db
      refl refl

-- A queue that is full.
abbrev full_sub : LiveSub
full_sub = record { segs = job_events; capacity = 0; queue = []; dropped = 4 }

drain_once-reference_example :
    (to : ℕ) × (drain_once 2 0 (full_sub ∷ []) log_db
      ≡ some (fan_all (filter (is_above 0) log_db.events) (full_sub ∷ []), to))
    × (filter (is_above to) log_db.events ≡ [])
unfolding filter
drain_once-reference_example =
    drain_once-reference 2 0 (full_sub ∷ []) log_db (omega arith, omega arith) (omega arith)
      (omega arith) (omega arith)
