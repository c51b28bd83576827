-- ===== src/Ai/Served.antt =====
-- Requests of internal/core/ai/dispatch.go, from their gate to their end.
use control_center.Common.{All, ℕ, ◌≡◌, refl, false, some, List, arith, Bytes}
use control_center.Policy.Types.{Db, all_windows}
use control_center.Policy.Commit.{Distinct, Fits}
use control_center.Ai.Accounts.{call_reservation}
use control_center.Ai.Route.{Route, estimate_chat, out_limit}
use control_center.Ai.Estimate.{FitsLimits, InputFits}
use control_center.Ai.Records.{World, Answer}
use control_center.Ai.Calls.{Ticket}
use control_center.Ai.Bounded.{Honest, Unwritten}
use control_center.Ai.Finished.{Finishes, chat_within_estimate}
use control_center.Ai.Requests.{
  Gate, passed, stopped_at, ChatRequest, find_route, chat_allowed, chat_gate, RequestEnd,
  turned_away, ended, wrong_count, send_passed, run_chat,
}

-- What passing the gate means.
abbrev GateHolds : List Route → ChatRequest → Gate → Type 0
GateHolds routes req (stopped_at e) = Unit
GateHolds routes req (passed r maximum) =
    (find_route req.model routes ≡ some r) × (estimate_chat r req.max_tokens ≡ some maximum)

chat_gate-Holds :
    (routes : List Route) (req : ChatRequest) → GateHolds routes req (chat_gate routes req)
unfolding chat_gate chat_allowed
chat_gate-Holds routes req = ground arith

-- The committed sums of the plugin's current periods still fit in int64 with the request's estimate.
abbrev pub HasRoom : List Route → ChatRequest → Ticket → Db → Type 0
HasRoom routes req t d =
    (r : Route) (maximum : ℕ)
    → find_route req.model routes ≡ some r
    → estimate_chat r req.max_tokens ≡ some maximum
    → All (Fits (call_reservation t maximum) maximum d) all_windows

-- What is asked of the route that serves a request: no input price wraps, and its providers report
-- tokens within its limits.
abbrev pub ServesWell : List Route → ChatRequest → (ℕ → Answer) → Type 0
ServesWell routes req answers =
    (r : Route)
    → find_route req.model routes ≡ some r
    → InputFits r.max_input_tokens r.attempts
      × Honest (FitsLimits r.max_input_tokens (out_limit r req.max_tokens)) answers 1 r.attempts

-- A chat that was turned away changed nothing, and one that was sent has come to an end.
abbrev pub ChatFinishes : List Route → ChatRequest → Ticket → World → RequestEnd × World → Type 0
ChatFinishes routes req t w (turned_away e, w') = w' ≡ w
ChatFinishes routes req t w (wrong_count, w') = ⊥
ChatFinishes routes req t w (ended end, w') =
    (r : Route) × (maximum : ℕ) × (find_route req.model routes ≡ some r)
    × (estimate_chat r req.max_tokens ≡ some maximum)
    × Finishes t maximum w (end, w')

-- A chat comes to an end within the bound of its route: if reservation ids are distinct, the
-- committed sum of each current period of the plugin fits in int64 with the estimate, the database
-- takes every other write, the call id is new, and for the route that the request names no input
-- price wraps and each result either costs nothing or is charged for tokens within the limits of
-- the route and the request, then the request is turned away without a change, or the call is
-- refused, or it is answered or fails and has been paid for. Then an answer reports a cost of at
-- most the estimate, the reservation is gone, the reserved sums are what they were, the committed
-- sums of the periods that the reservation pinned rise by one charge of at most the estimate, for
-- an answer and for a failure alike, and the call disables no plugin, publishes no budget or
-- accounting event and notifies no watcher.
pub run_chat-ChatFinishes :
    (truncate : Bytes → Bytes) (adapters : List Bytes) (t : Ticket) (answers : ℕ → Answer)
    (routes : List Route) (req : ChatRequest) (w : World)
    → Distinct w.money.reservations
    → t.publish_fails ≡ false
    → Unwritten t.call_id 1 w
    → ServesWell routes req answers
    → HasRoom routes req t w.money
    → ChatFinishes routes req t w (run_chat truncate adapters t answers routes req w)
unfolding run_chat send_passed
run_chat-ChatFinishes truncate adapters t answers routes req w v p u well room =
    go (chat_gate routes req) (chat_gate-Holds routes req)
  where
    go :
        (g : Gate)
        → GateHolds routes req g
        → ChatFinishes routes req t w (send_passed truncate adapters t answers g w)
    go (stopped_at e) h = refl
    go (passed r maximum) (found, est) =
        let (fits, honest) = well r found in
        (
          r,
          maximum,
          found,
          est,
          chat_within_estimate t r req.max_tokens maximum w truncate adapters answers v est fits
              (room r maximum found est) p honest u,
        )
