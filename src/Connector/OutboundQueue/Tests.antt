-- ===== src/Connector/OutboundQueue/Tests.antt =====
-- Runs of the outbound queue.
use clawdentity.Shared.{
  arith, ltb, ◌≡◌, ◌≤◌, refl, String, Bool, true, false, none, some, List, [], ◌∷◌, ◌++◌, All,
  length,
}
use clawdentity.Connector.OutboundQueue.{
  EnqueueFrame, OutboundQueueManager, Line, enqueue, ensure_loaded, record_depth, persist, save,
}
use clawdentity.Connector.OutboundQueue.Order.{
  Event, enqueues, flushes, saves, step, run, run-append,
}
use clawdentity.Connector.OutboundQueue.Settled.{settled_file}
use clawdentity.Connector.OutboundQueue.Loaded.{FromFile, IsFresh, Stands, load-frames}

abbrev frame : String → EnqueueFrame
frame id = record { id = id; body = "" }

-- The line takes one frame and then breaks.
abbrev one_round : Line
one_round = record { connected = λ i. ltb i 2; sends = λ i f. true }

abbrev fresh_manager : Bool → OutboundQueueManager
fresh_manager loaded = record {
  persistent = true;
  queue = frame "q" ∷ [];
  max_observed_depth = 1;
  loaded = loaded;
  saves = 0;
  disk = [];
}

abbrev events : List Event
events = enqueues (frame "a") ∷ flushes one_round ∷ enqueues (frame "b") ∷ saves true ∷ []

run-append_example :
    (run events (fresh_manager true)).1 ++ (run events (fresh_manager true)).0.queue
    ≡ frame "q" ∷ frame "a" ∷ frame "b" ∷ []
run-append_example = run-append events (fresh_manager true) refl

settled_file_example :
    (run (saves true ∷ []) (enqueue (frame "a") (fresh_manager true))).0.disk
    ≡ (run (saves true ∷ []) (enqueue (frame "a") (fresh_manager true))).0.queue
unfolding run step save enqueue persist record_depth
settled_file_example =
    settled_file (frame "a") (saves true ∷ []) (fresh_manager true) refl (refl, tt) refl

load-frames_example :
    (fresh : List EnqueueFrame) × (((ensure_loaded
          (some (some (frame "x") ∷ none ∷ []))
          (fresh_manager false)).queue
        ≡ fresh ++ (frame "q" ∷ []))
      × (FromFile fresh (some (frame "x") ∷ none ∷ [])
          × (IsFresh ("q" ∷ []) fresh
              × (All (Stands ("q" ∷ []) fresh) (some (frame "x") ∷ none ∷ [])
                  × (length
                        (ensure_loaded
                          (some (some (frame "x") ∷ none ∷ []))
                          (fresh_manager false)).queue
                      ≤ (ensure_loaded
                          (some (some (frame "x") ∷ none ∷ []))
                          (fresh_manager false)).max_observed_depth)))))
load-frames_example =
    load-frames (some (frame "x") ∷ none ∷ []) (fresh_manager false) refl refl (omega arith)
