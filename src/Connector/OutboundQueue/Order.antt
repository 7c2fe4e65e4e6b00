-- ===== src/Connector/OutboundQueue/Order.antt =====
-- Frames are sent once each, in the order in which they were enqueued.
use mathlib.Core.List.{append-nil, append_assoc}
use clawdentity.Shared.{
  ℕ, ◌+◌, ◌≡◌, refl, ap, sym, ◌∙◌, Bool, true, ◌&&◌, Option, List, [], ◌∷◌, ◌++◌, arith, length,
  Bool-cases, inl, inr,
}
use clawdentity.Connector.OutboundQueue.{
  EnqueueFrame, OutboundQueueManager, Line, record_depth, persist, enqueue, flush_from, flush,
  ensure_loaded, save,
}

pub data Event : Type 0 where
  enqueues : EnqueueFrame → Event
  flushes : Line → Event
  loads : Option (List (Option EnqueueFrame)) → Event
  saves : Bool → Event

unfoldable pub step : Event → OutboundQueueManager → OutboundQueueManager × List EnqueueFrame
step (enqueues frame) m = (enqueue frame m, [])
step (flushes line) m = flush line m
step (loads found) m = (ensure_loaded found m, [])
step (saves succeeds) m = (save succeeds m, [])

-- The manager after the events, and the frames that were sent on the way.
unfoldable pub run : List Event → OutboundQueueManager → OutboundQueueManager × List EnqueueFrame
run [] m = (m, [])
run (e ∷ es) m = let (m', sent) = step e m in let (m'', later) = run es m' in (m'', sent ++ later)

-- The frames that the events enqueue.
abbrev pub enqueued : List Event → List EnqueueFrame
enqueued [] = []
enqueued (enqueues frame ∷ es) = frame ∷ enqueued es
enqueued (flushes line ∷ es) = enqueued es
enqueued (loads found ∷ es) = enqueued es
enqueued (saves succeeds ∷ es) = enqueued es

pub persist-queue : (n : ℕ) (m : OutboundQueueManager) → (persist n m).queue ≡ m.queue
unfolding persist
persist-queue n m = ground arith

persist-loaded : (n : ℕ) (m : OutboundQueueManager) → (persist n m).loaded ≡ m.loaded
unfolding persist
persist-loaded n m = ground arith

pub flush_from-append :
    (line : Line) (i : ℕ) (frames : List EnqueueFrame)
    → (flush_from line i frames).0 ++ (flush_from line i frames).1 ≡ frames
unfolding flush_from
flush_from-append line i [] = refl
flush_from-append line i (frame ∷ frames) =
    elim (Bool-cases (line.connected i && line.sends i frame)) [
      | inl go ↦ rw go (ap (λ fs. frame ∷ fs) (flush_from-append line (i + 1) frames))
      | inr stop ↦ rw stop refl
    ]

flush-append :
    (line : Line) (m : OutboundQueueManager) → (flush line m).1 ++ (flush line m).0.queue ≡ m.queue
unfolding flush
flush-append line m = elim (Bool-cases (line.connected 0)) [
  | inl up ↦ rw up (
      ap (λ q. (flush_from line 1 m.queue).0 ++ q)
        (persist-queue (length (flush_from line 1 m.queue).0)
          (record m { queue = (flush_from line 1 m.queue).1 }))
      ∙ flush_from-append line 1 m.queue)
  | inr down ↦ rw down refl
]

step-loaded : (e : Event) (m : OutboundQueueManager) → m.loaded ≡ true → (step e m).0.loaded ≡ true
unfolding step enqueue flush ensure_loaded save record_depth
step-loaded (enqueues frame) m h = persist-loaded 1 _ ∙ h
step-loaded (flushes line) m h = elim (Bool-cases (line.connected 0)) [
  | inl up ↦ rw up (
      persist-loaded (length (flush_from line 1 m.queue).0)
        (record m { queue = (flush_from line 1 m.queue).1 })
      ∙ h)
  | inr down ↦ rw down h
]
step-loaded (loads found) m h = rw h refl
step-loaded (saves succeeds) m h = ground (arith, h)

-- What one event sends and leaves is what was there, with the frame that it enqueues at the end.
step-append :
    (e : Event) (m : OutboundQueueManager)
    → m.loaded ≡ true
    → (step e m).1 ++ (step e m).0.queue ≡ m.queue ++ enqueued (e ∷ [])
unfolding step enqueue ensure_loaded save record_depth
step-append (enqueues frame) m h = persist-queue 1 _
step-append (flushes line) m h = flush-append line m ∙ sym (append-nil m.queue)
step-append (loads found) m h = rw h (sym (append-nil m.queue))
step-append (saves succeeds) m h = ground (arith, h) ∙ sym (append-nil m.queue)

enqueued-append :
    (e : Event) (es : List Event) → enqueued (e ∷ []) ++ enqueued es ≡ enqueued (e ∷ es)
enqueued-append (enqueues frame) es = refl
enqueued-append (flushes line) es = refl
enqueued-append (loads found) es = refl
enqueued-append (saves succeeds) es = refl

-- Once the file is loaded, the frames that any events send, followed by those still queued, are the
-- frames that were queued, followed by those that the events enqueue: each is sent at most once, in
-- order, and none is lost, whenever the line fails.
pub run-append :
    (es : List Event) (m : OutboundQueueManager)
    → m.loaded ≡ true
    → (run es m).1 ++ (run es m).0.queue ≡ m.queue ++ enqueued es
unfolding run
run-append [] m h = sym (append-nil m.queue)
run-append (e ∷ es) m h =
    let m' = (step e m).0 in
    append_assoc (step e m).1 (run es m').1 (run es m').0.queue
    ∙ ap (λ q. (step e m).1 ++ q) (run-append es m' (step-loaded e m h))
    ∙ sym (append_assoc (step e m).1 m'.queue (enqueued es))
    ∙ ap (λ q. q ++ enqueued es) (step-append e m h)
    ∙ append_assoc m.queue (enqueued (e ∷ [])) (enqueued es)
    ∙ ap (λ q. m.queue ++ q) (enqueued-append e es)
