-- ===== src/Connector/OutboundQueue/Settled.antt =====
-- The file after the writes.
use clawdentity.Shared.{
  ◌+◌, ◌-◌, ◌<◌, ◌≡◌, refl, sym, ◌∙◌, Bool, true, false, ◌&&◌, ltb, Option, none, some, List, [],
  ◌∷◌, ◌++◌, All, map, arith, length, if◌then◌else◌, Bool-cases, inl, inr,
}
use clawdentity.Connector.OutboundQueue.{
  EnqueueFrame, OutboundQueueManager, Line, record_depth, persist, enqueue, flush_from, flush,
  ensure_loaded, finish_load, save, new_frames, put_front,
}
use clawdentity.Connector.OutboundQueue.Order.{
  Event, enqueues, flushes, loads, saves, step, run, flush_from-append,
}

-- There is a file, and if no write is waiting then the file is loaded and holds the queue.
pub record IsSettled (m : OutboundQueueManager) : Type 0 where
  pub persistent : m.persistent ≡ true
  pub loaded_or_waiting : m.loaded ≡ false → 0 < m.saves
  pub written : m.saves ≡ 0 → m.disk ≡ m.queue

-- No write of the file fails.
abbrev pub Succeeds : Event → Type 0
Succeeds (saves succeeds) = succeeds ≡ true
Succeeds _ = Unit

waiting-IsSettled : (m : OutboundQueueManager) → m.persistent ≡ true → 0 < m.saves → IsSettled m
waiting-IsSettled m p h = record {
  persistent = p;
  loaded_or_waiting = λ e. h;
  written = λ e. ground (arith, h, e);
}

enqueue-IsSettled :
    (frame : EnqueueFrame) (m : OutboundQueueManager)
    → m.persistent ≡ true
    → IsSettled (enqueue frame m)
unfolding enqueue persist record_depth
enqueue-IsSettled frame m p = rw p (waiting-IsSettled _ refl (omega arith))

all_kept :
    (sent rest frames : List EnqueueFrame) → sent ++ rest ≡ frames → length sent ≡ 0 → rest ≡ frames
all_kept [] rest frames e none_sent = e
all_kept (f ∷ sent) rest frames e none_sent = ground (arith, none_sent)

flushed-IsSettled :
    (line : Line) (m : OutboundQueueManager)
    → IsSettled m
    → IsSettled (record m {
      queue = (flush_from line 1 m.queue).1;
      saves = m.saves + length (flush_from line 1 m.queue).0;
    })
flushed-IsSettled line m h =
    let sent = (flush_from line 1 m.queue).0 in
    record {
      persistent = h.persistent;
      loaded_or_waiting = λ e. omega (arith, h.loaded_or_waiting e);
      written = λ e.
          h.written (omega (arith, e))
          ∙ sym (
              all_kept sent (flush_from line 1 m.queue).1 m.queue (flush_from-append line 1 m.queue)
                (omega (arith, e)));
    }

flush_persist :
    (line : Line) (m : OutboundQueueManager)
    → IsSettled m
    → IsSettled (
        persist
          (length (flush_from line 1 m.queue).0)
          (record m { queue = (flush_from line 1 m.queue).1 }))
unfolding persist
flush_persist line m h = by_flag m.persistent h.persistent
  where
    rest : OutboundQueueManager
    rest = record m { queue = (flush_from line 1 m.queue).1 }

    by_flag :
        (b : Bool)
        → b ≡ true
        → IsSettled (
            if b
            then record rest { saves = m.saves + length (flush_from line 1 m.queue).0 }
            else rest)
    by_flag true e = flushed-IsSettled line m h
    by_flag false e = cc

-- A loading leaves no write to be forgotten: one waits.
loaded-IsSettled :
    (found : Option (List (Option EnqueueFrame))) (m : OutboundQueueManager)
    → m.loaded ≡ false
    → IsSettled m
    → IsSettled (finish_load found m)
unfolding finish_load put_front record_depth
loaded-IsSettled none m first h = waiting-IsSettled _ h.persistent (h.loaded_or_waiting first)
loaded-IsSettled (some found) m first h = by_frames (new_frames (map (λ f. f.id) m.queue) found)
  where
    by_frames : (fs : List EnqueueFrame) → IsSettled (record (put_front fs m) { loaded = true })
    by_frames [] = waiting-IsSettled _ h.persistent (h.loaded_or_waiting first)
    by_frames (f ∷ fs) = waiting-IsSettled _ h.persistent (h.loaded_or_waiting first)

load-IsSettled :
    (found : Option (List (Option EnqueueFrame))) (m : OutboundQueueManager)
    → IsSettled m
    → IsSettled (ensure_loaded found m)
unfolding ensure_loaded
load-IsSettled found m h = by_flag m.loaded refl
  where
    by_flag :
        (b : Bool)
        → m.loaded ≡ b
        → IsSettled (
            if b
            then m
            else if m.persistent
            then finish_load found m
            else record m { loaded = true })
    by_flag true e = h
    by_flag false e = by_file m.persistent h.persistent
      where
        by_file :
            (b : Bool)
            → b ≡ true
            → IsSettled (if b then finish_load found m else record m { loaded = true })
        by_file true p = loaded-IsSettled found m e h
        by_file false p = cc

save-IsSettled : (m : OutboundQueueManager) → IsSettled m → IsSettled (save true m)
unfolding save
save-IsSettled m h = by_flag (m.loaded && ltb 0 m.saves) refl
  where
    by_flag :
        (b : Bool)
        → (m.loaded && ltb 0 m.saves) ≡ b
        → IsSettled (if b then record m { saves = m.saves - 1; disk = m.queue } else m)
    by_flag true e = record {
      persistent = h.persistent;
      loaded_or_waiting = λ first. ground (arith, e, first);
      written = λ done. refl;
    }
    by_flag false e = h

step-IsSettled :
    (e : Event) (m : OutboundQueueManager) → Succeeds e → IsSettled m → IsSettled (step e m).0
unfolding step flush
step-IsSettled (enqueues frame) m ok h = enqueue-IsSettled frame m h.persistent
step-IsSettled (flushes line) m ok h = elim (Bool-cases (line.connected 0)) [
  | inl up ↦ rw up (flush_persist line m h)
  | inr down ↦ rw down h
]
step-IsSettled (loads found) m ok h = load-IsSettled found m h
step-IsSettled (saves succeeds) m ok h = rw ok (save-IsSettled m h)

run-IsSettled :
    (es : List Event) (m : OutboundQueueManager)
    → All Succeeds es
    → IsSettled m
    → IsSettled (run es m).0
unfolding run
run-IsSettled [] m ok h = h
run-IsSettled (e ∷ es) m (ok, oks) h = run-IsSettled es (step e m).0 oks (step-IsSettled e m ok h)

-- With persistence, once a frame was enqueued, whatever events follow of which no write fails: when
-- no write is left to do, the file holds exactly the frames that are still to be sent.
pub settled_file :
    (frame : EnqueueFrame) (es : List Event) (m : OutboundQueueManager)
    → m.persistent ≡ true
    → All Succeeds es
    → (run es (enqueue frame m)).0.saves ≡ 0
    → (run es (enqueue frame m)).0.disk ≡ (run es (enqueue frame m)).0.queue
settled_file frame es m p ok done =
    (run-IsSettled es (enqueue frame m) ok (enqueue-IsSettled frame m p)).written done
