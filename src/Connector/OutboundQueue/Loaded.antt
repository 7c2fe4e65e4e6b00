-- ===== src/Connector/OutboundQueue/Loaded.antt =====
-- What a loading of the file adds to the queue.
use clawdentity.Shared.{
  ◌≤◌, ◌≡◌, refl, String, Bool, true, false, ◌||◌, Option, none, some, List, [], ◌∷◌, ◌++◌, All,
  map, any, arith, eq_refl, if◌then◌else◌, Bool-cases, inl, inr, length,
}
use clawdentity.Connector.OutboundQueue.{
  EnqueueFrame, OutboundQueueManager, record_depth, put_front, has_id, new_frames, finish_load,
  ensure_loaded,
}

-- The ids of the frames are new, and no two of them are the same.
abbrev pub IsFresh : List String → List EnqueueFrame → Type 0
IsFresh ids [] = Unit
IsFresh ids (f ∷ fs) = (has_id ids f.id ≡ false) × IsFresh (f.id ∷ ids) fs

-- A frame of the file has its id among these or among the frames; what is no frame is skipped.
abbrev pub Stands : List String → List EnqueueFrame → Option EnqueueFrame → Type 0
Stands ids fs none = Unit
Stands ids fs (some f) = (has_id ids f.id || has_id (map (λ g. g.id) fs) f.id) ≡ true

-- The frames are some of the file's, each with its content, in their order.
pub data FromFile : List EnqueueFrame → List (Option EnqueueFrame) → Type 0 where
  none_left : FromFile [] []
  passed :
      {fs : List EnqueueFrame} {c : Option EnqueueFrame} {cs : List (Option EnqueueFrame)}
      → FromFile fs cs
      → FromFile fs (c ∷ cs)
  taken :
      {f : EnqueueFrame} {fs : List EnqueueFrame} {cs : List (Option EnqueueFrame)}
      → FromFile fs cs
      → FromFile (f ∷ fs) (some f ∷ cs)

pub new_frames-FromFile :
    (ids : List String) (candidates : List (Option EnqueueFrame))
    → FromFile (new_frames ids candidates) candidates
unfolding new_frames
new_frames-FromFile ids [] = FromFile.none_left
new_frames-FromFile ids (none ∷ candidates) = FromFile.passed (new_frames-FromFile ids candidates)
new_frames-FromFile ids (some f ∷ candidates) = elim (Bool-cases (has_id ids f.id)) [
  | inl known ↦ rw known (FromFile.passed (new_frames-FromFile ids candidates))
  | inr new ↦ rw new (FromFile.taken (new_frames-FromFile (f.id ∷ ids) candidates))
]

pub new_frames-IsFresh :
    (ids : List String) (candidates : List (Option EnqueueFrame))
    → IsFresh ids (new_frames ids candidates)
unfolding new_frames
new_frames-IsFresh ids [] = tt
new_frames-IsFresh ids (none ∷ candidates) = new_frames-IsFresh ids candidates
new_frames-IsFresh ids (some f ∷ candidates) = elim (Bool-cases (has_id ids f.id)) [
  | inl known ↦ rw known (new_frames-IsFresh ids candidates)
  | inr new ↦ rw new (new, new_frames-IsFresh (f.id ∷ ids) candidates)
]

-- An id that has come to the known ones stands among the frames in front of which it is put.
move-Stands :
    (id : String) (ids : List String) (f : EnqueueFrame) (fs : List EnqueueFrame)
    (candidates : List (Option EnqueueFrame))
    → f.id ≡ id
    → All (Stands (id ∷ ids) fs) candidates
    → All (Stands ids (f ∷ fs)) candidates
unfolding has_id any
move-Stands id ids f fs [] e h = tt
move-Stands id ids f fs (none ∷ candidates) e (c, h) = (tt, move-Stands id ids f fs candidates e h)
move-Stands id ids f fs (some g ∷ candidates) e (c, h) =
    (rw e (ground (arith, c)), move-Stands id ids f fs candidates e h)

first :
    (f : EnqueueFrame) (ids : List String) (fs : List EnqueueFrame) → Stands ids (f ∷ fs) (some f)
unfolding has_id any
first f ids fs = ground (arith, eq_refl f.id)

known-Stands :
    (f : EnqueueFrame) (ids : List String) (fs : List EnqueueFrame)
    → has_id ids f.id ≡ true
    → Stands ids fs (some f)
known-Stands f ids fs known = rw known refl

pub new_frames-Stands :
    (ids : List String) (candidates : List (Option EnqueueFrame))
    → All (Stands ids (new_frames ids candidates)) candidates
unfolding new_frames
new_frames-Stands ids [] = tt
new_frames-Stands ids (none ∷ candidates) = (tt, new_frames-Stands ids candidates)
new_frames-Stands ids (some f ∷ candidates) =
    by_flag (has_id ids f.id) refl (new_frames-Stands ids candidates)
      (new_frames-Stands (f.id ∷ ids) candidates)
  where
    without : List EnqueueFrame
    without = new_frames ids candidates

    with_it : List EnqueueFrame
    with_it = new_frames (f.id ∷ ids) candidates

    by_flag :
        (b : Bool)
        → has_id ids f.id ≡ b
        → All (Stands ids without) candidates
        → All (Stands (f.id ∷ ids) with_it) candidates
        → All (Stands ids (if b then without else f ∷ with_it)) (some f ∷ candidates)
    by_flag true known h k = (known-Stands f ids without known, h)
    by_flag false new h k = (first f ids with_it, move-Stands f.id ids f with_it candidates refl k)

put_front-queue :
    (fs : List EnqueueFrame) (m : OutboundQueueManager) → (put_front fs m).queue ≡ fs ++ m.queue
unfolding put_front record_depth
put_front-queue [] m = refl
put_front-queue (f ∷ fs) m = refl

put_front-depth :
    (fs : List EnqueueFrame) (m : OutboundQueueManager)
    → length m.queue ≤ m.max_observed_depth
    → length (put_front fs m).queue ≤ (put_front fs m).max_observed_depth
unfolding put_front record_depth
put_front-depth [] m h = h
put_front-depth (f ∷ fs) m h = omega arith

ensure_loaded-finish_load :
    (found : Option (List (Option EnqueueFrame))) (m : OutboundQueueManager)
    → m.loaded ≡ false
    → m.persistent ≡ true
    → ensure_loaded found m ≡ finish_load found m
unfolding ensure_loaded
ensure_loaded-finish_load found m unloaded p = simp (unloaded, p) refl

-- The first loading puts frames of the file, each with its content and in the order of the file, in
-- front of the queue and loses none of it. Their ids are different from each other and from those in
-- the queue, after it each valid frame of the file has a frame with its id in the queue, and the
-- greatest depth, if it covers the length before, covers the new one.
pub load-frames :
    (candidates : List (Option EnqueueFrame)) (m : OutboundQueueManager)
    → m.loaded ≡ false
    → m.persistent ≡ true
    → length m.queue ≤ m.max_observed_depth
    → let ids = map (λ f. f.id) m.queue in
      let m' = ensure_loaded (some candidates) m in
      (fresh : List EnqueueFrame) × ((m'.queue ≡ fresh ++ m.queue)
        × (FromFile fresh candidates
            × (IsFresh ids fresh
                × (All (Stands ids fresh) candidates × (length m'.queue ≤ m'.max_observed_depth)))))
unfolding finish_load
load-frames candidates m unloaded p depth =
    let ids = map (λ f. f.id) m.queue in
    let fresh = new_frames ids candidates in
    rw (ensure_loaded-finish_load (some candidates) m unloaded p) (
      fresh,
      (
        put_front-queue fresh m,
        (
          new_frames-FromFile ids candidates,
          (
            new_frames-IsFresh ids candidates,
            (new_frames-Stands ids candidates, put_front-depth fresh m depth),
          ),
        ),
      ),
    )
