-- ===== src/Connector/OutboundQueue.antt =====
-- packages/connector/src/client/queue.ts: the frames that the connector has still to send, and their
-- copy in a file. `saves` counts the writes that `saveChain` has still to do, and `disk` is what the
-- file holds; the loading of the file is one step.
pub mod Order
pub mod Settled
pub mod Loaded
pub mod Tests
use clawdentity.Shared.{
  ℕ, ◌+◌, ◌-◌, max, String, Bool, true, false, not, ◌&&◌, ◌||◌, Option, none, some, List, [], ◌∷◌,
  ◌++◌, map, any, ◌==◌, ltb, length, if◌then◌else◌,
}

-- A frame: its id, and what stands for the rest of it.
pub record EnqueueFrame : Type 0 where
  pub id : String
  pub body : String

pub record OutboundQueueManager : Type 0 where
  pub persistent : Bool
  pub queue : List EnqueueFrame
  pub max_observed_depth : ℕ
  pub loaded : Bool
  pub saves : ℕ
  pub disk : List EnqueueFrame

unfoldable pub record_depth : OutboundQueueManager → OutboundQueueManager
record_depth m = record m { max_observed_depth = max m.max_observed_depth (length m.queue) }

-- `persist`, called this many times.
unfoldable pub persist : ℕ → OutboundQueueManager → OutboundQueueManager
persist times m = if m.persistent then record m { saves = m.saves + times } else m

unfoldable pub enqueue : EnqueueFrame → OutboundQueueManager → OutboundQueueManager
enqueue frame m = persist 1 (record_depth (record m { queue = m.queue ++ (frame ∷ []) }))

-- What the calls of `isConnected` and `sendFrame` return, by the number of the round.
pub record Line : Type 0 where
  pub connected : ℕ → Bool
  pub sends : ℕ → EnqueueFrame → Bool

-- The frames that the loop sends from this round on, and those that stay.
unfoldable pub flush_from : Line → ℕ → List EnqueueFrame → List EnqueueFrame × List EnqueueFrame
flush_from line i [] = ([], [])
flush_from line i (frame ∷ frames) =
    let (sent, rest) = flush_from line (i + 1) frames in
    if line.connected i && line.sends i frame then (frame ∷ sent, rest) else ([], frame ∷ frames)

-- The queue after `flush`, and the frames that were sent.
unfoldable pub flush : Line → OutboundQueueManager → OutboundQueueManager × List EnqueueFrame
flush line m =
    if not (line.connected 0)
    then (m, [])
    else (let (sent, rest) = flush_from line 1 m.queue in
        (persist (length sent) (record m { queue = rest }), sent))

unfoldable pub has_id : List String → String → Bool
has_id ids id = any (λ i. i == id) ids

-- The loaded frames that are valid and whose ids are new; `none` is a value that is no frame.
unfoldable pub new_frames : List String → List (Option EnqueueFrame) → List EnqueueFrame
unfolding has_id
new_frames ids [] = []
new_frames ids (none ∷ candidates) = new_frames ids candidates
new_frames ids (some frame ∷ candidates) =
    let without = new_frames ids candidates in
    let with_it = new_frames (frame.id ∷ ids) candidates in
    if has_id ids frame.id then without else frame ∷ with_it

unfoldable pub put_front : List EnqueueFrame → OutboundQueueManager → OutboundQueueManager
put_front [] m = m
put_front (f ∷ fs) m = record_depth (record m { queue = (f ∷ fs) ++ m.queue })

-- The end of `ensureLoaded`'s loading, with what `load` gave; `none` is an error or no value.
unfoldable pub finish_load :
    Option (List (Option EnqueueFrame)) → OutboundQueueManager → OutboundQueueManager
finish_load none m = record m { loaded = true }
finish_load (some candidates) m =
    record (put_front (new_frames (map (λ f. f.id) m.queue) candidates) m) { loaded = true }

-- `ensureLoaded`: one loading, and none without persistence.
unfoldable pub ensure_loaded :
    Option (List (Option EnqueueFrame)) → OutboundQueueManager → OutboundQueueManager
ensure_loaded found m =
    if m.loaded then m else if m.persistent then finish_load found m else record m { loaded = true }

-- The next write of `saveChain`, which waits until the file is loaded; one that fails is logged.
unfoldable pub save : Bool → OutboundQueueManager → OutboundQueueManager
save succeeds m =
    if m.loaded && ltb 0 m.saves
    then record m { saves = m.saves - 1; disk = if succeeds then m.queue else m.disk }
    else m
