-- ===== src/Proxy/TrustState/System.antt =====
-- Requests and alarms of the durable object in any order, where others run while a confirmation
-- awaits the check of its signature.
use clawdentity.Shared.{
  ℕ, not, ◌==◌, ◌≡◌, refl, Option, none, some, List, [], ◌∷◌, ◌++◌, All, subst, if_both,
}
use clawdentity.Shared.Json.{Value}
use clawdentity.Proxy.TrustState.Utils.{Outside}
use clawdentity.Proxy.TrustState.Storage.{
  Storage, empty_storage, earliest, expiry_values, load_expirable_state, load_pairing_tickets,
  load_confirmed_pairing_tickets, load_revoked_agents,
}
use clawdentity.Proxy.TrustState.Storage.Canonical.{IsLawful}
use clawdentity.Proxy.TrustState.Storage.Scheduled.{IsScheduled}
use clawdentity.Proxy.TrustState.Storage.Alarm.{cleanup-IsScheduled}
use clawdentity.Proxy.TrustState.Handlers.{Response}
use clawdentity.Proxy.TrustState.Handlers.Scheduled.{
  upsert-IsScheduled, check-IsScheduled, known-IsScheduled, mark-IsScheduled, revoked-IsScheduled,
}
use clawdentity.Proxy.TrustState.Handlers.Tickets.{create-IsScheduled, status-IsScheduled}
use clawdentity.Proxy.TrustState.Handlers.Confirm.{
  Confirming, Begun, answered, waits, begin_confirm, finish_confirm, handle_confirm_pairing_ticket,
}
use clawdentity.Proxy.TrustState.Handlers.Confirming.{
  IsWaiting, BegunWaits, begin-Waits, finish-IsScheduled, begun-IsScheduled,
}
use clawdentity.Proxy.TrustState.Controller.{
  Request, Route, create_pairing_ticket, confirm_pairing_ticket, get_pairing_ticket_status,
  mark_agent_revoked, is_agent_revoked, upsert_pair, is_pair_allowed, is_agent_known, route_of,
  handle, fetch_route, fetch, alarm,
}

-- The object's storage, and the confirmations at their `await`.
pub record System : Type 0 where
  pub storage : Storage
  pub waiting : List Confirming

abbrev pub wait_also : Begun → List Confirming → List Confirming
wait_also (answered r) cs = cs
wait_also (waits c) cs = c ∷ cs

pub data Step (outside : Outside) (s : System) : System → Type 0 where
  fetches :
      (clock : ℕ) (request : Request)
      → Step outside s (record s { storage = (fetch outside clock request s.storage).0 })
  alarms : (now : ℕ) → Step outside s (record s { storage = alarm outside now s.storage })
  begins :
      (clock : ℕ) (body : Option Value)
      → Step outside s
          (record s { waiting = wait_also (begin_confirm outside clock body s.storage) s.waiting })
  finishes :
      (before after : List Confirming) (c : Confirming)
      → s.waiting ≡ before ++ (c ∷ after)
      → Step outside s
          (record { storage = (finish_confirm outside c s.storage).0; waiting = before ++ after })

pub data Reach (outside : Outside) : System → Type 0 where
  start : Reach outside (record { storage = empty_storage; waiting = [] })
  later : {s t : System} → Reach outside s → Step outside s t → Reach outside t

pub record IsSound (outside : Outside) (s : System) : Type 0 where
  pub scheduled : IsScheduled outside s.storage
  pub waiting : All (IsWaiting outside) s.waiting

module _ (outside : Outside) (lawful : IsLawful outside) where
  handle-IsScheduled :
      (clock : ℕ) (body : Option Value) (st : Storage) (route : Route)
      → IsScheduled outside st
      → IsScheduled outside (handle outside clock body st route).0
  unfolding handle handle_confirm_pairing_ticket
  handle-IsScheduled clock body st create_pairing_ticket h =
      create-IsScheduled outside lawful clock body st h
  handle-IsScheduled clock body st confirm_pairing_ticket h =
      begun-IsScheduled outside _ st lawful (begin-Waits outside lawful clock body st) h
  handle-IsScheduled clock body st get_pairing_ticket_status h =
      status-IsScheduled outside lawful clock body st h
  handle-IsScheduled clock body st mark_agent_revoked h = mark-IsScheduled outside clock body st h
  handle-IsScheduled clock body st is_agent_revoked h = revoked-IsScheduled outside clock body st h
  handle-IsScheduled clock body st upsert_pair h = upsert-IsScheduled outside body st h
  handle-IsScheduled clock body st is_pair_allowed h = check-IsScheduled outside body st h
  handle-IsScheduled clock body st is_agent_known h = known-IsScheduled outside body st h

  route-IsScheduled :
      (clock : ℕ) (body : Option Value) (st : Storage) (route : Option Route)
      → IsScheduled outside st
      → IsScheduled outside (fetch_route outside clock body st route).0
  unfolding fetch_route
  route-IsScheduled clock body st none h = h
  route-IsScheduled clock body st (some route) h = handle-IsScheduled clock body st route h

  fetch-IsScheduled :
      (clock : ℕ) (r : Request) (st : Storage)
      → IsScheduled outside st
      → IsScheduled outside (fetch outside clock r st).0
  unfolding fetch
  fetch-IsScheduled clock r st h =
      if_both (λ (x : Storage × Option Response). IsScheduled outside x.0)
        (not (r.method == "POST")) _ _ h (route-IsScheduled clock r.body st (route_of r.pathname) h)

  wait_also-All :
      (b : Begun) (cs : List Confirming)
      → BegunWaits outside b
      → All (IsWaiting outside) cs
      → All (IsWaiting outside) (wait_also b cs)
  wait_also-All (answered r) cs w h = h
  wait_also-All (waits c) cs w h = (w, h)

  split-All :
      (before after : List Confirming) (c : Confirming)
      → All (IsWaiting outside) (before ++ (c ∷ after))
      → All (IsWaiting outside) (before ++ after) × IsWaiting outside c
  split-All [] after c (w, h) = (h, w)
  split-All (b ∷ before) after c (v, h) =
      let (rest, w) = split-All before after c h in ((v, rest), w)

  Step-IsSound : {s t : System} → IsSound outside s → Step outside s t → IsSound outside t
  Step-IsSound {s} h (fetches clock r) = record {
    scheduled = fetch-IsScheduled clock r s.storage h.scheduled;
    waiting = h.waiting;
  }
  Step-IsSound {s} h (alarms now) = record {
    scheduled = unfold alarm in cleanup-IsScheduled outside lawful now s.storage;
    waiting = h.waiting;
  }
  Step-IsSound {s} h (begins clock body) = record {
    scheduled = h.scheduled;
    waiting =
        wait_also-All (begin_confirm outside clock body s.storage) s.waiting
          (begin-Waits outside lawful clock body s.storage) h.waiting;
  }
  Step-IsSound {s} h (finishes before after c e) =
      let (rest, w) = split-All before after c (subst (All (IsWaiting outside)) e h.waiting) in
      record {
        scheduled = finish-IsScheduled outside c s.storage lawful w h.scheduled;
        waiting = rest;
      }

  empty-IsScheduled : IsScheduled outside empty_storage
  unfolding earliest expiry_values load_expirable_state load_pairing_tickets
      load_confirmed_pairing_tickets load_revoked_agents
  empty-IsScheduled = refl

  Reach-IsSound : {s : System} → Reach outside s → IsSound outside s
  Reach-IsSound start = record { scheduled = empty-IsScheduled; waiting = tt }
  Reach-IsSound (later r st) = Step-IsSound (Reach-IsSound r) st

  -- In every state that requests and alarms lead to from the empty storage, in whatever order they
  -- run while confirmations wait: the alarm is set exactly if a ticket or a revocation is stored, and
  -- then to the earliest of their ends.
  pub reach-IsScheduled : {s : System} → Reach outside s → IsScheduled outside s.storage
  reach-IsScheduled r = (Reach-IsSound r).scheduled
