-- ===== src/Proxy/Trust/System.antt =====
-- Calls of the trust store in any order, where others run while a confirmation awaits the check of
-- its signature.
pub mod Invariant
pub mod Preserved
pub mod Consent
pub mod Reuse
pub mod Revocation
use clawdentity.Shared.{ℕ, ◌≡◌, String, List, [], ◌∷◌, ◌++◌}
use clawdentity.Proxy.Trust.Types.{
  TrustState, TicketFunctions, Outcome, ok, failed, PairingTicketInput, PairingTicketConfirmInput,
  empty_trust,
}
use clawdentity.Proxy.Trust.Store.{upsert_pair, mark_agent_revoked, is_agent_revoked}
use clawdentity.Proxy.Trust.Confirm.{Awaiting, begin_confirm, finish_confirm}
use clawdentity.Proxy.Trust.Tickets.{create_pairing_ticket, get_pairing_ticket_status}

-- The store, and the confirmations that await the check of their signature.
pub record System : Type 0 where
  pub store : TrustState
  pub waiting : List Awaiting

abbrev pub await_also : Outcome Awaiting → List Awaiting → List Awaiting
await_also (ok a) waiting = a ∷ waiting
await_also (failed e) waiting = waiting

pub data Step (fns : TicketFunctions) (s : System) : System → Type 0 where
  creates :
      (now : ℕ) (input : PairingTicketInput)
      → Step fns s (record s { store = (create_pairing_ticket fns now input s.store).0 })
  begins :
      (now : ℕ) (input : PairingTicketConfirmInput)
      → Step fns s (record {
        store = (begin_confirm fns now input s.store).0;
        waiting = await_also (begin_confirm fns now input s.store).1 s.waiting;
      })
  finishes :
      (confirm_ms : ℕ) (before after : List Awaiting) (a : Awaiting)
      → s.waiting ≡ before ++ (a ∷ after)
      → Step fns s (record {
        store = (finish_confirm fns confirm_ms a s.store).0;
        waiting = before ++ after;
      })
  asks_status :
      (now : ℕ) (ticket : String)
      → Step fns s (record s { store = (get_pairing_ticket_status fns now ticket s.store).0 })
  marks_revoked :
      (now : ℕ) (did : String)
      → Step fns s (record s { store = (mark_agent_revoked fns now did s.store).0 })
  checks_revoked :
      (now : ℕ) (did : String)
      → Step fns s (record s { store = (is_agent_revoked fns now did s.store).0 })
  upserts :
      (initiator responder : String)
      → Step fns s (record s { store = upsert_pair initiator responder s.store })

pub data Reach (fns : TicketFunctions) : System → Type 0 where
  start : Reach fns (record { store = empty_trust; waiting = [] })
  later : {s t : System} → Reach fns s → Step fns s t → Reach fns t
