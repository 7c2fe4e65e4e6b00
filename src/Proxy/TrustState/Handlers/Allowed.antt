-- ===== src/Proxy/TrustState/Handlers/Allowed.antt =====
-- What a confirmation that succeeded changes: the pair is allowed, the ticket is used up.
use clawdentity.Shared.{String, true, ◌==◌, ◌||◌, ◌≡◌, refl, ◌∙◌, Bool-cases, inl, inr, eq_iff}
use clawdentity.Proxy.Trust.Keys.{to_pair_key}
use clawdentity.Proxy.Trust.Types.{PairingTicketConfirmResult}
use clawdentity.Proxy.Trust.Store.{has, add}
use clawdentity.Proxy.Trust.Store.Pairs.{has-add}
use clawdentity.Proxy.Trust.Confirm.{is_past, forbids, confirmed_pair}
use clawdentity.Proxy.TrustState.Utils.{Outside}
use clawdentity.Proxy.TrustState.Storage.{
  Storage, ExpirableTrustState, load_pairs, save_agent_peers, save_expirable_state,
  save_pairing_tickets, save_confirmed_pairing_tickets, save_expirable_state_and_schedule,
  schedule_next_code_cleanup,
}
use clawdentity.Proxy.TrustState.Storage.Pairs.{has-load_pairs}
use clawdentity.Proxy.TrustState.Handlers.{json, ticket_confirmed, save_pair}
use clawdentity.Proxy.TrustState.Handlers.Confirm.{Confirming, store_confirmed, finish_confirm}

pub save_pair-pairs :
    (initiator responder : String) (st : Storage) (k : String)
    → has (load_pairs (save_pair initiator responder st)) k
      ≡ (has (load_pairs st) k || to_pair_key initiator responder == k)
unfolding save_pair
save_pair-pairs initiator responder st k =
    unfold save_agent_peers load_pairs in
    (has-load_pairs (add (load_pairs st) (to_pair_key initiator responder)) st k
      ∙ has-add (load_pairs st) (to_pair_key initiator responder) k)

module _ (outside : Outside) where
  pub save_and_schedule-pairs :
      (s : ExpirableTrustState) (st : Storage)
      → load_pairs (save_expirable_state_and_schedule outside true true s st) ≡ load_pairs st
  unfolding save_expirable_state_and_schedule save_expirable_state save_pairing_tickets
      save_confirmed_pairing_tickets schedule_next_code_cleanup load_pairs
  save_and_schedule-pairs s st = refl

-- What a confirmation that succeeded has stored.
pub record IsStored (outside : Outside) (st : Storage) (c : Confirming)
    (r : PairingTicketConfirmResult) : Type 0 where
  pub pair : confirmed_pair c.awaiting ≡ r
  pub issuer : c.awaiting.stored.issuer_proxy_url ≡ c.awaiting.parsed.iss
  pub stored : (finish_confirm outside c st).0 ≡ store_confirmed outside c st

module _ (outside : Outside) where
  pub finish-IsStored :
      (c : Confirming) (st : Storage) (r : PairingTicketConfirmResult)
      → (finish_confirm outside c st).1 ≡ json (ticket_confirmed r)
      → IsStored outside st c r
  unfolding finish_confirm
  finish-IsStored c st r h =
      let a = c.awaiting in
      elim (Bool-cases
        (outside.tickets.verify_pairing_ticket_signature a.parsed a.stored.public_key_x)) [
          | inr bad ↦ absurd (cc (rw bad at h))
          | inl good ↦ elim (Bool-cases (is_past a.now_ms a.stored.expires_at_ms a.parsed)) [
            | inl past ↦ absurd (cc (rw (good, past) at h))
            | inr live ↦ elim (Bool-cases (a.stored.issuer_proxy_url == a.parsed.iss)) [
              | inr other ↦ absurd (cc (rw (good, live, other) at h))
              | inl same ↦
                  elim (Bool-cases
                    (forbids a.stored.allow_responder_agent_did a.input.responder_agent_did)) [
                      | inl denied ↦ absurd (cc (rw (good, live, same, denied) at h))
                      | inr open_to ↦ record {
                        pair = cc (rw (good, live, same, open_to) at h);
                        issuer = (eq_iff _ _).0 same;
                        stored = rw (good, live, same, open_to) refl;
                      }
                    ]
            ]
          ]
        ]
