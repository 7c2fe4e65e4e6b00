-- ===== src/Proxy/Trust/Tests.antt =====
-- Runs of the trust store, with a ticket whose text is its id.
use clawdentity.Shared.{◌≡◌, ◌↔◌, ◌⊎◌, refl, String, true, none, [], ◌∷◌, ◌==◌, arith}
use clawdentity.Shared.Dict.{get, set, delete, retain}
use clawdentity.Shared.Text.{trim}
use clawdentity.Proxy.Trust.Types.{
  TrustState, TicketFunctions, ok, failed, PeerProfile, PairingTicketInput,
  PairingTicketConfirmInput, PairingTicketConfirmResult, PairingTicketPayload, StoredTicket,
  empty_trust, ticket_already_confirmed, ticket_not_found,
}
use clawdentity.Proxy.Trust.Keys.{normalize_expiry_to_whole_second}
use clawdentity.Proxy.Trust.Store.{
  has, cleanup, keeps, upsert_pair, is_agent_revoked, mark_agent_revoked,
}
use clawdentity.Proxy.Trust.Confirm.{
  Awaiting, begin_confirm, begin_parsed, begin_stored, is_for, is_past, forbids, finish_confirm,
  finish_begun, confirm_pairing_ticket,
}
use clawdentity.Proxy.Trust.Confirm.Trusted.{AreTrusted, confirm-AreTrusted, both_confirmed}
use clawdentity.Proxy.Trust.Tickets.{
  create_pairing_ticket, create_parsed, store_ticket, normalize_responder, created,
}
use clawdentity.Proxy.Trust.Tickets.Created.{create-confirm, agreed}
use clawdentity.Proxy.Trust.System.{System, Reach, start, later, creates, begins, finishes, upserts}
use clawdentity.Proxy.Trust.System.Invariant.{IsSound}
use clawdentity.Proxy.Trust.System.Preserved.{reach-IsSound}
use clawdentity.Proxy.Trust.System.Consent.{WasGranted, reach-WasGranted}
use clawdentity.Proxy.Trust.System.Reuse.{Spares, at_once, then_step, confirmed_once}
use clawdentity.Proxy.Trust.System.Revocation.{During, revoked_for_ttl}

abbrev payload : PairingTicketPayload
payload = record { iss = "proxy"; kid = "k1"; exp = 100; nonce = "n"; pkid = "p"; sig = "s" }

abbrev fns : TicketFunctions
fns = record {
  parse_pairing_ticket = λ text. ok payload;
  normalize_pairing_ticket_text = λ text. text;
  verify_pairing_ticket_signature = λ p key. key == "key";
  is_agent_did = λ did. true;
}

abbrev profile : PeerProfile
profile = record { agent_name = "a"; human_name = "h"; proxy_origin = none }

abbrev ticket_input : PairingTicketInput
ticket_input = record {
  initiator_agent_did = "did:a";
  initiator_profile = profile;
  issuer_proxy_url = "proxy";
  ticket = "t";
  public_key_x = "key";
  allow_responder_agent_did = none;
  expires_at_ms = 100400;
}

abbrev responder : String → PairingTicketConfirmInput
responder did = record { ticket = "t"; responder_agent_did = did; responder_profile = profile }

abbrev stored : StoredTicket
stored = record {
  ticket = "t";
  expires_at_ms = 100000;
  initiator_agent_did = "did:a";
  initiator_profile = profile;
  issuer_proxy_url = "proxy";
  public_key_x = "key";
  allow_responder_agent_did = none;
}

abbrev with_ticket : TrustState
with_ticket = record empty_trust { pairing_tickets = ("k1", stored) ∷ [] }

abbrev awaiting : String → Awaiting
awaiting did = record { input = responder did; now_ms = 50; parsed = payload; stored = stored }

abbrev pair_with : String → PairingTicketConfirmResult
pair_with did = agreed stored (responder did)

create_runs :
    create_pairing_ticket fns 10 ticket_input empty_trust ≡ (with_ticket, ok (created stored))
unfolding create_pairing_ticket create_parsed store_ticket normalize_responder cleanup
    normalize_expiry_to_whole_second trim retain delete set
create_runs = refl

create-confirm_example :
    (t : StoredTicket) × (((confirm_pairing_ticket fns 50 51
          (responder "did:b")
          (create_pairing_ticket fns 10 ticket_input empty_trust).0).1
        ≡ ok (agreed t (responder "did:b")))
      × (created stored ≡ created t))
unfolding create_pairing_ticket create_parsed store_ticket normalize_responder cleanup
    normalize_expiry_to_whole_second trim retain delete set
create-confirm_example =
    create-confirm fns 10 50 51 ticket_input (responder "did:b") empty_trust payload
      (created stored) refl refl refl (omega arith) refl (λ did h. cc)

confirm-AreTrusted_example :
    ((pair_with "did:b").responder_agent_did ≡ (responder "did:b").responder_agent_did)
    × AreTrusted "did:a" "did:b"
        (confirm_pairing_ticket fns 50 51 (responder "did:b") with_ticket).0
unfolding confirm_pairing_ticket begin_confirm begin_parsed begin_stored is_for finish_begun
    finish_confirm is_past forbids cleanup keeps retain get
confirm-AreTrusted_example =
    confirm-AreTrusted fns 50 51 (responder "did:b") with_ticket (pair_with "did:b") refl

both_confirmed_example :
    let s' = (finish_confirm fns 51 (awaiting "did:b") with_ticket).0 in
    let s'' = (finish_confirm fns 52 (awaiting "did:c") s').0 in
    ((finish_confirm fns 52 (awaiting "did:c") s').1 ≡ ok (pair_with "did:c"))
    × (AreTrusted "did:a" "did:b" s'' × AreTrusted "did:a" "did:c" s'')
unfolding finish_confirm is_past forbids
both_confirmed_example =
    both_confirmed fns 51 52 (awaiting "did:b") (awaiting "did:c") with_ticket (pair_with "did:b")
      (pair_with "did:c") refl refl

confirmed_once_example :
    ((begin_confirm fns 60
        (responder "did:c")
        (upsert_pair "x" "y" (finish_confirm fns 51 (awaiting "did:b") with_ticket).0)).1
      ≡ failed ticket_already_confirmed)
    ⊎ ((begin_confirm fns 60
          (responder "did:c")
          (upsert_pair "x" "y" (finish_confirm fns 51 (awaiting "did:b") with_ticket).0)).1
        ≡ failed ticket_not_found)
unfolding finish_confirm is_past forbids Spares
confirmed_once_example =
    confirmed_once fns 51 60 (awaiting "did:b") with_ticket [] (pair_with "did:b")
      (responder "did:c") payload refl (then_step at_once (upserts "x" "y") tt) refl refl

revoked_for_ttl_example :
    (is_agent_revoked fns 2000 "did:a" (mark_agent_revoked fns 1000 "did:a" with_ticket).0).1
    ≡ ok true
revoked_for_ttl_example =
    revoked_for_ttl fns 1000 2000 "did:a" (record { store = with_ticket; waiting = [] }) _ refl
      During.at_once (omega arith)

-- The ticket is created, a confirmation begins and ends, and another pair is added.
abbrev begun : System
begun = record {
  store =
      (begin_confirm fns 50 (responder "did:b")
        (create_pairing_ticket fns 10 ticket_input empty_trust).0).0;
  waiting = awaiting "did:b" ∷ [];
}

abbrev ended : System
ended = record {
  store = upsert_pair "x" "y" (finish_confirm fns 51 (awaiting "did:b") begun.store).0;
  waiting = [];
}

history : Reach fns ended
unfolding begin_confirm begin_parsed begin_stored is_for cleanup keeps retain get
    create_pairing_ticket create_parsed store_ticket normalize_responder
    normalize_expiry_to_whole_second trim delete set
history =
    later
      (later (later (later start (creates 10 ticket_input)) (begins 50 (responder "did:b")))
        (finishes 51 [] [] (awaiting "did:b") refl))
      (upserts "x" "y")

reach-IsSound_example : IsSound ended.store
reach-IsSound_example = reach-IsSound fns history

reach-WasGranted_example :
    (has ended.store.pair_keys "did:a|did:b" ≡ true) ↔ WasGranted fns "did:a|did:b" history
reach-WasGranted_example = reach-WasGranted fns history "did:a|did:b"
