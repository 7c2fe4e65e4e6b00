-- ===== src/Proxy/TrustState/Tests.antt =====
-- Runs of the durable trust store.
use clawdentity.Shared.{
  ℕ, ◌<◌, ◌==◌, ◌≡◌, ◌≢◌, refl, ◌>>=◌, String, true, Option, none, some, [], ◌∷◌, arith, ltb,
  Bool-cases, inl, inr, subst, sym, eq_iff, if◌then◌else◌,
}
use clawdentity.Shared.Dict.{get, set, delete, keep_if}
use clawdentity.Shared.Text.{trim}
use clawdentity.Shared.Json.{
  Value, text, number, object, fields, member, non_empty_string, as_number,
}
use clawdentity.Proxy.Trust.Types.{
  Outcome, ok, failed, PairingTicketPayload, ticket_parse_error, PairingTicketResult,
}
use clawdentity.Proxy.Trust.Types.{
  StoredTicket, pending, TrustState, empty_trust, PairingTicketConfirmInput,
  PairingTicketConfirmResult,
}
use clawdentity.Proxy.Trust.Keys.{normalize_expiry_to_whole_second}
use clawdentity.Proxy.Trust.Store.{add}
use clawdentity.Proxy.Trust.Confirm.{confirm_pairing_ticket, is_past}
use clawdentity.Proxy.Trust.Tickets.{get_pairing_ticket_status, created}
use clawdentity.Proxy.TrustState.Utils.{Outside, web_origin, parse_peer_profile, add_peer}
use clawdentity.Proxy.TrustState.Storage.{
  Storage, empty_storage, load_expirable_state, load_revoked_agents, run_alarm_cleanup,
  save_expirable_state_and_schedule, schedule_next_code_cleanup, load_pairing_tickets,
  load_confirmed_pairing_tickets, save_expirable_state, load_pairs, save_pairs, load_agent_peers,
  save_agent_peers,
}
use clawdentity.Proxy.TrustState.Storage.Entries.{read_pairing_ticket, pairing_ticket_value}
use clawdentity.Proxy.TrustState.Storage.Canonical.{IsLawful, IsFilled, some_inj}
use clawdentity.Proxy.TrustState.Storage.Scheduled.{IsScheduled}
use clawdentity.Proxy.TrustState.Storage.Alarm.{alarm-Cleans}
use clawdentity.Proxy.TrustState.Handlers.{
  json, ticket_created, ticket_confirmed, ticket_status, error_response, now_of, save_pair,
}
use clawdentity.Proxy.TrustState.Handlers.Pairing.{
  handle_create_pairing_ticket, handle_get_pairing_ticket_status,
}
use clawdentity.Proxy.TrustState.Handlers.Confirm.{
  handle_confirm_pairing_ticket, read_confirm, begin_confirm, finish_confirm,
}
use clawdentity.Proxy.TrustState.Handlers.Answers.{
  ThrowsParseErrors, HoldsTickets, confirm_answer, status_answer, confirm-answers, status-answers,
}
use clawdentity.Proxy.TrustState.Handlers.Created.{created-status}
use clawdentity.Proxy.TrustState.Handlers.Paired.{IsPaired, confirm-IsPaired}
use clawdentity.Proxy.TrustState.Controller.{Request, fetch}
use clawdentity.Proxy.TrustState.Errors.{fetch-unchanged}
use clawdentity.Proxy.TrustState.System.{start, later, fetches, reach-IsScheduled}

abbrev payload : PairingTicketPayload
payload = record { iss = "https://p"; kid = "k"; exp = 10; nonce = "n"; pkid = "pk"; sig = "s" }

-- One ticket and one origin are known, and every text is an agent's DID.
abbrev sample : Outside
sample = record {
  tickets = record {
    parse_pairing_ticket = λ s. if s == "t" then ok payload else failed (ticket_parse_error "BAD");
    normalize_pairing_ticket_text = λ s. s;
    verify_pairing_ticket_signature = λ p key. true;
    is_agent_did = λ s. true;
  };
  parse_url = λ s.
      if s == "https://p"
      then some (record { protocol = "https:"; origin = "https://p" })
      else none;
}

origin_again :
    (s o : String)
    → (sample.parse_url s >>= web_origin) ≡ some o
    → ((sample.parse_url (trim o) >>= web_origin) ≡ some o) × IsFilled o
unfolding web_origin trim
origin_again s o h = elim (Bool-cases (s == "https://p")) [
  | inl e ↦
      subst (λ o'. ((sample.parse_url (trim o') >>= web_origin) ≡ some o') × IsFilled o')
        (some_inj "https://p" o (rw e at h)) (refl, refl)
  | inr e ↦ absurd (cc (rw e at h))
]

ticket_filled :
    (s : String) (p : PairingTicketPayload)
    → sample.tickets.parse_pairing_ticket s ≡ ok p
    → IsFilled s × IsFilled p.iss
unfolding trim
ticket_filled s p h = elim (Bool-cases (s == "t")) [
  | inl e ↦ (
    subst IsFilled (sym ((eq_iff s "t").0 e)) refl,
    subst (λ q. IsFilled q.iss) (ok_inj payload p (rw e at h)) refl,
  )
  | inr e ↦ absurd (cc (rw e at h))
]
  where
    ok_inj :
        (a b : PairingTicketPayload) → ◌≡◌ {A = Outcome PairingTicketPayload} (ok a) (ok b) → a ≡ b
    ok_inj a b q = cc

sample-IsLawful : IsLawful sample
sample-IsLawful = record { origin_again = origin_again; ticket_filled = ticket_filled }

sample-ThrowsParseErrors : ThrowsParseErrors sample
sample-ThrowsParseErrors s e h = elim (Bool-cases (s == "t")) [
  | inl t ↦ absurd (cc (rw t at h))
  | inr t ↦ ("BAD", cc (rw t at h))
]

abbrev profile_value : Value
profile_value = object (fields (("agentName", text "a") ∷ ("humanName", text "h") ∷ []))

abbrev create_body : Option Value
create_body = some (
    object (
      fields (
        ("initiatorAgentDid", text "did:a")
        ∷ ("initiatorProfile", profile_value)
        ∷ ("issuerProxyUrl", text "https://p")
        ∷ ("ticket", text "t")
        ∷ ("publicKeyX", text " key ")
        ∷ ("expiresAtMs", number 10400)
        ∷ [])))

abbrev confirm_body : Option Value
confirm_body = some (
    object (
      fields (
        ("ticket", text "t")
        ∷ ("responderAgentDid", text "did:b")
        ∷ ("responderProfile", profile_value)
        ∷ [])))

abbrev responder : PairingTicketConfirmInput
responder = record {
  ticket = "t";
  responder_agent_did = "did:b";
  responder_profile = record { agent_name = "a"; human_name = "h"; proxy_origin = none };
}

abbrev result : PairingTicketResult
result = record {
  ticket = "t";
  expires_at_ms = 10000;
  initiator_agent_did = "did:a";
  initiator_profile = record { agent_name = "a"; human_name = "h"; proxy_origin = none };
  issuer_proxy_url = "https://p";
}

abbrev with_ticket : Storage
with_ticket = (handle_create_pairing_ticket sample 50 create_body empty_storage).0

abbrev pair : PairingTicketConfirmResult
pair = record {
  initiator_agent_did = "did:a";
  initiator_profile = record { agent_name = "a"; human_name = "h"; proxy_origin = none };
  responder_agent_did = "did:b";
  responder_profile = record { agent_name = "a"; human_name = "h"; proxy_origin = none };
  issuer_proxy_url = "https://p";
}

runs : Unit {0}
unfolding handle_create_pairing_ticket parse_peer_profile non_empty_string member trim as_number
    normalize_expiry_to_whole_second save_expirable_state_and_schedule schedule_next_code_cleanup
    set delete get load_expirable_state load_pairing_tickets load_confirmed_pairing_tickets
    load_revoked_agents save_expirable_state handle_confirm_pairing_ticket begin_confirm
    read_confirm save_pair load_pairs save_pairs load_agent_peers save_agent_peers add add_peer
    is_past
runs = tt

creates_ticket :
    (handle_create_pairing_ticket sample 50 create_body empty_storage).1
    ≡ json (ticket_created result)
unfolding runs
creates_ticket = refl

alarm_set : with_ticket.alarm ≡ some 10000
unfolding runs
alarm_set = refl

confirms_ticket :
    (handle_confirm_pairing_ticket sample 60 confirm_body with_ticket).1
    ≡ json (ticket_confirmed pair)
unfolding runs read_pairing_ticket pairing_ticket_value finish_confirm
confirms_ticket = refl

reads_confirm : read_confirm sample confirm_body ≡ some responder
unfolding runs
reads_confirm = refl

abbrev creation : Request
creation = record { method = "POST"; pathname = "/pairing-tickets/create"; body = create_body }

reach-IsScheduled_example : IsScheduled sample (fetch sample 50 creation empty_storage).0
reach-IsScheduled_example =
    reach-IsScheduled sample sample-IsLawful (later start (fetches 50 creation))

alarm-Cleans_example :
    let st' = run_alarm_cleanup sample 20000 with_ticket in
    ((kid : String)
      → get (load_expirable_state sample st').pairing_tickets kid
        ≡ keep_if
            (λ t. ltb 20000 t.expires_at_ms)
            (get (load_expirable_state sample with_ticket).pairing_tickets kid))
    × ((kid : String)
        → get (load_expirable_state sample st').confirmed_pairing_tickets kid
          ≡ keep_if
              (λ t. ltb 20000 t.expires_at_ms)
              (get (load_expirable_state sample with_ticket).confirmed_pairing_tickets kid))
    × ((did : String)
        → get (load_revoked_agents st') did
          ≡ keep_if (λ t. ltb 20000 t) (get (load_revoked_agents with_ticket) did))
    × ((t : ℕ) → st'.alarm ≡ some t → 20000 < t)
alarm-Cleans_example = alarm-Cleans sample sample-IsLawful 20000 with_ticket

-- The store in memory with the tickets that are stored.
abbrev memory : TrustState
memory = record empty_trust {
  pairing_tickets = (load_expirable_state sample with_ticket).pairing_tickets;
  confirmed_pairing_tickets = (load_expirable_state sample with_ticket).confirmed_pairing_tickets;
}

memory-HoldsTickets : HoldsTickets sample with_ticket memory
memory-HoldsTickets = record { pending = refl; confirmed = refl }

confirm-answers_example :
    (handle_confirm_pairing_ticket sample 60 confirm_body with_ticket).1
    ≡ confirm_answer
        (confirm_pairing_ticket sample.tickets (now_of 60 confirm_body) 60 responder memory).1
confirm-answers_example =
    confirm-answers sample 60 60 confirm_body responder with_ticket memory sample-ThrowsParseErrors
      memory-HoldsTickets reads_confirm

abbrev status_body : Option Value
status_body = some (object (fields (("ticket", text "t") ∷ [])))

reads_ticket : non_empty_string (member status_body "ticket") ≡ some "t"
unfolding runs
reads_ticket = refl

status_time : now_of 70 status_body ≡ 70
unfolding runs now_of
status_time = refl

status-answers_example :
    (handle_get_pairing_ticket_status sample 70 status_body with_ticket).1
    ≡ status_answer (get_pairing_ticket_status sample.tickets (now_of 70 status_body) "t" memory).1
status-answers_example =
    status-answers sample 70 status_body "t" with_ticket memory sample-ThrowsParseErrors
      memory-HoldsTickets reads_ticket

abbrev refused_request : Request
refused_request = record { method = "POST"; pathname = "/pairs/upsert"; body = status_body }

fetch-unchanged_example :
    let x = fetch sample 70 refused_request with_ticket in
    (x.1 ≡ none → x.0 ≡ with_ticket)
    × ((code : String) (status : ℕ)
        → x.1 ≡ some (error_response code status)
        → status ≢ 410
        → x.0 ≡ with_ticket)
fetch-unchanged_example = fetch-unchanged sample 70 refused_request with_ticket

created-status_example :
    (t : StoredTicket) × (((handle_get_pairing_ticket_status sample 70 status_body with_ticket).1
        ≡ json (ticket_status (pending t)))
      × (created t ≡ result))
created-status_example =
    created-status sample sample-IsLawful 50 create_body empty_storage result 70 status_body "t"
      creates_ticket reads_ticket refl (subst (λ n. n < 10000) (sym status_time) (omega arith))

confirm-IsPaired_example :
    IsPaired sample with_ticket
      (handle_confirm_pairing_ticket sample 60 confirm_body with_ticket).0
      "t"
      pair
confirm-IsPaired_example =
    confirm-IsPaired sample 60 confirm_body responder with_ticket pair sample-IsLawful reads_confirm
      confirms_ticket
