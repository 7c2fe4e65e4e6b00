-- ===== src/Proxy/TrustState/Storage/Rereads.antt =====
-- Each entry that a load gives, or that a handler adds, is read again from the value that is stored.
use clawdentity.Shared.{String, ◌≡◌, refl, Option, none, some, ◌∷◌, arith, subst}
use clawdentity.Shared.Json.{
  Value, text, number, object, fields, member, non_empty_string, as_number,
}
use clawdentity.Proxy.Trust.Types.{
  Outcome, ok, failed, StoredTicket, ConfirmedTicket, PairingTicketPayload,
}
use clawdentity.Proxy.TrustState.Utils.{Outside, parse_peer_profile}
use clawdentity.Proxy.TrustState.Storage.Entries.{
  optional_field, peer_profile_value, pairing_ticket_value, confirmed_ticket_value,
  ticket_candidate, parsed, optional_string, read_pairing_ticket, read_confirmed_ticket,
}
use clawdentity.Proxy.TrustState.Storage.Canonical.{
  IsFilled, IsLawful, IsProfile, non_empty_string-text, non_empty_string-IsFilled, >>=-eq-some,
  some_inj, parse_peer_profile-IsProfile, profile_reread,
}

-- The ticket's text is accepted, for this key and issuer.
pub record IsTicket (outside : Outside) (kid ticket issuer : String) : Type 0 where
  pub payload : PairingTicketPayload
  pub accepted : outside.tickets.parse_pairing_ticket ticket ≡ ok payload
  pub for_kid : payload.kid ≡ kid
  pub for_issuer : payload.iss ≡ issuer
  pub filled : IsFilled ticket

abbrev pub IsOptional : Option String → Type 0
IsOptional none = Unit
IsOptional (some s) = IsFilled s

pub record IsPending (outside : Outside) (kid : String) (t : StoredTicket) : Type 0 where
  pub ticket : IsTicket outside kid t.ticket t.issuer_proxy_url
  pub initiator : IsFilled t.initiator_agent_did
  pub profile : IsProfile outside t.initiator_profile
  pub issuer : IsFilled t.issuer_proxy_url
  pub key_x : IsFilled t.public_key_x
  pub responder : IsOptional t.allow_responder_agent_did

pub record IsConfirmed (outside : Outside) (kid : String) (t : ConfirmedTicket) : Type 0 where
  pub ticket : IsTicket outside kid t.ticket t.pair.issuer_proxy_url
  pub initiator : IsFilled t.pair.initiator_agent_did
  pub profile : IsProfile outside t.pair.initiator_profile
  pub responder : IsFilled t.pair.responder_agent_did
  pub responder_profile : IsProfile outside t.pair.responder_profile
  pub issuer : IsFilled t.pair.issuer_proxy_url

pub parsed-ok {ℓ} : {A : Type ℓ} (o : Outcome A) (a : A) → parsed o ≡ some a → o ≡ ok a
unfolding parsed
parsed-ok (ok b) a h = ground (arith, h)
parsed-ok (failed e) a h = cc

optional_string-IsOptional :
    (v : Option Value) (o : Option String) → optional_string v ≡ some o → IsOptional o
unfolding optional_string
optional_string-IsOptional none o h = subst IsOptional (some_inj none o h) tt
optional_string-IsOptional (some v) o h =
    let (s, hs, h1) = >>=-eq-some (non_empty_string (some v)) _ h in
    subst IsOptional (some_inj (some s) o h1) (non_empty_string-IsFilled (some v) s hs)

module _ (outside : Outside) (lawful : IsLawful outside) where
  pub read_pairing_ticket-IsPending :
      (k : String) (v : Value) (e : String × StoredTicket)
      → read_pairing_ticket outside k v ≡ some e
      → IsPending outside e.0 e.1
  unfolding read_pairing_ticket
  read_pairing_ticket-IsPending k v e h =
      let (profile, hp, h1) =
        >>=-eq-some (parse_peer_profile outside.parse_url (member (some v) "initiatorProfile")) _
          h in
      let (initiator, hi, h2) =
        >>=-eq-some (non_empty_string (member (some v) "initiatorAgentDid")) _ h1 in
      let (issuer, hs, h3) =
        >>=-eq-some (non_empty_string (member (some v) "issuerProxyUrl")) _ h2 in
      let (key_x, hx, h4) = >>=-eq-some (non_empty_string (member (some v) "publicKeyX")) _ h3 in
      let (expires_at_ms, ht, h5) = >>=-eq-some (as_number (member (some v) "expiresAtMs")) _ h4 in
      let (responder, hr, h6) =
        >>=-eq-some (optional_string (member (some v) "allowResponderAgentDid")) _ h5 in
      let candidate : String = ticket_candidate (non_empty_string (member (some v) "ticket")) k in
      let (payload, ha, h7) =
        >>=-eq-some (parsed (outside.tickets.parse_pairing_ticket candidate)) _ h6 in
      let accepted = parsed-ok (outside.tickets.parse_pairing_ticket candidate) payload ha in
      let filled = lawful.ticket_filled candidate payload accepted in
      subst (λ f. IsPending outside f.0 f.1) (some_inj _ e h7)
        (record {
          ticket = record {
            payload = payload;
            accepted = accepted;
            for_kid = refl;
            for_issuer = refl;
            filled = filled.0;
          };
          initiator = non_empty_string-IsFilled _ initiator hi;
          profile = parse_peer_profile-IsProfile outside lawful _ profile hp;
          issuer = filled.1;
          key_x = non_empty_string-IsFilled _ key_x hx;
          responder = optional_string-IsOptional _ responder hr;
        })

  pub read_confirmed_ticket-IsConfirmed :
      (k : String) (v : Value) (e : String × ConfirmedTicket)
      → read_confirmed_ticket outside k v ≡ some e
      → IsConfirmed outside e.0 e.1
  unfolding read_confirmed_ticket
  read_confirmed_ticket-IsConfirmed k v e h =
      let (profile, hp, h1) =
        >>=-eq-some (parse_peer_profile outside.parse_url (member (some v) "initiatorProfile")) _
          h in
      let (other, ho, h2) =
        >>=-eq-some (parse_peer_profile outside.parse_url (member (some v) "responderProfile")) _
          h1 in
      let (initiator, hi, h3) =
        >>=-eq-some (non_empty_string (member (some v) "initiatorAgentDid")) _ h2 in
      let (responder, hr, h4) =
        >>=-eq-some (non_empty_string (member (some v) "responderAgentDid")) _ h3 in
      let (issuer, hs, h5) =
        >>=-eq-some (non_empty_string (member (some v) "issuerProxyUrl")) _ h4 in
      let (expires_at_ms, ht, h6) = >>=-eq-some (as_number (member (some v) "expiresAtMs")) _ h5 in
      let (confirmed_at_ms, hc, h7) =
        >>=-eq-some (as_number (member (some v) "confirmedAtMs")) _ h6 in
      let candidate : String = ticket_candidate (non_empty_string (member (some v) "ticket")) k in
      let (payload, ha, h8) =
        >>=-eq-some (parsed (outside.tickets.parse_pairing_ticket candidate)) _ h7 in
      let accepted = parsed-ok (outside.tickets.parse_pairing_ticket candidate) payload ha in
      let filled = lawful.ticket_filled candidate payload accepted in
      subst (λ f. IsConfirmed outside f.0 f.1) (some_inj _ e h8)
        (record {
          ticket = record {
            payload = payload;
            accepted = accepted;
            for_kid = refl;
            for_issuer = refl;
            filled = filled.0;
          };
          initiator = non_empty_string-IsFilled _ initiator hi;
          profile = parse_peer_profile-IsProfile outside lawful _ profile hp;
          responder = non_empty_string-IsFilled _ responder hr;
          responder_profile = parse_peer_profile-IsProfile outside lawful _ other ho;
          issuer = filled.1;
        })

module _ (outside : Outside) where
  pub pending_reread :
      (kid : String) (t : StoredTicket)
      → IsPending outside kid t
      → read_pairing_ticket outside kid (pairing_ticket_value t) ≡ some (kid, t)
  unfolding read_pairing_ticket pairing_ticket_value member as_number
  pending_reread kid t h = by_responder t.allow_responder_agent_did refl h.responder
    where
      by_responder :
          (r : Option String)
          → t.allow_responder_agent_did ≡ r
          → IsOptional r
          → read_pairing_ticket outside kid (
              object (
                fields (
                  ("ticket", text t.ticket)
                  ∷ ("initiatorAgentDid", text t.initiator_agent_did)
                  ∷ ("initiatorProfile", peer_profile_value t.initiator_profile)
                  ∷ ("issuerProxyUrl", text t.issuer_proxy_url)
                  ∷ ("expiresAtMs", number t.expires_at_ms)
                  ∷ (("publicKeyX", text t.public_key_x)
                      ∷ optional_field "allowResponderAgentDid" r))))
            ≡ some (kid, t)
      by_responder none e k =
          rw
            (
              profile_reread outside t.initiator_profile h.profile,
              non_empty_string-text t.initiator_agent_did h.initiator,
              non_empty_string-text t.issuer_proxy_url h.issuer,
              non_empty_string-text t.public_key_x h.key_x,
              non_empty_string-text t.ticket h.ticket.filled,
              h.ticket.accepted,
            )
            (ground (arith, e, h.ticket.for_kid, h.ticket.for_issuer))
      by_responder (some s) e k =
          rw
            (
              profile_reread outside t.initiator_profile h.profile,
              non_empty_string-text t.initiator_agent_did h.initiator,
              non_empty_string-text t.issuer_proxy_url h.issuer,
              non_empty_string-text t.public_key_x h.key_x,
              non_empty_string-text t.ticket h.ticket.filled,
              non_empty_string-text s k,
              h.ticket.accepted,
            )
            (ground (arith, e, h.ticket.for_kid, h.ticket.for_issuer))

  pub confirmed_reread :
      (kid : String) (t : ConfirmedTicket)
      → IsConfirmed outside kid t
      → read_confirmed_ticket outside kid (confirmed_ticket_value t) ≡ some (kid, t)
  unfolding read_confirmed_ticket confirmed_ticket_value member as_number
  confirmed_reread kid t h =
      rw
        (
          profile_reread outside t.pair.initiator_profile h.profile,
          profile_reread outside t.pair.responder_profile h.responder_profile,
          non_empty_string-text t.pair.initiator_agent_did h.initiator,
          non_empty_string-text t.pair.responder_agent_did h.responder,
          non_empty_string-text t.pair.issuer_proxy_url h.issuer,
          non_empty_string-text t.ticket h.ticket.filled,
          h.ticket.accepted,
        )
        (ground (arith, h.ticket.for_kid, h.ticket.for_issuer))
