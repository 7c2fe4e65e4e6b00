-- ===== src/Proxy/TrustState/Handlers/Scheduled.antt =====
-- Every request keeps the alarm at the earliest expiry of what is stored.
use clawdentity.Shared.{
  ℕ, String, false, nat_eq, ◌+◌, ◌≡◌, refl, ap, ◌∙◌, Option, none, some, arith, Bool-cases,
  Option-cases, inl, inr,
}
use clawdentity.Shared.Dict.{set-IsDistinct, All-set}
use clawdentity.Shared.Text.{trim, is_empty}
use clawdentity.Shared.Json.{Value, member, non_empty_string, as_number}
use clawdentity.Proxy.Trust.Types.{revoked_agent_marker_ttl_ms}
use clawdentity.Proxy.TrustState.Utils.{Outside}
use clawdentity.Proxy.TrustState.Storage.{
  Storage, save_pairs, save_agent_peers, load_revoked_agents, load_pairing_tickets,
  load_confirmed_pairing_tickets, load_expirable_state, prune_expired_revoked_agents,
}
use clawdentity.Proxy.TrustState.Storage.Canonical.{trimmed, non_empty_string-IsFilled, >>=-eq-some}
use clawdentity.Proxy.TrustState.Storage.Saved.{IsRevoked, load-AreRevoked}
use clawdentity.Proxy.TrustState.Storage.Scheduled.{
  IsScheduled, save_revoked-IsScheduled, prune-AreRevoked,
}
use clawdentity.Proxy.TrustState.Handlers.{
  read_pair, save_pair, handle_upsert_pair, handle_is_pair_allowed, handle_is_agent_known, positive,
  read_agent_did, read_revocation, handle_mark_agent_revoked, read_revoked_check,
  handle_is_agent_revoked,
}

positive_lem :
    (default : ℕ) (v : Option Value) (n : ℕ)
    → nat_eq default 0 ≡ false
    → positive default v ≡ some n
    → nat_eq n 0 ≡ false
unfolding positive
positive_lem default none n d h = ground (arith, h)
positive_lem default (some v) n d h =
    let (m, hm, h1) = >>=-eq-some (as_number (some v)) _ h in ground (arith, h1)

module _ (outside : Outside) where
  pub save_pair-IsScheduled :
      (initiator responder : String) (st : Storage)
      → IsScheduled outside st
      → IsScheduled outside (save_pair initiator responder st)
  unfolding save_pair save_pairs save_agent_peers load_expirable_state load_pairing_tickets
      load_confirmed_pairing_tickets load_revoked_agents
  save_pair-IsScheduled initiator responder st h = h

  pub upsert-IsScheduled :
      (body : Option Value) (st : Storage)
      → IsScheduled outside st
      → IsScheduled outside (handle_upsert_pair body st).0
  unfolding handle_upsert_pair
  upsert-IsScheduled body st h = elim (Option-cases (read_pair body)) [
    | inl e ↦ rw (e, handle_upsert_pair) h
    | inr (p, e) ↦ rw (e, handle_upsert_pair) (save_pair-IsScheduled p.0 p.1 st h)
  ]

  pub check-IsScheduled :
      (body : Option Value) (st : Storage)
      → IsScheduled outside st
      → IsScheduled outside (handle_is_pair_allowed body st).0
  unfolding handle_is_pair_allowed
  check-IsScheduled body st h = elim (Option-cases (read_pair body)) [
    | inl e ↦ rw (e, handle_is_pair_allowed) h
    | inr (p, e) ↦ rw (e, handle_is_pair_allowed) h
  ]

  pub known-IsScheduled :
      (body : Option Value) (st : Storage)
      → IsScheduled outside st
      → IsScheduled outside (handle_is_agent_known body st).0
  unfolding handle_is_agent_known
  known-IsScheduled body st h = elim (Option-cases (non_empty_string (member body "agentDid"))) [
    | inl e ↦ rw (e, handle_is_agent_known) h
    | inr (p, e) ↦ rw (e, handle_is_agent_known) h
  ]

  -- A revocation that is written has an agent and an end.
  revocation-IsRevoked :
      (clock : ℕ) (body : Option Value) (r : String × ℕ × ℕ)
      → read_revocation outside clock body ≡ some r
      → IsRevoked (r.0, r.2)
  unfolding read_revocation read_agent_did
  revocation-IsRevoked clock body r h =
      let (did, hd, h1) = >>=-eq-some (read_agent_did outside body) _ h in
      let (now, hn, h2) = >>=-eq-some (positive clock (member body "nowMs")) _ h1 in
      let (ttl, ht, h3) =
        >>=-eq-some (positive revoked_agent_marker_ttl_ms (member body "ttlMs")) _ h2 in
      let (s, hs, h4) = >>=-eq-some (non_empty_string (member body "agentDid")) _ hd in
      let filled = trimmed s (non_empty_string-IsFilled (member body "agentDid") s hs) in
      let from : did ≡ trim s = ground (arith, h4) in
      let end : r ≡ (did, now, now + ttl) = ground (arith, h3) in
      let more = positive_lem revoked_agent_marker_ttl_ms (member body "ttlMs") ttl refl ht in
      (ap (λ x. is_empty (trim x)) (ap (λ x. x.0) end ∙ from) ∙ filled.1, ground (arith, end, more))

  pub mark-IsScheduled :
      (clock : ℕ) (body : Option Value) (st : Storage)
      → IsScheduled outside st
      → IsScheduled outside (handle_mark_agent_revoked outside clock body st).0
  unfolding handle_mark_agent_revoked
  mark-IsScheduled clock body st h = elim (Option-cases (read_revocation outside clock body)) [
    | inl e ↦ rw (e, handle_mark_agent_revoked) h
    | inr (r, e) ↦
        let pruned = prune-AreRevoked (load_revoked_agents st) r.1 (load-AreRevoked st) in
        rw (e, handle_mark_agent_revoked)
          (save_revoked-IsScheduled outside _ st (
            All-set IsRevoked _ r.0 r.2 pruned.0 (revocation-IsRevoked clock body r e),
            set-IsDistinct _ r.0 r.2 pruned.1,
          ))
  ]

  pub revoked-IsScheduled :
      (clock : ℕ) (body : Option Value) (st : Storage)
      → IsScheduled outside st
      → IsScheduled outside (handle_is_agent_revoked outside clock body st).0
  unfolding handle_is_agent_revoked
  revoked-IsScheduled clock body st h =
      elim (Option-cases (read_revoked_check outside clock body)) [
        | inl e ↦ rw (e, handle_is_agent_revoked) h
        | inr (r, e) ↦
            elim (Bool-cases (prune_expired_revoked_agents (load_revoked_agents st) r.1).1) [
              | inl pruned ↦
                  rw (e, handle_is_agent_revoked, pruned)
                    (save_revoked-IsScheduled outside _ st
                      (prune-AreRevoked (load_revoked_agents st) r.1 (load-AreRevoked st)))
              | inr same ↦ rw (e, handle_is_agent_revoked, same) h
            ]
      ]
