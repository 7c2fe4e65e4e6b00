-- ===== src/Proxy/TrustState/Storage/Scheduled.antt =====
-- The alarm stands at the earliest expiry of what is stored.
use clawdentity.Shared.{
  ℕ, Bool, true, false, ◌≡◌, refl, sym, ap, ◌∙◌, List, [], ◌∷◌, All, arith, ltb, leb, any,
}
use clawdentity.Shared.Dict.{Dict, retain, retain-IsDistinct, All-retain, retain-All}
use clawdentity.Proxy.Trust.Types.{StoredTicket, ConfirmedTicket}
use clawdentity.Proxy.TrustState.Utils.{Outside}
use clawdentity.Proxy.TrustState.Storage.{
  Storage, ExpirableTrustState, load_revoked_agents, save_revoked_agents, save_pairing_tickets,
  save_confirmed_pairing_tickets, save_expirable_state, earliest, expiry_values,
  schedule_next_code_cleanup, load_pairing_tickets, load_confirmed_pairing_tickets,
  load_expirable_state, save_expirable_state_and_schedule, save_revoked_agents_and_schedule,
  prune_expired_revoked_agents, remove_expired_entries,
}
use clawdentity.Proxy.TrustState.Storage.Rereads.{IsPending, IsConfirmed}
use clawdentity.Proxy.TrustState.Storage.Saved.{
  IsRevoked, AreRevoked, load-save_revoked, AreCanonical, load-save_pairing, load-save_confirmed,
}

abbrev pub expiries : ExpirableTrustState → Dict ℕ → List ℕ
expiries s revoked = expiry_values s.pairing_tickets s.confirmed_pairing_tickets revoked

-- No alarm if nothing expires, and else an alarm at the earliest expiry.
abbrev pub IsScheduled : Outside → Storage → Type 0
IsScheduled outside st =
    st.alarm ≡ earliest (expiries (load_expirable_state outside st) (load_revoked_agents st))

module _ (outside : Outside) where
  -- A map that is not saved is the stored one.
  pub load-save_expirable :
      (pending confirmed : Bool) (s : ExpirableTrustState) (st : Storage)
      → AreCanonical outside s
      → (pending ≡ false → s.pairing_tickets ≡ load_pairing_tickets outside st)
      → (confirmed ≡ false
          → s.confirmed_pairing_tickets ≡ load_confirmed_pairing_tickets outside st)
      → load_expirable_state outside (save_expirable_state pending confirmed s st) ≡ s
  unfolding load_expirable_state save_expirable_state load_pairing_tickets
      load_confirmed_pairing_tickets save_pairing_tickets save_confirmed_pairing_tickets
  load-save_expirable true true s st c p q =
      ground (arith, load-save_pairing outside s st c, load-save_confirmed outside s st c)
  load-save_expirable true false s st c p q =
      ground (arith, load-save_pairing outside s st c, q refl)
  load-save_expirable false true s st c p q =
      ground (arith, p refl, load-save_confirmed outside s st c)
  load-save_expirable false false s st c p q = ground (arith, p refl, q refl)

  pub save_expirable-revoked :
      (pending confirmed : Bool) (s : ExpirableTrustState) (st : Storage)
      → load_revoked_agents (save_expirable_state pending confirmed s st) ≡ load_revoked_agents st
  unfolding save_expirable_state save_pairing_tickets save_confirmed_pairing_tickets
      load_revoked_agents
  save_expirable-revoked true true s st = refl
  save_expirable-revoked true false s st = refl
  save_expirable-revoked false true s st = refl
  save_expirable-revoked false false s st = refl

  pub load-schedule :
      (p : Dict StoredTicket) (c : Dict ConfirmedTicket) (r : Dict ℕ) (st : Storage)
      → load_expirable_state outside (schedule_next_code_cleanup p c r st)
        ≡ load_expirable_state outside st
  unfolding load_expirable_state load_pairing_tickets load_confirmed_pairing_tickets
      schedule_next_code_cleanup
  load-schedule p c r st = refl

  pub revoked-schedule :
      (p : Dict StoredTicket) (c : Dict ConfirmedTicket) (r : Dict ℕ) (st : Storage)
      → load_revoked_agents (schedule_next_code_cleanup p c r st) ≡ load_revoked_agents st
  unfolding load_revoked_agents schedule_next_code_cleanup
  revoked-schedule p c r st = refl

  -- Scheduling by what is stored.
  pub schedule-IsScheduled :
      (s : ExpirableTrustState) (r : Dict ℕ) (st : Storage)
      → load_expirable_state outside st ≡ s
      → load_revoked_agents st ≡ r
      → IsScheduled outside
          (schedule_next_code_cleanup s.pairing_tickets s.confirmed_pairing_tickets r st)
  schedule-IsScheduled s r st e f =
      let at : (schedule_next_code_cleanup s.pairing_tickets s.confirmed_pairing_tickets r st).alarm
          ≡ earliest (expiries s r) =
        unfold schedule_next_code_cleanup in refl in
      at
      ∙ sym (
          ap
            (λ s'. earliest (
              expiries s' (
                load_revoked_agents
                  (schedule_next_code_cleanup s.pairing_tickets s.confirmed_pairing_tickets r st))))
            (load-schedule s.pairing_tickets s.confirmed_pairing_tickets r st ∙ e)
          ∙ ap (λ r'. earliest (expiries s r'))
              (revoked-schedule s.pairing_tickets s.confirmed_pairing_tickets r st ∙ f))

  pub save_and_schedule-IsScheduled :
      (pending confirmed : Bool) (s : ExpirableTrustState) (st : Storage)
      → AreCanonical outside s
      → (pending ≡ false → s.pairing_tickets ≡ load_pairing_tickets outside st)
      → (confirmed ≡ false
          → s.confirmed_pairing_tickets ≡ load_confirmed_pairing_tickets outside st)
      → IsScheduled outside (save_expirable_state_and_schedule outside pending confirmed s st)
  unfolding save_expirable_state_and_schedule
  save_and_schedule-IsScheduled pending confirmed s st c p q =
      let st' = save_expirable_state pending confirmed s st in
      schedule-IsScheduled s (load_revoked_agents st') st'
        (load-save_expirable pending confirmed s st c p q) refl

  pub load-save_revoked_agents :
      (m : Dict ℕ) (st : Storage)
      → load_expirable_state outside (save_revoked_agents m st) ≡ load_expirable_state outside st
  unfolding load_expirable_state load_pairing_tickets load_confirmed_pairing_tickets
      save_revoked_agents
  load-save_revoked_agents m st = refl

  pub save_revoked-IsScheduled :
      (m : Dict ℕ) (st : Storage)
      → AreRevoked m
      → IsScheduled outside (save_revoked_agents_and_schedule outside m st)
  unfolding save_revoked_agents_and_schedule
  save_revoked-IsScheduled m st h =
      let st' = save_revoked_agents m st in
      schedule-IsScheduled (load_expirable_state outside st') m st' refl (load-save_revoked m st h)

none_expired {ℓ} :
    {T : Type ℓ} (at : T → ℕ) (now : ℕ) (m : Dict T)
    → any (λ e. leb (at e.1) now) m ≡ false
    → All (λ e. ltb now (at e.1) ≡ true) m
unfolding any
none_expired at now [] q = tt
none_expired at now ((k, v) ∷ n) q = ground (arith, none_expired at now n)

-- Nothing is deleted if no entry has expired.
pub any_expired {ℓ} :
    {T : Type ℓ} (at : T → ℕ) (now : ℕ) (m : Dict T)
    → any (λ e. leb (at e.1) now) m ≡ false
    → retain (λ k v. ltb now (at v)) m ≡ m
any_expired at now m h = retain-All (λ k v. ltb now (at v)) m (none_expired at now m h)

pub remove-AreCanonical :
    (outside : Outside) (s : ExpirableTrustState) (now : ℕ)
    → AreCanonical outside s
    → AreCanonical outside (remove_expired_entries s now).0
unfolding remove_expired_entries
remove-AreCanonical outside s now c = record {
  pending = All-retain (λ e. IsPending outside e.0 e.1) _ s.pairing_tickets c.pending;
  pending_keys = retain-IsDistinct _ s.pairing_tickets c.pending_keys;
  confirmed =
      All-retain (λ e. IsConfirmed outside e.0 e.1) _ s.confirmed_pairing_tickets c.confirmed;
  confirmed_keys = retain-IsDistinct _ s.confirmed_pairing_tickets c.confirmed_keys;
}

pub prune-AreRevoked :
    (m : Dict ℕ) (now : ℕ) → AreRevoked m → AreRevoked (prune_expired_revoked_agents m now).0
unfolding prune_expired_revoked_agents
prune-AreRevoked m now (h, d) = (All-retain IsRevoked _ m h, retain-IsDistinct _ m d)

pub prune_unchanged :
    (m : Dict ℕ) (now : ℕ)
    → (prune_expired_revoked_agents m now).1 ≡ false
    → (prune_expired_revoked_agents m now).0 ≡ m
unfolding prune_expired_revoked_agents
prune_unchanged m now h = any_expired (λ t. t) now m h
