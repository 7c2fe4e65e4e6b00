-- ===== src/Proxy/TrustState/Storage/Alarm.antt =====
-- What the alarm of the durable object leaves.
use clawdentity.Shared.{
  ℕ, ◌<◌, min, String, Bool, true, false, ◌≡◌, refl, sym, ap, ◌∙◌, Option, none, some, List, [],
  ◌∷◌, All, All-append, map, arith, subst, ltb, if◌then◌else◌, Bool-cases, inl, inr,
}
use clawdentity.Shared.Dict.{Dict, get, retain, keep_if, get-retain}
use clawdentity.Proxy.Trust.Types.{StoredTicket, ConfirmedTicket}
use clawdentity.Proxy.TrustState.Utils.{Outside}
use clawdentity.Proxy.TrustState.Storage.{
  Storage, ExpirableTrustState, load_revoked_agents, save_revoked_agents, save_expirable_state,
  earliest, expiry_values, schedule_next_code_cleanup, load_expirable_state,
  prune_expired_revoked_agents, remove_expired_entries, run_alarm_cleanup,
}
use clawdentity.Proxy.TrustState.Storage.Canonical.{IsLawful}
use clawdentity.Proxy.TrustState.Storage.Saved.{
  load-AreRevoked, load-save_revoked, load-AreCanonical,
}
use clawdentity.Proxy.TrustState.Storage.Scheduled.{
  expiries, IsScheduled, load-save_expirable, save_expirable-revoked, load-schedule,
  revoked-schedule, schedule-IsScheduled, load-save_revoked_agents, any_expired,
  remove-AreCanonical, prune-AreRevoked, prune_unchanged,
}

remove_unchanged :
    (s : ExpirableTrustState) (now : ℕ)
    → (remove_expired_entries s now).1 ≡ false
    → (remove_expired_entries s now).0 ≡ s
unfolding remove_expired_entries
remove_unchanged s now h = ground (
  arith,
  any_expired (λ (t : StoredTicket). t.expires_at_ms) now s.pairing_tickets,
  any_expired (λ (t : ConfirmedTicket). t.expires_at_ms) now s.confirmed_pairing_tickets,
)

earliest-lt :
    (now : ℕ) (ts : List ℕ) (t : ℕ) → All (λ u. now < u) ts → earliest ts ≡ some t → now < t
unfolding earliest
earliest-lt now [] t h e = cc
earliest-lt now (u ∷ ts) t (p, h) e = by_rest (earliest ts) (earliest-lt now ts) e
  where
    by_rest :
        (o : Option ℕ)
        → ((w : ℕ) → All (λ v. now < v) ts → o ≡ some w → now < w)
        → (elim o [ none ↦ some u | some w ↦ some (min u w) ]) ≡ some t
        → now < t
    by_rest none rest e' = ground (arith, p)
    by_rest (some w) rest e' = ground (arith, p, rest w h refl)

later_only {ℓ} :
    {T : Type ℓ} (at : T → ℕ) (now : ℕ) (m : Dict T)
    → All (λ t. now < t) (map (λ e. at e.1) (retain (λ k v. ltb now (at v)) m))
unfolding retain
later_only at now [] = tt
later_only at now ((k, v) ∷ m) = elim (Bool-cases (ltb now (at v))) [
  | inl live ↦ rw live (ground (arith, live), later_only at now m)
  | inr past ↦ rw past (later_only at now m)
]

module _ (outside : Outside) (lawful : IsLawful outside) (now : ℕ) (st : Storage) where
  s : ExpirableTrustState
  s = (remove_expired_entries (load_expirable_state outside st) now).0

  revoked : Dict ℕ
  revoked = (prune_expired_revoked_agents (load_revoked_agents st) now).0

  saved : Bool → Storage
  saved mutated = if mutated then save_expirable_state true true s st else st

  saved-load :
      (b : Bool)
      → (remove_expired_entries (load_expirable_state outside st) now).1 ≡ b
      → load_expirable_state outside (saved b) ≡ s
  unfolding saved s
  saved-load true e =
      load-save_expirable outside true true s st
        (remove-AreCanonical outside (load_expirable_state outside st) now
          (load-AreCanonical outside st lawful))
        (λ h. cc) (λ h. cc)
  saved-load false e = sym (remove_unchanged (load_expirable_state outside st) now e)

  saved-revoked : (b : Bool) → load_revoked_agents (saved b) ≡ load_revoked_agents st
  unfolding saved
  saved-revoked true = save_expirable-revoked outside true true s st
  saved-revoked false = refl

  both : Bool → Storage → Storage
  both mutated st' = if mutated then save_revoked_agents revoked st' else st'

  both-load :
      (b : Bool) (st' : Storage)
      → load_expirable_state outside (both b st') ≡ load_expirable_state outside st'
  unfolding both
  both-load true st' = load-save_revoked_agents outside revoked st'
  both-load false st' = refl

  both-revoked :
      (b : Bool) (st' : Storage)
      → (prune_expired_revoked_agents (load_revoked_agents st) now).1 ≡ b
      → load_revoked_agents st' ≡ load_revoked_agents st
      → load_revoked_agents (both b st') ≡ revoked
  unfolding both revoked
  both-revoked true st' e f =
      load-save_revoked revoked st'
        (prune-AreRevoked (load_revoked_agents st) now (load-AreRevoked st))
  both-revoked false st' e f = f ∙ sym (prune_unchanged (load_revoked_agents st) now e)

  before_alarm : Storage
  before_alarm =
      both (prune_expired_revoked_agents (load_revoked_agents st) now).1
        (saved (remove_expired_entries (load_expirable_state outside st) now).1)

  before-load : load_expirable_state outside before_alarm ≡ s
  unfolding before_alarm
  before-load =
      both-load (prune_expired_revoked_agents (load_revoked_agents st) now).1 _
      ∙ saved-load (remove_expired_entries (load_expirable_state outside st) now).1 refl

  before-revoked : load_revoked_agents before_alarm ≡ revoked
  unfolding before_alarm
  before-revoked =
      both-revoked (prune_expired_revoked_agents (load_revoked_agents st) now).1 _ refl
        (saved-revoked (remove_expired_entries (load_expirable_state outside st) now).1)

  cleanup-eq :
      run_alarm_cleanup outside now st
      ≡ schedule_next_code_cleanup s.pairing_tickets s.confirmed_pairing_tickets revoked
          before_alarm
  unfolding run_alarm_cleanup s revoked saved both before_alarm
  cleanup-eq = refl

  after-load : load_expirable_state outside (run_alarm_cleanup outside now st) ≡ s
  after-load =
      ap (load_expirable_state outside) cleanup-eq
      ∙ load-schedule outside s.pairing_tickets s.confirmed_pairing_tickets revoked before_alarm
      ∙ before-load

  after-revoked : load_revoked_agents (run_alarm_cleanup outside now st) ≡ revoked
  after-revoked =
      ap load_revoked_agents cleanup-eq
      ∙ revoked-schedule outside s.pairing_tickets s.confirmed_pairing_tickets revoked before_alarm
      ∙ before-revoked

  pub cleanup-IsScheduled : IsScheduled outside (run_alarm_cleanup outside now st)
  cleanup-IsScheduled =
      subst (IsScheduled outside) (sym cleanup-eq)
        (schedule-IsScheduled outside s revoked before_alarm before-load before-revoked)

  all_later : All (λ t. now < t) (expiries s revoked)
  unfolding s revoked expiry_values remove_expired_entries prune_expired_revoked_agents
  all_later =
      let s' = load_expirable_state outside st in
      All-append (λ t. now < t) _ _
        (later_only (λ (t : StoredTicket). t.expires_at_ms) now s'.pairing_tickets)
        (All-append (λ t. now < t) _ _
          (later_only (λ (t : ConfirmedTicket). t.expires_at_ms) now s'.confirmed_pairing_tickets)
          (later_only (λ (t : ℕ). t) now (load_revoked_agents st)))

  -- After the alarm, whatever the storage held: each ticket and each revocation that is not past is
  -- found as before, no other is found, and the next alarm, if there is one, is later than now.
  pub alarm-Cleans :
      let st' = run_alarm_cleanup outside now st in
      ((kid : String)
        → get (load_expirable_state outside st').pairing_tickets kid
          ≡ keep_if
              (λ t. ltb now t.expires_at_ms)
              (get (load_expirable_state outside st).pairing_tickets kid))
      × ((kid : String)
          → get (load_expirable_state outside st').confirmed_pairing_tickets kid
            ≡ keep_if
                (λ t. ltb now t.expires_at_ms)
                (get (load_expirable_state outside st).confirmed_pairing_tickets kid))
      × ((did : String)
          → get (load_revoked_agents st') did
            ≡ keep_if (λ t. ltb now t) (get (load_revoked_agents st) did))
      × ((t : ℕ) → st'.alarm ≡ some t → now < t)
  unfolding s revoked remove_expired_entries prune_expired_revoked_agents
  alarm-Cleans =
      let c = load-AreCanonical outside st lawful in
      (
        (λ kid.
            ap (λ x. get x.pairing_tickets kid) after-load
            ∙ get-retain _ (load_expirable_state outside st).pairing_tickets kid c.pending_keys),
        (λ kid.
            ap (λ x. get x.confirmed_pairing_tickets kid) after-load
            ∙ get-retain _ (load_expirable_state outside st).confirmed_pairing_tickets kid
                c.confirmed_keys),
        (λ did.
            ap (λ x. get x did) after-revoked
            ∙ get-retain _ (load_revoked_agents st) did (load-AreRevoked st).1),
        (λ t e. earliest-lt now (expiries s revoked) t all_later (
            sym (
              ap
                (λ x.
                  earliest (expiries x (load_revoked_agents (run_alarm_cleanup outside now st))))
                after-load
              ∙ ap (λ x. earliest (expiries s x)) after-revoked)
            ∙ sym cleanup-IsScheduled
            ∙ e)),
      )
