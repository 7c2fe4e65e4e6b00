-- ===== src/Proxy/TrustState/Storage/Saved.antt =====
-- What is saved is loaded again, and the alarm fits what is stored.
use clawdentity.Shared.{
  ℕ, String, Bool, true, false, ◌≡◌, refl, Option, none, some, List, [], ◌∷◌, ◌>>=◌, All, subst,
  nat_eq, if◌then◌else◌,
}
use clawdentity.Shared.Dict.{Dict, IsDistinct}
use clawdentity.Shared.Json.{
  Value, text, number, array, object, fields, values, member, non_empty_string, as_number,
}
use clawdentity.Proxy.TrustState.Utils.{Outside}
use clawdentity.Proxy.TrustState.Storage.{
  Storage, ExpirableTrustState, put_entry, max_safe_integer, migrate_revoked, read_revoked,
  load_revoked_agents, save_revoked_agents, save_pairing_tickets, save_confirmed_pairing_tickets,
  load_pairing_tickets, load_confirmed_pairing_tickets, load_expirable_state, normalize_object,
}
use clawdentity.Proxy.TrustState.Storage.Entries.{
  pairing_ticket_value, confirmed_ticket_value, read_pairing_ticket, read_confirmed_ticket,
}
use clawdentity.Proxy.TrustState.Storage.Reload.{
  normalize_object-IsDistinct, normalize_object-map, normalize_object-All, put_entry-IsDistinct,
  put_entry-All,
}
use clawdentity.Proxy.TrustState.Storage.Canonical.{
  IsFilled, IsLawful, non_empty_string-text, non_empty_string-IsFilled, >>=-eq-some, some_inj,
}
use clawdentity.Proxy.TrustState.Storage.Rereads.{
  IsPending, IsConfirmed, read_pairing_ticket-IsPending, read_confirmed_ticket-IsConfirmed,
  pending_reread, confirmed_reread,
}

-- An agent that is revoked until a time after the beginning of time.
abbrev pub IsRevoked : String × ℕ → Type 0
IsRevoked e = IsFilled e.0 × (nat_eq e.1 0 ≡ false)

module _ {ℓ κ} {A : Type ℓ} {P : A → Type κ} {Q : A → Type κ} where
  All-map_of : (xs : List A) → ((x : A) → P x → Q x) → All P xs → All Q xs
  All-map_of [] f h = tt
  All-map_of (x ∷ xs) f (p, h) = (f x p, All-map_of xs f h)

read_revoked-IsRevoked :
    (k : String) (v : Value) (e : String × ℕ) → read_revoked k v ≡ some e → IsRevoked e
unfolding read_revoked
read_revoked-IsRevoked k v e h =
    let (did, hd, h1) = >>=-eq-some (non_empty_string (some (text k))) _ h in
    let (t, ht, h2) = >>=-eq-some (as_number (member (some v) "expiresAtMs")) _ h1 in
    by_zero did t (nat_eq t 0) refl h2 (non_empty_string-IsFilled (some (text k)) did hd)
  where
    by_zero :
        (did : String) (t : ℕ) (b : Bool)
        → nat_eq t 0 ≡ b
        → (if b then none else some (did, t)) ≡ some e
        → IsFilled did
        → IsRevoked e
    by_zero did t true z q f = cc
    by_zero did t false z q f = subst IsRevoked (some_inj _ e q) (f, z)

revoked_reread :
    (e : String × ℕ)
    → IsRevoked e
    → read_revoked e.0 (object (fields (("expiresAtMs", number e.1) ∷ []))) ≡ some e
unfolding read_revoked member as_number
revoked_reread (did, t) (f, z) = rw (non_empty_string-text did f, z) refl

migrated :
    (v : Value) (e : String × ℕ)
    → (do s ← non_empty_string (some v); some (s, max_safe_integer)) ≡ some e
    → IsRevoked e
migrated v e h =
    let (s, hs, h1) = >>=-eq-some (non_empty_string (some v)) _ h in
    subst IsRevoked (some_inj _ e h1) (non_empty_string-IsFilled (some v) s hs, refl)

abbrev pub AreRevoked : Dict ℕ → Type 0
AreRevoked m = All IsRevoked m × IsDistinct m

migrate_revoked-AreRevoked :
    (vs : List Value) (m : Dict ℕ) → AreRevoked m → AreRevoked (migrate_revoked vs m)
unfolding migrate_revoked
migrate_revoked-AreRevoked [] m h = h
migrate_revoked-AreRevoked (v ∷ vs) m (h, d) =
    let entry = (do s ← non_empty_string (some v); some (s, max_safe_integer)) in
    migrate_revoked-AreRevoked vs (put_entry entry m) (
      put_entry-All read_revoked IsRevoked read_revoked-IsRevoked entry m (migrated v) h,
      put_entry-IsDistinct read_revoked entry m d,
    )

pub load-AreRevoked : (st : Storage) → AreRevoked (load_revoked_agents st)
unfolding load_revoked_agents
load-AreRevoked st = by_value st.revoked_agents
  where
    of_object : (raw : Option Value) → AreRevoked (normalize_object read_revoked raw)
    of_object raw = (
      normalize_object-All read_revoked IsRevoked read_revoked-IsRevoked raw,
      normalize_object-IsDistinct read_revoked raw,
    )

    by_value :
        (raw : Option Value)
        → AreRevoked (elim raw [
          | some (array vs) ↦ migrate_revoked (values vs) []
          | other ↦ normalize_object read_revoked other
        ])
    by_value (some (array vs)) = migrate_revoked-AreRevoked (values vs) [] (tt, tt)
    by_value none = of_object none
    by_value (some (object fs)) = of_object (some (object fs))
    by_value (some (text s)) = of_object (some (text s))
    by_value (some (number n)) = of_object (some (number n))
    by_value (some Value.null) = of_object (some Value.null)
    by_value (some (Value.bool b)) = of_object (some (Value.bool b))

pub load-save_revoked :
    (m : Dict ℕ) (st : Storage) → AreRevoked m → load_revoked_agents (save_revoked_agents m st) ≡ m
unfolding load_revoked_agents save_revoked_agents
load-save_revoked m st (h, d) =
    normalize_object-map read_revoked (λ t. object (fields (("expiresAtMs", number t) ∷ []))) m
      (All-map_of m revoked_reread h) d

-- Tickets in the form in which the loads give them.
pub record AreCanonical (outside : Outside) (s : ExpirableTrustState) : Type 0 where
  pub pending : All (λ e. IsPending outside e.0 e.1) s.pairing_tickets
  pub pending_keys : IsDistinct s.pairing_tickets
  pub confirmed : All (λ e. IsConfirmed outside e.0 e.1) s.confirmed_pairing_tickets
  pub confirmed_keys : IsDistinct s.confirmed_pairing_tickets

module _ (outside : Outside) where
  pub load-AreCanonical :
      (st : Storage) → IsLawful outside → AreCanonical outside (load_expirable_state outside st)
  unfolding load_expirable_state load_pairing_tickets load_confirmed_pairing_tickets
  load-AreCanonical st lawful = record {
    pending =
        normalize_object-All (read_pairing_ticket outside) (λ e. IsPending outside e.0 e.1)
          (read_pairing_ticket-IsPending outside lawful) st.pairing_tickets;
    pending_keys = normalize_object-IsDistinct (read_pairing_ticket outside) st.pairing_tickets;
    confirmed =
        normalize_object-All (read_confirmed_ticket outside) (λ e. IsConfirmed outside e.0 e.1)
          (read_confirmed_ticket-IsConfirmed outside lawful) st.confirmed_pairing_tickets;
    confirmed_keys =
        normalize_object-IsDistinct (read_confirmed_ticket outside) st.confirmed_pairing_tickets;
  }

  pub load-save_pairing :
      (s : ExpirableTrustState) (st : Storage)
      → AreCanonical outside s
      → load_pairing_tickets outside (save_pairing_tickets s.pairing_tickets st) ≡ s.pairing_tickets
  unfolding load_pairing_tickets save_pairing_tickets
  load-save_pairing s st c =
      normalize_object-map (read_pairing_ticket outside) pairing_ticket_value s.pairing_tickets
        (All-map_of s.pairing_tickets (λ e h. pending_reread outside e.0 e.1 h) c.pending)
        c.pending_keys

  pub load-save_confirmed :
      (s : ExpirableTrustState) (st : Storage)
      → AreCanonical outside s
      → load_confirmed_pairing_tickets outside
          (save_confirmed_pairing_tickets s.confirmed_pairing_tickets st)
        ≡ s.confirmed_pairing_tickets
  unfolding load_confirmed_pairing_tickets save_confirmed_pairing_tickets
  load-save_confirmed s st c =
      normalize_object-map (read_confirmed_ticket outside) confirmed_ticket_value
        s.confirmed_pairing_tickets
        (All-map_of s.confirmed_pairing_tickets (λ e h. confirmed_reread outside e.0 e.1 h)
          c.confirmed)
        c.confirmed_keys
