-- ===== src/Proxy/TrustState/Storage.antt =====
-- apps/proxy/src/proxy-trust-state/storage.ts: the object's five stored values, read as values of
-- unknown shape, and the alarm that removes what has expired.
pub mod Entries
pub mod Reload
pub mod Canonical
pub mod Rereads
pub mod Saved
pub mod Scheduled
pub mod Alarm
pub mod Pairs
use clawdentity.Shared.{
  ℕ, zero, min, String, Bool, true, false, not, ◌||◌, ◌^◌, ◌-◌, Option, none, some, List, [], ◌∷◌,
  ◌++◌, map, ◌>>=◌, any, leb, ltb, nat_eq, if◌then◌else◌,
}
use clawdentity.Shared.Dict.{Dict, set, retain}
use clawdentity.Shared.Json.{
  Value, array, object, text, number, values, items, fields, entries, member, non_empty_string,
  as_number,
}
use clawdentity.Proxy.Trust.Types.{StoredTicket, ConfirmedTicket}
use clawdentity.Proxy.Trust.Store.{add}
use clawdentity.Proxy.TrustState.Utils.{Outside, sort}
use Entries.{
  read_pairing_ticket, read_confirmed_ticket, pairing_ticket_value, confirmed_ticket_value,
}

pub record Storage : Type 0 where
  pub pairs : Option Value
  pub agent_peers : Option Value
  pub revoked_agents : Option Value
  pub pairing_tickets : Option Value
  pub confirmed_pairing_tickets : Option Value
  pub alarm : Option ℕ

abbrev pub empty_storage : Storage
empty_storage = record {
  pairs = none;
  agent_peers = none;
  revoked_agents = none;
  pairing_tickets = none;
  confirmed_pairing_tickets = none;
  alarm = none;
}

pub record ExpirableTrustState : Type 0 where
  pub pairing_tickets : Dict StoredTicket
  pub confirmed_pairing_tickets : Dict ConfirmedTicket

unfoldable pub put_entry {ℓ} : {V : Type ℓ} → Option (String × V) → Dict V → Dict V
put_entry none m = m
put_entry (some (k, v)) m = set m k v

-- The loops over `Object.entries` that fill `normalized`.
unfoldable pub normalize {ℓ} :
    {V : Type ℓ} → (String → Value → Option (String × V)) → List (String × Value) → Dict V → Dict V
unfolding put_entry
normalize read [] m = m
normalize read ((k, v) ∷ es) m = normalize read es (put_entry (read k v) m)

unfoldable pub normalize_object {ℓ} :
    {V : Type ℓ} → (String → Value → Option (String × V)) → Option Value → Dict V
unfolding normalize entries
normalize_object read none = []
normalize_object read (some v) = elim (entries v) [ none ↦ [] | some es ↦ normalize read es [] ]

texts_in : List Value → List String
texts_in [] = []
texts_in (text s ∷ vs) = s ∷ texts_in vs
texts_in (_ ∷ vs) = texts_in vs

-- `new Set` of an array.
unfoldable pub to_set : List String → List String → List String
to_set [] seen = seen
to_set (k ∷ ks) seen = to_set ks (add seen k)

unfoldable pub load_pairs : Storage → List String
unfolding to_set texts_in
load_pairs st = elim st.pairs [ some (array vs) ↦ to_set (texts_in (values vs)) [] | _ ↦ [] ]

unfoldable pub save_pairs : List String → Storage → Storage
save_pairs keys st = record st { pairs = some (array (items (map (λ k. text k) (sort keys)))) }

non_empty_in : List Value → List String
unfolding non_empty_string
non_empty_in [] = []
non_empty_in (v ∷ vs) = elim (non_empty_string (some v)) [
  | none ↦ non_empty_in vs
  | some s ↦ s ∷ non_empty_in vs
]

unfoldable pub read_peers : String → Value → Option (String × List String)
unfolding non_empty_in
read_peers did (array vs) = some (did, non_empty_in (values vs))
read_peers did _ = none

unfoldable pub load_agent_peers : Storage → Dict (List String)
unfolding normalize_object read_peers
load_agent_peers st = normalize_object read_peers st.agent_peers

unfoldable pub save_agent_peers : Dict (List String) → Storage → Storage
save_agent_peers peers st = record st {
  agent_peers =
      some (object (fields (map (λ e. (e.0, array (items (map (λ k. text k) e.1)))) peers)));
}

-- `Number.MAX_SAFE_INTEGER`
abbrev pub max_safe_integer : ℕ
max_safe_integer = 2 ^ 53 - 1

-- An array of revoked agents, as an earlier version stored it.
unfoldable pub migrate_revoked : List Value → Dict ℕ → Dict ℕ
unfolding non_empty_string
migrate_revoked [] m = m
migrate_revoked (v ∷ vs) m =
    let entry = (do s ← non_empty_string (some v); some (s, max_safe_integer)) in
    migrate_revoked vs (put_entry entry m)

unfoldable pub read_revoked : String → Value → Option (String × ℕ)
unfolding non_empty_string member as_number
read_revoked did details = do
  did' ← non_empty_string (some (text did))
  expires_at_ms ← as_number (member (some details) "expiresAtMs")
  if nat_eq expires_at_ms 0 then none else some (did', expires_at_ms)

unfoldable pub load_revoked_agents : Storage → Dict ℕ
unfolding migrate_revoked normalize_object read_revoked
load_revoked_agents st = elim st.revoked_agents [
  | some (array vs) ↦ migrate_revoked (values vs) []
  | other ↦ normalize_object read_revoked other
]

unfoldable pub revoked_value : Dict ℕ → Value
revoked_value m =
    object (fields (map (λ e. (e.0, object (fields (("expiresAtMs", number e.1) ∷ [])))) m))

unfoldable pub save_revoked_agents : Dict ℕ → Storage → Storage
unfolding revoked_value
save_revoked_agents m st = record st { revoked_agents = some (revoked_value m) }

-- The pruned map and whether an entry was deleted.
unfoldable pub prune_expired_revoked_agents : Dict ℕ → ℕ → Dict ℕ × Bool
prune_expired_revoked_agents m now = (retain (λ did t. ltb now t) m, any (λ e. leb e.1 now) m)

unfoldable pub remove_expired_entries : ExpirableTrustState → ℕ → ExpirableTrustState × Bool
remove_expired_entries s now = (
  record {
    pairing_tickets = retain (λ kid t. ltb now t.expires_at_ms) s.pairing_tickets;
    confirmed_pairing_tickets =
        retain (λ kid t. ltb now t.expires_at_ms) s.confirmed_pairing_tickets;
  },
  any (λ e. leb e.1.expires_at_ms now) s.pairing_tickets
      || any (λ e. leb e.1.expires_at_ms now) s.confirmed_pairing_tickets,
)

unfoldable pub save_pairing_tickets : Dict StoredTicket → Storage → Storage
save_pairing_tickets m st = record st {
  pairing_tickets = some (object (fields (map (λ e. (e.0, pairing_ticket_value e.1)) m)));
}

unfoldable pub save_confirmed_pairing_tickets : Dict ConfirmedTicket → Storage → Storage
save_confirmed_pairing_tickets m st = record st {
  confirmed_pairing_tickets =
      some (object (fields (map (λ e. (e.0, confirmed_ticket_value e.1)) m)));
}

-- `saveExpirableState`, with its two options.
unfoldable pub save_expirable_state : Bool → Bool → ExpirableTrustState → Storage → Storage
unfolding save_pairing_tickets save_confirmed_pairing_tickets
save_expirable_state pending confirmed s st =
    let st' = if pending then save_pairing_tickets s.pairing_tickets st else st in
    if confirmed then save_confirmed_pairing_tickets s.confirmed_pairing_tickets st' else st'

-- `Math.min` of the values; `none` if there is none.
unfoldable pub earliest : List ℕ → Option ℕ
earliest [] = none
earliest (t ∷ ts) = elim (earliest ts) [ none ↦ some t | some u ↦ some (min t u) ]

unfoldable pub expiry_values : Dict StoredTicket → Dict ConfirmedTicket → Dict ℕ → List ℕ
expiry_values pending confirmed revoked =
    map (λ e. e.1.expires_at_ms) pending
    ++ (map (λ e. e.1.expires_at_ms) confirmed ++ map (λ e. e.1) revoked)

unfoldable pub schedule_next_code_cleanup :
    Dict StoredTicket → Dict ConfirmedTicket → Dict ℕ → Storage → Storage
unfolding earliest expiry_values
schedule_next_code_cleanup pending confirmed revoked st = record st {
  alarm = earliest (expiry_values pending confirmed revoked);
}

module _ (outside : Outside) where
  unfoldable pub load_pairing_tickets : Storage → Dict StoredTicket
  unfolding normalize_object
  load_pairing_tickets st = normalize_object (read_pairing_ticket outside) st.pairing_tickets

  unfoldable pub load_confirmed_pairing_tickets : Storage → Dict ConfirmedTicket
  unfolding normalize_object
  load_confirmed_pairing_tickets st =
      normalize_object (read_confirmed_ticket outside) st.confirmed_pairing_tickets

  unfoldable pub load_expirable_state : Storage → ExpirableTrustState
  load_expirable_state st = record {
    pairing_tickets = load_pairing_tickets st;
    confirmed_pairing_tickets = load_confirmed_pairing_tickets st;
  }

  unfoldable pub save_expirable_state_and_schedule :
      Bool → Bool → ExpirableTrustState → Storage → Storage
  save_expirable_state_and_schedule pending confirmed s st =
      let st' = save_expirable_state pending confirmed s st in
      schedule_next_code_cleanup s.pairing_tickets s.confirmed_pairing_tickets
        (load_revoked_agents st') st'

  unfoldable pub save_revoked_agents_and_schedule : Dict ℕ → Storage → Storage
  save_revoked_agents_and_schedule m st =
      let st' = save_revoked_agents m st in
      let s = load_expirable_state st' in
      schedule_next_code_cleanup s.pairing_tickets s.confirmed_pairing_tickets m st'

  unfoldable pub run_alarm_cleanup : ℕ → Storage → Storage
  run_alarm_cleanup now st =
      let (s, mutated) = remove_expired_entries (load_expirable_state st) now in
      let (revoked, revoked_mutated) = prune_expired_revoked_agents (load_revoked_agents st) now in
      let st' = if mutated then save_expirable_state true true s st else st in
      let st'' = if revoked_mutated then save_revoked_agents revoked st' else st' in
      schedule_next_code_cleanup s.pairing_tickets s.confirmed_pairing_tickets revoked st''
