-- ===== src/Proxy/Trust/System/Invariant.antt =====
-- What holds of the trust store after any calls, and the changes of its state that keep it.
use clawdentity.Shared.{
  any, ℕ, ◌≡◌, refl, ◌⊎◌, inl, inr, String, true, Option, none, List, arith, eq_iff, eq_refl,
}
use clawdentity.Shared.Dict.{
  Dict, get, set, delete, IsDistinct, get-set, get-delete, get-retain-none, retain-IsDistinct,
  set-IsDistinct, delete-IsDistinct,
}
use clawdentity.Proxy.Trust.Types.{TrustState, StoredTicket, ConfirmedTicket, empty_trust}
use clawdentity.Proxy.Trust.Keys.{to_pair_key, to_pair_key_comm}
use clawdentity.Proxy.Trust.Store.{cleanup, peers_of, upsert_pair, has}
use clawdentity.Proxy.Trust.Store.Pairs.{is_peer, upsert_pair-keys, upsert_pair-peers}

-- No ticket twice, and none both pending and confirmed.
pub record IsExclusive (pairing : Dict StoredTicket) (confirmed : Dict ConfirmedTicket)
    : Type 0 where
  pub pending_once : IsDistinct pairing
  pub confirmed_once : IsDistinct confirmed
  pub apart : (kid : String) → (get pairing kid ≡ none) ⊎ (get confirmed kid ≡ none)

-- To be a peer goes both ways, and the key of two peers is among the keys of the allowed pairs.
pub record IsPaired (keys : List String) (peers : Dict (List String)) : Type 0 where
  pub both_ways : (i j : String) → is_peer peers i j ≡ true → is_peer peers j i ≡ true
  pub keyed : (i j : String) → is_peer peers i j ≡ true → has keys (to_pair_key i j) ≡ true

abbrev pub IsSound : TrustState → Type 0
IsSound s =
    IsExclusive s.pairing_tickets s.confirmed_pairing_tickets × IsPaired s.pair_keys s.agent_peers

pub cleanup-IsSound :
    (now : ℕ) (skip : Option String) (s : TrustState) → IsSound s → IsSound (cleanup now skip s)
unfolding cleanup
cleanup-IsSound now skip s (h, p) = (
  record {
    pending_once = retain-IsDistinct _ s.pairing_tickets h.pending_once;
    confirmed_once = retain-IsDistinct _ s.confirmed_pairing_tickets h.confirmed_once;
    apart = λ kid. elim (h.apart kid) [
      | inl e ↦ inl (get-retain-none _ s.pairing_tickets kid e)
      | inr e ↦ inr (get-retain-none _ s.confirmed_pairing_tickets kid e)
    ];
  },
  p,
)

pub upsert_pair-IsPaired :
    (i j : String) (s : TrustState)
    → IsPaired s.pair_keys s.agent_peers
    → IsPaired (upsert_pair i j s).pair_keys (upsert_pair i j s).agent_peers
upsert_pair-IsPaired i j s h = record {
  both_ways = λ k l p.
      ground (arith, upsert_pair-peers i j s k l, upsert_pair-peers i j s l k, h.both_ways k l);
  keyed = λ k l p. ground (
    arith,
    upsert_pair-peers i j s k l,
    upsert_pair-keys i j s (to_pair_key k l),
    h.keyed k l,
    eq_iff i k,
    eq_iff j l,
    eq_iff i l,
    eq_iff j k,
    to_pair_key_comm i j,
    eq_refl (to_pair_key i j),
    eq_iff (to_pair_key i j) (to_pair_key k l),
  );
}

pub upsert_pair-IsSound : (i j : String) (s : TrustState) → IsSound s → IsSound (upsert_pair i j s)
unfolding upsert_pair
upsert_pair-IsSound i j s (h, p) = (h, upsert_pair-IsPaired i j s p)

module _ {pairing : Dict StoredTicket} {confirmed : Dict ConfirmedTicket} where
  pub drop_pending-IsExclusive :
      (kid : String) → IsExclusive pairing confirmed → IsExclusive (delete pairing kid) confirmed
  drop_pending-IsExclusive kid h = record {
    pending_once = delete-IsDistinct pairing kid h.pending_once;
    confirmed_once = h.confirmed_once;
    apart = λ k. ground (arith, get-delete pairing kid k, h.apart k);
  }

  pub drop_confirmed-IsExclusive :
      (kid : String) → IsExclusive pairing confirmed → IsExclusive pairing (delete confirmed kid)
  drop_confirmed-IsExclusive kid h = record {
    pending_once = h.pending_once;
    confirmed_once = delete-IsDistinct confirmed kid h.confirmed_once;
    apart = λ k. ground (arith, get-delete confirmed kid k, h.apart k);
  }

  -- A ticket that becomes pending is not confirmed any more.
  pub pend-IsExclusive :
      (kid : String) (t : StoredTicket)
      → IsExclusive pairing confirmed
      → IsExclusive (set pairing kid t) (delete confirmed kid)
  pend-IsExclusive kid t h = record {
    pending_once = set-IsDistinct pairing kid t h.pending_once;
    confirmed_once = delete-IsDistinct confirmed kid h.confirmed_once;
    apart = λ k. ground (arith, get-set pairing kid k t, get-delete confirmed kid k, h.apart k);
  }

  -- A ticket that becomes confirmed is not pending any more.
  pub confirm-IsExclusive :
      (kid : String) (t : ConfirmedTicket)
      → IsExclusive pairing confirmed
      → IsExclusive (delete pairing kid) (set confirmed kid t)
  confirm-IsExclusive kid t h = record {
    pending_once = delete-IsDistinct pairing kid h.pending_once;
    confirmed_once = set-IsDistinct confirmed kid t h.confirmed_once;
    apart = λ k. ground (arith, get-delete pairing kid k, get-set confirmed kid k t, h.apart k);
  }

pub empty-IsSound : IsSound empty_trust
unfolding get has any peers_of
empty-IsSound = (
  record { pending_once = tt; confirmed_once = tt; apart = λ kid. inl refl },
  record { both_ways = λ i j h. cc; keyed = λ i j h. cc },
)
