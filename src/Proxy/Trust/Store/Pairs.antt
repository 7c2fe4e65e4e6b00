-- ===== src/Proxy/Trust/Store/Pairs.antt =====
-- Sets of keys, the peers of an agent and the allowed pairs, through the operations that add to them.
use clawdentity.Shared.{
  ◌≡◌, refl, inl, inr, String, Bool, true, ◌||◌, ◌&&◌, List, [], ◌∷◌, ◌++◌, ◌==◌, any, length, ltb,
  arith, eq_iff, Bool-cases,
}
use clawdentity.Shared.Dict.{Dict, get, get-set}
use clawdentity.Proxy.Trust.Keys.{to_pair_key, to_pair_key_comm}
use clawdentity.Proxy.Trust.Types.{TrustState}
use clawdentity.Proxy.Trust.Store.{
  has, add, peers_of, upsert_peer, upsert_pair, is_pair_allowed, is_agent_known,
}

has-append : (ks : List String) (k j : String) → has (ks ++ (k ∷ [])) j ≡ (has ks j || (k == j))
unfolding has any
has-append [] k j = ground arith
has-append (i ∷ ks) k j = ground (arith, has-append ks k j)

pub has-add : (ks : List String) (k j : String) → has (add ks k) j ≡ (has ks j || (k == j))
unfolding add
has-add ks k j = elim (Bool-cases (has ks k)) [
  | inl there ↦ rw there (ground (arith, eq_iff k j, there))
  | inr missing ↦ rw missing (has-append ks k j)
]

-- An agent's peer.
abbrev pub is_peer : Dict (List String) → String → String → Bool
is_peer peers left right = has (peers_of (get peers left)) right

pub peers-upsert_peer :
    (peers : Dict (List String)) (left right i j : String)
    → is_peer (upsert_peer left right peers) i j
      ≡ (is_peer peers i j || ((left == i) && (right == j)))
unfolding upsert_peer peers_of
peers-upsert_peer peers left right i j = ground (
  arith,
  eq_iff left i,
  eq_iff right j,
  has-add (peers_of (get peers left)) right j,
  get-set peers left i (add (peers_of (get peers left)) right),
)

pub upsert_pair-keys :
    (initiator responder : String) (s : TrustState) (k : String)
    → has (upsert_pair initiator responder s).pair_keys k
      ≡ (has s.pair_keys k || (to_pair_key initiator responder == k))
unfolding upsert_pair
upsert_pair-keys initiator responder s k = has-add s.pair_keys (to_pair_key initiator responder) k

pub upsert_pair-peers :
    (initiator responder : String) (s : TrustState) (i j : String)
    → is_peer (upsert_pair initiator responder s).agent_peers i j ≡ (
        is_peer s.agent_peers i j
        || ((initiator == i) && (responder == j) || (responder == i) && (initiator == j)))
unfolding upsert_pair
upsert_pair-peers initiator responder s i j = ground (
  arith,
  peers-upsert_peer (upsert_peer initiator responder s.agent_peers) responder initiator i j,
  peers-upsert_peer s.agent_peers initiator responder i j,
)

has-length : (ks : List String) (k : String) → has ks k ≡ true → ltb 0 (length ks) ≡ true
unfolding has any
has-length [] k h = cc
has-length (j ∷ ks) k h = ground arith

pub peer_known :
    (s : TrustState) (i j : String) → is_peer s.agent_peers i j ≡ true → is_agent_known i s ≡ true
unfolding is_agent_known
peer_known s i j h = has-length (peers_of (get s.agent_peers i)) j h

-- A pair is allowed in one order exactly if it is in the other one.
pub allowed_comm : (i j : String) (s : TrustState) → is_pair_allowed i j s ≡ is_pair_allowed j i s
unfolding is_pair_allowed
allowed_comm i j s = ground (arith, eq_iff i j, eq_iff j i, to_pair_key_comm i j)

pub key_allowed :
    (i j : String) (s : TrustState)
    → has s.pair_keys (to_pair_key i j) ≡ true
    → is_pair_allowed i j s ≡ true
unfolding is_pair_allowed
key_allowed i j s h = ground arith

add-not_empty : (ks : List String) (k : String) → ltb 0 (length (add ks k)) ≡ true
unfolding add has any
add-not_empty [] k = refl
add-not_empty (j ∷ ks) k = ground arith

known-upsert_peer :
    (peers : Dict (List String)) (left right i : String)
    → ltb 0 (length (peers_of (get peers i))) ≡ true
    → ltb 0 (length (peers_of (get (upsert_peer left right peers) i))) ≡ true
unfolding upsert_peer peers_of
known-upsert_peer peers left right i h = ground (
  arith,
  add-not_empty (peers_of (get peers left)) right,
  get-set peers left i (add (peers_of (get peers left)) right),
)

-- A new pair takes no agent and no pair away.
pub known-upsert_pair :
    (i j k : String) (s : TrustState)
    → is_agent_known i s ≡ true
    → is_agent_known i (upsert_pair j k s) ≡ true
unfolding upsert_pair is_agent_known
known-upsert_pair i j k s h =
    known-upsert_peer (upsert_peer j k s.agent_peers) k j i
      (known-upsert_peer s.agent_peers j k i h)

pub allowed-upsert_pair :
    (i j k l : String) (s : TrustState)
    → is_pair_allowed i j s ≡ true
    → is_pair_allowed i j (upsert_pair k l s) ≡ true
unfolding is_pair_allowed
allowed-upsert_pair i j k l s h = ground (arith, upsert_pair-keys k l s (to_pair_key i j))
