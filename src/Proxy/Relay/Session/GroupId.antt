-- ===== src/Proxy/Relay/Session/GroupId.antt =====
-- `groupId` on its way through the queue.
use clawdentity.Shared.{ℕ, ◌≡◌, refl, ◌≢◌, String, none, some, List, [], ◌∷◌, ◌++◌, Memᴰ, arith}
use clawdentity.Shared.Dict.{get}
use clawdentity.Proxy.Relay.Types.{
  RelayDeliveryInput, RelayDeliveryResult, queued, QueuedRelayDelivery, RelayQueueState,
  RelayDeliveryPolicy,
}
use clawdentity.Proxy.Relay.Manager.{
  SendOutcome, accepted, refused, failed, Store, save_queue_state, load_queue_state,
  schedule_next_alarm, to_input,
}
use clawdentity.Proxy.Relay.Session.{
  Meets, ok, to_relay_delivery_result, queued_delivery, enqueue, sent, dispatch, respond,
  deliver_to_connector,
}

mem_last {ℓ} : {A : Type ℓ} (xs : List A) (a : A) → Memᴰ a (xs ++ a ∷ [])
mem_last [] a = Memᴰ.head refl
mem_last (x ∷ xs) a = Memᴰ.tail (mem_last xs a)

-- A queued delivery with this id, which will be sent without a group id.
abbrev pub IsQueuedWithoutGroup : String → List QueuedRelayDelivery → Type 0
IsQueuedWithoutGroup id ds =
    (d : QueuedRelayDelivery) × Memᴰ d ds × (d.delivery_id ≡ id) × ((to_input d).group_id ≡ none)

module _ (policy : RelayDeliveryPolicy) (now : ℕ) (m : Meets) (input : RelayDeliveryInput)
    (r : RelayDeliveryResult) where
  enqueue-group_id :
      (prior : ℕ) (s : Store) (q : RelayQueueState)
      → (enqueue policy now m input prior s q).1 ≡ ok r
      → IsQueuedWithoutGroup r.delivery_id (enqueue policy now m input prior s q).0.queue.deliveries
  unfolding enqueue save_queue_state schedule_next_alarm to_input
  enqueue-group_id prior s q e =
      let d = queued_delivery policy now m input prior in
      (d, ground (arith, mem_last q.deliveries d), ground arith, refl)

  sent-group_id :
      (o : SendOutcome) (s : Store) (q : RelayQueueState)
      → (sent policy now m input o s q).1 ≡ ok r
      → r.state ≡ queued
      → IsQueuedWithoutGroup r.delivery_id (sent policy now m input o s q).0.queue.deliveries
  unfolding sent to_relay_delivery_result
  sent-group_id accepted s q e h = absurd (ground arith)
  sent-group_id refused s q e h = enqueue-group_id 1 s q e
  sent-group_id failed s q e h = enqueue-group_id 1 s q e

  dispatch-group_id :
      (s : Store) (q : RelayQueueState)
      → (dispatch policy now m input s q).1 ≡ ok r
      → r.state ≡ queued
      → IsQueuedWithoutGroup r.delivery_id (dispatch policy now m input s q).0.queue.deliveries
  unfolding dispatch
  dispatch-group_id s q e h = ground (arith, sent-group_id m.outcome s q, enqueue-group_id 0 s q)

-- A delivery for a group that is answered with "queued" loses its group: the delivery in the stored
-- queue that has the answered id will be sent with no group id, so not as the same input. The
-- request has no receipt before.
pub queued_without_group :
    (policy : RelayDeliveryPolicy) (now : ℕ) (m : Meets) (input : RelayDeliveryInput) (s : Store)
    (r : RelayDeliveryResult) (group : String)
    → input.group_id ≡ some group
    → get (load_queue_state s now).1.receipts input.request_id ≡ none
    → (deliver_to_connector policy now m input s).1 ≡ ok r
    → r.state ≡ queued
    → (d : QueuedRelayDelivery) × Memᴰ d
        (deliver_to_connector policy now m input s).0.queue.deliveries
      × (d.delivery_id ≡ r.delivery_id)
      × ((to_input d).group_id ≢ input.group_id)
unfolding deliver_to_connector respond
queued_without_group policy now m input s r group grouped new e h =
    let (d, listed, same, ungrouped) =
      dispatch-group_id policy now m input r (load_queue_state s now).0 (load_queue_state s now).1
        (rw (new, respond) at e) h in
    (d, rw (new, respond) listed, same, λ p. cc)
