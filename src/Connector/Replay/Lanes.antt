-- ===== src/Connector/Replay/Lanes.antt =====
-- packages/connector/src/runtime/replay.ts: the lanes of the due messages. Lanes keep their key.
pub mod Grouped
use clawdentity.Shared.{String, Option, none, some, List, [], ◌∷◌, ◌++◌}
use Prim.Native.String.{◌++◌ as append_text}
use clawdentity.Shared.Dict.{Dict, get, set}
use clawdentity.Connector.InboundInbox.Types.{InboundInboxItem}

unfoldable pub key_of : Option String → String
key_of none = "best-effort"
key_of (some conversation_id) = append_text "conversation:" conversation_id

unfoldable pub lane_key : InboundInboxItem → String
unfolding key_of
lane_key pending = key_of pending.conversation_id

unfoldable pub push :
    Dict (List InboundInboxItem)
    → InboundInboxItem
    → Option (List InboundInboxItem)
    → Dict (List InboundInboxItem)
unfolding lane_key
push lanes pending none = set lanes (lane_key pending) (pending ∷ [])
push lanes pending (some lane) = set lanes (lane_key pending) (lane ++ (pending ∷ []))

unfoldable pub group_from :
    Dict (List InboundInboxItem) → List InboundInboxItem → Dict (List InboundInboxItem)
unfolding push
group_from lanes [] = lanes
group_from lanes (pending ∷ due) =
    group_from (push lanes pending (get lanes (lane_key pending))) due

unfoldable pub group_due_items_by_lane : List InboundInboxItem → Dict (List InboundInboxItem)
unfolding group_from
group_due_items_by_lane due_items = group_from [] due_items
