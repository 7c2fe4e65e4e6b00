-- ===== src/Proxy/TrustState/Utils.antt =====
-- apps/proxy/src/proxy-trust-state/utils.ts and types.ts, and what the durable object calls of
-- other code.
use clawdentity.Shared.{String, ◌||◌, Option, none, some, List, [], ◌∷◌, ◌>>=◌, ◌==◌, if◌then◌else◌}
use clawdentity.Shared.Dict.{Dict, get, set}
use clawdentity.Shared.Text.{trim, text_leb}
use clawdentity.Shared.Json.{Value, member, non_empty_string}
use clawdentity.Proxy.Trust.Types.{PeerProfile, TicketFunctions}
use clawdentity.Proxy.Trust.Store.{add, peers_of}

-- What `new URL` gives for a text that it accepts.
pub record Url : Type 0 where
  pub protocol : String
  pub origin : String

-- The calls of pairing-ticket.ts and packages/protocol, and `new URL`.
pub record Outside : Type 0 where
  pub tickets : TicketFunctions
  pub parse_url : String → Option Url

-- `sort` of an array of texts, by insertion.
unfoldable pub insert_sorted : String → List String → List String
insert_sorted k [] = k ∷ []
insert_sorted k (j ∷ ks) = if text_leb k j then k ∷ j ∷ ks else j ∷ insert_sorted k ks

unfoldable pub sort : List String → List String
unfolding insert_sorted
sort [] = []
sort (k ∷ ks) = insert_sorted k (sort ks)

unfoldable pub add_peer : Dict (List String) → String → String → Dict (List String)
unfolding peers_of
add_peer index left right = set index left (sort (add (peers_of (get index left)) right))

unfoldable pub web_origin : Url → Option String
web_origin url =
    if url.protocol == "https:" || url.protocol == "http:" then some url.origin else none

module _ (parse_url : String → Option Url) where
  -- The profile's `proxyOrigin`: undefined, or a URL of the web.
  unfoldable pub parse_proxy_origin : Option Value → Option (Option String)
  unfolding web_origin
  parse_proxy_origin none = some none
  parse_proxy_origin (some v) = do
    s ← non_empty_string (some v)
    url ← parse_url (trim s)
    origin ← web_origin url
    some (some origin)

  unfoldable pub parse_peer_profile : Option Value → Option PeerProfile
  unfolding parse_proxy_origin
  parse_peer_profile entry = do
    agent ← non_empty_string (member entry "agentName")
    human ← non_empty_string (member entry "humanName")
    origin ← parse_proxy_origin (member entry "proxyOrigin")
    some (record { agent_name = trim agent; human_name = trim human; proxy_origin = origin })
