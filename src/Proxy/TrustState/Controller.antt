-- ===== src/Proxy/TrustState/Controller.antt =====
-- apps/proxy/src/proxy-trust-state/controller.ts: `fetch` and `alarm` of the durable object.
use clawdentity.Shared.{ℕ, String, not, Option, none, some, ◌==◌, if◌then◌else◌}
use clawdentity.Shared.Json.{Value}
use clawdentity.Proxy.TrustState.Utils.{Outside}
use clawdentity.Proxy.TrustState.Storage.{Storage, run_alarm_cleanup}
use clawdentity.Proxy.TrustState.Handlers.{
  Response, handle_mark_agent_revoked, handle_is_agent_revoked, handle_upsert_pair,
  handle_is_pair_allowed, handle_is_agent_known,
}
use clawdentity.Proxy.TrustState.Handlers.Pairing.{
  handle_create_pairing_ticket, handle_get_pairing_ticket_status,
}
use clawdentity.Proxy.TrustState.Handlers.Confirm.{handle_confirm_pairing_ticket}

-- The method, the path of the URL and the body.
pub record Request : Type 0 where
  pub method : String
  pub pathname : String
  pub body : Option Value

-- The paths of `TRUST_STORE_ROUTES` in proxy-trust-store.ts.
pub data Route : Type 0 where
  create_pairing_ticket confirm_pairing_ticket get_pairing_ticket_status : Route
  mark_agent_revoked is_agent_revoked upsert_pair is_pair_allowed is_agent_known : Route

unfoldable pub route_of : String → Option Route
route_of path =
    if path == "/pairing-tickets/create"
    then some create_pairing_ticket
    else if path == "/pairing-tickets/confirm"
    then some confirm_pairing_ticket
    else if path == "/pairing-tickets/status"
    then some get_pairing_ticket_status
    else if path == "/agents/revoked/mark"
    then some mark_agent_revoked
    else if path == "/agents/revoked/check"
    then some is_agent_revoked
    else if path == "/pairs/upsert"
    then some upsert_pair
    else if path == "/pairs/check"
    then some is_pair_allowed
    else if path == "/agents/known"
    then some is_agent_known
    else none

abbrev pub answer : Storage × Response → Storage × Option Response
answer (st, r) = (st, some r)

module _ (outside : Outside) where
  unfoldable pub handle : ℕ → Option Value → Storage → Route → Storage × Response
  handle clock body st create_pairing_ticket = handle_create_pairing_ticket outside clock body st
  handle clock body st confirm_pairing_ticket = handle_confirm_pairing_ticket outside clock body st
  handle clock body st get_pairing_ticket_status =
      handle_get_pairing_ticket_status outside clock body st
  handle clock body st mark_agent_revoked = handle_mark_agent_revoked outside clock body st
  handle clock body st is_agent_revoked = handle_is_agent_revoked outside clock body st
  handle clock body st upsert_pair = handle_upsert_pair body st
  handle clock body st is_pair_allowed = handle_is_pair_allowed body st
  handle clock body st is_agent_known = handle_is_agent_known body st

  unfoldable pub fetch_route : ℕ → Option Value → Storage → Option Route → Storage × Option Response
  fetch_route clock body st none = (st, none)
  fetch_route clock body st (some route) = answer (handle clock body st route)

  -- `none` is the answer "Not found" with status 404.
  unfoldable pub fetch : ℕ → Request → Storage → Storage × Option Response
  unfolding fetch_route route_of
  fetch clock request st =
      if not (request.method == "POST")
      then (st, none)
      else fetch_route clock request.body st (route_of request.pathname)

  unfoldable pub alarm : ℕ → Storage → Storage
  alarm now st = run_alarm_cleanup outside now st
