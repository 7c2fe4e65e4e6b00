-- ===== src/Proxy/NonceReplay/Tests.antt =====
-- Runs of the nonce replay guard.
use clawdentity.Shared.{◌≡◌, refl, none, [], ◌∷◌, arith}
use clawdentity.Shared.Dict.{get}
use clawdentity.Shared.Text.{trim}
use clawdentity.Proxy.NonceReplay.{
  NonceReplayTryAcceptRequest, GuardStore, replay, encode_uri_component, parse_try_accept_body,
  accept_new, accept_existing, accept_parsed, handle_try_accept,
}
use clawdentity.Proxy.NonceReplay.Refused.{request, alarm, run, accepted_refused}
use clawdentity.Proxy.NonceReplay.Swept.{IsCovered, run-IsCovered}

abbrev body : NonceReplayTryAcceptRequest
body = record { agent_did = "did:a "; nonce = "n 1"; ttl_ms = 10; now_ms = none }

abbrev parsed : NonceReplayTryAcceptRequest
parsed = record { agent_did = "did:a"; nonce = "n 1"; ttl_ms = 10; now_ms = none }

abbrev empty_store : GuardStore
empty_store = record { entries = []; alarm = none }

encoded : encode_uri_component "did:a é" ≡ "did%3Aa%20%C3%A9"
unfolding encode_uri_component
encoded = refl

accepted_refused_example :
    (handle_try_accept 109 body (
      run
        (alarm 105 ∷ request 106 (record body { nonce = "n2" }) ∷ [])
        (handle_try_accept 100 body empty_store).0)).1
    ≡ replay (record { seen_at = 100; expires_at = 110 })
unfolding handle_try_accept parse_try_accept_body trim accept_parsed accept_existing get accept_new
accepted_refused_example =
    accepted_refused 100 109 (alarm 105 ∷ request 106 (record body { nonce = "n2" }) ∷ []) body body
      parsed parsed (record { seen_at = 100; expires_at = 110 }) empty_store refl refl refl refl
      refl (omega arith, (omega arith, tt)) (omega arith)

run-IsCovered_example : IsCovered (run (request 100 body ∷ alarm 111 ∷ []) empty_store)
run-IsCovered_example = run-IsCovered (request 100 body ∷ alarm 111 ∷ [])
