-- ===== src/Proxy/NonceReplay.antt =====
-- apps/proxy/src/nonce-replay-guard.ts: the durable object that refuses a nonce which the same agent
-- has used before. Its storage has the records by their key, and one alarm; `none` is no alarm.
pub mod Refused
pub mod Swept
pub mod Tests
use Prim.Native.Nat.{◌/◌, ◌%◌}
use Prim.Native.Char.{code}
use Prim.Native.String.{[] as empty_text, ◌∷◌ as put_char, ◌++◌ as append_text, slice}
use clawdentity.Shared.{
  ℕ, ◌+◌, min, String, Bool, true, false, ◌||◌, ◌&&◌, Option, none, some, List, [], ◌∷◌, leb, ltb,
  nat_eq, if◌then◌else◌,
}
use clawdentity.Shared.Dict.{Dict, get, set, retain}
use clawdentity.Shared.Text.{trim, is_empty}

pub record NonceReplayTryAcceptRequest : Type 0 where
  pub agent_did : String
  pub nonce : String
  pub ttl_ms : ℕ
  pub now_ms : Option ℕ

pub record NonceReplayRecord : Type 0 where
  pub seen_at : ℕ
  pub expires_at : ℕ

pub record GuardStore : Type 0 where
  pub entries : Dict NonceReplayRecord
  pub alarm : Option ℕ

-- The bodies of the responses; `invalid_input` is NONCE_REPLAY_GUARD_INVALID_INPUT.
pub data TryAcceptResult : Type 0 where
  accepted : NonceReplayRecord → TryAcceptResult
  replay : NonceReplayRecord → TryAcceptResult
  invalid_input : TryAcceptResult

hex_digit : ℕ → String
hex_digit n = slice "0123456789ABCDEF" n (n + 1)

percent_byte : ℕ → String
percent_byte b = append_text "%" (append_text (hex_digit (b / 16)) (hex_digit (b % 16)))

-- The letters, the digits and - _ . ! ~ * ' ( )
is_unreserved : ℕ → Bool
is_unreserved c =
    leb 65 c && leb c 90
    || leb 97 c && leb c 122
    || leb 48 c && leb c 57
    || nat_eq c 45
    || nat_eq c 95
    || nat_eq c 46
    || nat_eq c 33
    || nat_eq c 126
    || leb 39 c && leb c 42

-- The bytes of a character in UTF-8.
percent_encode : ℕ → String
percent_encode c =
    if ltb c 128
    then percent_byte c
    else if ltb c 2048
    then append_text (percent_byte (192 + c / 64)) (percent_byte (128 + c % 64))
    else if ltb c 65536
    then append_text (percent_byte (224 + c / 4096))
        (append_text (percent_byte (128 + c / 64 % 64)) (percent_byte (128 + c % 64)))
    else append_text (percent_byte (240 + c / 262144)) (
        append_text (percent_byte (128 + c / 4096 % 64))
          (append_text (percent_byte (128 + c / 64 % 64)) (percent_byte (128 + c % 64))))

-- `encodeURIComponent`
unfoldable pub encode_uri_component : String → String
unfolding is_unreserved percent_encode percent_byte hex_digit
encode_uri_component empty_text = ""
encode_uri_component (put_char c s) =
    let rest = encode_uri_component s in
    if is_unreserved (code c) then put_char c rest else append_text (percent_encode (code c)) rest

unfoldable pub to_nonce_storage_key : String → String → String
to_nonce_storage_key agent_did nonce =
    append_text "nonce:"
      (append_text (encode_uri_component agent_did) (append_text "|" (encode_uri_component nonce)))

-- Values of other types, and numbers that are not whole or are negative, are not modelled.
unfoldable pub parse_try_accept_body :
    NonceReplayTryAcceptRequest → Option NonceReplayTryAcceptRequest
parse_try_accept_body body =
    if is_empty (trim body.agent_did) || is_empty (trim body.nonce) || nat_eq body.ttl_ms 0
    then none
    else some (record body { agent_did = trim body.agent_did; nonce = trim body.nonce })

-- `currentAlarm === null || expiresAt < currentAlarm`
unfoldable pub sooner : Option ℕ → ℕ → Option ℕ
sooner none expires_at = some expires_at
sooner (some current) expires_at = if ltb expires_at current then some expires_at else some current

unfoldable pub accept_new : ℕ → ℕ → String → GuardStore → GuardStore × TryAcceptResult
unfolding sooner
accept_new now ttl key s =
    let r : NonceReplayRecord = record { seen_at = now; expires_at = now + ttl } in
    (record { entries = set s.entries key r; alarm = sooner s.alarm r.expires_at }, accepted r)

-- The transaction, once it has read the record of the key.
unfoldable pub accept_existing :
    ℕ → ℕ → String → Option NonceReplayRecord → GuardStore → GuardStore × TryAcceptResult
accept_existing now ttl key none s = accept_new now ttl key s
accept_existing now ttl key (some existing) s =
    if ltb now existing.expires_at then (s, replay existing) else accept_new now ttl key s

unfoldable pub time_of : ℕ → Option ℕ → ℕ
time_of clock none = clock
time_of clock (some now) = now

unfoldable pub accept_parsed :
    ℕ → Option NonceReplayTryAcceptRequest → GuardStore → GuardStore × TryAcceptResult
unfolding time_of
accept_parsed clock none s = (s, invalid_input)
accept_parsed clock (some parsed) s =
    let key = to_nonce_storage_key parsed.agent_did parsed.nonce in
    accept_existing (time_of clock parsed.now_ms) parsed.ttl_ms key (get s.entries key) s

unfoldable pub handle_try_accept :
    ℕ → NonceReplayTryAcceptRequest → GuardStore → GuardStore × TryAcceptResult
handle_try_accept clock body s = accept_parsed clock (parse_try_accept_body body) s

unfoldable pub earliest : ℕ → Option ℕ → Option ℕ
earliest expires_at none = some expires_at
earliest expires_at (some later) = some (min expires_at later)

-- The least expiry of the records.
unfoldable pub next_expiry : Dict NonceReplayRecord → Option ℕ
next_expiry [] = none
next_expiry ((key, r) ∷ entries) = earliest r.expires_at (next_expiry entries)

-- The alarm handler: the expired records go, and the alarm is the next expiry.
unfoldable pub guard_alarm : ℕ → GuardStore → GuardStore
unfolding next_expiry
guard_alarm now s =
    let kept = retain (λ key r. if leb r.expires_at now then false else true) s.entries in
    record { entries = kept; alarm = next_expiry kept }
