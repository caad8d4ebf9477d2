-- ===== src/Transport.antt =====
-- internal/transport/transport.go: how a batch is sent, how the platform's answer is read, and how
-- long the agent waits before it tries again.
pub mod Backoff
pub mod Answers
use shadow_twin.Prelude.{
  ℕ, Bytes, codes, Bool, true, false, ◌&&◌, ◌||◌, Option, none, some, List, [], ◌∷◌, ◌==◌, nat_eq,
  leb, ltb, if◌then◌else◌,
}
use shadow_twin.Collectors.Event.{Event, Time}

-- The errors that Send wraps; nil is `none`.
pub data SendError : Type 0 where
  retryable permanent unauthorized : SendError

abbrev pub schema_version : ℕ
schema_version = 1

pub record Envelope : Type 0 where
  pub agent_id : Bytes
  pub sent_at : Time
  pub schema_version : ℕ
  pub events : List Event

pub record Request : Type 0 where
  pub endpoint : Bytes
  pub content_type : Bytes
  pub content_encoding : Option Bytes
  pub body : Bytes

pub record Shipper : Type 0 where
  pub endpoint : Bytes
  pub agent_id : Bytes
  pub gzip : Bool

-- What Send asks of the packages encoding/json, compress/gzip and net/http. `post` gives the status
-- code of the answer, or `none` where the exchange fails.
pub record Wire : Type 0 where
  pub marshal : Envelope → Option Bytes
  pub compress : Bytes → Option Bytes
  pub valid_url : Bytes → Bool
  pub post : Request → Option ℕ

unfoldable pub new_shipper : Bytes → Bytes → Shipper
new_shipper endpoint agent_id = record { endpoint = endpoint; agent_id = agent_id; gzip = true }

-- The switch on resp.StatusCode.
unfoldable pub classify : ℕ → Option SendError
classify status =
    if leb 200 status && ltb status 300
    then none
    else if status == 401 || status == 403
    then some unauthorized
    else if status == 408 || (status == 429 || leb 500 status)
    then some retryable
    else some permanent

abbrev answer : Option ℕ → Option SendError
answer none = some retryable
answer (some status) = classify status

-- The body and the header Content-Encoding.
abbrev pub packed : Bool → Option Bytes → Bytes → Option Bytes × Bytes
packed false _ body = (none, body)
packed true none body = (none, body)
packed true (some zipped) body = (some (codes "gzip"), zipped)

unfoldable pub request_of : Shipper → Wire → Bytes → Request
request_of s w body =
    let (encoding, content) = packed s.gzip (w.compress body) body in
    record {
      endpoint = s.endpoint;
      content_type = codes "application/json";
      content_encoding = encoding;
      body = content;
    }

unfoldable pub envelope_of : Shipper → Time → List Event → Envelope
envelope_of s now events = record {
  agent_id = s.agent_id;
  sent_at = now;
  schema_version = schema_version;
  events = events;
}

-- Send
unfoldable pub send : Shipper → Wire → Time → List Event → Option SendError
unfolding request_of envelope_of
send s w now [] = none
send s w now (ev ∷ events) = elim (w.marshal (envelope_of s now (ev ∷ events))) [
  | none ↦ some permanent
  | some body ↦
      if w.valid_url s.endpoint then answer (w.post (request_of s w body)) else some permanent
]
