-- ===== src/Transport/Answers.antt =====
-- internal/transport/transport.go: the outcome of Send and the platform's answer.
use shadow_twin.Prelude.{
  ℕ, ◌≤◌, ◌<◌, ◌≡◌, ◌⊎◌, inl, inr, true, false, Option, none, some, List, ◌∷◌, nat_eq, arith, Bytes,
  Option-cases, Bool-cases,
}
use shadow_twin.Collectors.Event.{Event, Time}
use shadow_twin.Transport.{
  SendError, retryable, permanent, unauthorized, classify, Shipper, Wire, envelope_of, request_of,
  send,
}

-- The statuses of each outcome, as the design records list them: 401 and 403 are about the identity,
-- 408, 429 and the server's errors are worth a retry, and what is left is a poison batch.
abbrev pub IsAck : ℕ → Type 0
IsAck status = (200 ≤ status) × (status < 300)

abbrev pub IsIdentity : ℕ → Type 0
IsIdentity status = (status ≡ 401) ⊎ (status ≡ 403)

abbrev pub IsRetry : ℕ → Type 0
IsRetry status = (status ≡ 408) ⊎ (status ≡ 429) ⊎ (500 ≤ status)

abbrev pub Outcome : Option SendError → ℕ → Type 0
Outcome none status = IsAck status
Outcome (some unauthorized) status = IsIdentity status
Outcome (some retryable) status = IsRetry status
Outcome (some permanent) status = ¬ IsAck status × ¬ IsIdentity status × ¬ IsRetry status

classify-Outcome : (status : ℕ) → Outcome (classify status) status
unfolding classify
classify-Outcome status = ground arith

-- How Send ends, by what the platform and the libraries do with a batch that is not empty.
pub data Sent (s : Shipper) (w : Wire) (now : Time) (events : List Event)
    : Option SendError → Type 0 where
  not_marshalled :
      w.marshal (envelope_of s now events) ≡ none → Sent s w now events (some permanent)
  bad_endpoint : w.valid_url s.endpoint ≡ false → Sent s w now events (some permanent)
  no_answer :
      (body : Bytes)
      → w.marshal (envelope_of s now events) ≡ some body
      → w.valid_url s.endpoint ≡ true
      → w.post (request_of s w body) ≡ none
      → Sent s w now events (some retryable)
  answered :
      (body : Bytes) (status : ℕ) (r : Option SendError)
      → w.marshal (envelope_of s now events) ≡ some body
      → w.valid_url s.endpoint ≡ true
      → w.post (request_of s w body) ≡ some status
      → Outcome r status
      → Sent s w now events r

module _ (s : Shipper) (w : Wire) (now : Time) (ev : Event) (events : List Event) where
  -- How Send ends for a batch with an event: permanent where the envelope does not marshal or the
  -- endpoint is no URL, retryable where the exchange fails, and otherwise as the status says:
  -- delivered for 200 to 299, unauthorized for 401 and 403, retryable for 408, 429 and from 500 on,
  -- permanent for every other status.
  pub send-Sent : Sent s w now (ev ∷ events) (send s w now (ev ∷ events))
  unfolding send
  send-Sent = elim (Option-cases (w.marshal (envelope_of s now (ev ∷ events)))) [
    | inl e ↦ rw (e, send) (not_marshalled e)
    | inr (body, e) ↦ elim (Bool-cases (w.valid_url s.endpoint)) [
      | inr v ↦ rw (e, send) (rw v (bad_endpoint v))
      | inl v ↦ elim (Option-cases (w.post (request_of s w body))) [
        | inl a ↦ rw (e, send) (rw v (rw a (no_answer body e v a)))
        | inr (status, a) ↦
            rw (e, send) (rw v (rw a (answered body status _ e v a (classify-Outcome status))))
      ]
    ]
  ]
