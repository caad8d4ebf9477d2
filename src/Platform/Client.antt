-- ===== src/Platform/Client.antt =====
-- internal/transport/transport.go against cmd/mock-platform/main.go: the agent's batches at the
-- platform.
use shadow_twin.Prelude.{
  ℕ, ◌≡◌, refl, Bytes, codes, Bool, true, false, none, some, List, [], ◌∷◌, inl, inr, arith, ap,
  ◌∙◌, bytes_eq, nat_eq, if◌then◌else◌, Option-cases,
}
use shadow_twin.Collectors.Event.{Event, Time}
use shadow_twin.Transport
use shadow_twin.Transport.{
  Shipper, Wire, Envelope, SendError, unauthorized, classify, packed, request_of, envelope_of, send,
}
use shadow_twin.Platform.{Request, Web, Server, is_revoked, with_agent, accept, handle_ingest}

-- A request of Send under a client certificate, as the handler finds it.
abbrev pub arrived : Bytes → Transport.Request → Request
arrived cn r = record {
  method = codes "POST";
  authorization = [];
  content_encoding = elim r.content_encoding [ none ↦ [] | some e ↦ e ];
  peers = some (cn ∷ []);
  body = r.body;
}

-- net/http brings the request to the handler and its status back, and gzip and JSON on the one side
-- undo those on the other.
pub record IsLinked (w : Wire) (web : Web) (now : ℕ) (s : Server) (cn : Bytes) : Type 0 where
  pub answers :
      (r : Transport.Request) → w.post r ≡ some (handle_ingest web now s (arrived cn r)).1.status
  pub unzips : (body zipped : Bytes) → w.compress body ≡ some zipped → web.gunzip zipped ≡ some body
  pub decodes :
      (e : Envelope) (body : Bytes) → w.marshal e ≡ some body → web.decode_envelope body ≡ true

module _ (w : Wire) (web : Web) (now : ℕ) (s : Server) (cn : Bytes) where
  accept-plain :
      (q : Request)
      → q.content_encoding ≡ []
      → web.decode_envelope q.body ≡ true
      → (accept web now q).status ≡ 202
  unfolding accept bytes_eq
  accept-plain q e h = ground (arith, e, h)

  accept-zipped :
      (q : Request) (body : Bytes)
      → q.content_encoding ≡ codes "gzip"
      → web.gunzip q.body ≡ some body
      → web.decode_envelope body ≡ true
      → (accept web now q).status ≡ 202
  unfolding accept bytes_eq nat_eq
  accept-zipped q body e g h = ground (arith, e, g, h)

  accept-request_of :
      (gzip : Bool) (sh : Shipper) (body : Bytes)
      → IsLinked w web now s cn
      → sh.gzip ≡ gzip
      → web.decode_envelope body ≡ true
      → (accept web now (arrived cn (request_of sh w body))).status ≡ 202
  unfolding request_of
  accept-request_of false sh body link g h = rw g (accept-plain _ refl h)
  accept-request_of true sh body link g h = elim (Option-cases (w.compress body)) [
    | inl n ↦ rw (g, n) (accept-plain _ refl h)
    | inr (zipped, z) ↦ rw (g, z) (accept-zipped _ body refl (link.unzips body zipped z) h)
  ]

  -- The answer to a request of Send.
  abbrev status_for : Bool → ℕ
  status_for revoked = if revoked then 403 else 202

  handle_ingest-arrived :
      (r : Transport.Request)
      → (accept web now (arrived cn r)).status ≡ 202
      → (handle_ingest web now s (arrived cn r)).1.status ≡ status_for (is_revoked cn s.revoked)
  unfolding handle_ingest with_agent bytes_eq nat_eq
  handle_ingest-arrived r h = ground (arith, h)

  classify-status_for :
      (revoked : Bool)
      → classify (status_for revoked) ≡ (if revoked then some unauthorized else none)
  unfolding classify nat_eq
  classify-status_for true = refl
  classify-status_for false = refl

  send-posted :
      (sh : Shipper) (at : Time) (ev : Event) (evs : List Event) (body : Bytes) (status : ℕ)
      → w.marshal (envelope_of sh at (ev ∷ evs)) ≡ some body
      → w.valid_url sh.endpoint ≡ true
      → w.post (request_of sh w body) ≡ some status
      → send sh w at (ev ∷ evs) ≡ classify status
  unfolding send
  send-posted sh at ev evs body status m v p = ground (arith, m, v, p)

  -- Let net/http bring each request of Send to handleIngest under a client certificate, and its
  -- status back, and let gzip and JSON undo each other on the two sides. Then Send of a batch that
  -- marshals, to an endpoint that is a URL, reports a delivered batch where the certificate's name
  -- is not revoked, and a rejected identity where it is, with gzip and without.
  pub send-handle_ingest :
      (sh : Shipper) (at : Time) (ev : Event) (evs : List Event) (body : Bytes)
      → IsLinked w web now s cn
      → w.marshal (envelope_of sh at (ev ∷ evs)) ≡ some body
      → w.valid_url sh.endpoint ≡ true
      → send sh w at (ev ∷ evs) ≡ (if is_revoked cn s.revoked then some unauthorized else none)
  send-handle_ingest sh at ev evs body link m v =
      let taken = accept-request_of sh.gzip sh body link refl (link.decodes _ body m) in
      send-posted sh at ev evs body _ m v (link.answers (request_of sh w body))
      ∙ (ap classify (handle_ingest-arrived (request_of sh w body) taken)
          ∙ classify-status_for (is_revoked cn s.revoked))
