-- ===== src/Platform/Revocation.antt =====
-- cmd/mock-platform/main.go: revocation, and what the platform asks of a request.
use shadow_twin.Prelude.{
  take, ℕ, ◌≡◌, refl, ◌≢◌, ◌⊎◌, inl, inr, Bytes, codes, true, false, none, some, List, [], ◌∷◌,
  nat_eq, bytes_eq, arith, Option-cases,
}
use shadow_twin.Transport.{unauthorized, classify}
use shadow_twin.Platform.{
  revoke_limit, Request, Response, Web, Server, Route, ca, enroll, renew, ingest, revoke, unknown,
  serve, is_revoked, client_cn, bearer, handle_ingest, handle_renew, handle_revoke, handle_enroll,
  handle_ca, with_agent, issue_body, issue, serve_all, issued,
}

-- The request carries the platform's token.
abbrev pub IsAdmin : Server → Request → Type 0
IsAdmin s r = r.authorization ≡ bearer s

-- What a request can do to the state.
pub data Changes (s : Server) (r : Request) : Route → Server → Type 0 where
  nothing : {route : Route} → Changes s r route s
  revokes :
      (id : Bytes)
      → id ≢ []
      → IsAdmin s r
      → r.method ≡ codes "POST"
      → Changes s r revoke (record s { revoked = id ∷ s.revoked })

module _ (web : Web) (now : ℕ) where
  -- Without an id there is no change; with one it is checked first.
  handle_revoke-none :
      (s : Server) (r : Request)
      → web.decode_agent_id (take revoke_limit r.body) ≡ none
      → (handle_revoke web now s r).0 ≡ s
  unfolding handle_revoke
  handle_revoke-none s r e = ground (arith, e)

  handle_revoke-some :
      (s : Server) (r : Request) (id : Bytes)
      → web.decode_agent_id (take revoke_limit r.body) ≡ some id
      → ((handle_revoke web now s r).0 ≡ s)
        ⊎ (((handle_revoke web now s r).0 ≡ record s { revoked = id ∷ s.revoked })
            × (id ≢ [])
            × IsAdmin s r
            × (r.method ≡ codes "POST"))
  unfolding handle_revoke
  handle_revoke-some s r id e = ground (arith, e)

  handle_revoke-Changes :
      (s : Server) (r : Request) → Changes s r revoke (handle_revoke web now s r).0
  handle_revoke-Changes s r = elim (Option-cases (web.decode_agent_id (take revoke_limit r.body))) [
    | inl e ↦ rw (handle_revoke-none s r e) nothing
    | inr (id, e) ↦ elim (handle_revoke-some s r id e) [
      | inl h ↦ rw h nothing
      | inr (h, n, a, m) ↦ rw h (revokes id n a m)
    ]
  ]

  handle_enroll-Changes : (s : Server) (r : Request) → (handle_enroll web now s r).0 ≡ s
  unfolding handle_enroll
  handle_enroll-Changes s r = ground arith

  -- A request leaves the platform's state as it is, or it is a POST to /revoke that carries the
  -- platform's token, and adds one name that is not empty to the revoked ones.
  pub serve-Changes :
      (route : Route) (s : Server) (r : Request) → Changes s r route (serve web now route s r).0
  unfolding serve handle_ca handle_renew handle_ingest
  serve-Changes ca s r = nothing
  serve-Changes enroll s r = rw (handle_enroll-Changes s r) nothing
  serve-Changes renew s r = nothing
  serve-Changes ingest s r = nothing
  serve-Changes revoke s r = handle_revoke-Changes s r
  serve-Changes unknown s r = nothing

  Changes-is_revoked :
      (cn : Bytes) (s : Server) (r : Request) {route : Route} {s' : Server}
      → is_revoked cn s.revoked ≡ true
      → Changes s r route s'
      → is_revoked cn s'.revoked ≡ true
  unfolding is_revoked
  Changes-is_revoked cn s r h nothing = h
  Changes-is_revoked cn s r h (revokes id n a m) = ground (arith, h)

  -- Nothing takes a revocation back.
  still_revoked :
      (cn : Bytes) (rs : List (Route × Request)) (s : Server)
      → is_revoked cn s.revoked ≡ true
      → is_revoked cn (serve_all web now rs s).revoked ≡ true
  unfolding serve_all
  still_revoked cn [] s h = h
  still_revoked cn ((route, r) ∷ rs) s h =
      still_revoked cn rs _ (Changes-is_revoked cn s r h (serve-Changes route s r))

  locked_out :
      (cn : Bytes) (s : Server) (r : Request)
      → is_revoked cn s.revoked ≡ true
      → client_cn r ≡ some cn
      → r.method ≡ codes "POST"
      → ((handle_ingest web now s r).1.status ≡ 403) × ((handle_renew web now s r).1.status ≡ 403)
  unfolding handle_ingest handle_renew with_agent
  locked_out cn s r h c m = (ground (arith, h, c, m), ground (arith, h, c, m))

  revoke-is_revoked :
      (s : Server) (r : Request) (id : Bytes)
      → web.decode_agent_id (take revoke_limit r.body) ≡ some id
      → id ≢ []
      → IsAdmin s r
      → r.method ≡ codes "POST"
      → ((handle_revoke web now s r).1.status ≡ 204)
        × (is_revoked id (handle_revoke web now s r).0.revoked ≡ true)
  unfolding handle_revoke is_revoked
  revoke-is_revoked s r id e n a m = (ground (arith, e, a, m), ground (arith, e, a, m))

  module _ (s : Server) (admin : Request) (id : Bytes)
      (e : web.decode_agent_id (take revoke_limit admin.body) ≡ some id) (named : id ≢ [])
      (a : IsAdmin s admin) (m : admin.method ≡ codes "POST") where
    -- The state after the administrator's request, and after any requests that follow it.
    abbrev later : List (Route × Request) → Server
    later rs = serve_all web now rs (serve web now revoke s admin).0

    still_later : (rs : List (Route × Request)) → is_revoked id (later rs).revoked ≡ true
    unfolding serve
    still_later rs = still_revoked id rs _ (revoke-is_revoked s admin id e named a m).1

    -- Let a POST to /revoke carry the platform's token and a name that is not empty. Then, whatever
    -- requests the platform takes afterwards, a POST to /ingest under a client certificate with
    -- that name is answered with a status that Send classifies as a rejected identity, and a POST
    -- to /renew under it is answered with 403.
    pub revoke-unauthorized :
        (rs : List (Route × Request)) (r : Request)
        → client_cn r ≡ some id
        → r.method ≡ codes "POST"
        → (classify (serve web now ingest (later rs) r).1.status ≡ some unauthorized)
          × ((serve web now renew (later rs) r).1.status ≡ 403)
    unfolding serve classify nat_eq
    revoke-unauthorized rs r c p =
        let (i, n) = locked_out id (later rs) r (still_later rs) c p in (rw i refl, n)

  -- A request to /ingest or /renew under a client certificate is answered in the same way before
  -- and after another name is revoked.
  revoke-others :
      (s : Server) (id cn : Bytes) (r : Request)
      → client_cn r ≡ some cn
      → cn ≢ id
      → ((serve web now ingest (record s { revoked = id ∷ s.revoked }) r).1
          ≡ (serve web now ingest s r).1)
        × ((serve web now renew (record s { revoked = id ∷ s.revoked }) r).1
            ≡ (serve web now renew s r).1)
  unfolding serve handle_ingest handle_renew with_agent is_revoked issue_body issue
  revoke-others s id cn r c n = (ground (arith, c), ground (arith, c))

  handle_enroll-issued :
      (s : Server) (r : Request) (cert_pem ca_pem : Bytes)
      → (handle_enroll web now s r).1.body ≡ issued cert_pem ca_pem
      → (r.method ≡ codes "POST") × IsAdmin s r
  unfolding handle_enroll
  handle_enroll-issued s r cert_pem ca_pem h = (ground (arith, h), ground (arith, h))

  handle_revoke-not_issued :
      (s : Server) (r : Request) (cert_pem ca_pem : Bytes)
      → (handle_revoke web now s r).1.body ≢ issued cert_pem ca_pem
  unfolding handle_revoke
  handle_revoke-not_issued s r cert_pem ca_pem h = ground (arith, h)

  -- Behind a client certificate.
  abbrev pub IsAgent : Server → Request → Type 0
  IsAgent s r = (cn : Bytes) × (client_cn r ≡ some cn) × (is_revoked cn s.revoked ≡ false)

  with_agent-issued :
      (s : Server) (r : Request) (answer : Response) (cert_pem ca_pem : Bytes)
      → (with_agent web now s r answer).body ≡ issued cert_pem ca_pem
      → (r.method ≡ codes "POST") × IsAgent s r
  unfolding with_agent
  with_agent-issued s r answer cert_pem ca_pem h = elim (Option-cases (client_cn r)) [
    | inl e ↦ absurd (ground (arith, h, e))
    | inr (cn, e) ↦ (ground (arith, h, e), (cn, e, ground (arith, h, e)))
  ]

  -- A request whose answer has a newly signed certificate, which is the body that /enroll and
  -- /renew give (the authority's own one, which /ca hands out, is not meant), is a POST that
  -- carries the platform's token, or one under a client certificate whose name is not revoked.
  pub serve-issued :
      (route : Route) (s : Server) (r : Request) (cert_pem ca_pem : Bytes)
      → (serve web now route s r).1.body ≡ issued cert_pem ca_pem
      → (r.method ≡ codes "POST") × (IsAdmin s r ⊎ IsAgent s r)
  unfolding serve handle_ca handle_renew handle_ingest
  serve-issued ca s r cert_pem ca_pem h = absurd (ground (arith, h))
  serve-issued enroll s r cert_pem ca_pem h =
      let (m, a) = handle_enroll-issued s r cert_pem ca_pem h in (m, inl a)
  serve-issued renew s r cert_pem ca_pem h =
      let (m, a) = with_agent-issued s r _ cert_pem ca_pem h in (m, inr a)
  serve-issued ingest s r cert_pem ca_pem h =
      let (m, a) = with_agent-issued s r _ cert_pem ca_pem h in (m, inr a)
  serve-issued revoke s r cert_pem ca_pem h =
      absurd (handle_revoke-not_issued s r cert_pem ca_pem h)
  serve-issued unknown s r cert_pem ca_pem h = absurd (ground (arith, h))
