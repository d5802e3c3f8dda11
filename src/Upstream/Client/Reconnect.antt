-- ===== src/Upstream/Client/Reconnect.antt =====
-- Reconnecting (upstream.go) and the loop of client/reconnect.go over it: one at a time, requests
-- freed on every path, and fail-over to an endpoint that answers.
use bscp_go.Prelude.{
  ℕ, zero, suc, ◌+◌, ◌-◌, ◌≤◌, ◌<◌, String, ◌≡◌, ap, ◌∙◌, ◌≢◌, inl, inr, true, false, Option, none,
  some, arith, leb, ◌==◌, if◌then◌else◌, Option-cases, get_elem?, get_elem?-lt,
}
use bscp_go.Upstream.Balancer.{Balancer}
use bscp_go.Upstream.Balancer.Rounds
use bscp_go.Upstream.Balancer.Rounds.{pick_one_lem}
use bscp_go.Upstream.Blocker.{try_block, unblock}
use bscp_go.Upstream.Blocker.Waiters
use bscp_go.Upstream.Blocker.Waiters.{
  try_block-IsValid, try_block-held, try_block-free, unblock-IsValid,
}
use bscp_go.Upstream.Client.{
  Grpc, Status, ok, failed, UpstreamClient, close_previous, connected, dial,
  reconnect_upstream_server, reconnect_loop,
}

module _ (g : Grpc) where
  open g use {World, Conn, dial_context, close_conn}

  pub record IsValid (uc : UpstreamClient g) : Type 0 where
    pub balanced : Rounds.IsValid uc.lb
    pub held : Waiters.IsValid uc.wait

  -- A reconnection while another one holds the blocker reports no error and changes nothing.
  pub reconnect_busy :
      (uc : UpstreamClient g)
      → uc.wait.state ≡ true
      → reconnect_upstream_server g uc ≡ some (ok, uc)
  unfolding reconnect_upstream_server
  reconnect_busy uc busy = rw (try_block-held uc.wait busy)

  abbrev advanced : Balancer → Balancer
  advanced lb = record lb { index = if lb.index == lb.max then 0 else lb.index + 1 }

  -- A dial tries the endpoint at the balancer's index, and moves the index on.
  dial_lem :
      (uc : UpstreamClient g) (e : String)
      → Rounds.IsValid uc.lb
      → get_elem? uc.lb.endpoints uc.lb.index ≡ some e
      → dial g uc
        ≡ some (
            connected g
              (record uc { lb = advanced uc.lb })
              (dial_context (close_previous g uc) e uc.timeout_ms))
  unfolding dial
  dial_lem uc e v found =
      let (e', found', step) = pick_one_lem uc.lb v in
      let same : e' ≡ e = ground arith in rw (step, same)

  advanced-IsValid : (lb : Balancer) → Rounds.IsValid lb → Rounds.IsValid (advanced lb)
  advanced-IsValid lb v = ground arith

  abbrev status : Option Conn → Status
  status none = failed
  status (some conn) = ok

  abbrev renewed : Option Conn → Option Conn → Option Conn
  renewed none old = old
  renewed (some conn) old = some conn

  record IsConnected (uc : UpstreamClient g) (answer : Option Conn) (r : Status × UpstreamClient g)
      : Type 0 where
    reported : r.0 ≡ status answer
    conn : r.1.conn ≡ renewed answer uc.conn
    client : r.1.client ≡ renewed answer uc.client
    wait : r.1.wait ≡ uc.wait
    lb : r.1.lb ≡ uc.lb
    timeout : r.1.timeout_ms ≡ uc.timeout_ms

  connected-IsConnected :
      (uc : UpstreamClient g) (p : Option Conn × World) → IsConnected uc p.0 (connected g uc p)
  unfolding connected
  connected-IsConnected uc (none, w) = ground arith
  connected-IsConnected uc (some conn, w) = ground arith

  -- What a reconnection that is not ignored leaves.
  pub record IsDone (uc next : UpstreamClient g) : Type 0 where
    pub valid : IsValid next
    pub free : next.wait.state ≡ false
    pub moved : next.lb ≡ advanced uc.lb
    pub timeout : next.timeout_ms ≡ uc.timeout_ms

  -- A reconnection of a client that is not reconnecting dials the endpoint at the balancer's index,
  -- and never panics. It reports success exactly when the dial got a connection, which it then
  -- uses; a failed one keeps the old fields. Either way the blocker is free again afterwards.
  pub reconnect_lem :
      (uc : UpstreamClient g) (e : String)
      → IsValid uc
      → uc.wait.state ≡ false
      → get_elem? uc.lb.endpoints uc.lb.index ≡ some e
      → let answer = (dial_context (close_previous g uc) e uc.timeout_ms).0 in
        (next : UpstreamClient g) × (reconnect_upstream_server g uc ≡ some (status answer, next))
        × (next.conn ≡ renewed answer uc.conn)
        × (next.client ≡ renewed answer uc.client)
        × IsDone uc next
  unfolding reconnect_upstream_server close_previous
  reconnect_lem uc e v idle found =
      let (got, _) = try_block-free uc.wait idle in
      let blocked = (try_block uc.wait).1 in
      let (wait, freed, w, off) = unblock-IsValid blocked (try_block-IsValid uc.wait v.held) in
      let step = dial_lem (record uc { wait = blocked }) e v.balanced found in
      let answer = dial_context (close_previous g uc) e uc.timeout_ms in
      let before = record uc { wait = blocked; lb = advanced uc.lb } in
      let r = connected g before answer in
      let c = connected-IsConnected before answer in
      let freed' : unblock r.1.wait ≡ some wait = rw c.wait freed in
      (
        record r.1 { wait = wait },
        rw (got, step, freed')
            (ap (λ (s : Status). some (s, record r.1 { wait = wait })) c.reported),
        c.conn,
        c.client,
        record {
          valid = record { balanced = rw c.lb (advanced-IsValid uc.lb v.balanced); held = w };
          free = off;
          moved = c.lb;
          timeout = c.timeout;
        },
      )

  -- The picks that it takes to come to the endpoint `j` from the index `i`.
  abbrev pub distance : Balancer → ℕ → ℕ
  distance lb j = if leb lb.index j then j - lb.index else lb.max + 1 - lb.index + j

  distance-advanced :
      (lb : Balancer) (j : ℕ)
      → Rounds.IsValid lb
      → j ≤ lb.max
      → lb.index ≢ j
      → distance (advanced lb) j + 1 ≡ distance lb j
  distance-advanced lb j v h ne = ground arith

  -- The endpoint accepts every dial.
  pub record IsUp (e : String) : Type 0 where
    pub accepts :
        (w : World) (timeout : ℕ) → (conn : Conn) × ((dial_context w e timeout).0 ≡ some conn)

  not_refused :
      (e' e : String) (uc : UpstreamClient g) (j : ℕ)
      → get_elem? uc.lb.endpoints j ≡ some e'
      → get_elem? uc.lb.endpoints j ≡ some e
      → IsUp e
      → (dial_context (close_previous g uc) e' uc.timeout_ms).0 ≡ none
      → ⊥
  not_refused e' e uc j found at_j up refused =
      let same : e' ≡ e = ground arith in
      let (conn, got) = up.accepts (close_previous g uc) uc.timeout_ms in
      cc (rw same at refused, got)

  -- Of a client that is well formed, its balancer and its blocker included, and that no other
  -- reconnection is at work on, so that the blocker is free: if the endpoint at place `j` accepts
  -- every dial, the loop that reconnects until it succeeds ends with a connection and a free
  -- blocker, and a well-formed client, after at most as many failures as there are endpoints from
  -- the balancer's index, going round, to `j`.
  pub reconnect_loop_ends :
      (rounds : ℕ) (uc : UpstreamClient g) (j : ℕ) (e : String)
      → IsValid uc
      → uc.wait.state ≡ false
      → get_elem? uc.lb.endpoints j ≡ some e
      → j ≤ uc.lb.max
      → IsUp e
      → distance uc.lb j < rounds
      → (next : UpstreamClient g) × (conn : Conn) × (reconnect_loop g rounds uc ≡ some next)
        × (next.conn ≡ some conn)
        × (next.client ≡ some conn)
        × (next.wait.state ≡ false)
        × IsValid next
  unfolding reconnect_loop
  reconnect_loop_ends zero uc j e v idle at_j in_range up h = absurd (omega arith)
  reconnect_loop_ends (suc rounds) uc j e v idle at_j in_range up h =
      let (e', found) = get_elem?-lt uc.lb.endpoints uc.lb.index (omega arith) in
      let (next, step, conn_eq, client_eq, done) = reconnect_lem uc e' v idle found in
      elim (Option-cases (dial_context (close_previous g uc) e' uc.timeout_ms).0) [
        | inr (conn, got) ↦ (
          next,
          conn,
          rw (step, got),
          conn_eq ∙ ap (λ (a : Option Conn). renewed a uc.conn) got,
          client_eq ∙ ap (λ (a : Option Conn). renewed a uc.client) got,
          done.free,
          done.valid,
        )
        | inl refused ↦
            let elsewhere : uc.lb.index ≢ j =
              λ same. not_refused e' e uc j (rw same at found) at_j up refused in
            let closer = distance-advanced uc.lb j v.balanced in_range elsewhere in
            let ih =
              reconnect_loop_ends rounds next j e done.valid done.free (rw done.moved at_j)
                (rw done.moved in_range) up (rw done.moved (omega arith)) in
            (ih.0, ih.1, rw (step, refused) ih.2, ih.3, ih.4, ih.5, ih.6)
      ]
