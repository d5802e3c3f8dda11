-- ===== src/Upstream/Client.antt =====
-- internal/upstream/upstream.go and api.go: the client that dials, redials and forwards requests.
pub mod Reconnect
use bscp_go.Prelude.Options.{◌>>=◌}
use bscp_go.Prelude.{
  ℕ, zero, suc, String, Bool, true, false, Option, none, some, leb, if◌then◌else◌,
}
use bscp_go.Upstream.Balancer.{Balancer, pick_one}
use bscp_go.Upstream.Blocker.{Blocker, try_block, unblock, Waited, released, given_up, waiting}

-- What the calls of gRPC do is given: `dial_context` tries one endpoint within the timeout, and
-- `close_conn` says whether it closed without an error. Both may change the world outside.
pub record Grpc : Type 1 where
  pub World : Type 0
  pub Conn : Type 0
  pub dial_context : World → String → ℕ → Option Conn × World
  pub close_conn : World → Conn → Bool × World

abbrev pub default_dial_timeout_ms : ℕ
default_dial_timeout_ms = 5000

-- A timeout of 0 or less is replaced; `0` stands for those.
pub dial_timeout : ℕ → ℕ
dial_timeout option = if leb option 0 then default_dial_timeout_ms else option

pub data Status : Type 0 where
  ok failed : Status

module _ (g : Grpc) where
  open g use {World, Conn, dial_context, close_conn}

  -- `client` is the connection that the stub was made over; `cancel_ctx` says that the field is set.
  pub record UpstreamClient : Type 0 where
    pub timeout_ms : ℕ
    pub lb : Balancer
    pub wait : Blocker
    pub conn : Option Conn
    pub client : Option Conn
    pub cancel_ctx : Bool
    pub world : World

  -- The world after the previous connection is closed, as `dial` begins. An error of the close is
  -- logged, and the new connection is dialled all the same.
  unfoldable pub close_previous : UpstreamClient → World
  close_previous uc = elim uc.conn [ none ↦ uc.world | some conn ↦ (close_conn uc.world conn).1 ]

  pub connected : UpstreamClient → Option Conn × World → Status × UpstreamClient
  connected uc (none, w) = (failed, record uc { cancel_ctx = false; world = w })
  connected uc (some conn, w) =
      (ok, record uc { cancel_ctx = true; conn = some conn; client = some conn; world = w })

  -- `none` is a panic, of the balancer.
  pub dial : UpstreamClient → Option (Status × UpstreamClient)
  unfolding connected
  dial uc = do
    let closed = close_previous uc
    (endpoint, lb) ← pick_one uc.lb
    some (connected (record uc { lb = lb }) (dial_context closed endpoint uc.timeout_ms))

  -- The deferred `Unblock` runs on both returns.
  pub reconnect_upstream_server : UpstreamClient → Option (Status × UpstreamClient)
  unfolding dial
  reconnect_upstream_server uc =
      let (got, blocked) = try_block uc.wait in
      if got
      then (do
        (status, dialled) ← dial (record uc { wait = blocked })
        free ← unblock dialled.wait
        some (status, record dialled { wait = free }))
      else some (ok, uc)

  -- `Close`: the status is the error of the connection's close; on an error `conn` is kept.
  pub close_conn_field : UpstreamClient → Status × UpstreamClient
  close_conn_field uc = elim uc.conn [
    | none ↦ (ok, uc)
    | some conn ↦
        let (clean, w) = close_conn uc.world conn in
        if clean
        then (ok, record uc { conn = none; world = w })
        else (failed, record uc { world = w })
  ]

  pub close : UpstreamClient → Status × UpstreamClient
  unfolding close_conn_field
  close uc = close_conn_field (record uc { cancel_ctx = false })

  -- The first loop of client/reconnect.go's `tryReconnect`, and the inner loop of `enableBounce`:
  -- dial again until it works. `none` is a panic, or that the rounds ran out.
  pub reconnect_loop : ℕ → UpstreamClient → Option UpstreamClient
  reconnect_loop zero uc = none
  reconnect_loop (suc rounds) uc =
      let again = λ (next : UpstreamClient). reconnect_loop rounds next in
      do
        (status, next) ← reconnect_upstream_server uc
        elim status [ ok ↦ some next | failed ↦ again next ]

  -- How the methods of api.go go: wait at the blocker, then call the stub. `none` is a panic of the
  -- nil stub; `blocked` means that the wait has not ended.
  pub data Reply {ℓ} (A : Type ℓ) : Type ℓ where
    reply : A → Reply A
    wait_failed blocked no_stub invalid_type : Reply A

  pub call_stub {ℓ} : {A : Type ℓ} → Option Conn → (Conn → A) → Reply A
  call_stub none rpc = no_stub
  call_stub (some conn) rpc = reply (rpc conn)

  pub request {ℓ} : {A : Type ℓ} → UpstreamClient → Waited → (Conn → A) → Reply A
  unfolding call_stub
  request uc given_up rpc = wait_failed
  request uc waiting rpc = blocked
  request uc released rpc = call_stub uc.client rpc

  -- `Messaging` validates the message type after the wait.
  pub messaging {ℓ} : {A : Type ℓ} → UpstreamClient → Waited → Bool → (Conn → A) → Reply A
  unfolding request
  messaging uc waited valid rpc =
      if valid
      then request uc waited rpc
      else elim waited [ released ↦ invalid_type | given_up ↦ wait_failed | waiting ↦ blocked ]
