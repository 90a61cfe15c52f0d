-- ===== src/Bootstrap.antt =====
-- The bootstrapper (bootstrapper/src/bootstrapper.rs), and how a node asks it for its neighbours
-- (common/src/neighbours.rs). What the operating system does in one attempt is an `Attempt`; the
-- hash of an address is a parameter.
pub mod Exchange
use pessi_streamer.Base.{
  ℕ, ◌-◌, ◌≡◌, ◌⊎◌, inl, inr, Bool, true, false, Option, none, some, List, [], ◌∷◌, nat_eq, nat_beq,
  is_empty, unwrap_or, if◌then◌else◌,
}
use pessi_streamer.Containers.{Containers, Map, get}
use pessi_streamer.Common.Packet.{IpAddr, SocketAddr, BootstrapperNeighboursResponse}
use pessi_streamer.Common.Effect.{Outcome, io_error, ok, err, Task, pure}
use pessi_streamer.Common.Reliable.{Bytes}

-- `bincode`: what it writes it reads back.
pub record ResponseCodec : Type 0 where
  pub serialize : BootstrapperNeighboursResponse → Option Bytes
  pub deserialize : Bytes → Option BootstrapperNeighboursResponse
  pub read_back :
      (r : BootstrapperNeighboursResponse) (b : Bytes)
      → serialize r ≡ some b
      → deserialize b ≡ some r

-- The connection of a client: whether a write goes through, and what was written.
pub record TcpStream : Type 0 where
  pub accepts : Bool
  pub written : Option Bytes

pub record State ⦃lib : Containers⦄ : Type 0 where
  pub neighbours : Map IpAddr (List IpAddr)

-- `stream.write_all`
unfoldable pub write_all : Bytes → Task TcpStream Unit
write_all b k = if k.accepts then (ok tt, record k { written = some b }) else (err io_error, k)

module _ ⦃lib : Containers⦄ (hash : SocketAddr → ℕ) where
  abbrev pub calculate_id : SocketAddr → ℕ
  calculate_id addr = hash addr

  unfoldable pub response : SocketAddr → State → BootstrapperNeighboursResponse
  response addr s = record {
    neighbours = unwrap_or (get s.neighbours addr.ip) [];
    id = calculate_id addr;
  }

  -- A response that cannot be written is logged.
  unfoldable pub handle_client : ⦃codec : ResponseCodec⦄ → SocketAddr → State → Task TcpStream Unit
  unfolding write_all response
  handle_client ⦃codec⦄ addr s k = elim (codec.serialize (response addr s)) [
    | none ↦ (ok tt, k)
    | some b ↦ write_all b k
  ]

module _ ⦃lib : Containers⦄ ⦃codec : ResponseCodec⦄ (hash : SocketAddr → ℕ) where
  -- The loop of `run_server`, over what `accept` returns, `none` being an error, which ends it: the
  -- streams once their tasks are done, and whether the loop goes on.
  unfoldable pub run_server : List (Option (TcpStream × SocketAddr)) → State → List TcpStream × Bool
  run_server [] s = ([], true)
  run_server (none ∷ later) s = ([], false)
  run_server (some (stream, addr) ∷ later) s =
      let (streams, runs) = run_server later s in
      ((handle_client hash addr s stream).1 ∷ streams, runs)

pub data FetchError : Type 0 where
  socket_error connect_error read_error no_data bincode_error shutdown_error : FetchError

-- What the system does: whether the socket is bound and the connection is made in time, the bytes that
-- have arrived at the time of the read, if they do in time, and whether the shutdown succeeds.
pub record Attempt : Type 0 where
  pub binds : Bool
  pub connects : Bool
  pub arrived : Option Bytes
  pub shuts_down : Bool

abbrev pub buffer_size : ℕ
buffer_size = 1024

unfoldable pub take {ℓ} : {A : Type ℓ} → ℕ → List A → List A
take n [] = []
take n (x ∷ xs) = let rest = take (n - 1) xs in if nat_beq n 0 then [] else x ∷ rest

-- `&buf[..n]`, after a read into the buffer.
abbrev pub read : Bytes → Bytes
read arrived = take buffer_size arrived

module _ ⦃codec : ResponseCodec⦄ where
  unfoldable pub parse_response :
      Bool → Option BootstrapperNeighboursResponse → FetchError ⊎ BootstrapperNeighboursResponse
  parse_response shuts_down none = inl bincode_error
  parse_response shuts_down (some r) = if shuts_down then inr r else inl shutdown_error

  unfoldable pub on_read : Bool → Option Bytes → FetchError ⊎ BootstrapperNeighboursResponse
  unfolding parse_response take
  on_read shuts_down none = inl read_error
  on_read shuts_down (some b) =
      if is_empty (read b)
      then inl no_data
      else parse_response shuts_down (codec.deserialize (read b))

  unfoldable pub fetch_neighbours : Attempt → FetchError ⊎ BootstrapperNeighboursResponse
  unfolding on_read
  fetch_neighbours a =
      if a.binds
      then (if a.connects then on_read a.shuts_down a.arrived else inl connect_error)
      else inl socket_error

  abbrev pub or_retry :
      FetchError ⊎ BootstrapperNeighboursResponse
      → Option BootstrapperNeighboursResponse
      → Option BootstrapperNeighboursResponse
  or_retry (inl e) later = later
  or_retry (inr r) later = some r

  -- The loop, over the attempts that are made; `none` says that it goes on.
  unfoldable pub fetch_bootstrapper_with_retries :
      List Attempt → Option BootstrapperNeighboursResponse
  unfolding fetch_neighbours
  fetch_bootstrapper_with_retries [] = none
  fetch_bootstrapper_with_retries (a ∷ later) =
      or_retry (fetch_neighbours a) (fetch_bootstrapper_with_retries later)
