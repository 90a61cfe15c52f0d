-- ===== src/Start.antt =====
-- The start of a node (node/src/main.rs), a server (server/src/main.rs), a client
-- (client/src/main.rs) and the bootstrapper (bootstrapper/src/main.rs): the bootstrapper's address
-- of common/src/lib.rs, its answer, and the first state. `parse` reads an address from the text of
-- an environment variable, `from_str` the neighbours from a TOML text; the tasks that are spawned
-- then are the events of the runs.
pub mod Ends
pub mod Select
pub mod Mains
pub mod Servers
pub mod Clients
use Prim.Native.String.{String}
use mathlib.Core.Option
use pessi_streamer.Base.{
  ℕ, ◌≡◌, refl, inl, Bool, true, false, Option, none, some, List, [], ◌∷◌, ◌++◌, map, nat_eq, All,
  length, is_empty, unwrap_or, if◌then◌else◌, ◌≤◌,
}
use pessi_streamer.Containers.{Containers, Map, get}
use pessi_streamer.Common.Packet.{
  IpAddr, SocketAddr, SystemTime, server_port, Packet, BootstrapperNeighboursResponse,
}
use pessi_streamer.Common.Effect.{Outcome, ok, err, panic, io_error}
use pessi_streamer.Common.Reliable.{Socket, Codec, Bytes, new_socket}
use pessi_streamer.Selection.{and_then}
use pessi_streamer.Bootstrap.{
  ResponseCodec, TcpStream, State as BootstrapState, response, handle_client, Attempt, FetchError,
  fetch_neighbours, fetch_bootstrapper_with_retries, buffer_size,
}
use pessi_streamer.Bootstrap.Exchange.{Reaches, bootstrap_lem}
use pessi_streamer.Node.State.{State as NodeState, new_state as new_node_state}
use pessi_streamer.Node.Invariant.{IsValid, new_state-IsValid}
use pessi_streamer.Node.Tasks.{Event, run}
use pessi_streamer.Node.Invariant.Rounds.{IsReal, run-IsValid}
use pessi_streamer.Client.State.{
  State as ClientState, VideoPlayerType, new_state as new_client_state,
}
use pessi_streamer.Client.Player.{Command, check_installation}
use pessi_streamer.Server.State.{State as ServerState, new_state as new_server_state}

abbrev pub at_port : IpAddr → SocketAddr
at_port ip = record { ip = ip; port = server_port }

unfoldable pub get_bootstrapper_address :
    (String → Option IpAddr) → Option String → Option SocketAddr
get_bootstrapper_address parse none = none
get_bootstrapper_address parse (some ip_str) = Option.map at_port (parse ip_str)

module _ ⦃lib : Containers⦄ where
  -- `ReliableUdpSocket::new`, which may fail.
  abbrev pub bind : Bool → SocketAddr → (ℕ → Bool) → Option Socket
  bind bound addr fate = if bound then some (new_socket addr fate) else none

  abbrev pub node_of_response : BootstrapperNeighboursResponse → Socket → NodeState
  node_of_response r socket = new_node_state r.id r.neighbours socket

  abbrev pub server_of_response : BootstrapperNeighboursResponse → Socket → ServerState
  server_of_response r socket = new_server_state socket r.id (map at_port r.neighbours)

module _ ⦃lib : Containers⦄ where
  -- `main` of the bootstrapper up to its loop, given whether the socket is bound, and the text of the
  -- configuration, if it can be read.
  unfoldable pub start_bootstrapper :
      (String → Option (Map IpAddr (List IpAddr))) → Bool → Option String → Option BootstrapState
  start_bootstrapper from_str bound config =
      if bound
      then (and_then config λ text. Option.map (λ m. record { neighbours = m }) (from_str text))
      else none

  -- `main` of the client up to its tasks; the address is the one that the system chooses.
  unfoldable pub start_client :
      (Command → Option Bool)
      → Bool
      → SocketAddr
      → (ℕ → Bool)
      → List IpAddr
      → VideoPlayerType
      → Outcome ClientState
  start_client status bound addr fate servers player =
      if check_installation status player
      then elim (bind bound addr fate) [
        | none ↦ err io_error
        | some socket ↦ ok (new_client_state socket servers player)
      ]
      else panic

module _ ⦃lib : Containers⦄ ⦃codec : ResponseCodec⦄ (parse : String → Option IpAddr)
    (env : Option String) (attempts : List Attempt) (bound : Bool) (ip : IpAddr)
    (fate : ℕ → Bool) where
  -- `main` of the node up to its tasks; `none` is an error, or that it still asks the bootstrapper.
  unfoldable pub start_node : Option NodeState
  unfolding get_bootstrapper_address
  start_node = and_then (get_bootstrapper_address parse env) λ bootstrapper_addr.
      and_then (fetch_bootstrapper_with_retries attempts)
        λ r. Option.map (node_of_response r) (bind bound (at_port ip) fate)

  -- `main` of the server up to its tasks, given whether `ffmpeg` is there or could be downloaded.
  unfoldable pub start_server : Bool → Option ServerState
  unfolding get_bootstrapper_address
  start_server false = none
  start_server true = and_then (get_bootstrapper_address parse env) λ bootstrapper_addr.
      and_then (fetch_bootstrapper_with_retries attempts)
        λ r. Option.map (server_of_response r) (bind bound (at_port ip) fate)

module _ ⦃lib : Containers⦄ ⦃codec : Codec Packet⦄ ⦃responses : ResponseCodec⦄ where
  -- A node that is given the bootstrapper's address, and binds its socket, starts with the neighbours
  -- that the bootstrapper lists for the node's address, however many attempts failed before, once
  -- the whole response, of at most 1024 bytes, has arrived; and whatever datagrams, wake-ups, checks
  -- and finished tasks whose send did not panic follow, its tables stay valid.
  pub start_node_lem :
      (parse : String → Option IpAddr) (text : String) (bootstrapper ip : IpAddr) (fate : ℕ → Bool)
      (hash : SocketAddr → ℕ) (s : BootstrapState) (k : TcpStream) (b : Bytes)
      (failed later : List Attempt) (a : Attempt) (es : List (SystemTime × Event))
      → parse text ≡ some bootstrapper
      → responses.serialize (response hash (at_port ip) s) ≡ some b
      → k.accepts ≡ true
      → is_empty b ≡ false
      → length b ≤ buffer_size
      → All (λ x. (e : FetchError) × (fetch_neighbours x ≡ inl e)) failed
      → Reaches a b
      → All (λ e. IsReal e.1) es
      → (handle_client hash (at_port ip) s k ≡ (ok tt, record k { written = some b }))
        × ((n : NodeState) × (start_node parse (some text) (failed ++ a ∷ later) true ip fate
              ≡ some n)
            × (n.neighbours ≡ unwrap_or (get s.neighbours ip) [])
            × (n.id ≡ hash (at_port ip))
            × IsValid (run es n))
  unfolding start_node get_bootstrapper_address new_node_state
  start_node_lem parse text bootstrapper ip fate hash s k b failed later a es parsed written accepts
        filled small fails reaches real =
      let (served, fetched) =
        bootstrap_lem hash (at_port ip) s k b failed later a written accepts filled small fails
          reaches in
      let n =
        new_node_state (hash (at_port ip)) (unwrap_or (get s.neighbours ip) [])
          (new_socket (at_port ip) fate) in
      (
        served,
        (n, rw (parsed, fetched) refl, refl, refl, run-IsValid es n real (new_state-IsValid _ _ _)),
      )
