-- ===== src/Start/Clients.antt =====
-- A client that has been started (client/src/main.rs).
use mathlib.Core.List.{foldl}
use pessi_streamer.Base.{
  ℕ, ◌≡◌, ◌⊎◌, refl, inl, inr, false, Bool, Option, none, some, List, [], ◌∷◌, In, subst, nat_eq,
  ==_refl, ==_iff, ◌==◌, Bool-cases, ◌∙◌, sym,
}
use pessi_streamer.Containers.{Containers, Map, get, insert, get-new, get-insert}
use pessi_streamer.Common.Packet.{IpAddr, SocketAddr, addr_eq, VideoId, Packet}
use pessi_streamer.Common.Effect.{ok, err, panic, io_error}
use pessi_streamer.Common.Reliable.{Codec, new_socket}
use pessi_streamer.Client.State.{State, Node, VideoPlayerType, new_node, new_nodes, new_state}
use pessi_streamer.Client.Player.{Command, check_installation}
use pessi_streamer.Client.Invariant.{IsValid, new_state-IsValid}
use pessi_streamer.Start.{at_port, start_client}

module _ ⦃lib : Containers⦄ where
  inserted :
      (m : Map SocketAddr Node) (a : SocketAddr)
      → get (insert m a (new_node a)) a ≡ some (new_node a)
  inserted m a = get-insert m a (new_node a) a ∙ rw (==_refl a) refl

  known_node :
      (ips : List IpAddr) (m : Map SocketAddr Node) (ip : IpAddr)
      → In ip ips ⊎ (get m (at_port ip) ≡ some (new_node (at_port ip)))
      → get (foldl (λ k x. insert k (at_port x) (new_node (at_port x))) m ips) (at_port ip)
        ≡ some (new_node (at_port ip))
  known_node [] m ip (inr known) = known
  known_node [] m ip (inl i) = absurd i
  known_node (x ∷ xs) m ip h =
      known_node xs (insert m (at_port x) (new_node (at_port x))) ip (elim h [
        | inl (inl same) ↦ inr (rw same (inserted m (at_port ip)))
        | inl (inr later) ↦ inl later
        | inr known ↦ inr (elim (Bool-cases (at_port x == at_port ip)) [
          | inl same ↦
              subst (λ a. get (insert m a (new_node a)) (at_port ip) ≡ some (new_node (at_port ip)))
                (sym ((==_iff (at_port x) (at_port ip)).0 same)) (inserted m (at_port ip))
          | inr other ↦
              get-insert m (at_port x) (new_node (at_port x)) (at_port ip) ∙ rw other known
        ])
      ])

module _ ⦃lib : Containers⦄ ⦃codec : Codec Packet⦄ where
  -- A client stops at once if its player is not installed, and fails if no socket can be bound.
  -- Otherwise it knows each server that it was given, as one that has not answered, and plays
  -- nothing, and its tables are valid.
  pub start_client_lem :
      (status : Command → Option Bool) (bound : Bool) (addr : SocketAddr) (fate : ℕ → Bool)
      (servers : List IpAddr) (player : VideoPlayerType)
      → (start_client status bound addr fate servers player ≡ panic)
          × (check_installation status player ≡ false)
        ⊎ (start_client status bound addr fate servers player ≡ err io_error) × (bound ≡ false)
        ⊎ ((s : State) × (start_client status bound addr fate servers player ≡ ok s)
            × ((ip : IpAddr)
                → In ip servers
                → get s.nodes (at_port ip) ≡ some (new_node (at_port ip)))
            × ((v : VideoId) → get s.playing_videos v ≡ none)
            × IsValid s)
  unfolding start_client new_state new_nodes
  start_client_lem status bound addr fate servers player =
      elim (Bool-cases (check_installation status player)) [
        | inr missing ↦ inl (rw missing refl, missing)
        | inl installed ↦ inr (elim (Bool-cases bound) [
          | inr refused ↦ inl (rw (installed, refused) refl, refused)
          | inl up ↦
              (let s = new_state (new_socket addr fate) servers player in
                inr (
                  s,
                  rw (installed, up) refl,
                  (λ ip i. known_node servers _ ip (inl i)),
                  (λ v. get-new v),
                  new_state-IsValid (new_socket addr fate) servers player,
                ))
        ])
      ]
