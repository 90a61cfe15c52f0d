-- ===== src/Node/Flood/Travel.antt =====
-- The way of a flood packet through the network: `handle_flood_packet` passes it on with its own
-- id added, and drops a packet that holds its id. So the way is short.
use pessi_streamer.Base.{
  ℕ, zero, suc, ◌+◌, ◌≡◌, true, List, nat_eq, contains, distinct, All, In, some,
}
use pessi_streamer.Containers.{Containers}
use pessi_streamer.Common.Packet.{SocketAddr, SystemTime, Packet, FloodPacket, node, flood, hops}
use pessi_streamer.Common.Reliable.{Codec, Bytes, reliable}
use pessi_streamer.Node.State.{State}
use pessi_streamer.Node.Handle.{handle_flood_packet}
use pessi_streamer.Node.Flood.Wire.{passed_on}

-- `q` is `p` after `n` nodes passed it on, each with an id among `ids`, in any state: `q` gets to a
-- node, whose handler then puts a datagram with the next packet on the wire.
pub data Travel ⦃lib : Containers⦄ ⦃codec : Codec Packet⦄ (ids : List ℕ) (p : FloodPacket)
    : ℕ → FloodPacket → Type 0 where
  start : Travel ids p zero p
  pass :
      {n : ℕ} {q : FloodPacket}
      → Travel ids p n q
      → (s : State) (now : SystemTime) (from to : SocketAddr) (k : ℕ) (b : Bytes)
      → contains ids s.id ≡ true
      → codec.serialize
          (reliable k (node (flood (passed_on q to (handle_flood_packet now from q s).1))))
        ≡ some b
      → In (to, b) (handle_flood_packet now from q s).1.socket.wire
      → (In (to, b) s.socket.wire → ⊥)
      → Travel ids p (suc n) (passed_on q to (handle_flood_packet now from q s).1)

module _ ⦃lib : Containers⦄ ⦃codec : Codec Packet⦄ (ids : List ℕ) where
  -- No node is visited twice, only nodes of the network are visited, and the hops count the nodes.
  record IsTrail (p : FloodPacket) (n : ℕ) (q : FloodPacket) : Type 0 where
    once : distinct q.visited_nodes ≡ true
    inside : All (λ x. contains ids x ≡ true) q.visited_nodes
    counted : hops q ≡ hops p + n
