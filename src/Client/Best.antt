-- ===== src/Client/Best.antt =====
-- What `select_best_node` of client/src/client.rs selects.
use pessi_streamer.Base.{arith, ◌≡◌, ◌≢◌, ◌⊎◌, inl, inr, true, false, none, some}
use pessi_streamer.Containers.{Containers, get}
use pessi_streamer.Common.Packet.{SocketAddr, addr_eq, VideoId}
use pessi_streamer.Selection.Table.{IsBestKey, select_key_lem}
use pessi_streamer.Client.State.{
  State, Node, is_connected, average_rtt, offers, node_key, select_best_node,
}

module _ ⦃lib : Containers⦄ where
  -- Every connected node has a round-trip time on record, so that its average is defined.
  abbrev pub AreMeasured : State → Type 0
  AreMeasured s =
      (a : SocketAddr) (n : Node)
      → get s.nodes a ≡ some n
      → is_connected n.status ≡ true
      → average_rtt n ≢ none

  abbrev pub IsBestNode : State → VideoId → SocketAddr → Type 0
  IsBestNode s video_id = IsBestKey average_rtt (node_key s) (offers video_id) s.nodes

  connected_of_offers :
      (v : VideoId) (a : SocketAddr) (n : Node)
      → offers v (a, n) ≡ true
      → is_connected n.status ≡ true
  connected_of_offers v a n h = ground (arith, h)

  -- Where every connected node has a round-trip time, the selection does not panic. It yields no
  -- node exactly if no connected node has the video, and otherwise a best node: a connected node
  -- that has the video, whose average time is within 30% of the least one of those nodes, and whose
  -- key (videos played from it, videos available on it) no other such node within that limit goes
  -- below.
  pub select_best_node_lem :
      (s : State) (video_id : VideoId)
      → AreMeasured s
      → ((select_best_node s video_id ≡ some none)
          × ((b : SocketAddr) (n : Node) → get s.nodes b ≡ some n → offers video_id (b, n) ≡ false))
        ⊎ ((addr : SocketAddr) × (select_best_node s video_id ≡ some (some addr))
            × IsBestNode s video_id addr)
  unfolding select_best_node
  select_best_node_lem s video_id measured =
      elim (select_key_lem average_rtt (node_key s) (offers video_id) s.nodes
        (λ a n found offered. measured a n found (connected_of_offers video_id a n offered))) [
          | inl (chosen, unoffered) ↦ inl (rw chosen, unoffered)
          | inr (e, chosen, best) ↦ inr (e.0, rw chosen, best)
        ]
