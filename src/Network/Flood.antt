-- ===== src/Network/Flood.antt =====
-- The way of the server's list of videos to a node: `run_periodic_flood_packets` of
-- server/src/server.rs, `run_packet_task` of node/src/node.rs, and `handle_flood_packet` of
-- node/src/handle.rs.
use Prim.Native.String.{String}
use mathlib.Core.Option
use mathlib.Core.List.{foldl}
use pessi_streamer.Base.{
  ℕ, ◌≡◌, refl, ap, ◌∙◌, inl, inr, true, false, Option, none, some, List, [], ◌∷◌, arith, nat_eq,
  Eq, ◌==◌, ==_refl, ==_iff, contains, distinct, keys, lookup, lookup_absent, contains_of_lookup,
  map, unwrap_or, In, All, Bool-cases,
}
use pessi_streamer.Containers.{Containers, Map, get, insert, iter, get-insert}
use pessi_streamer.Common.Packet.{
  SocketAddr, addr_eq, VideoId, SystemTime, Packet, node, flood, hops,
}
use pessi_streamer.Common.Effect.{ok, logged}
use pessi_streamer.Common.Reliable.{Codec, Bytes, unreliable}
use pessi_streamer.Common.Reliable.Delivery.{datagrams, send_unreliable_broadcast_lem}
use pessi_streamer.Server.State.{State as ServerState, Video, get_video_list}
use pessi_streamer.Server.Tasks.{flood_packet, flood_round}
use pessi_streamer.Node.State.{
  State as NodeState, RouteInfo, default_route, update_from_flood_packet, video_ids,
}
use pessi_streamer.Node.Routing.{get_videos, offers}
use pessi_streamer.Node.Handle.{broadcast_targets, handle_flood_packet, handle_packet, learn_names}
use pessi_streamer.Node.Flood.{
  handle_flood_packet_routes, handle_flood_packet_relays, handle_flood_packet_names,
  handle_flood_packet_told,
}
use pessi_streamer.Node.Flood.Wire.{IsUp, AreWritable, IsTold}
use pessi_streamer.Node.Offers.{get_videos_complete}
use pessi_streamer.Node.Tasks.{packet_round, dispatch}
use pessi_streamer.Network.Stream.{receive_unreliable}

module _ ⦃lib : Containers⦄ where
  or_else : {V : Type 0} → Option V → Option V → Option V
  or_else none d = d
  or_else (some v) d = some v

  -- Insertions of entries with distinct keys, one after another.
  get-foldl_insert :
      {K V : Type 0} ⦃e : Eq K⦄ (l : List (K × V)) (m : Map K V) (k : K)
      → distinct (keys l) ≡ true
      → get (foldl (λ x v. insert x v.0 v.1) m l) k ≡ or_else (lookup k l) (get m k)
  unfolding or_else distinct
  get-foldl_insert [] m k d = refl
  get-foldl_insert ((j, w) ∷ l) m k d =
      get-foldl_insert l (insert m j w) k (ground (arith, d)) ∙ elim (Bool-cases (j == k)) [
        | inl hit ↦ ground (arith, hit, ==_iff j k, d, lookup_absent l k, get-insert m j w k)
        | inr miss ↦ ground (arith, miss, get-insert m j w k)
      ]

  lookup-names :
      (l : List (VideoId × Video)) (v : VideoId)
      → lookup v (map (λ e. (e.0, e.1.name)) l) ≡ Option.map (λ x. x.name) (lookup v l)
  lookup-names [] v = refl
  lookup-names ((j, x) ∷ l) v = ground (arith, lookup-names l v)

  keys-names : (l : List (VideoId × Video)) → keys (map (λ e. (e.0, e.1.name)) l) ≡ keys l
  keys-names [] = refl
  keys-names ((j, x) ∷ l) = ap (◌∷◌ j) (keys-names l)

  keys-video_ids : (l : List (VideoId × String)) → video_ids l ≡ keys l
  keys-video_ids [] = refl
  keys-video_ids ((j, x) ∷ l) = ap (◌∷◌ j) (keys-video_ids l)

  -- What the server lists.
  lookup-get_video_list :
      (srv : ServerState) (v : VideoId) (x : Video)
      → get srv.videos v ≡ some x
      → (lookup v (get_video_list srv) ≡ some x.name)
        × (distinct (keys (get_video_list srv)) ≡ true)
  unfolding get_video_list
  lookup-get_video_list srv v x found = (
    lookup-names (iter srv.videos) v
        ∙ ap (Option.map (λ y. y.name)) (lib.lookup_iter nat_eq srv.videos v ∙ found),
    ap distinct (keys-names (iter srv.videos)) ∙ lib.distinct_iter nat_eq srv.videos,
  )

module _ ⦃lib : Containers⦄ ⦃codec : Codec Packet⦄ (sent_at now : SystemTime)
    (from : SocketAddr) where
  -- The route to the sender of the packet, after it.
  abbrev pub learnt_route : ServerState → NodeState → RouteInfo
  learnt_route srv n =
      update_from_flood_packet now (flood_packet sent_at srv)
        (unwrap_or (get n.available_routes from) default_route)

  learnt_route-offers :
      (srv : ServerState) (n : NodeState) (v : VideoId) (x : Video)
      → get srv.videos v ≡ some x
      → offers v (from, learnt_route srv n) ≡ true
  unfolding update_from_flood_packet
  learnt_route-offers srv n v x found =
      ap (λ ids. contains ids v) (keys-video_ids (get_video_list srv))
      ∙ contains_of_lookup (get_video_list srv) v x.name (lookup-get_video_list srv v x found).0

  module _ (srv : ServerState) (n : NodeState) (v : VideoId) (x : Video) (b : Bytes)
      (found : get srv.videos v ≡ some x) (new : (srv.id == n.id) ≡ false)
      (written : codec.serialize (unreliable (node (flood (flood_packet sent_at srv))))
        ≡ some b) where
    abbrev pub after : NodeState
    after = (packet_round now (some (b, from)) n).1

    unseen : contains (flood_packet sent_at srv).visited_nodes n.id ≡ false
    unfolding contains
    unseen = ground (arith, new)

    arrival : packet_round now (some (b, from)) n ≡ (
      logged (handle_flood_packet now from (flood_packet sent_at srv) n).0,
      (handle_flood_packet now from (flood_packet sent_at srv) n).1,
    )
    unfolding dispatch handle_packet
    arrival = receive_unreliable now from (node (flood (flood_packet sent_at srv))) b n written

    names : get after.video_names v ≡ some x.name
    unfolding learn_names or_else
    names =
        let (there, unique) = lookup-get_video_list srv v x found in
        ap (λ m. get m.1.video_names v) arrival
        ∙ ap (λ m. get m v) (handle_flood_packet_names now from (flood_packet sent_at srv) n unseen)
        ∙ get-foldl_insert (get_video_list srv) n.video_names v unique
        ∙ ap (λ o. or_else o (get n.video_names v)) there

    route : get after.available_routes from ≡ some (learnt_route srv n)
    route =
        ap (λ m. get m.1.available_routes from) arrival
        ∙ handle_flood_packet_routes now from (flood_packet sent_at srv) n from unseen
        ∙ ground (arith, ==_refl from)

    told :
        IsUp n
        → AreWritable (flood_packet sent_at srv) after (broadcast_targets from n)
        → All (IsTold (flood_packet sent_at srv) after after.socket.wire) (broadcast_targets from n)
    told up writable =
        let same = ap (λ m. m.1) arrival in
        let handled = (handle_flood_packet now from (flood_packet sent_at srv) n).1 in
        let writable' : AreWritable (flood_packet sent_at srv) handled (broadcast_targets from n) =
          rw same at writable in
        rw same (handle_flood_packet_told now from (flood_packet sent_at srv) n unseen up writable')

    -- The server's flood packet reaches a node with another id: the round of the server sends it to
    -- each of its neighbours, unreliably; the node's handler ends, and from then on the node has an
    -- active route of one hop to the server that offers each of the server's videos, and lists each of
    -- them, by its name, for everybody but the server; and to each of its own neighbours but the
    -- server it has sent, reliably, the packet with itself among the visited nodes, its parents, and
    -- that list. The server's and the node's sends succeed, and the packets can be written.
    pub flood_reaches_node :
        (to : SocketAddr)
        → ((c : ℕ) → srv.clients_socket.fate c ≡ true)
        → (from == to) ≡ false
        → IsUp n
        → AreWritable (flood_packet sent_at srv) after (broadcast_targets from n)
        → ((flood_round sent_at srv).0 ≡ ok tt)
          × ((flood_round sent_at srv).1.clients_socket.wire
              ≡ datagrams b srv.neighbours srv.clients_socket.wire)
          × ((packet_round now (some (b, from)) n).0 ≡ ok tt)
          × (get after.available_routes from ≡ some (learnt_route srv n))
          × ((learnt_route srv n).hops ≡ 1)
          × (offers v (from, learnt_route srv n) ≡ true)
          × In (v, x.name) (get_videos after to)
          × All
              (IsTold (flood_packet sent_at srv) after after.socket.wire)
              (broadcast_targets from n)
    unfolding flood_round update_from_flood_packet hops
    flood_reaches_node to up other up' writable =
        let (sent, out) =
          send_unreliable_broadcast_lem (node (flood (flood_packet sent_at srv))) srv.neighbours b
            srv.clients_socket written up in
        let (ended, _) = handle_flood_packet_relays now from (flood_packet sent_at srv) n unseen in
        let offered = learnt_route-offers srv n v x found in
        (
          sent,
          out,
          ap (λ m. m.0) arrival ∙ ap logged ended,
          route,
          refl,
          offered,
          get_videos_complete after to v x.name from (learnt_route srv n) names route other offered,
          told up' writable,
        )
