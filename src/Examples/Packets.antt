-- ===== src/Examples/Packets.antt =====
-- The theorems on video packets, a ping and the periodic checks, at a concrete node.
use pessi_streamer.Base.{
  ℕ, ◌≡◌, ◌↔◌, refl, true, false, ◌==◌, some, [], ◌∷◌, nat_eq, arith, contains, retain, In,
}
use pessi_streamer.Containers.{get}
use pessi_streamer.Containers.Assoc.{assoc_containers}
use pessi_streamer.Common.Packet.{SocketAddr, addr_eq, VideoPacket}
use pessi_streamer.Common.Effect.{blocked, ok}
use pessi_streamer.Node.State.{RouteInfo, unresponsive}
use pessi_streamer.Node.Routing.{get_videos, offers}
use pessi_streamer.Node.Redirect.{
  handle_unresponsive_node, videos_from, videos_to, redirect_all, push_pending,
}
use pessi_streamer.Node.Handle.{handle_video_packet, handle_client_ping, mark_unresponsive}
use pessi_streamer.Node.Tasks.{
  silent_parents, drop_neighbour, is_silent, check_neighbours_round, client_health_check_round,
}
use pessi_streamer.Node.Subscriptions.{is_subscribed}
use pessi_streamer.Node.Subscriptions.Stop.{}
use pessi_streamer.Node.Health.{client_health_check_round_lem}
use pessi_streamer.Node.Neighbours.{check_neighbours_round_lem}
use pessi_streamer.Node.Ping.{handle_client_ping_waits}
use pessi_streamer.Node.Offers.{get_videos_lem}
use pessi_streamer.Node.Video.{handle_video_packet_relays, lost_packet_costs_two}
use pessi_streamer.Selection.{}
use pessi_streamer.Examples.{tiny_codec, relay, viewer, far_route, small, small-IsValid}

get_videos_lem_example : In (7, "seven") (get_videos small viewer) ↔ (
    (get small.video_names 7 ≡ some "seven")
    × (a : SocketAddr) × (r : RouteInfo) × (get small.available_routes a ≡ some r)
    × (((a == viewer) ≡ false) × (offers 7 (a, r) ≡ true)))
get_videos_lem_example = get_videos_lem small viewer 7 "seven"

abbrev frame : ℕ → VideoPacket
frame n = record { stream_id = 7; sequence_number = n; stream_data = 9 ∷ [] }

handle_video_packet_relays_example :
    ((handle_video_packet 4000 (frame 2) small).0 ≡ ok tt)
    × ((handle_video_packet 4000 (frame 2) small).1.socket.wire ≡ (viewer, 3 ∷ 7 ∷ 2 ∷ 9 ∷ []) ∷ [])
handle_video_packet_relays_example =
    handle_video_packet_relays 4000 (frame 2) (viewer ∷ []) (3 ∷ 7 ∷ 2 ∷ 9 ∷ []) small (omega arith)
      refl refl (λ c. refl)

lost_packet_costs_two_example :
    let t = (handle_video_packet 4000 (frame 3) small).1 in
    (t.socket.wire ≡ [])
    × ((handle_video_packet 4000 (frame 4) t).1.socket.wire ≡ (viewer, 3 ∷ 7 ∷ 4 ∷ 9 ∷ []) ∷ [])
lost_packet_costs_two_example =
    lost_packet_costs_two 4000 (frame 3) (frame 4) 1 (viewer ∷ []) (3 ∷ 7 ∷ 4 ∷ 9 ∷ []) small refl
      (omega arith) refl refl refl refl refl (λ c. refl)

client_health_check_round_lem_example :
    ((client_health_check_round 9_000_000_000 small).0 ≡ ok tt)
    × (is_subscribed (client_health_check_round 9_000_000_000 small).1 7 viewer ≡ false)
client_health_check_round_lem_example = client_health_check_round_lem 9_000_000_000 small 7 viewer

abbrev dropped_route : RouteInfo
dropped_route = record far_route { status = unresponsive }

relay_dropped :
    get (check_neighbours_round 9_000_000_000 small).1.available_routes relay ≡ some dropped_route
unfolding check_neighbours_round silent_parents retain drop_neighbour mark_unresponsive
    handle_unresponsive_node videos_from videos_to redirect_all push_pending contains
relay_dropped = refl

check_neighbours_round_lem_example :
    ((check_neighbours_round 9_000_000_000 small).0 ≡ ok tt)
    × (is_silent 9_000_000_000 dropped_route ≡ false)
check_neighbours_round_lem_example =
    check_neighbours_round_lem 9_000_000_000 small relay dropped_route small-IsValid relay_dropped

handle_client_ping_waits_example :
    handle_client_ping 4000 1 [] viewer small
    ≡ (blocked, record small { last_pings = (viewer, 4000) ∷ [] })
unfolding contains
handle_client_ping_waits_example = handle_client_ping_waits 4000 1 [] viewer small 7 refl refl tt
