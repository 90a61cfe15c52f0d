-- ===== src/Examples/Nodes.antt =====
-- The theorems on a node, at a node with one server, one other node and one client.
use pessi_streamer.Base.{
  ◌≡◌, ◌⊎◌, refl, true, false, none, some, List, [], ◌∷◌, nat_eq, arith, contains, ==_iff, retain,
}
use pessi_streamer.Containers.{get}
use pessi_streamer.Containers.Assoc.{assoc_containers}
use pessi_streamer.Common.Packet.{SocketAddr, addr_eq, SystemTime}
use pessi_streamer.Common.Effect.{Sound, ok}
use pessi_streamer.Node.State.{RouteInfo, sum, average_delay_to_server}
use pessi_streamer.Node.Routing.{get_best_node_to_redirect, offers}
use pessi_streamer.Node.Best.{IsBestNode, get_best_node_to_redirect_lem}
use pessi_streamer.Node.Redirect.{handle_request_video, handle_stop_video, handle_unresponsive_node}
use pessi_streamer.Node.Handle.{}
use pessi_streamer.Node.Tasks.{Event, arrives, checks_neighbours, react, run}
use pessi_streamer.Node.Invariant.{IsValid}
use pessi_streamer.Node.Invariant.Rounds.{react-Sound, run-IsValid}
use pessi_streamer.Node.Subscriptions.{is_subscribed, handle_request_video_asks}
use pessi_streamer.Node.Subscriptions.Stop.{subscribed_lem, handle_stop_video_last}
use pessi_streamer.Node.Recovery.Ready.{Elsewhere, IsReady}
use pessi_streamer.Node.Recovery.{handle_unresponsive_node_redirects}
use pessi_streamer.Node.Flood.{}
use pessi_streamer.Node.Video.{}
use pessi_streamer.Selection.{
  select, averages, minimum, within, min_by_key, min_by_key_from, max_delay_threshold, least_from,
}
use pessi_streamer.Examples.{
  tiny_codec, source, relay, viewer, small, unrouted, small-AreMeasured, small-IsValid,
}

get_best_node_to_redirect_lem_example :
    ((get_best_node_to_redirect small 7 ≡ some none)
      × ((b : SocketAddr) (r : RouteInfo)
          → get small.available_routes b ≡ some r
          → offers 7 (b, r) ≡ false))
    ⊎ ((addr : SocketAddr) × (get_best_node_to_redirect small 7 ≡ some (some addr))
        × IsBestNode small 7 addr)
get_best_node_to_redirect_lem_example = get_best_node_to_redirect_lem small 7 small-AreMeasured

react-Sound_example : Sound IsValid (react 9_000_000_000 checks_neighbours small)
react-Sound_example = react-Sound 9_000_000_000 checks_neighbours small tt small-IsValid

abbrev events : List (SystemTime × Event)
events = (1, arrives (some (1 ∷ 0 ∷ 7 ∷ [], relay))) ∷ (9_000_000_000, checks_neighbours) ∷ []

run-IsValid_example : IsValid (run events small)
run-IsValid_example = run-IsValid events small (tt, (tt, tt)) small-IsValid

handle_request_video_asks_example :
    let s' = (handle_request_video 4 7 viewer unrouted).1 in
    ((handle_request_video 4 7 viewer unrouted).0 ≡ ok tt)
    × (s'.socket.wire ≡ (relay, 1 ∷ 0 ∷ 7 ∷ []) ∷ [])
    × (get s'.video_routes 7 ≡ some relay)
    × (is_subscribed s' 7 viewer ≡ true)
unfolding get_best_node_to_redirect select averages retain contains average_delay_to_server sum
    minimum within min_by_key max_delay_threshold least_from min_by_key_from
handle_request_video_asks_example =
    handle_request_video_asks 4 7 viewer relay (1 ∷ 0 ∷ 7 ∷ []) unrouted 7 refl refl refl

subscribed_lem_example :
    (is_subscribed (handle_request_video 4 7 relay small).1 7 relay ≡ true)
    × (is_subscribed (handle_stop_video 4 7 relay small).1 7 relay ≡ false)
subscribed_lem_example = subscribed_lem 4 7 relay small 7 relay

only_viewer : (b : SocketAddr) → is_subscribed small 7 b ≡ true → b ≡ viewer
unfolding contains
only_viewer b h = ground (arith, h, ==_iff viewer b)

handle_stop_video_last_example :
    ((handle_stop_video 4 7 viewer small).0 ≡ ok tt)
    × ((handle_stop_video 4 7 viewer small).1.socket.wire ≡ (source, 2 ∷ 0 ∷ 7 ∷ []) ∷ [])
    × (get (handle_stop_video 4 7 viewer small).1.video_routes 7 ≡ none)
handle_stop_video_last_example =
    handle_stop_video_last 4 7 viewer source (2 ∷ 0 ∷ 7 ∷ []) small 7 only_viewer refl refl

small-IsReady : IsReady source small
small-IsReady = record { measured = small-AreMeasured; gone = λ r found. cc found; up = λ c. refl }

handle_unresponsive_node_redirects_example :
    ((handle_unresponsive_node 4 source small).0 ≡ ok tt)
    × (Elsewhere source (handle_unresponsive_node 4 source small).1 7
        ⊎ (contains (handle_unresponsive_node 4 source small).1.pending_video_requests 7 ≡ true))
handle_unresponsive_node_redirects_example =
    handle_unresponsive_node_redirects 4 source (λ id v. (1 ∷ id ∷ v ∷ [], refl)) small 7
      small-IsReady refl
