-- ===== src/Node/Routing.antt =====
-- The queries of node/src/node.rs on the known routes.
use Prim.Native.String.{String}
use pessi_streamer.Base.{
  ℕ, Bool, ◌&&◌, Option, List, [], ◌∷◌, length, ◌==◌, nat_eq, not, any, retain, contains, keys,
}
use mathlib.Core.Option
use pessi_streamer.Containers.{Containers, iter}
use pessi_streamer.Common.Packet.{SocketAddr, VideoId, addr_eq}
use pessi_streamer.Selection.{select}
use pessi_streamer.Node.State.{State, RouteInfo, is_active, is_parent, average_delay_to_server}

module _ ⦃lib : Containers⦄ where
  -- An active route over which the video can be had.
  abbrev pub offers : VideoId → SocketAddr × RouteInfo → Bool
  offers video_id e = is_active e.1.status && contains e.1.available_videos video_id

  unfoldable pub get_number_of_videos_requested_via_node : State → SocketAddr → ℕ
  get_number_of_videos_requested_via_node s node =
      length (retain (λ e. e.1 == node) (iter s.video_routes))

  abbrev pub route_key : State → SocketAddr × RouteInfo → List ℕ
  route_key s e =
      e.1.hops ∷ get_number_of_videos_requested_via_node s e.0 ∷ length e.1.available_videos ∷ []

  abbrev pub route_average : SocketAddr × RouteInfo → Option ℕ
  route_average e = average_delay_to_server e.1

  -- The outer `none` is a panic.
  unfoldable pub get_best_node_to_redirect : State → VideoId → Option (Option SocketAddr)
  get_best_node_to_redirect s video_id =
      Option.map (Option.map λ e. e.0)
        (select route_average (route_key s) (retain (offers video_id) (iter s.available_routes)))

  -- The videos that some active route other than `to` offers.
  unfoldable pub get_videos : State → SocketAddr → List (VideoId × String)
  get_videos s to =
      retain (λ v. any (λ e. not (e.0 == to) && offers v.0 e) (iter s.available_routes))
        (iter s.video_names)

  unfoldable pub get_parents : State → List SocketAddr
  get_parents s = keys (retain (λ e. is_parent e.1.node_type) (iter s.available_routes))
