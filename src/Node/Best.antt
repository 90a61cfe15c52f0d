-- ===== src/Node/Best.antt =====
-- What `get_best_node_to_redirect` of node/src/node.rs selects.
use pessi_streamer.Base.{◌≡◌, ◌≢◌, ◌⊎◌, inl, inr, false, none, some, nat_eq}
use pessi_streamer.Containers.{Containers, get}
use pessi_streamer.Common.Packet.{SocketAddr, addr_eq, VideoId}
use pessi_streamer.Selection.Table.{IsBestKey, select_key_lem}
use pessi_streamer.Node.State.{State, RouteInfo, average_delay_to_server}
use pessi_streamer.Node.Routing.{offers, route_key, get_best_node_to_redirect}

module _ ⦃lib : Containers⦄ where
  -- Every known route has a delay on record, so that its average is defined.
  abbrev pub AreMeasured : State → Type 0
  AreMeasured s =
      (a : SocketAddr) (r : RouteInfo)
      → get s.available_routes a ≡ some r
      → average_delay_to_server r ≢ none

  -- `addr` is a best node for the video.
  abbrev pub IsBestNode : State → VideoId → SocketAddr → Type 0
  IsBestNode s video_id =
      IsBestKey average_delay_to_server (route_key s) (offers video_id) s.available_routes

  -- Where every known route is measured, the selection does not panic. It yields no node exactly
  -- if no active route offers the video, and otherwise a best node: an active route that offers
  -- it, whose average delay is within 30% of the least average delay of those routes, and whose
  -- key (hops, videos requested over it, videos available on it) no other such route within that
  -- limit goes below.
  pub get_best_node_to_redirect_lem :
      (s : State) (video_id : VideoId)
      → AreMeasured s
      → ((get_best_node_to_redirect s video_id ≡ some none)
          × ((b : SocketAddr) (r : RouteInfo)
              → get s.available_routes b ≡ some r
              → offers video_id (b, r) ≡ false))
        ⊎ ((addr : SocketAddr) × (get_best_node_to_redirect s video_id ≡ some (some addr))
            × IsBestNode s video_id addr)
  unfolding get_best_node_to_redirect
  get_best_node_to_redirect_lem s video_id measured =
      elim (select_key_lem average_delay_to_server (route_key s) (offers video_id)
        s.available_routes (λ a r found _. measured a r found)) [
          | inl (chosen, unoffered) ↦ inl (rw chosen, unoffered)
          | inr (e, chosen, best) ↦ inr (e.0, rw chosen, best)
        ]
