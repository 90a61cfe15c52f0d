-- ===== src/Node/Redirect.antt =====
-- The operations of node/src/node.rs and node/src/handle.rs that request, redirect and stop videos.
use pessi_streamer.Base.{
  Option, none, some, List, [], ◌∷◌, ◌++◌, length, ◌==◌, nat_eq, not, any, retain, contains, keys,
  unwrap_or, is_empty, if◌then◌else◌,
}
use Prim.Native.String.{String}
use pessi_streamer.Containers.{Containers, iter, get, insert, remove, modify, contains_key}
use pessi_streamer.Common.Packet.{
  IpAddr, SocketAddr, addr_eq, VideoId, SystemTime, Packet, node, server, new_neighbour,
  request_video, stop_video,
}
use pessi_streamer.Common.Subscribers.{add_subscriber, drop_subscriber}
use pessi_streamer.Common.Effect.{
  ok, panic, Task, pure, gets, update, ◌>>=◌, ◌>>◌, log_error, for_each,
}
use pessi_streamer.Common.Reliable.{Codec, ReliablePacketResult, acknowledged, timeout}
use pessi_streamer.Node.State.{State, RouteInfo, NodeType, parent, child, connecting, send}
use pessi_streamer.Node.Routing.{get_best_node_to_redirect}

abbrev pub parents_of : NodeType → List SocketAddr
parents_of (parent p) = p.parents
parents_of child = []

module _ ⦃lib : Containers⦄ where
  abbrev pub route_parents : Option RouteInfo → List SocketAddr
  route_parents none = []
  route_parents (some r) = parents_of r.node_type

  unfoldable pub register_new_neighbour : IpAddr → State → State
  register_new_neighbour ip s = record s { neighbours = s.neighbours ++ ip ∷ [] }

  -- `interested.entry(video_id).or_default()`, and a push of an address that is not there.
  unfoldable pub subscribe : VideoId → SocketAddr → State → State
  subscribe video_id addr s = record s {
    interested =
        insert s.interested video_id
          (add_subscriber addr (unwrap_or (get s.interested video_id) []));
  }

  unfoldable pub unsubscribe : VideoId → SocketAddr → State → State
  unsubscribe video_id addr s = record s {
    interested = modify s.interested video_id (drop_subscriber addr);
  }

  unfoldable pub push_pending : List VideoId → State → State
  push_pending videos s = record s { pending_video_requests = s.pending_video_requests ++ videos }

  abbrev pub best_node : VideoId → Task State (Option SocketAddr)
  best_node video_id s = elim (get_best_node_to_redirect s video_id) [
    | none ↦ (panic, s)
    | some best ↦ (ok best, s)
  ]

  -- The videos that are received from `addr`, and those that `addr` is subscribed to.
  unfoldable pub videos_from : SocketAddr → State → List VideoId
  videos_from addr s = keys (retain (λ e. e.1 == addr) (iter s.video_routes))

  unfoldable pub videos_to : SocketAddr → State → List VideoId
  videos_to addr s = keys (retain (λ e. contains e.1 addr) (iter s.interested))

module _ ⦃lib : Containers⦄ ⦃codec : Codec Packet⦄ (now : SystemTime) where
  unfoldable pub request_video_to_node : VideoId → SocketAddr → Task State Unit
  request_video_to_node video_id addr = do
    send now (server (request_video video_id)) addr
    update (λ s. record s { video_routes = insert s.video_routes video_id addr })

  -- The two ends of `handle_request_video`, by the best node that was found.
  unfoldable pub request_or_queue : VideoId → Option SocketAddr → Task State Unit
  unfolding request_video_to_node push_pending
  request_or_queue video_id (some best) = request_video_to_node video_id best
  request_or_queue video_id none = update (push_pending (video_id ∷ []))

  unfoldable pub handle_request_video : VideoId → SocketAddr → Task State Unit
  unfolding subscribe request_or_queue
  handle_request_video video_id addr = do
    update (subscribe video_id addr)
    routed ← gets (λ s. contains_key s.video_routes video_id)
    if routed then pure tt else do best ← best_node video_id; request_or_queue video_id best

  unfoldable pub stop_route : VideoId → Option SocketAddr → Task State Unit
  stop_route video_id none = pure tt
  stop_route video_id (some addr) = do
    update (λ s. record s { video_routes = remove s.video_routes video_id })
    send now (server (stop_video video_id)) addr
    pure tt

  unfoldable pub handle_stop_video : VideoId → SocketAddr → Task State Unit
  unfolding unsubscribe stop_route
  handle_stop_video video_id addr = do
    update (unsubscribe video_id addr)
    remaining ← gets (λ s. length (unwrap_or (get s.interested video_id) []))
    route ← gets (λ s. get s.video_routes video_id)
    if remaining == 0 then stop_route video_id route else pure tt

  unfoldable pub connect_to_node_parent : SocketAddr → Task State Unit
  connect_to_node_parent addr = do
    receiver ← send now (node new_neighbour) addr
    update (λ s. record s { spawned = connecting addr receiver ∷ s.spawned })

  -- The task that `connect_to_node_parent` spawns, given what its channel received; `none` is a
  -- channel that was dropped.
  unfoldable pub run_connecting : SocketAddr → Option ReliablePacketResult → State → State
  unfolding register_new_neighbour
  run_connecting addr (some (acknowledged d)) s = register_new_neighbour addr.ip s
  run_connecting addr (some timeout) s = s
  run_connecting addr none s = s

  unfoldable pub check_pending_videos : SocketAddr → List (VideoId × String) → Task State Unit
  unfolding request_video_to_node
  check_pending_videos from received = do
    to_remove ← gets (λ s. retain (λ v. any (λ e. e.0 == v) received) s.pending_video_requests)
    for_each to_remove (λ v. log_error (request_video_to_node v from))
    update (λ s. record s {
      pending_video_requests = retain (λ v. not (contains to_remove v)) s.pending_video_requests;
    })

  -- One round of the loop over the received videos: the videos that no node could be found for.
  unfoldable pub redirect_to : VideoId → Option SocketAddr → Task State (List VideoId)
  unfolding request_video_to_node
  redirect_to video_id none = pure (video_id ∷ [])
  redirect_to video_id (some best) = do log_error (request_video_to_node video_id best); pure []

  unfoldable pub redirect_all : List VideoId → Task State (List VideoId)
  unfolding redirect_to
  redirect_all [] = pure []
  redirect_all (v ∷ vs) = do
    best ← best_node v
    left ← redirect_to v best
    rest ← redirect_all vs
    pure (left ++ rest)

  unfoldable pub connect_to_parents : List SocketAddr → Task State Unit
  unfolding connect_to_node_parent
  connect_to_parents addrs = for_each addrs λ addr s.
      if addr == s.socket.local_addr then (ok tt, s) else log_error (connect_to_node_parent addr) s

  unfoldable pub handle_unresponsive_node : SocketAddr → Task State Unit
  unfolding videos_from videos_to handle_stop_video redirect_all connect_to_parents push_pending
  handle_unresponsive_node addr = do
    videos_receiving ← gets (videos_from addr)
    videos_sending ← gets (videos_to addr)
    for_each videos_sending (λ v. log_error (handle_stop_video v addr))
    remaining ← redirect_all videos_receiving
    node_parents ← gets (λ s. route_parents (get s.available_routes addr))
    if is_empty remaining then pure tt else connect_to_parents node_parents
    update (push_pending remaining)
