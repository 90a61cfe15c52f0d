-- ===== src/Node/Invariant/Requests.antt =====
-- The operations of node.rs that request, redirect and stop videos keep the tables valid, and do
-- not panic.
use Prim.Native.String.{String}
use pessi_streamer.Base.{
  refl, inl, inr, Option, none, some, List, [], ◌∷◌, ◌++◌, length, nat_eq, Bool-cases, unwrap_or,
  if◌then◌else◌, retain, any, ◌==◌, is_empty,
}
use pessi_streamer.Containers.{Containers, get, remove, contains_key}
use pessi_streamer.Common.Packet.{
  SocketAddr, addr_eq, VideoId, SystemTime, Packet, node, server, new_neighbour, request_video,
  stop_video,
}
use pessi_streamer.Common.Effect.{
  pure, log_error, for_each, Sound, Sound-continue, Sound-logged, Sound-for_each,
}
use pessi_streamer.Common.Reliable.{Codec}
use pessi_streamer.Node.State.{State, send}
use pessi_streamer.Node.Redirect.{
  subscribe, unsubscribe, request_video_to_node, request_or_queue, handle_request_video, stop_route,
  handle_stop_video, connect_to_node_parent, check_pending_videos, redirect_to, redirect_all,
  connect_to_parents, handle_unresponsive_node, push_pending, best_node, videos_to, videos_from,
  route_parents,
}
use pessi_streamer.Node.Handle.{}
use pessi_streamer.Node.Invariant.{
  IsValid, IsValid-frame, subscribe-IsValid, unsubscribe-IsValid, send-Sound, pure-Sound,
  best_node-Sound, if-Sound,
}

module _ ⦃lib : Containers⦄ ⦃codec : Codec Packet⦄ (now : SystemTime) where
  pub request_video_to_node-Sound :
      (v : VideoId) (addr : SocketAddr) (s : State)
      → IsValid s
      → Sound IsValid (request_video_to_node now v addr s)
  unfolding request_video_to_node
  request_video_to_node-Sound v addr s valid =
      Sound-continue IsValid (send now (server (request_video v)) addr s) _
        (send-Sound now (server (request_video v)) addr s valid)
        (λ _ t h. ((λ e. cc), IsValid-frame t _ refl refl h))

  request_or_queue-Sound :
      (v : VideoId) (best : Option SocketAddr) (s : State)
      → IsValid s
      → Sound IsValid (request_or_queue now v best s)
  unfolding request_or_queue push_pending
  request_or_queue-Sound v none s valid = ((λ e. cc), IsValid-frame s _ refl refl valid)
  request_or_queue-Sound v (some addr) s valid = request_video_to_node-Sound v addr s valid

  pub handle_request_video-Sound :
      (v : VideoId) (addr : SocketAddr) (s : State)
      → IsValid s
      → Sound IsValid (handle_request_video now v addr s)
  unfolding handle_request_video
  handle_request_video-Sound v addr s valid =
      let after = subscribe-IsValid v addr s valid in
      if-Sound now (contains_key (subscribe v addr s).video_routes v) _ _ (subscribe v addr s)
        (pure-Sound now tt (subscribe v addr s) after)
        (Sound-continue IsValid (best_node v (subscribe v addr s)) _
          (best_node-Sound now v (subscribe v addr s) after)
          (λ best t h. request_or_queue-Sound v best t h))

  pub stop_route-Sound :
      (v : VideoId) (route : Option SocketAddr) (s : State)
      → IsValid s
      → Sound IsValid (stop_route now v route s)
  unfolding stop_route
  stop_route-Sound v none s valid = pure-Sound now tt s valid
  stop_route-Sound v (some addr) s valid =
      let t : State = record s { video_routes = remove s.video_routes v } in
      Sound-continue IsValid (send now (server (stop_video v)) addr t) _
        (send-Sound now (server (stop_video v)) addr t (IsValid-frame s t refl refl valid))
        (λ _ u h. pure-Sound now tt u h)

  pub handle_stop_video-Sound :
      (v : VideoId) (addr : SocketAddr) (s : State)
      → IsValid s
      → Sound IsValid (handle_stop_video now v addr s)
  unfolding handle_stop_video
  handle_stop_video-Sound v addr s valid =
      let t = unsubscribe v addr s in
      let after = unsubscribe-IsValid v addr s valid in
      if-Sound now (length (unwrap_or (get t.interested v) []) == 0) _ _ t
        (stop_route-Sound v (get t.video_routes v) t after) (pure-Sound now tt t after)

  connect_to_node_parent-Sound :
      (addr : SocketAddr) (s : State)
      → IsValid s
      → Sound IsValid (connect_to_node_parent now addr s)
  unfolding connect_to_node_parent
  connect_to_node_parent-Sound addr s valid =
      Sound-continue IsValid (send now (node new_neighbour) addr s) _
        (send-Sound now (node new_neighbour) addr s valid)
        (λ _ t h. ((λ e. cc), IsValid-frame t _ refl refl h))

  connect_to_parents-Sound :
      (addrs : List SocketAddr) (s : State)
      → IsValid s
      → Sound IsValid (connect_to_parents now addrs s)
  unfolding connect_to_parents
  connect_to_parents-Sound addrs s valid =
      Sound-for_each IsValid addrs _
        (λ addr _ t h. elim (Bool-cases (addr == t.socket.local_addr)) [
          | inl same ↦ rw same (pure-Sound now tt t h)
          | inr other ↦ rw other (
              Sound-logged IsValid (connect_to_node_parent now addr t)
                (connect_to_node_parent-Sound addr t h))
        ])
        s valid

  redirect_to-Sound :
      (v : VideoId) (best : Option SocketAddr) (s : State)
      → IsValid s
      → Sound IsValid (redirect_to now v best s)
  unfolding redirect_to
  redirect_to-Sound v none s valid = pure-Sound now (v ∷ []) s valid
  redirect_to-Sound v (some addr) s valid =
      Sound-continue IsValid (log_error (request_video_to_node now v addr) s) _
        (Sound-logged IsValid (request_video_to_node now v addr s)
          (request_video_to_node-Sound v addr s valid))
        (λ _ t h. pure-Sound now [] t h)

  redirect_all-Sound :
      (vs : List VideoId) (s : State) → IsValid s → Sound IsValid (redirect_all now vs s)
  unfolding redirect_all
  redirect_all-Sound [] s valid = pure-Sound now [] s valid
  redirect_all-Sound (v ∷ vs) s valid =
      Sound-continue IsValid (best_node v s) _ (best_node-Sound now v s valid) λ best t h.
        Sound-continue IsValid (redirect_to now v best t) _ (redirect_to-Sound v best t h)
          λ left u h'.
            Sound-continue IsValid (redirect_all now vs u) _ (redirect_all-Sound vs u h')
              λ rest w h''. pure-Sound now (left ++ rest) w h''

  logged_stops-Sound :
      (vs : List VideoId) (addr : SocketAddr) (s : State)
      → IsValid s
      → Sound IsValid (for_each vs (λ v. log_error (handle_stop_video now v addr)) s)
  logged_stops-Sound vs addr s valid =
      Sound-for_each IsValid vs _
        (λ v _ t h.
          Sound-logged IsValid (handle_stop_video now v addr t)
            (handle_stop_video-Sound v addr t h))
        s valid

  pub handle_unresponsive_node-Sound :
      (addr : SocketAddr) (s : State)
      → IsValid s
      → Sound IsValid (handle_unresponsive_node now addr s)
  unfolding handle_unresponsive_node push_pending
  handle_unresponsive_node-Sound addr s valid =
      Sound-continue IsValid
        (for_each (videos_to addr s) (λ v. log_error (handle_stop_video now v addr)) s) _
        (logged_stops-Sound (videos_to addr s) addr s valid)
        λ _ t h.
          Sound-continue IsValid (redirect_all now (videos_from addr s) t) _
            (redirect_all-Sound (videos_from addr s) t h)
            λ remaining u h'.
              Sound-continue IsValid
                ((if is_empty remaining
                    then pure tt
                    else connect_to_parents now (route_parents (get u.available_routes addr)))
                  u)
                _
                (if-Sound now (is_empty remaining) (pure tt) _ u (pure-Sound now tt u h')
                  (connect_to_parents-Sound (route_parents (get u.available_routes addr)) u h'))
                λ _ w h''. ((λ e. cc), IsValid-frame w _ refl refl h'')

  pub check_pending_videos-Sound :
      (from : SocketAddr) (received : List (VideoId × String)) (s : State)
      → IsValid s
      → Sound IsValid (check_pending_videos now from received s)
  unfolding check_pending_videos
  check_pending_videos-Sound from received s valid =
      Sound-continue IsValid _ _
        (Sound-for_each IsValid
          (retain (λ v. any (λ e. e.0 == v) received) s.pending_video_requests)
          (λ v. log_error (request_video_to_node now v from))
          (λ v _ t h.
            Sound-logged IsValid (request_video_to_node now v from t)
              (request_video_to_node-Sound v from t h))
          s valid)
        (λ _ t h. ((λ e. cc), IsValid-frame t _ refl refl h))
