-- ===== src/Node/Invariant.antt =====
-- The well-formedness of a node's tables under every event.
pub mod Requests
pub mod Handlers
pub mod Rounds
use mathlib.Core.List.{foldl}
use pessi_streamer.Base.{
  ℕ, ◌+◌, ◌-◌, ◌<◌, ◌≡◌, ◌≢◌, ◌⊎◌, refl, ap, sym, ◌∙◌, inl, inr, Bool, true, false, Option, none,
  some, List, [], ◌∷◌, ◌++◌, length, arith, ==_iff, nat_eq, distinct, distinct-retain,
  distinct-push, contains, Bool-cases, Option-cases, unwrap_or, if◌then◌else◌, All, All-In, In,
  All-of_retain, retain-All, is_some, ◌==◌, not, is_empty,
}
use pessi_streamer.Containers.{
  Containers, get, insert, remove, iter, All-iter, get-new, insert-Found, modify-Found, elements,
  length-push_back, contains_key,
}
use pessi_streamer.Common.Packet.{
  SocketAddr, addr_eq, VideoId, SystemTime, Packet, VideoPacket, FloodPacket, node, server, client,
  video, client_ping, new_neighbour, flood, request_video, stop_video,
}
use pessi_streamer.Common.Effect.{
  Outcome, ok, err, panic, blocked, io_error, bincode_error, unexpected_packet, Task, continue,
  pure, update, ◌>>=◌, ◌>>◌, log_error, logged, for_each, Sound, Sound-continue, Sound-logged,
  Sound-for_each,
}
use pessi_streamer.Common.Reliable.{Socket, Codec, ReliablePacketResult, acknowledged, timeout}
use pessi_streamer.Common.Reliable.Outcomes.{
  send_reliable-Sound, send_unreliable_broadcast-ne-panic,
}
use pessi_streamer.Node.State.{
  State, RouteInfo, average_delay_to_server, update_from_flood_packet, default_route, new_state,
  send, connecting, flood_result, is_active,
}
use pessi_streamer.Node.Routing.{get_best_node_to_redirect}
use pessi_streamer.Node.Best.{get_best_node_to_redirect_lem}
use pessi_streamer.Common.Subscribers.{add_subscriber-distinct}
use pessi_streamer.Node.Redirect
use pessi_streamer.Node.Redirect.{
  subscribe, unsubscribe, request_video_to_node, request_or_queue, handle_request_video, stop_route,
  handle_stop_video, connect_to_node_parent, run_connecting, check_pending_videos, redirect_to,
  redirect_all, connect_to_parents, handle_unresponsive_node, register_new_neighbour, push_pending,
  best_node, videos_to,
}
use pessi_streamer.Node.Handle.{
  update_route, mark_unresponsive, request_missing, handle_client_ping, send_flood,
  handle_flood_packet, no_answer, handle_send_flood_packet_result, broadcast, note_video_packet,
  forward_video, handle_video_packet, handle_packet, learn_names,
}

module _ ⦃lib : Containers⦄ where
  -- Every known route has a delay on record, so that its average is no division by zero; no
  -- subscriber is listed twice.
  pub record IsValid (s : State) : Type 0 where
    pub measured :
        (a : SocketAddr) (r : RouteInfo)
        → get s.available_routes a ≡ some r
        → average_delay_to_server r ≢ none
    pub unique :
        (v : VideoId) (subscribers : List SocketAddr)
        → get s.interested v ≡ some subscribers
        → distinct subscribers ≡ true

  pub IsValid-frame :
      (s t : State)
      → t.available_routes ≡ s.available_routes
      → t.interested ≡ s.interested
      → IsValid s
      → IsValid t
  IsValid-frame s t hr hi v = record {
    measured = λ a r found. v.measured a r (rw hr at found);
    unique = λ w subscribers found. v.unique w subscribers (rw hi at found);
  }

  pub new_state-IsValid :
      (id : ℕ) (neighbours : List ℕ) (socket : Socket) → IsValid (new_state id neighbours socket)
  unfolding new_state
  new_state-IsValid id neighbours socket = record {
    measured = λ a r found. cc (get-new {V = RouteInfo} a);
    unique = λ w subscribers found. cc (get-new {V = List SocketAddr} w);
  }

  update_from_flood_packet-measured :
      (now : SystemTime) (p : FloodPacket) (r : RouteInfo)
      → average_delay_to_server (update_from_flood_packet now p r) ≢ none
  unfolding average_delay_to_server update_from_flood_packet
  update_from_flood_packet-measured now p r = ground (
    arith,
    length-push_back r.last_delays_to_server (now - p.created_at_server_time) (omega arith),
  )

  pub update_route-IsValid :
      (now : SystemTime) (from : SocketAddr) (p : FloodPacket) (s : State)
      → IsValid s
      → IsValid (update_route now from p s)
  unfolding update_route
  update_route-IsValid now from p s v = record {
    measured =
        insert-Found (λ a r. average_delay_to_server r ≢ none) s.available_routes from _
          (update_from_flood_packet-measured now p
            (unwrap_or (get s.available_routes from) default_route))
          v.measured;
    unique = v.unique;
  }

  pub mark_unresponsive-IsValid :
      (addr : SocketAddr) (s : State) → IsValid s → IsValid (mark_unresponsive addr s)
  unfolding mark_unresponsive average_delay_to_server
  mark_unresponsive-IsValid addr s v = record {
    measured =
        modify-Found (λ a r. average_delay_to_server r ≢ none) s.available_routes addr _
          (λ r found. v.measured addr r found) v.measured;
    unique = v.unique;
  }

  pub subscribe-IsValid :
      (v : VideoId) (addr : SocketAddr) (s : State) → IsValid s → IsValid (subscribe v addr s)
  unfolding subscribe
  subscribe-IsValid v addr s valid = record {
    measured = valid.measured;
    unique =
        insert-Found (λ w subscribers. distinct subscribers ≡ true) s.interested v _
          (add_subscriber-distinct addr _ (old_distinct (get s.interested v) refl)) valid.unique;
  }
    where
      old_distinct :
          (o : Option (List SocketAddr)) → get s.interested v ≡ o → distinct (unwrap_or o []) ≡ true
      old_distinct none found = unfold distinct in refl
      old_distinct (some subscribers) found = valid.unique v subscribers found

  pub unsubscribe-IsValid :
      (v : VideoId) (addr : SocketAddr) (s : State) → IsValid s → IsValid (unsubscribe v addr s)
  unfolding unsubscribe
  unsubscribe-IsValid v addr s valid = record {
    measured = valid.measured;
    unique =
        modify-Found (λ w subscribers. distinct subscribers ≡ true) s.interested v _
          (λ subscribers found. distinct-retain _ subscribers (valid.unique v subscribers found))
          valid.unique;
  }

module _ ⦃lib : Containers⦄ ⦃codec : Codec Packet⦄ (now : SystemTime) where
  pub send-Sound :
      (p : Packet) (addr : SocketAddr) (s : State) → IsValid s → Sound IsValid (send now p addr s)
  unfolding send
  send-Sound p addr s v =
      ((send_reliable-Sound now p addr s.socket).0, IsValid-frame s _ refl refl v)

  pub pure-Sound : {A : Type 0} (a : A) (s : State) → IsValid s → Sound IsValid (pure a s)
  pure-Sound a s v = ((λ e. cc), v)

  pub best_node-Sound : (v : VideoId) (s : State) → IsValid s → Sound IsValid (best_node v s)
  best_node-Sound v s valid = elim (get_best_node_to_redirect_lem s v valid.measured) [
    | inl (chosen, _) ↦ rw (chosen, best_node) ((λ e. cc), valid)
    | inr (addr, chosen, _) ↦ rw (chosen, best_node) ((λ e. cc), valid)
  ]

  pub if-Sound :
      {A : Type 0} (b : Bool) (m n : Task State A) (s : State)
      → Sound IsValid (m s)
      → Sound IsValid (n s)
      → Sound IsValid ((if b then m else n) s)
  if-Sound true m n s hm hn = hm
  if-Sound false m n s hm hn = hn

  pub choice-Sound :
      {A : Type 0} (b : Bool) (m n : Outcome A × State)
      → Sound IsValid m
      → Sound IsValid n
      → Sound IsValid (if b then m else n)
  choice-Sound true m n hm hn = hm
  choice-Sound false m n hm hn = hn
