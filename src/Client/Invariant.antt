-- ===== src/Client/Invariant.antt =====
-- The well-formedness of the client's tables (client/src/client.rs), and the updates that keep it.
pub mod Requests
pub mod Runs
pub mod Window
use Prim.Native.String.{String}
use mathlib.Core.List.{foldl}
use pessi_streamer.Base.{
  ℕ, ◌+◌, ◌-◌, ◌<◌, ◌≡◌, ◌≢◌, ◌⊎◌, refl, ap, sym, ◌∙◌, inl, inr, Bool, true, false, ◌||◌, Option,
  none, some, List, [], ◌∷◌, map, length, arith, ==_iff, nat_eq, ◌==◌, contains, Bool-cases,
  Option-cases, All, All-In, All-map, All-keys, In, retain-All, is_some, is_none, if◌then◌else◌,
  keys, retain,
}
use pessi_streamer.Containers.{
  Containers, new_map, get, insert, remove, iter, All-iter, get-new, get-insert, insert-Found,
  modify-Found, get-modify, elements, length-push_back, modify,
}
use pessi_streamer.Common.Packet.{
  IpAddr, SocketAddr, addr_eq, VideoId, Duration, SystemTime, Packet, VideoPacket, VideoListPacket,
  node, server, client, video, video_list, server_port,
}
use pessi_streamer.Common.Effect.{
  Outcome, ok, err, panic, blocked, Task, continue, pure, update, ◌>>=◌, ◌>>◌, log_error, logged,
  for_each, Sound, Sound-continue, Sound-logged, Sound-for_each,
}
use pessi_streamer.Common.Reliable.{Socket, Codec, Bytes, receive}
use pessi_streamer.Common.Reliable.Outcomes.{send_reliable-Sound, receive-ne-panic}
use pessi_streamer.Client.State.{
  Node, State, PlayingVideo, VideoPlayer, VideoPlayerType, is_connected, average_rtt,
  register_ping_answer, new_node, new_nodes, new_state, send,
}
use pessi_streamer.Client.Best.{AreMeasured, select_best_node_lem}
use pessi_streamer.Client.Handle.{
  best_node, start_video_process, place, learn_names, waiting_videos, answered, request_start_video,
  request_stop_video, ask_for, select_best_server_and_request, ui_start_playing, stop_at,
  stop_playing, ui_stop_playing_id, give_source, on_answer, handle_ping_answer, write, on_written,
  play, handle_video_packet,
}
use pessi_streamer.Client.Tasks.{
  mark_unresponsive, set_source, redirect, drop_node, unresponsive_round, silent_nodes, after_ping,
  ping_node, ping_round, dispatch, packet_round, Event, arrives, wakes, pings, checks_nodes, starts,
  stops, closes, wake, close_player, react, run,
}

module _ ⦃lib : Containers⦄ where
  -- Every connected node has a round-trip time on record, so that its average is no division by
  -- zero; every video that a node offers has a name.
  pub record IsValid (s : State) : Type 0 where
    pub measured : AreMeasured s
    pub named :
        (a : SocketAddr) (n : Node)
        → get s.nodes a ≡ some n
        → (v : VideoId) → contains n.available_videos v ≡ true
        → is_some (get s.video_names v) ≡ true

  pub IsValid-frame :
      (s t : State) → t.nodes ≡ s.nodes → t.video_names ≡ s.video_names → IsValid s → IsValid t
  IsValid-frame s t hn hv h = record {
    measured = λ a n found. h.measured a n (rw hn at found);
    named = λ a n found v offered. rw hv (h.named a n (rw hn at found) v offered);
  }

  -- A node that did not answer yet is not connected, and offers nothing.
  abbrev AreNew : lib.Map SocketAddr Node → Type 0
  AreNew m =
      (a : SocketAddr) (n : Node)
      → get m a ≡ some n
      → (is_connected n.status ≡ false) × (n.available_videos ≡ [])

  new_nodes-AreNew :
      (ips : List IpAddr) (m : lib.Map SocketAddr Node)
      → AreNew m
      → AreNew (
          foldl
            (λ k ip.
              let addr : SocketAddr = record { ip = ip; port = server_port } in
              insert k addr (new_node addr))
            m
            ips)
  new_nodes-AreNew [] m h = h
  new_nodes-AreNew (ip ∷ ips) m h =
      let addr : SocketAddr = record { ip = ip; port = server_port } in
      new_nodes-AreNew ips (insert m addr (new_node addr)) (
        insert-Found (λ a n. (is_connected n.status ≡ false) × (n.available_videos ≡ [])) m addr
          (new_node addr) (refl, refl) h)

  pub new_state-IsValid :
      (socket : Socket) (servers : List IpAddr) (player : VideoPlayerType)
      → IsValid (new_state socket servers player)
  unfolding new_state new_nodes contains
  new_state-IsValid socket servers player =
      let all =
        new_nodes-AreNew servers new_map
          (λ a n found. absurd (ground (arith, found, get-new {V = Node} a))) in
      record {
        measured = λ a n found on. absurd (ground (arith, on, (all a n found).0));
        named = λ a n found v offered. absurd (ground (arith, offered, (all a n found).1));
      }

  pub mark_unresponsive-IsValid :
      (addr : SocketAddr) (s : State) → IsValid s → IsValid (mark_unresponsive addr s)
  unfolding mark_unresponsive
  mark_unresponsive-IsValid addr s h = record {
    measured =
        modify-Found (λ a n. is_connected n.status ≡ true → average_rtt n ≢ none) s.nodes addr _
          (λ n found on. absurd (ground (arith, on))) h.measured;
    named =
        modify-Found
          (λ a n.
            (v : VideoId)
            → contains n.available_videos v ≡ true
            → is_some (get s.video_names v) ≡ true)
          s.nodes addr _ (λ n found. h.named addr n found) h.named;
  }

  register_ping_answer-measured :
      (now : SystemTime) (rtt : Duration) (videos : List VideoId) (n : Node)
      → average_rtt (register_ping_answer now rtt videos n) ≢ none
  unfolding average_rtt register_ping_answer
  register_ping_answer-measured now rtt videos n =
      ground (arith, length-push_back n.latest_rtts rtt (omega arith))

  pub answered-IsValid :
      (now : SystemTime) (sequence_number : ℕ) (addr : SocketAddr) (start_time : SystemTime)
      (videos : List VideoId) (s : State)
      → ((v : VideoId) → contains videos v ≡ true → is_some (get s.video_names v) ≡ true)
      → IsValid s
      → IsValid (answered now sequence_number addr start_time videos s)
  unfolding answered register_ping_answer
  answered-IsValid now sequence_number addr start_time videos s known h = record {
    measured =
        modify-Found (λ a n. is_connected n.status ≡ true → average_rtt n ≢ none) s.nodes addr _
          (λ n found on. register_ping_answer-measured now (now - start_time) videos n) h.measured;
    named =
        modify-Found
          (λ a n.
            (v : VideoId)
            → contains n.available_videos v ≡ true
            → is_some (get s.video_names v) ≡ true)
          s.nodes addr _ (λ n found. known) h.named;
  }

  is_some-names :
      (videos : List (VideoId × String)) (m : lib.Map VideoId String) (v : VideoId)
      → is_some (get (foldl (λ k x. insert k x.0 x.1) m videos) v)
        ≡ (contains (map (λ x. x.0) videos) v || is_some (get m v))
  unfolding contains
  is_some-names [] m v = refl
  is_some-names (x ∷ xs) m v =
      ground (arith, is_some-names xs (insert m x.0 x.1) v, get-insert m x.0 x.1 v)

  pub learn_names-IsValid :
      (videos : List (VideoId × String)) (s : State) → IsValid s → IsValid (learn_names videos s)
  unfolding learn_names
  learn_names-IsValid videos s h = record {
    measured = h.measured;
    named = λ a n found v offered.
        ground (arith, is_some-names videos s.video_names v, h.named a n found v offered);
  }

  pub learn_names-known :
      (videos : List (VideoId × String)) (s : State) (v : VideoId)
      → contains (map (λ x. x.0) videos) v ≡ true
      → is_some (get (learn_names videos s).video_names v) ≡ true
  unfolding learn_names
  learn_names-known videos s v h = ground (arith, is_some-names videos s.video_names v, h)
