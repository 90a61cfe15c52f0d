-- ===== src/Node/Flood/Wire.antt =====
-- The datagrams that `handle_flood_packet` of node/src/handle.rs sends.
use pessi_streamer.Base.{
  ℕ, ◌≡◌, refl, inl, true, List, [], ◌∷◌, ◌++◌, All, In, retain, any, ◌==◌, nat_eq, some,
}
use Prim.Native.String.{String}
use pessi_streamer.Containers.{Containers}
use pessi_streamer.Common.Packet.{
  SocketAddr, VideoId, SystemTime, Packet, FloodPacket, node, flood, server, request_video,
}
use pessi_streamer.Common.Effect.{for_each, for_each_keeps, continue_keeps, log_error}
use pessi_streamer.Common.Reliable.{Codec, Bytes, reliable}
use pessi_streamer.Common.Reliable.Outcomes.{send_reliable-Sound, send_reliable-In}
use pessi_streamer.Common.Reliable.Delivery.{send_reliable_sent}
use pessi_streamer.Node.State.{State, send}
use pessi_streamer.Node.Routing.{get_videos, get_parents}
use pessi_streamer.Node.Redirect.{request_video_to_node, check_pending_videos}
use pessi_streamer.Node.Handle.{relayed, send_flood}

module _ ⦃lib : Containers⦄ where
  -- The packet with this node added to those it visited, and with the node's own parents and the
  -- videos it offers to `to`.
  abbrev pub passed_on : FloodPacket → SocketAddr → State → FloodPacket
  passed_on p to t = record {
    created_at_server_time = p.created_at_server_time;
    videos_available = get_videos t to;
    visited_nodes = p.visited_nodes ++ t.id ∷ [];
    my_parents = get_parents t;
  }

  -- The system takes every send.
  abbrev pub IsUp : State → Type 0
  IsUp s = (c : ℕ) → s.socket.fate c ≡ true

module _ ⦃lib : Containers⦄ ⦃codec : Codec Packet⦄ where
  -- What is to be passed on to each of the targets can be written.
  abbrev pub AreWritable : FloodPacket → State → List SocketAddr → Type 0
  AreWritable p t = All λ to.
      (n : ℕ)
      → (b : Bytes) × (codec.serialize (reliable n (node (flood (passed_on p to t)))) ≡ some b)

  -- The packet was sent to the address, as a reliable one.
  abbrev pub IsTold : FloodPacket → State → List (SocketAddr × Bytes) → SocketAddr → Type 0
  IsTold p t wire to =
      (n : ℕ) × (b : Bytes) × (codec.serialize (reliable n (node (flood (passed_on p to t))))
        ≡ some b)
      × In (to, b) wire

module _ ⦃lib : Containers⦄ ⦃codec : Codec Packet⦄ (now : SystemTime) where
  send-In :
      (e : SocketAddr × Bytes) (q : Packet) (to : SocketAddr) (s : State)
      → In e s.socket.wire
      → In e (send now q to s).1.socket.wire
  unfolding send
  send-In e q to s h = send_reliable-In e now q to s.socket h

  send-IsUp : (q : Packet) (to : SocketAddr) (s : State) → IsUp s → IsUp (send now q to s).1
  unfolding send
  send-IsUp q to s up c =
      let (_, _, _, fate) = send_reliable-Sound now q to s.socket in rw fate (up c)

  pub check_pending_videos-IsUp :
      (from : SocketAddr) (received : List (VideoId × String)) (s : State)
      → IsUp s
      → IsUp (check_pending_videos now from received s).1
  unfolding check_pending_videos request_video_to_node
  check_pending_videos-IsUp from received s up =
      let wanted = retain (λ v. any (λ e. e.0 == v) received) s.pending_video_requests in
      let ask = λ (v : VideoId). log_error (request_video_to_node now v from) in
      let asked =
        for_each_keeps IsUp wanted ask
          (λ v t g.
            let sent = send-IsUp (server (request_video v)) from t g in
            continue_keeps IsUp (send now (server (request_video v)) from t) _ sent (λ _ _. sent))
          s up in
      continue_keeps IsUp (for_each wanted ask s) _ asked (λ _ _. asked)

  -- The sends leave alone what the packets are made of.
  pub sends-passed_on :
      (p : FloodPacket) (to : SocketAddr) (targets : List SocketAddr) (s : State)
      → passed_on p to (for_each targets (send_flood now p) s).1 ≡ passed_on p to s
  unfolding send_flood send get_videos get_parents
  sends-passed_on p to targets s =
      for_each_keeps (λ t. passed_on p to t ≡ passed_on p to s) targets (send_flood now p)
        (λ a t h. h) s refl

  pub sends-IsTold :
      (p : FloodPacket) (targets : List SocketAddr) (s : State)
      → IsUp s
      → AreWritable p s targets
      → All (IsTold p s (for_each targets (send_flood now p) s).1.socket.wire) targets
  unfolding send_flood send relayed get_videos get_parents
  sends-IsTold p [] s up writable = tt
  sends-IsTold p (to ∷ targets) s up writable =
      let q : Packet = node (flood (passed_on p to s)) in
      let n = s.socket.sequence_number in
      let (b, written) = writable.0 n in
      let t = (send_flood now p to s).1 in
      let (_, out, _, _) = send_reliable_sent now q to b s.socket written (up s.socket.calls) in
      let put : In (to, b) t.socket.wire = rw out (inl refl) in
      (
        (
          n,
          b,
          written,
          for_each_keeps (λ u. In (to, b) u.socket.wire) targets (send_flood now p)
              (λ a u h. send-In (to, b) (node (flood (relayed p a u))) a u h) t put,
        ),
        sends-IsTold p targets t (send-IsUp q to s up) writable.1,
      )
