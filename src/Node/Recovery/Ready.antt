-- ===== src/Node/Recovery/Ready.antt =====
-- What the redirection needs of a state, and what keeps it (node/src/node.rs).
use pessi_streamer.Base.{
  ℕ, ◌≡◌, refl, subst, inl, inr, true, false, some, arith, ==_iff, nat_eq, Bool-cases, ◌==◌,
}
use pessi_streamer.Containers.{Containers, get}
use pessi_streamer.Common.Packet.{
  SocketAddr, addr_eq, VideoId, SystemTime, Packet, server, request_video,
}
use pessi_streamer.Common.Effect.{continue_keeps}
use pessi_streamer.Common.Reliable.{Codec, Bytes, reliable}
use pessi_streamer.Common.Reliable.Outcomes.{send_reliable-Sound}
use pessi_streamer.Node.State.{State, RouteInfo, is_active, send}
use pessi_streamer.Node.Best.{AreMeasured, IsBestNode}
use pessi_streamer.Node.Redirect.{request_video_to_node}

module _ ⦃lib : Containers⦄ (addr : SocketAddr) where
  -- The averages are defined, `addr` is no active route, and the system takes every send.
  pub record IsReady (s : State) : Type 0 where
    pub measured : AreMeasured s
    pub gone : (r : RouteInfo) → get s.available_routes addr ≡ some r → is_active r.status ≡ false
    pub up : (c : ℕ) → s.socket.fate c ≡ true

  pub IsReady-frame :
      (s t : State)
      → t.available_routes ≡ s.available_routes
      → t.socket.fate ≡ s.socket.fate
      → IsReady s
      → IsReady t
  IsReady-frame s t hr hf h = record {
    measured = λ a r found. h.measured a r (rw hr at found);
    gone = λ r found. h.gone r (rw hr at found);
    up = λ c. rw hf (h.up c);
  }

  -- The video comes from another node.
  abbrev pub Elsewhere : State → VideoId → Type 0
  Elsewhere s v = (b : SocketAddr) × (get s.video_routes v ≡ some b) × ((b == addr) ≡ false)

  pub best-ne-gone :
      (s : State) (v : VideoId) (b : SocketAddr)
      → IsReady s
      → IsBestNode s v b
      → (b == addr) ≡ false
  best-ne-gone s v b ready best = elim (Bool-cases (b == addr)) [
    | inl same ↦ absurd (
        still_active (
          ready.gone best.value (
            subst (λ a. get s.available_routes a ≡ some best.value) ((==_iff b addr).0 same)
              best.known)))
    | inr other ↦ other
  ]
    where
      still_active : is_active best.value.status ≡ false → ⊥
      still_active e = ground (arith, best.offered, e)

module _ ⦃lib : Containers⦄ ⦃codec : Codec Packet⦄ (now : SystemTime) (addr : SocketAddr) where
  pub send-IsReady :
      (p : Packet) (to : SocketAddr) (s : State) → IsReady addr s → IsReady addr (send now p to s).1
  unfolding send
  send-IsReady p to s ready =
      IsReady-frame addr s _ refl (send_reliable-Sound now p to s.socket).3 ready

  pub request-IsReady :
      (v : VideoId) (to : SocketAddr) (s : State)
      → IsReady addr s
      → IsReady addr (request_video_to_node now v to s).1
  unfolding request_video_to_node
  request-IsReady v to s ready =
      let sent = send-IsReady (server (request_video v)) to s ready in
      continue_keeps (IsReady addr) (send now (server (request_video v)) to s) _ sent
        (λ _ _. IsReady-frame addr (send now (server (request_video v)) to s).1 _ refl refl sent)

-- The requests for videos can be written.
abbrev pub Writes : Codec Packet → Type 0
Writes codec =
    (id : ℕ) (v : VideoId)
    → (b : Bytes) × (codec.serialize (reliable id (server (request_video v))) ≡ some b)
