-- ===== src/Node/Ping.antt =====
-- `handle_client_ping` of node/src/handle.rs on a client that gave up a video.
use pessi_streamer.Base.{
  if◌then◌else◌, ℕ, ◌≡◌, inl, inr, refl, ◌∙◌, ◌&&◌, not, any, [], ◌∷◌, All, ==_refl, true, false,
  List, arith, nat_eq, contains, Bool-cases, Option-cases,
}
use pessi_streamer.Containers.{Containers, get, insert, iter, contains_key, entry_of_get}
use pessi_streamer.Common.Packet.{SocketAddr, addr_eq, VideoId, SystemTime, Packet}
use pessi_streamer.Common.Effect.{ok, blocked, for_each}
use pessi_streamer.Common.Reliable.{Codec}
use pessi_streamer.Node.State.{State}
use pessi_streamer.Node.Subscriptions.{is_subscribed}
use pessi_streamer.Node.Handle.{
  request_missing, while_held, stop_unwanted, has_unwanted, handle_client_ping,
}

module _ ⦃lib : Containers⦄ where
  unwanted_of_subscribed :
      (requested : List VideoId) (addr : SocketAddr) (s : State) (v : VideoId)
      → is_subscribed s v addr ≡ true
      → contains requested v ≡ false
      → has_unwanted requested addr s ≡ true
  unfolding has_unwanted contains
  unwanted_of_subscribed requested addr s v subscribed dropped =
      elim (Option-cases (get s.interested v)) [
        | inl missing ↦ absurd (ground (arith, missing, subscribed))
        | inr (addrs, found) ↦
            entry_of_get s.interested _ v addrs found (ground (arith, found, subscribed, dropped))
      ]

module _ ⦃lib : Containers⦄ ⦃codec : Codec Packet⦄ (now : SystemTime) where
  -- The loop over the subscribers waits for its own reference at the first entry that it is to stop,
  -- and changes nothing where there is none.
  stop_unwanted_lem :
      (requested : List VideoId) (addr : SocketAddr) (es : List (VideoId × List SocketAddr))
      (s : State)
      → for_each es (stop_unwanted now requested addr) s ≡ (
          if any (λ e. not (contains requested e.0) && contains e.1 addr) es
          then (blocked, s)
          else (ok tt, s))
  unfolding stop_unwanted while_held any
  stop_unwanted_lem requested addr [] s = refl
  stop_unwanted_lem requested addr ((v, interested) ∷ es) s =
      elim (Bool-cases (not (contains requested v) && contains interested addr)) [
        | inl unwanted ↦ rw (unwanted, ==_refl v) refl
        | inr kept ↦ rw kept (stop_unwanted_lem requested addr es s)
      ]

  pub stops_none :
      (requested : List VideoId) (addr : SocketAddr) (s : State)
      → has_unwanted requested addr s ≡ false
      → for_each (iter s.interested) (stop_unwanted now requested addr) s ≡ (ok tt, s)
  unfolding has_unwanted
  stops_none requested addr s wanted =
      stop_unwanted_lem requested addr (iter s.interested) s ∙ rw wanted refl

  pub request_missing_routed :
      (from : SocketAddr) (requested : List VideoId) (s : State)
      → All (λ v. contains_key s.video_routes v ≡ true) requested
      → for_each requested (request_missing now from) s ≡ (ok tt, s)
  unfolding request_missing
  request_missing_routed from [] s h = refl
  request_missing_routed from (v ∷ vs) s (routed, rest) =
      rw routed (request_missing_routed from vs s rest)

  -- A ping of a client that is still subscribed to a video which the ping does not ask for, while
  -- the node has a route for each video that it asks for: the handler notes the time of the ping and
  -- then waits for a reference to the subscribers that it holds itself, and sends no answer.
  pub handle_client_ping_waits :
      (sequence_number : ℕ) (requested : List VideoId) (addr : SocketAddr) (s : State) (v : VideoId)
      → is_subscribed s v addr ≡ true
      → contains requested v ≡ false
      → All (λ w. contains_key s.video_routes w ≡ true) requested
      → handle_client_ping now sequence_number requested addr s
        ≡ (blocked, record s { last_pings = insert s.last_pings addr now })
  unfolding handle_client_ping has_unwanted
  handle_client_ping_waits sequence_number requested addr s v subscribed dropped routed =
      let t : State = record s { last_pings = insert s.last_pings addr now } in
      let unwanted = unwanted_of_subscribed requested addr s v subscribed dropped in
      rw
        (
          request_missing_routed addr requested t routed,
          stop_unwanted_lem requested addr (iter s.interested) t,
          unwanted,
        )
        refl
