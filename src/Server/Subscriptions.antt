-- ===== src/Server/Subscriptions.antt =====
-- Who gets a video after a packet of the client socket (server/src/server.rs).
use mathlib.Core.Option
use pessi_streamer.Base.{
  ◌≡◌, refl, ap, ◌∙◌, inl, inr, Bool, false, ◌&&◌, ◌||◌, not, Option, none, some, arith, ◌==◌,
  ==_iff, nat_eq, contains, is_some, Bool-cases,
}
use pessi_streamer.Containers.{Containers, get, get-modify, contains_key}
use pessi_streamer.Common.Packet.{SocketAddr, addr_eq, VideoId, server, request_video, stop_video}
use pessi_streamer.Common.Subscribers.{contains-add_subscriber, contains-drop_subscriber}
use pessi_streamer.Server.State.{
  State, Video, add_interested, drop_interested, handle_client_packet,
}

-- The address is a subscriber of the video, where there is one.
abbrev pub has_interest : Option Video → SocketAddr → Bool
has_interest none addr = false
has_interest (some v) addr = contains v.interested addr

has_interest-add :
    (o : Option Video) (addr b : SocketAddr)
    → has_interest (Option.map (add_interested addr) o) b
      ≡ ((is_some o && (addr == b)) || has_interest o b)
has_interest-add none addr b = refl
has_interest-add (some v) addr b = contains-add_subscriber addr b v.interested

has_interest-drop :
    (o : Option Video) (addr b : SocketAddr)
    → has_interest (Option.map (drop_interested addr) o) b ≡ (not (addr == b) && has_interest o b)
has_interest-drop none addr b = ground arith
has_interest-drop (some v) addr b = contains-drop_subscriber addr b v.interested

module _ ⦃lib : Containers⦄ where
  abbrev pub is_subscribed : State → VideoId → SocketAddr → Bool
  is_subscribed s v addr = has_interest (get s.videos v) addr

  -- The request of an address for a video that the server has makes the address a subscriber, and a
  -- stop ends that; no other subscription changes by either.
  pub handle_client_packet_subscribers :
      (v : VideoId) (addr : SocketAddr) (s : State) (w : VideoId) (b : SocketAddr)
      → (is_subscribed (handle_client_packet (server (request_video v)) addr s) w b
          ≡ ((contains_key s.videos v && (v == w) && (addr == b)) || is_subscribed s w b))
        × (is_subscribed (handle_client_packet (server (stop_video v)) addr s) w b
            ≡ (not ((v == w) && (addr == b)) && is_subscribed s w b))
  unfolding handle_client_packet
  handle_client_packet_subscribers v addr s w b = elim (Bool-cases (v == w)) [
    | inl same ↦ (
      ap (λ o. has_interest o b) (get-modify s.videos v (add_interested addr) w)
          ∙ ground (
            arith,
            same,
            has_interest-add (get s.videos w) addr b,
            ap (λ x. get s.videos x) ((==_iff v w).0 same),
          ),
      ap (λ o. has_interest o b) (get-modify s.videos v (drop_interested addr) w)
          ∙ ground (arith, same, has_interest-drop (get s.videos w) addr b),
    )
    | inr other ↦ (
      ap (λ o. has_interest o b) (get-modify s.videos v (add_interested addr) w)
          ∙ ground (arith, other),
      ap (λ o. has_interest o b) (get-modify s.videos v (drop_interested addr) w)
          ∙ ground (arith, other),
    )
  ]
