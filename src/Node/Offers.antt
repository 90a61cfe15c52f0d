-- ===== src/Node/Offers.antt =====
-- What `get_videos` of node/src/node.rs lists for a neighbour.
use Prim.Native.String.{String}
use pessi_streamer.Base.{
  ◌≡◌, true, false, ◌&&◌, not, some, arith, nat_eq, any, ◌==◌, All, All-retain, All-map, In, All-In,
  retain-All, ◌↔◌, In-retain,
}
use pessi_streamer.Containers.{Containers, get, iter, All-iter, get_of_entry, In-iter, entry_of_get}
use pessi_streamer.Common.Packet.{SocketAddr, addr_eq, VideoId}
use pessi_streamer.Common.Effect.{}
use pessi_streamer.Node.State.{State, RouteInfo}
use pessi_streamer.Node.Routing.{offers, get_videos}
use pessi_streamer.Node.Handle.{}

module _ ⦃lib : Containers⦄ where
  get_videos_offered :
      (s : State) (to : SocketAddr)
      → All
          (λ e.
            (a : SocketAddr) × (r : RouteInfo) × (get s.available_routes a ≡ some r)
            × (((a == to) ≡ false) × (offers e.0 (a, r) ≡ true)))
          (get_videos s to)
  unfolding get_videos
  get_videos_offered s to =
      All-map _
        (λ e h.
          let (a, r, known, holds) =
            get_of_entry s.available_routes (λ x. not (x.0 == to) && offers e.0 x) h in
          (a, r, known, (ground (arith, holds), ground (arith, holds))))
        (All-retain (λ e. any (λ x. not (x.0 == to) && offers e.0 x) (iter s.available_routes))
          (iter s.video_names))

  pub get_videos_complete :
      (s : State) (to : SocketAddr) (v : VideoId) (name : String) (a : SocketAddr) (r : RouteInfo)
      → get s.video_names v ≡ some name
      → get s.available_routes a ≡ some r
      → (a == to) ≡ false
      → offers v (a, r) ≡ true
      → In (v, name) (get_videos s to)
  unfolding get_videos
  get_videos_complete s to v name a r named known other offered =
      In-retain _ (iter s.video_names) (v, name) (In-iter s.video_names v name named)
        (entry_of_get s.available_routes (λ x. not (x.0 == to) && offers v x) a r known
          (ground (arith, other, offered)))

  -- A node tells a neighbour of a video, by a name, exactly if it knows the video by this name and
  -- some active route other than that neighbour offers it.
  pub get_videos_lem :
      (s : State) (to : SocketAddr) (v : VideoId) (name : String)
      → In (v, name) (get_videos s to) ↔ (
          (get s.video_names v ≡ some name)
          × (a : SocketAddr) × (r : RouteInfo) × (get s.available_routes a ≡ some r)
          × (((a == to) ≡ false) × (offers v (a, r) ≡ true)))
  unfolding get_videos
  get_videos_lem s to v name = (
    (λ told.
        let names =
          retain-All (λ e. get s.video_names e.0 ≡ some e.1)
            (λ e. any (λ x. not (x.0 == to) && offers e.0 x) (iter s.available_routes))
            (iter s.video_names)
            (All-iter (λ e. get s.video_names e.0 ≡ some e.1) s.video_names (λ k n found. found)) in
        let (a, r, known, there) =
          All-In _ (get_videos s to) (v, name) (get_videos_offered s to) told in
        (All-In _ (get_videos s to) (v, name) names told, a, r, known, there)),
    λ (named, a, r, known, there). get_videos_complete s to v name a r named known there.0 there.1,
  )
