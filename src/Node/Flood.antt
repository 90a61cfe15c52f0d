-- ===== src/Node/Flood.antt =====
-- What `handle_flood_packet` of node/src/handle.rs does to the routes, and to whom it passes a
-- packet on.
pub mod Wire
pub mod Travel
use Prim.Native.String.{String}
use mathlib.Core.Path.{ap₂}
use pessi_streamer.Base.{
  ℕ, suc, ◌+◌, ◌-◌, ◌≡◌, ◌≢◌, ◌⊎◌, refl, ap, sym, subst, ◌∙◌, inl, inr, Bool, true, false, ◌&&◌,
  not, Option, none, some, List, [], ◌∷◌, ◌++◌, length, arith, map, ==_iff, nat_eq, contains,
  retain, any, Bool-cases, unwrap_or, if◌then◌else◌, ◌==◌, All, All-retain, All-map, In, In-retain,
  keys,
}
use pessi_streamer.Containers.{
  Containers, get, push_back, iter, get-insert, get_of_entry, In-iter, entry_of_get,
}
use pessi_streamer.Common.Packet.{
  SocketAddr, addr_eq, VideoId, SystemTime, Packet, FloodPacket, node, flood, hops, server_port,
}
use pessi_streamer.Common.Effect.{
  Outcome, ok, Task, continue, for_each, continue_keeps, for_each_keeps, for_each-ok,
}
use pessi_streamer.Common.Reliable.{Codec, Bytes, reliable}
use pessi_streamer.Node.Flood.Wire.{
  IsUp, AreWritable, IsTold, check_pending_videos-IsUp, sends-passed_on, sends-IsTold,
}
use pessi_streamer.Node.State.{
  State, RouteInfo, Spawned, active, parent, flood_result, connecting, default_route,
  update_from_flood_packet, send,
}
use pessi_streamer.Node.Routing.{offers, get_videos}
use pessi_streamer.Node.Redirect.{check_pending_videos}
use pessi_streamer.Node.Outcomes.{check_pending_videos-ok}
use pessi_streamer.Node.Frame.{check_pending_videos-frame}
use pessi_streamer.Node.Handle.{
  learn_names, update_route, broadcast_targets, relayed, send_flood, handle_flood_packet,
}

-- The nodes that the spawned tasks wait for an answer of, newest first.
abbrev pub flooded : List Spawned → List SocketAddr
flooded [] = []
flooded (flood_result target sent ∷ ts) = target ∷ flooded ts
flooded (connecting addr id ∷ ts) = flooded ts

abbrev pub pushed : {A : Type 0} → List A → List A → List A
pushed [] l = l
pushed (x ∷ xs) l = pushed xs (x ∷ l)

module _ ⦃lib : Containers⦄ ⦃codec : Codec Packet⦄ (now : SystemTime) where
  -- A packet that this node has seen before changes nothing and is not passed on.
  pub handle_flood_packet_loop :
      (from : SocketAddr) (p : FloodPacket) (s : State)
      → contains p.visited_nodes s.id ≡ true
      → handle_flood_packet now from p s ≡ (ok tt, s)
  unfolding handle_flood_packet
  handle_flood_packet_loop from p s seen = rw seen

  sends-routes :
      (p : FloodPacket) (targets : List SocketAddr) (s : State)
      → (for_each targets (send_flood now p) s).1.available_routes ≡ s.available_routes
  unfolding send_flood send
  sends-routes p targets s =
      for_each_keeps (λ t. t.available_routes ≡ s.available_routes) targets (send_flood now p)
        (λ to t h. h) s refl

  sends-flooded :
      (p : FloodPacket) (targets : List SocketAddr) (s : State)
      → flooded (for_each targets (send_flood now p) s).1.spawned
        ≡ pushed targets (flooded s.spawned)
  unfolding send_flood send
  sends-flooded p [] s = refl
  sends-flooded p (to ∷ targets) s = sends-flooded p targets (send_flood now p to s).1

  -- The state in which a node that has not seen the packet goes on to its neighbours.
  abbrev learnt : SocketAddr → FloodPacket → State → Outcome Unit × State
  learnt from p s =
      check_pending_videos now from p.videos_available
        (update_route now from p (learn_names p.videos_available s))

  pub handle_flood_packet_routes :
      (from : SocketAddr) (p : FloodPacket) (s : State) (a : SocketAddr)
      → contains p.visited_nodes s.id ≡ false
      → get (handle_flood_packet now from p s).1.available_routes a ≡ (
          if from == a
          then some (
              update_from_flood_packet now p
                (unwrap_or (get s.available_routes from) default_route))
          else get s.available_routes a)
  unfolding handle_flood_packet update_route learn_names
  handle_flood_packet_routes from p s a new =
      ap (λ m. get m a) kept
      ∙ get-insert s.available_routes from
          (update_from_flood_packet now p (unwrap_or (get s.available_routes from) default_route)) a
    where
      t : State
      t = update_route now from p (learn_names p.videos_available s)

      checked : (learnt from p s).1.available_routes ≡ t.available_routes
      checked =
          check_pending_videos-frame (λ u. u.available_routes) (λ _ _. refl) (λ _ _. refl)
            (λ _ _. refl) now t.available_routes from p.videos_available t refl

      kept : (handle_flood_packet now from p s).1.available_routes ≡ t.available_routes
      kept = rw new (
          continue_keeps (λ u. u.available_routes ≡ t.available_routes) (learnt from p s) _ checked
            (λ _ _.
              sends-routes p (broadcast_targets from (learnt from p s).1) (learnt from p s).1
              ∙ checked))

  -- After a flood packet that is new to this node its names are those that the packet adds.
  pub handle_flood_packet_names :
      (from : SocketAddr) (p : FloodPacket) (s : State)
      → contains p.visited_nodes s.id ≡ false
      → (handle_flood_packet now from p s).1.video_names
        ≡ (learn_names p.videos_available s).video_names
  unfolding handle_flood_packet update_route learn_names send_flood send
  handle_flood_packet_names from p s new = rw new (
      continue_keeps (λ u. u.video_names ≡ t.video_names) (learnt from p s) _ checked
        (λ _ _.
          for_each_keeps (λ u. u.video_names ≡ t.video_names)
            (broadcast_targets from (learnt from p s).1) (send_flood now p) (λ to u h. h)
            (learnt from p s).1 checked))
    where
      t : State
      t = update_route now from p (learn_names p.videos_available s)

      checked : (learnt from p s).1.video_names ≡ t.video_names
      checked =
          check_pending_videos-frame (λ u. u.video_names) (λ _ _. refl) (λ _ _. refl) (λ _ _. refl)
            now t.video_names from p.videos_available t refl

  sends-ok :
      (p : FloodPacket) (targets : List SocketAddr) (s : State)
      → (for_each targets (send_flood now p) s).0 ≡ ok tt
  unfolding send_flood
  sends-ok p targets s = for_each-ok targets (send_flood now p) (λ to t. refl) s

  learnt_targets :
      (from : SocketAddr) (p : FloodPacket) (s : State)
      → broadcast_targets from (learnt from p s).1 ≡ broadcast_targets from s
  unfolding broadcast_targets
  learnt_targets from p s =
      ap
        (λ ips.
          retain (λ a. not (a == from)) (map (λ ip. record { ip = ip; port = server_port }) ips))
        (check_pending_videos-frame (λ v. v.neighbours) (λ _ _. refl) (λ _ _. refl) (λ _ _. refl)
          now s.neighbours from p.videos_available
          (update_route now from p (learn_names p.videos_available s))
          (unfold update_route learn_names in refl))

  handle_flood_packet_went :
      (from : SocketAddr) (p : FloodPacket) (s : State)
      → contains p.visited_nodes s.id ≡ false
      → (handle_flood_packet now from p s).1
        ≡ (for_each
            (broadcast_targets from (learnt from p s).1)
            (send_flood now p)
            (learnt from p s).1).1
  unfolding handle_flood_packet
  handle_flood_packet_went from p s new =
      rw
        (
          new,
          check_pending_videos-ok now from p.videos_available
              (update_route now from p (learn_names p.videos_available s)),
        )
        refl

  pub handle_flood_packet_relays :
      (from : SocketAddr) (p : FloodPacket) (s : State)
      → contains p.visited_nodes s.id ≡ false
      → ((handle_flood_packet now from p s).0 ≡ ok tt)
        × (flooded (handle_flood_packet now from p s).1.spawned
            ≡ pushed (broadcast_targets from s) (flooded s.spawned))
  unfolding handle_flood_packet
  handle_flood_packet_relays from p s new =
      rw (new, check_pending_videos-ok now from p.videos_available t)
        (
          sends-ok p (broadcast_targets from u) u,
          sends-flooded p (broadcast_targets from u) u
              ∙ ap₂ pushed (learnt_targets from p s) same_tasks,
        )
    where
      t : State
      t = update_route now from p (learn_names p.videos_available s)

      u : State
      u = (check_pending_videos now from p.videos_available t).1

      same_tasks : flooded u.spawned ≡ flooded s.spawned
      same_tasks =
          check_pending_videos-frame (λ v. flooded v.spawned) (λ _ _. refl) (λ _ _. refl)
            (λ _ _. refl) now (flooded s.spawned) from p.videos_available t
            (unfold update_route learn_names in refl)

  -- A node keeps its id.
  pub handle_flood_packet_id :
      (from : SocketAddr) (p : FloodPacket) (s : State)
      → contains p.visited_nodes s.id ≡ false
      → (handle_flood_packet now from p s).1.id ≡ s.id
  unfolding handle_flood_packet update_route learn_names send_flood send
  handle_flood_packet_id from p s new = rw new (
      continue_keeps (λ u. u.id ≡ s.id) (learnt from p s) _ checked
        (λ _ _.
          for_each_keeps (λ u. u.id ≡ s.id) (broadcast_targets from (learnt from p s).1)
            (send_flood now p) (λ to u h. h) (learnt from p s).1 checked))
    where
      checked : (learnt from p s).1.id ≡ s.id
      checked =
          check_pending_videos-frame (λ u. u.id) (λ _ _. refl) (λ _ _. refl) (λ _ _. refl) now s.id
            from p.videos_available (update_route now from p (learn_names p.videos_available s))
            refl

  pub handle_flood_packet_told :
      (from : SocketAddr) (p : FloodPacket) (s : State)
      → contains p.visited_nodes s.id ≡ false
      → IsUp s
      → AreWritable p (handle_flood_packet now from p s).1 (broadcast_targets from s)
      → All
          (IsTold p
            (handle_flood_packet now from p s).1
            (handle_flood_packet now from p s).1.socket.wire)
          (broadcast_targets from s)
  handle_flood_packet_told from p s new up writable =
      let u = (learnt from p s).1 in
      let t = (for_each (broadcast_targets from u) (send_flood now p) u).1 in
      let went : (handle_flood_packet now from p s).1 ≡ t = handle_flood_packet_went from p s new in
      let same = learnt_targets from p s in
      let up' =
        check_pending_videos-IsUp now from p.videos_available
          (update_route now from p (learn_names p.videos_available s))
          (unfold update_route learn_names in up) in
      let writable' : AreWritable p u (broadcast_targets from u) = rw same (
        All-map (broadcast_targets from s)
          (λ to h n.
            subst (λ q. (b : Bytes) × (codec.serialize (reliable n (node (flood q))) ≡ some b))
              (sends-passed_on now p to (broadcast_targets from u) u) (rw went at (h n)))
          writable) in
      let told = sends-IsTold now p (broadcast_targets from u) u up' writable' in
      rw went (
        All-map (broadcast_targets from s)
          (λ to (n, b, written, sent). (
            n,
            b,
            subst (λ q. codec.serialize (reliable n (node (flood q))) ≡ some b)
                (sym (sends-passed_on now p to (broadcast_targets from u) u)) written,
            sent,
          ))
          (subst (λ l. All (IsTold p u t.socket.wire) l) same told))

  -- A flood packet that is new to this node makes its sender an active parent with the packet's
  -- hops, videos and parents, heard of now, adds its delay to the route, and changes no other route;
  -- it is sent on, reliably, to each neighbour except the one that it came from, with this node among
  -- those it visited and with the node's own parents and the videos that it offers to that neighbour,
  -- and with each send, in their order, a task starts that waits for the answer; and the handler
  -- returns. The sends succeed, and the packets that are sent on can be written.
  pub handle_flood_packet_lem :
      (from : SocketAddr) (p : FloodPacket) (s : State)
      → contains p.visited_nodes s.id ≡ false
      → IsUp s
      → AreWritable p (handle_flood_packet now from p s).1 (broadcast_targets from s)
      → let m = handle_flood_packet now from p s in
        let old = unwrap_or (get s.available_routes from) default_route in
        (m.0 ≡ ok tt)
        × ((a : SocketAddr)
            → get m.1.available_routes a ≡ (
                if from == a
                then some (record {
                  hops = length p.visited_nodes;
                  last_delays_to_server =
                      push_back old.last_delays_to_server (now - p.created_at_server_time);
                  available_videos = map (λ v. v.0) p.videos_available;
                  status = active;
                  node_type =
                      parent
                        (record { parents = p.my_parents; date_last_flood_packet_received = now });
                })
                else get s.available_routes a))
        × All (IsTold p m.1 m.1.socket.wire) (broadcast_targets from s)
        × (flooded m.1.spawned ≡ pushed (broadcast_targets from s) (flooded s.spawned))
  unfolding update_from_flood_packet hops
  handle_flood_packet_lem from p s new up writable =
      let (done, sent) = handle_flood_packet_relays from p s new in
      (
        done,
        (λ a. handle_flood_packet_routes from p s a new),
        handle_flood_packet_told from p s new up writable,
        sent,
      )
