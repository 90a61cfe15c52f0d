-- ===== src/Start/Mains.antt =====
-- How long a started node or server runs (node/src/main.rs, server/src/main.rs): each `main` ends when one of its tasks does. A task without a result ends by a
-- panic only; an error of a task that is spawned for one packet or video ends only that one.
use Prim.Native.String.{String}
use pessi_streamer.Base.{
  nat_eq, ℕ, ◌≡◌, ◌⊎◌, inl, inr, Bool, true, false, List, ◌∷◌, ◌++◌, ap, sym, ◌∙◌, All-all, In,
  Option,
}
use pessi_streamer.Containers.{Containers}
use pessi_streamer.Common.Packet.{SocketAddr, SystemTime, Packet}
use pessi_streamer.Common.Effect.{err, blocked, Error}
use pessi_streamer.Common.Reliable.{Codec, Bytes}
use pessi_streamer.Node.State.{State as NodeState}
use pessi_streamer.Node.Tasks.{
  Event as NodeEvent, arrives, packet_round, checks_videos, react as node_react,
  video_health_check_round,
}
use pessi_streamer.Node.Invariant.{IsValid as IsValidNode}
use pessi_streamer.Node.Invariant.Rounds.{react-Sound as node_react-Sound}
use pessi_streamer.Server.State.{State as ServerState}
use pessi_streamer.Server.Files.{FilePath}
use pessi_streamer.Server.Tasks.{flood_round, DirEntry, get_files}
use pessi_streamer.Server.Invariant.{
  Event as ServerEvent, floods, watches, react as server_react, IsValid as IsValidServer,
  server_react-Sound,
}
use pessi_streamer.Start.Select.{select_loop, select_loop_lem}
use pessi_streamer.Start.Ends.{ends_node, ends_server, server_end}

module _ ⦃lib : Containers⦄ ⦃codec : Codec Packet⦄ where
  -- `main` of the node, from its `select!` on: whether its tasks still run, and the state.
  abbrev pub node_main : List (SystemTime × NodeEvent) → NodeState → Bool × NodeState
  node_main = select_loop node_react ends_node

  -- The tables stay valid, and the tasks of the node run on, or a request of the video health check
  -- could not be sent, or the packet task waits for a lock that it holds itself.
  abbrev pub NodeRunsOn : List (SystemTime × NodeEvent) → NodeState → Type 0
  NodeRunsOn es s =
      IsValidNode (node_main es s).1
      × (((node_main es s).0 ≡ true)
          ⊎ ((before : List (SystemTime × NodeEvent)) × (after : List (SystemTime × NodeEvent))
              × (now : SystemTime) × (t : NodeState) × (x : Error) × (es
                  ≡ before ++ (now, checks_videos) ∷ after)
              × (node_main before s ≡ (true, t))
              × ((video_health_check_round now t).0 ≡ err x))
          ⊎ ((before : List (SystemTime × NodeEvent)) × (after : List (SystemTime × NodeEvent))
              × (now : SystemTime) × (datagram : Option (Bytes × SocketAddr)) × (t : NodeState)
              × (es ≡ before ++ (now, arrives datagram) ∷ after)
              × (node_main before s ≡ (true, t))
              × ((packet_round now datagram t).0 ≡ blocked)))

module _ ⦃lib : Containers⦄ ⦃codec : Codec Packet⦄ (hash : String → ℕ)
    (show : SocketAddr → String) where
  abbrev pub server_main : List (SystemTime × ServerEvent) → ServerState → Bool × ServerState
  server_main = select_loop (server_react hash show) ends_server

  -- The tables stay valid, and the tasks of the server run on, or a flood packet could not be sent,
  -- or the folder held a file whose name is not Unicode.
  abbrev pub ServerRunsOn : List (SystemTime × ServerEvent) → ServerState → Type 0
  ServerRunsOn es s =
      IsValidServer hash (server_main es s).1
      × (((server_main es s).0 ≡ true)
          ⊎ ((before : List (SystemTime × ServerEvent)) × (after : List (SystemTime × ServerEvent))
              × (now : SystemTime) × (t : ServerState) × (x : Error) × (es
                  ≡ before ++ (now, floods) ∷ after)
              × (server_main before s ≡ (true, t))
              × ((flood_round now t).0 ≡ err x))
          ⊎ ((before : List (SystemTime × ServerEvent)) × (after : List (SystemTime × ServerEvent))
              × (now : SystemTime) × (entries : List (Option DirEntry)) × (folder : List String)
              × (path : FilePath) × (es ≡ before ++ (now, watches entries folder) ∷ after)
              × In path (get_files entries)
              × (path.name_is_unicode ≡ false)))

  -- A server in a valid state goes on through all that happens to it and to its encoders, and its
  -- tables stay valid, unless a flood packet cannot be sent, or a look at the folder finds a file
  -- whose name is not Unicode: these end the server.
  pub server_main_lem :
      (es : List (SystemTime × ServerEvent)) (s : ServerState)
      → IsValidServer hash s
      → ServerRunsOn es s
  unfolding server_react
  server_main_lem es s valid =
      let react = server_react hash show in
      let (kept, rest) =
        select_loop_lem react ends_server (IsValidServer hash) (λ e. Unit)
          (λ now e t r v. (server_react-Sound hash show now e t v).0) es s (All-all (λ _. tt) es)
          valid in
      (
        kept,
        elim rest [
          | inl all ↦ inl all
          | inr h ↦
              inr
                (elim (server_end h.event (react h.now h.event h.state).0
                  (server_react-Sound hash show h.now h.event h.state h.valid).1 h.ended) [
                    | inl (same, x, failed) ↦ inl (
                      h.before,
                      h.after,
                      h.now,
                      h.state,
                      x,
                      h.events ∙ ap (λ e. h.before ++ (h.now, e) ∷ h.after) same,
                      h.went,
                      ap (λ e. (react h.now e h.state).0) (sym same) ∙ failed,
                    )
                    | inr (entries, folder, path, same, there, strange) ↦ inr (
                      h.before,
                      h.after,
                      h.now,
                      entries,
                      folder,
                      path,
                      h.events ∙ ap (λ e. h.before ++ (h.now, e) ∷ h.after) same,
                      there,
                      strange,
                    )
                  ])
        ],
      )
