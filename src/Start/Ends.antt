-- ===== src/Start/Ends.antt =====
-- Which events end a task that `main` waits for (node/src/main.rs, server/src/main.rs).
use pessi_streamer.Base.{◌≡◌, ◌≢◌, refl, Bool, ◌||◌, true, false, ◌⊎◌, inl, inr, List, Option, In}
use pessi_streamer.Common.Effect.{Outcome, ok, err, panic, blocked, Error}
use pessi_streamer.Node.Tasks.{
  Event as NodeEvent, arrives as node_arrives, wakes as node_wakes, finishes, checks_neighbours,
  checks_clients, checks_videos,
}
use pessi_streamer.Server.Invariant.{
  Event as ServerEvent, arrives as server_arrives, encodes, floods, watches, launches, HasCause,
}
use Prim.Native.String.{String}
use pessi_streamer.Server.Files.{FilePath}
use pessi_streamer.Server.Tasks.{DirEntry, get_files}
use pessi_streamer.Start.Select.{is_panic, is_blocked, is_end}

-- A task that waits for a lock which it holds itself counts as one that does not go on, too.
abbrev pub ends_node : NodeEvent → Outcome Unit → Bool
ends_node (node_arrives datagram) r = is_panic r || is_blocked r
ends_node (node_wakes id) r = false
ends_node (finishes task received) r = false
ends_node checks_neighbours r = is_panic r || is_blocked r
ends_node checks_clients r = is_panic r || is_blocked r
ends_node checks_videos r = is_end r || is_blocked r

abbrev pub ends_server : ServerEvent → Outcome Unit → Bool
ends_server (server_arrives datagram) r = is_panic r
ends_server (encodes id selected) r = false
ends_server floods r = is_end r
ends_server (watches entries folder) r = is_panic r
ends_server (launches env path folder) r = false

no_panic : (r : Outcome Unit) → r ≢ panic → is_panic r ≡ false
no_panic (ok a) h = refl
no_panic (err e) h = refl
no_panic panic h = absurd (h refl)
no_panic blocked h = refl

end_of_err : (r : Outcome Unit) → r ≢ panic → is_end r ≡ true → (e : Error) × (r ≡ err e)
end_of_err (ok a) h ends = cc
end_of_err (err e) h ends = (e, refl)
end_of_err panic h ends = absurd (h refl)
end_of_err blocked h ends = cc

stop_of_panic : (r : Outcome Unit) → r ≢ panic → (is_panic r || is_blocked r) ≡ true → r ≡ blocked
stop_of_panic (ok a) h ends = cc
stop_of_panic (err e) h ends = cc
stop_of_panic panic h ends = absurd (h refl)
stop_of_panic blocked h ends = refl

-- What ends a node is an error of the video health check, unless it is a panic or a task that waits.
pub node_end :
    (e : NodeEvent) (r : Outcome Unit)
    → r ≢ panic
    → ends_node e r ≡ true
    → ((e ≡ checks_videos) × (x : Error) × (r ≡ err x)) ⊎ (r ≡ blocked)
node_end (node_arrives datagram) r sane ends = inr (stop_of_panic r sane ends)
node_end (node_wakes id) r sane ends = cc
node_end (finishes task received) r sane ends = cc
node_end checks_neighbours r sane ends = inr (stop_of_panic r sane ends)
node_end checks_clients r sane ends = inr (stop_of_panic r sane ends)
node_end checks_videos (ok a) sane ends = cc
node_end checks_videos (err e) sane ends = inl (refl, e, refl)
node_end checks_videos panic sane ends = absurd (sane refl)
node_end checks_videos blocked sane ends = inr refl

-- What ends a server is an error of the flood packets, or a name in the folder that is not Unicode.
pub server_end :
    (e : ServerEvent) (r : Outcome Unit)
    → (r ≢ panic) ⊎ HasCause e
    → ends_server e r ≡ true
    → ((e ≡ floods) × (x : Error) × (r ≡ err x))
      ⊎ ((entries : List (Option DirEntry)) × (folder : List String) × (path : FilePath) × (e
            ≡ watches entries folder)
          × In path (get_files entries)
          × (path.name_is_unicode ≡ false))
server_end (server_arrives datagram) r (inl sane) ends = absurd (cc (no_panic r sane, ends))
server_end (server_arrives datagram) r (inr cause) ends = absurd cause
server_end (encodes id selected) r h ends = cc
server_end floods r (inl sane) ends =
    let (x, failed) = end_of_err r sane ends in inl (refl, x, failed)
server_end floods r (inr cause) ends = absurd cause
server_end (watches entries folder) r (inl sane) ends = absurd (cc (no_panic r sane, ends))
server_end (watches entries folder) r (inr (path, there, strange)) ends =
    inr (entries, folder, path, refl, there, strange)
server_end (launches env path folder) r h ends = cc
