-- ===== src/Lib.antt =====
-- pessi-streamer: a network of nodes that relays video from a server to clients over UDP.
--
-- The parts. The server floods the network once a second with the list of its videos
-- (`FloodPacket`); every node passes the packet on to its neighbours and so learns over which of
-- them the server can be reached, in how many hops and with which delay. A client pings its nodes,
-- gets the list of videos, and asks a node for one; the node asks the best of the nodes that offer
-- it, and so on up to the server. The video itself goes down the same way, as unreliable packets,
-- as does the server's own flood packet; everything else goes over a socket that acknowledges and
-- resends. Periodic checks notice lost neighbours, clients that went silent, and videos that
-- stalled. A node gets the addresses of its neighbours from the bootstrapper.
--
-- What models what:
--   * Common/Packet: common/src/packet.rs and the constants of common/src/lib.rs.
--   * Common/Reliable: common/src/reliable.rs. `send_reliable`, `send_unreliable`,
--     `send_unreliable_broadcast`, `send_ack` and `receive` keep their names; `retransmit` is one
--     round of the loop that `handle_retransmission` spawns, `retransmission_loop` the loop.
--     Reliable/Sound, Invariant, Retransmission, Delivery and Outcomes hold what is proved of it.
--   * Node/State: the types of node/src/node.rs. Node/Routing: its queries. Node/Redirect: the
--     operations of node/src/node.rs and node/src/handle.rs that request, redirect and stop videos.
--     Node/Handle: the packet handlers of node/src/handle.rs, and `handle_packet`. Node/Tasks: one
--     round of the packet loop and of each periodic task, and the runs of a node. All functions
--     keep their names; `handle_unresponsive_node` and the handlers are cut into their loops and
--     branches.
--     The other files of Node hold proofs: Best (the selection), Invariant (validity), Frame (what
--     an operation leaves alone), Outcomes, Subscriptions, Recovery (a lost node), Health and
--     Neighbours (the checks), Offers, Ping, Flood and Video.
--   * Server: server/src/server.rs. Server/State has the state and what the client socket does with
--     a packet, Server/Tasks one round of each task, Server/Files the names of the files,
--     Server/Invariant the runs. Server/Encoder is server/src/video.rs, over the text functions of
--     Server/Text. Server/Subscriptions, Stream, Watch, Folder, Listing and Codec hold proofs.
--     `start_streaming_video` is its part before the loop, `stream_loop` the loop and `stream_round`
--     one round of it; one round of `run_client_socket` is `client_socket_round`, one of
--     `run_periodic_flood_packets` is `flood_round`, one of `watch_video_folder` is `watch_round`.
--   * Client: client/src/client.rs. Client/State has the state and its queries, with the video player
--     as the client sees it, Client/Handle the user's requests and the packet handlers, Client/Tasks
--     one round of each task and the runs, Client/View the window of client/src/ui.rs as the list of
--     what it shows. Client/Best, Listing, Frame, Invariant, Redirection, Health and Playback
--     hold proofs. Client/Player is client/src/video.rs, the channel and the writer's task behind the
--     player; Client/Player/Queue relates it to the player that the client sees.
--   * Bootstrap: bootstrapper/src/bootstrapper.rs and common/src/neighbours.rs; Bootstrap/Exchange
--     what they achieve together.
--   * Start: the starts of a node, a server, a client and the bootstrapper (node/src/main.rs,
--     server/src/main.rs, client/src/main.rs, bootstrapper/src/main.rs), up to their tasks, with
--     `get_bootstrapper_address` of common/src/lib.rs. Start/Select is the `select!` in which a
--     `main` waits for the end of a task, Start/Ends says which events end one, and Start/Mains how
--     long a node and a server run; Start/Servers and Start/Clients hold proofs.
--   * Network: the parts together, over the datagrams that one sends and another receives: Stream
--     (server, node and viewers), Flood (server and node), Ping (client and node), Request (client,
--     node and server), Watch (a request and the video that it brings).
--   * Selection: the selection rule that `get_best_node_to_redirect` of the node and
--     `select_best_node` of the client write out, on any entries.
--   * Containers: `dashmap` and `circular_buffer` as an interface, a record of operations and laws;
--     Containers/Assoc is an implementation by lists. All theorems hold for every implementation,
--     so for every order in which a map is iterated.
--   * Base: shared lemmas. Examples: the theorems at concrete states.
--
-- How it is modelled. An operation is a function on the state that returns an outcome: a value, an
-- error that `?` passes on, a panic, or a lock that the task waits for while it holds it itself.
-- What was changed before an error stays changed. A lock is followed in the loop of
-- `handle_client_ping` over `interested`, the one that holds a reference into a map which it then
-- changes. A handler runs to its end before another starts, and reads the clock once, but for the
-- round of `handle_ping_answer`, of which `give_source_during` has what other tasks do meanwhile; what tokio interleaves (packets, rounds of the tasks, spawned tasks) is
-- a list of events in any order. Times and durations are nanoseconds as natural numbers, and their
-- sums are taken not to overflow; a difference stops at 0 where the code takes `Duration::ZERO` for an
-- error.
-- A `u64` that is counted up wraps at `2 ^ 64`, as in a release build. An IP address is a number.
-- The system's `send_to` is an oracle, `fate`, that says for every call whether it succeeds, and
-- `wire` lists the datagrams that were handed over. `bincode` is a parameter: it reads back what it
-- writes. A oneshot channel is named by its packet's id. A retransmission loop runs over the list of
-- its wake-ups, so it needs no fuel: more wake-ups than the retries that are left are enough.
--
-- The channel of a video player is `tokio::sync::mpsc`, an interface as well: a record of operations
-- with what they do to the view that its users have of it. In the runs of the client a player is the
-- list of what its channel accepted, whose write fails once the other end is gone, which is an event;
-- Client/Player has the channel of 1024 datagrams, on which a write may wait too. An encoder is known
-- by what `select!` yields in the loop of its video, which is given as events; what the system and
-- the child processes answer when it is started is a record, `Environment`. What the system does in
-- an attempt to reach the bootstrapper is given with the attempt, and the loop runs over the list of
-- the attempts. Hashes, and the parsers of addresses and of TOML, are parameters.
--
-- Not modelled: the end of a client by its packet task, as a handler of the runs is never
-- interrupted and its writes to a player never wait; the node after one of its tasks waits for ever;
-- the arguments of the programs, which `clap` parses; the child processes themselves;
-- the drawing of egui; the log messages; Ctrl-C and the closing of the window, which end a program.
-- The branches on `ConnectionReset` only keep the error out of the log, as the loops go on after
-- every error of `receive`.
pub mod Base
pub mod Containers
pub mod Common
pub mod Selection
pub mod Node
pub mod Bootstrap
pub mod Server
pub mod Client
pub mod Network
pub mod Start
pub mod Examples
