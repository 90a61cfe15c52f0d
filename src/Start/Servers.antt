-- ===== src/Start/Servers.antt =====
-- A server that has been started (server/src/main.rs), and what then happens to it.
use Prim.Native.String.{String}
use pessi_streamer.Base.{nat_eq, string_eq}
use pessi_streamer.Containers.{Containers}
use pessi_streamer.Common.Packet.{Packet}
use pessi_streamer.Server.State.{State}
