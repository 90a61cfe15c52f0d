-- ===== src/Client/Player.antt =====
-- The video player (client/src/video.rs): its process, and the task that hands it the datagrams
-- which wait on a channel. `tokio::sync::mpsc` is an interface, given by what its users see.
pub mod Queue
use Prim.Native.String.{String}
use mathlib.Core.Option
use pessi_streamer.Base.{
  ℕ, ◌≡◌, Bool, true, false, Option, none, some, List, [], ◌∷◌, ◌++◌, ◌==◌, length, ltb,
  if◌then◌else◌, unwrap_or, string_eq,
}
use pessi_streamer.Common.Reliable.{Bytes}
use pessi_streamer.Client.State.{VideoPlayerType, ffplay, mpv}

-- What the users of a bounded channel see: how much it holds, whether the receiver was dropped,
-- and what waits, the oldest first.
pub record Seen (A : Type 0) : Type 0 where
  pub capacity : ℕ
  pub is_closed : Bool
  pub queue : List A

-- What `send` does: it is done, it is refused as the receiver was dropped, or it waits.
pub data Sent (C : Type 0) : Type 0 where
  done : C → Sent C
  refused full : Sent C

module _ {C D : Type 0} where
  abbrev pub map_sent : (C → D) → Sent C → Sent D
  map_sent f (done c) = done (f c)
  map_sent f refused = refused
  map_sent f full = full

module _ {A : Type 0} where
  abbrev pub offered : A → Seen A → Sent (Seen A)
  offered a v =
      if v.is_closed
      then refused
      else if ltb (length v.queue) v.capacity
      then done (record v { queue = v.queue ++ a ∷ [] })
      else full

  -- What `recv` takes, from the first of the queue; with none it waits.
  abbrev pub taken : List A → Seen A → Option (A × Seen A)
  taken [] v = none
  taken (a ∷ rest) v = some (a, record v { queue = rest })

pub record Channels : Type 1 where
  pub Channel : Type 0
  pub seen : Channel → Seen Bytes
  pub channel : ℕ → Channel
  pub send : Bytes → Channel → Sent Channel
  pub recv : Channel → Option (Bytes × Channel)
  -- The receiver is dropped.
  pub close : Channel → Channel
  pub seen_channel :
      (n : ℕ) → seen (channel n) ≡ record { capacity = n; is_closed = false; queue = [] }
  pub seen_send : (a : Bytes) (c : Channel) → map_sent seen (send a c) ≡ offered a (seen c)
  pub seen_recv :
      (c : Channel) → Option.map (λ r. (r.0, seen r.1)) (recv c) ≡ taken (seen c).queue (seen c)
  pub seen_close : (c : Channel) → (seen (close c)).is_closed ≡ true

-- `VideoPlayerType::from_str`; `none` is its error.
unfoldable pub from_str : String → Option VideoPlayerType
from_str s = if s == "ffplay" then some ffplay else if s == "mpv" then some mpv else none

pub record Command : Type 0 where
  pub program : String
  pub args : List String

-- The command that tells whether a player is installed, and that which launches it.
abbrev pub version_command : VideoPlayerType → Command
version_command ffplay = record { program = "ffplay"; args = "-version" ∷ [] }
version_command mpv = record { program = "mpv"; args = "--version" ∷ [] }

abbrev pub launch_command : VideoPlayerType → Command
launch_command ffplay = record { program = "ffplay"; args = "-format" ∷ "mpegts" ∷ "-" ∷ [] }
launch_command mpv = record { program = "mpv"; args = "-" ∷ [] }

-- `check_installation`, given whether a command succeeds; `none` is one that cannot be run.
unfoldable pub check_installation : (Command → Option Bool) → VideoPlayerType → Bool
check_installation status player = unwrap_or (status (version_command player)) false

-- `stdin` is what the writer's task has written to the process, the newest first. Of a datagram
-- whose write fails nothing is counted.
pub record Player ⦃lib : Channels⦄ : Type 0 where
  pub process_child : Command
  pub process_sender : lib.Channel
  pub stdin : List Bytes

pub data Written ⦃lib : Channels⦄ : Type 0 where
  written : Player → Written
  send_error waiting : Written

module _ ⦃lib : Channels⦄ where
  abbrev pub capacity : ℕ
  capacity = 1024

  abbrev pub launched : VideoPlayerType → Player
  launched player = record {
    process_child = launch_command player;
    process_sender = lib.channel capacity;
    stdin = [];
  }

  -- `VideoPlayer::launch`, given whether the process is spawned, and whether it has a `stdin`.
  unfoldable pub launch : (Command → Option Bool) → VideoPlayerType → Option Player
  launch spawns player = elim (spawns (launch_command player)) [
    | none ↦ none
    | some has_stdin ↦ if has_stdin then some (launched player) else none
  ]

  unfoldable pub after_send : Player → Sent lib.Channel → Written
  after_send p (done c) = written (record p { process_sender = c })
  after_send p refused = send_error
  after_send p full = waiting

  -- `VideoPlayer::write`
  unfoldable pub write : Bytes → Player → Written
  unfolding after_send
  write bytes p = after_send p (lib.send bytes p.process_sender)

  unfoldable pub after_recv : Bool → Player → Option (Bytes × lib.Channel) → Player
  after_recv succeeds p none = p
  after_recv true p (some (bytes, c)) = record p { process_sender = c; stdin = bytes ∷ p.stdin }
  after_recv false p (some (bytes, c)) = record p { process_sender = lib.close c }

  -- One round of the writer's task, given whether `write_all` succeeds. A failure ends the task,
  -- and so drops the receiver.
  unfoldable pub writer_round : Bool → Player → Player
  unfolding after_recv
  writer_round succeeds p = after_recv succeeds p (lib.recv p.process_sender)
