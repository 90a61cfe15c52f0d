-- ===== src/Examples/Players.antt =====
-- The theorem on the player's channel, at one that is held as a list.
use mathlib.Core.Option
use pessi_streamer.Base.{◌≡◌, refl, true, false, List, [], ◌∷◌}
use pessi_streamer.Common.Reliable.{Bytes}
use pessi_streamer.Client.State.{mpv}
use pessi_streamer.Client.Player.{
  Seen, Sent, done, refused, full, map_sent, offered, taken, Channels, Player, launched, write,
  writer_round,
}
use pessi_streamer.Client.Player.Queue.{
  Reach, starts, steps, writes, turns, IsPlayed, IsWrite, player_lem,
}

map_sent-id : {C : Type 0} (r : Sent C) → map_sent (λ c. c) r ≡ r
map_sent-id (done c) = refl
map_sent-id refused = refl
map_sent-id full = refl

taken-id :
    (q : List Bytes) (v : Seen Bytes)
    → Option.map {A = Bytes × Seen Bytes} (λ r. (r.0, r.1)) (taken q v) ≡ taken q v
taken-id [] v = refl
taken-id (a ∷ q) v = refl

instance abbrev list_channels : Channels
list_channels = record {
  Channel = Seen Bytes;
  seen = λ c. c;
  channel = λ n. record { capacity = n; is_closed = false; queue = [] };
  send = offered;
  recv = λ c. taken c.queue c;
  close = λ c. record c { is_closed = true };
  seen_channel = λ n. refl;
  seen_send = λ a c. map_sent-id (offered a c);
  seen_recv = λ c. taken-id c.queue c;
  seen_close = λ c. refl;
}

-- Two datagrams wait, and the first is written to the process.
abbrev first : Player
first = record (launched mpv) {
  process_sender = record { capacity = 1024; is_closed = false; queue = (8 ∷ []) ∷ [] };
}

abbrev second : Player
second = record (launched mpv) {
  process_sender = record { capacity = 1024; is_closed = false; queue = (8 ∷ []) ∷ (9 ∷ []) ∷ [] };
}

reached : Reach (writer_round true second) ((9 ∷ []) ∷ (8 ∷ []) ∷ [])
unfolding write
reached =
    steps
      (steps (steps (starts mpv) (writes {q = first} (8 ∷ []) refl))
        (writes {q = second} (9 ∷ []) refl))
      (turns true refl)

player_lem_example :
    IsPlayed (writer_round true second) ((9 ∷ []) ∷ (8 ∷ []) ∷ [])
    × IsWrite mpv
        (writer_round true second)
        ((9 ∷ []) ∷ (8 ∷ []) ∷ [])
        (7 ∷ [])
        (write (7 ∷ []) (writer_round true second))
player_lem_example = player_lem mpv (7 ∷ []) reached
