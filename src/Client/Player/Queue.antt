-- ===== src/Client/Player/Queue.antt =====
-- What every run of a player and its writer's task keeps, and how it looks to the packet task
-- (client/src/video.rs).
use pessi_streamer.Base.{
  ◌≡◌, ◌≤◌, ◌<◌, ◌∙◌, refl, subst, sym, ap, Bool, true, false, Option, none, some, List, [], ◌∷◌,
  ◌++◌, arith, length, length-append,
}
use mathlib.Core.Option
use mathlib.Core.List.{append_assoc}
use pessi_streamer.Common.Reliable.{Bytes}
use pessi_streamer.Client.State.{VideoPlayerType, VideoPlayer}
use pessi_streamer.Client.Handle.{write as abstract_write}
use pessi_streamer.Client.Playback.{given}
use pessi_streamer.Client.Player.{
  Seen, Sent, done, refused, full, map_sent, offered, taken, Channels, Player, Written, written,
  send_error, waiting, capacity, launched, after_send, write, after_recv, writer_round,
}

module _ ⦃lib : Channels⦄ where
  abbrev of : Player → Seen Bytes
  of p = lib.seen p.process_sender

  -- What `send` did, from what it is on the view of the channel.
  abbrev IsSent : Bytes → Seen Bytes → Sent lib.Channel → Type 0
  IsSent b v (done c) =
      (v.is_closed ≡ false)
      × (length v.queue < v.capacity)
      × (lib.seen c ≡ record v { queue = v.queue ++ b ∷ [] })
  IsSent b v refused = v.is_closed ≡ true
  IsSent b v full = (v.is_closed ≡ false) × (v.capacity ≤ length v.queue)

  sent_lem :
      (b : Bytes) (v : Seen Bytes) (r : Sent lib.Channel)
      → map_sent lib.seen r ≡ offered b v
      → IsSent b v r
  sent_lem b v (done c) e = (ground (arith, e), ground (arith, e), ground (arith, e))
  sent_lem b v refused e = ground (arith, e)
  sent_lem b v full e = (ground (arith, e), ground (arith, e))

  abbrev IsTaken : List Bytes → Seen Bytes → Option (Bytes × lib.Channel) → Type 0
  IsTaken q v none = q ≡ []
  IsTaken q v (some (b, c)) =
      (rest : List Bytes) × (q ≡ b ∷ rest) × (lib.seen c ≡ record v { queue = rest })

  taken_lem :
      (q : List Bytes) (v : Seen Bytes) (r : Option (Bytes × lib.Channel))
      → Option.map (λ r. (r.0, lib.seen r.1)) r ≡ taken q v
      → IsTaken q v r
  taken_lem [] v none e = refl
  taken_lem [] v (some (b, c)) e = cc
  taken_lem (a ∷ q) v none e = cc
  taken_lem (a ∷ q) v (some (b, c)) e = (q, cc e, ground (arith, e))

  -- A step of a player: a write that is done, or a round of the writer's task, which runs until the
  -- receiver is dropped; with the datagrams that were accepted.
  pub data Step : Player → List Bytes → Player → Type 0 where
    writes : {p q : Player} (b : Bytes) → write b p ≡ written q → Step p (b ∷ []) q
    turns :
        {p : Player} (succeeds : Bool)
        → (of p).is_closed ≡ false
        → Step p [] (writer_round succeeds p)

  -- The players that a launch and steps lead to, and what they accepted, the newest first.
  pub data Reach : Player → List Bytes → Type 0 where
    starts : (player : VideoPlayerType) → Reach (launched player) []
    steps :
        {p q : Player} {l accepted : List Bytes}
        → Reach p l
        → Step p accepted q
        → Reach q (accepted ++ l)

  -- The process was written the first of the accepted datagrams, in order; while the receiver is not
  -- dropped the rest waits, and it fits into the channel.
  pub record IsPlayed (p : Player) (l : List Bytes) : Type 0 where
    pub shown : (rest : List Bytes) × (l ≡ rest ++ p.stdin)
    pub waits : (of p).is_closed ≡ false → l ≡ given (of p).queue p.stdin
    pub fits :
        (of p).is_closed ≡ false → ((of p).capacity ≡ capacity) × (length (of p).queue ≤ capacity)

  given-push : (q : List Bytes) (b : Bytes) (s : List Bytes) → given (q ++ b ∷ []) s ≡ b ∷ given q s
  unfolding given
  given-push [] b s = refl
  given-push (a ∷ q) b s = given-push q b (a ∷ s)

  given-append : (q s : List Bytes) → (rest : List Bytes) × (given q s ≡ rest ++ s)
  unfolding given
  given-append [] s = ([], refl)
  given-append (a ∷ q) s =
      let (rest, e) = given-append q (a ∷ s) in
      (rest ++ a ∷ [], e ∙ sym (append_assoc rest (a ∷ []) s))

  open-IsPlayed :
      (p : Player) (v : Seen Bytes) (l : List Bytes)
      → of p ≡ v
      → v.capacity ≡ capacity
      → length v.queue ≤ capacity
      → l ≡ given v.queue p.stdin
      → IsPlayed p l
  open-IsPlayed p v l now size small all =
      let (rest, e) = given-append v.queue p.stdin in
      record { shown = (rest, all ∙ e); waits = λ _. rw now all; fits = λ _. rw now (size, small) }

  written-IsPlayed :
      (b : Bytes) (p : Player) (l : List Bytes) (r : Sent lib.Channel) (q : Player)
      → IsSent b (of p) r
      → IsPlayed p l
      → after_send p r ≡ written q
      → IsPlayed q (b ∷ l)
  unfolding after_send
  written-IsPlayed b p l (done c) q (opened, room, now) h e =
      let same : record p { process_sender = c } ≡ q = cc e in
      let (size, small) = h.fits opened in
      subst (λ x. IsPlayed x (b ∷ l)) same
        (open-IsPlayed (record p { process_sender = c }) (lib.seen c) (b ∷ l) refl (rw now size)
          (rw now (omega (arith, room, size, length-append (of p).queue (b ∷ []))))
          (rw now (ap (λ t. b ∷ t) (h.waits opened) ∙ sym (given-push (of p).queue b p.stdin))))
  written-IsPlayed b p l refused q sent h e = cc
  written-IsPlayed b p l full q sent h e = cc

  turned-IsPlayed :
      (p : Player) (l : List Bytes) (succeeds : Bool) (r : Option (Bytes × lib.Channel))
      → IsTaken (of p).queue (of p) r
      → (of p).is_closed ≡ false
      → IsPlayed p l
      → IsPlayed (after_recv succeeds p r) l
  unfolding after_recv given
  turned-IsPlayed p l succeeds none now opened h = h
  turned-IsPlayed p l true (some (b, c)) (rest, first, now) opened h =
      let (size, small) = h.fits opened in
      open-IsPlayed (record p { process_sender = c; stdin = b ∷ p.stdin }) (lib.seen c) l refl
        (rw now size) (rw now (omega (arith, small, ap length first)))
        (rw now (h.waits opened ∙ ap (λ t. given t p.stdin) first))
  turned-IsPlayed p l false (some (b, c)) (rest, first, now) opened h = record {
    shown = h.shown;
    waits = λ opened. absurd (cc (opened, lib.seen_close c));
    fits = λ opened. absurd (cc (opened, lib.seen_close c));
  }

  Step-IsPlayed :
      {p q : Player} {accepted l : List Bytes}
      → Step p accepted q
      → IsPlayed p l
      → IsPlayed q (accepted ++ l)
  unfolding write writer_round
  Step-IsPlayed {p = p} {l = l} (writes {q = q} b e) h =
      written-IsPlayed b p l (lib.send b p.process_sender) q
        (sent_lem b (of p) (lib.send b p.process_sender) (lib.seen_send b p.process_sender)) h e
  Step-IsPlayed {p = p} {l = l} (turns succeeds opened) h =
      turned-IsPlayed p l succeeds (lib.recv p.process_sender)
        (taken_lem (of p).queue (of p) (lib.recv p.process_sender) (lib.seen_recv p.process_sender))
        opened h

  Reach-IsPlayed : {p : Player} {l : List Bytes} → Reach p l → IsPlayed p l
  unfolding given
  Reach-IsPlayed (starts player) =
      open-IsPlayed (launched player) _ [] (lib.seen_channel capacity) refl (omega arith) refl
  Reach-IsPlayed (steps r s) = Step-IsPlayed s (Reach-IsPlayed r)

  -- The player as the packet task's model has it: what was accepted, and whether a write fails.
  abbrev pub seen_as : VideoPlayerType → Player → List Bytes → VideoPlayer
  seen_as player p l = record { player_type = player; is_closed = (of p).is_closed; written = l }

  -- What a write comes to, beside what it is on the model.
  abbrev pub IsWrite : VideoPlayerType → Player → List Bytes → Bytes → Written → Type 0
  IsWrite player p l b (written q) =
      Reach q (b ∷ l) × (abstract_write b (seen_as player p l) ≡ (true, seen_as player q (b ∷ l)))
  IsWrite player p l b send_error =
      abstract_write b (seen_as player p l) ≡ (false, seen_as player p l)
  IsWrite player p l b waiting = length (of p).queue ≡ capacity

  after_send-IsWrite :
      (player : VideoPlayerType) (p : Player) (l : List Bytes) (b : Bytes) (r : Sent lib.Channel)
      → Reach p l
      → lib.send b p.process_sender ≡ r
      → IsSent b (of p) r
      → IsWrite player p l b (after_send p r)
  unfolding write abstract_write
  after_send-IsWrite player p l b (done c) reach sent (opened, room, now) =
      (steps reach (writes b (rw sent refl)), rw (now, opened) refl)
  after_send-IsWrite player p l b refused reach sent closed = rw closed refl
  after_send-IsWrite player p l b full reach sent (opened, small) =
      let (whole, fits) = (Reach-IsPlayed reach).fits opened in omega (arith, small, whole, fits)

  -- Whatever is written to a player, and however its writer's task fares: the process was written the
  -- first of the accepted datagrams, in their order; until the receiver is dropped the others wait on
  -- the channel, at most 1024 of them; and a write is accepted, or fails, as on the model that the
  -- packet task uses, except that it waits where 1024 datagrams are on the channel already.
  pub player_lem :
      {p : Player} {l : List Bytes} (player : VideoPlayerType) (b : Bytes)
      → Reach p l
      → IsPlayed p l × IsWrite player p l b (write b p)
  unfolding write
  player_lem {p} {l} player b reach = (
    Reach-IsPlayed reach,
    after_send-IsWrite player p l b (lib.send b p.process_sender) reach refl
        (sent_lem b (of p) (lib.send b p.process_sender) (lib.seen_send b p.process_sender)),
  )
