-- ===== src/Common/Reliable/Sound.antt =====
-- When the bookkeeping of reliable.rs is sound, and that the changes of a socket keep it so.
use pessi_streamer.Base.{
  ℕ, ◌+◌, ◌-◌, ◌%◌, ◌≤◌, ◌<◌, ◌≡◌, ◌≢◌, refl, ap, Bool, true, false, Option, none, some, List, [],
  ◌∷◌, arith, All, All-map, keys, contains, distinct, nat_beq_iff, nat_eq, Bool-cases, inl, inr,
  leb,
}
use pessi_streamer.Containers.{Containers, get, insert, get-insert, get-remove, get-new}
use pessi_streamer.Common.Packet.{SocketAddr, SystemTime, u64_mod}
use pessi_streamer.Common.Reliable.{
  Socket, PendingPacket, ReliablePacketResult, Bytes, max_retries, retry_timeout, new_socket,
  send_to, resolve, finished, after_resend, resend, retransmit, receive_ack, acknowledge, timeout,
}

module _ ⦃lib : Containers⦄ where
  -- Every channel's packet was sent before, is not pending any more, and occurs once.
  abbrev pub Settled : Socket → ℕ × ReliablePacketResult → Type 0
  Settled k e = (e.0 < k.sequence_number) × (get k.pending_packets e.0 ≡ none)

  pub record IsSound (k : Socket) : Type 0 where
    pub bounded :
        (id : ℕ) (p : PendingPacket)
        → get k.pending_packets id ≡ some p
        → (p.retries ≤ max_retries) × (id < k.sequence_number)
    pub settled : All (Settled k) k.results
    pub once : distinct (keys k.results) ≡ true

  not_resolved :
      (pending : ℕ → Option PendingPacket) (seq : ℕ) (rs : List (ℕ × ReliablePacketResult)) (id : ℕ)
      (p : PendingPacket)
      → All (λ e. (e.0 < seq) × (pending e.0 ≡ none)) rs
      → pending id ≡ some p
      → contains (keys rs) id ≡ false
  unfolding contains
  not_resolved pending seq [] id p h found = refl
  not_resolved pending seq ((j, r) ∷ rs) id p h found =
      ground (arith, not_resolved pending seq rs id p h.1 found, nat_beq_iff j id)

  pub new_socket-IsSound : (addr : SocketAddr) (fate : ℕ → Bool) → IsSound (new_socket addr fate)
  unfolding new_socket distinct
  new_socket-IsSound addr fate = record {
    bounded = λ id p found. cc (get-new {V = PendingPacket} id);
    settled = tt;
    once = refl;
  }

  resolve-IsSound :
      (id : ℕ) (r : ReliablePacketResult) (p : PendingPacket) (k : Socket)
      → IsSound k
      → get k.pending_packets id ≡ some p
      → IsSound (resolve id r k)
  unfolding resolve distinct
  resolve-IsSound id r p k s found = record {
    bounded = λ j q h. ground (arith, get-remove k.pending_packets id j, s.bounded j q);
    settled = (
      (
        (s.bounded id p found).1,
        ground (arith, get-remove k.pending_packets id id, nat_beq_iff id id),
      ),
      All-map k.results (λ e h. (h.0, ground (arith, get-remove k.pending_packets id e.0, h.1)))
          s.settled,
    );
    once = ground (
      arith,
      not_resolved (λ j. get k.pending_packets j) k.sequence_number k.results id p s.settled found,
      s.once,
    );
  }

  -- The three parts that the invariant reads.
  pub IsSound-frame :
      (k k' : Socket)
      → k'.pending_packets ≡ k.pending_packets
      → k'.sequence_number ≡ k.sequence_number
      → k'.results ≡ k.results
      → IsSound k
      → IsSound k'
  IsSound-frame k k' hp hs hr s = record {
    bounded = λ id p found. rw hs (s.bounded id p (rw hp at found));
    settled = rw hr (All-map k.results (λ e h. (rw hs h.0, rw hp h.1)) s.settled);
    once = rw hr s.once;
  }

  pub insert-IsSound :
      (id : ℕ) (p : PendingPacket) (k k' : Socket)
      → k'.pending_packets ≡ insert k.pending_packets id p
      → k.sequence_number ≤ k'.sequence_number
      → k'.results ≡ k.results
      → id < k'.sequence_number
      → p.retries ≤ max_retries
      → ((e : ℕ × ReliablePacketResult) → Settled k e → id ≢ e.0)
      → IsSound k
      → IsSound k'
  insert-IsSound id p k k' hp hs hr below few new s = record {
    bounded = λ j q found.
        ground (arith, get-insert k.pending_packets id p j, ap (λ m. get m j) hp, s.bounded j q);
    settled = rw hr (
        All-map k.results
          (λ e h. (
            omega arith,
            ground (
              arith,
              get-insert k.pending_packets id p e.0,
              ap (λ m. get m e.0) hp,
              nat_beq_iff id e.0,
              new e h,
            ),
          ))
          s.settled);
    once = rw hr s.once;
  }

  after_resend-IsSound :
      (now : SystemTime) (id : ℕ) (p : PendingPacket) (k : Socket)
      → p.retries < max_retries
      → get k.pending_packets id ≡ some p
      → IsSound k
      → IsSound (after_resend now id p (send_to p.destination p.bytes k)).1
  unfolding after_resend send_to finished
  after_resend-IsSound now id p k few found s = elim (Bool-cases (k.fate k.calls)) [
    | inl sent ↦ rw sent (
        insert-IsSound id _ k _ refl (omega arith) refl (s.bounded id p found).1 (omega arith)
          (λ e h same. cc (found, h.1, same)) s)
    | inr lost ↦ rw lost (IsSound-frame k _ refl refl refl s)
  ]

  resend-IsSound :
      (now : SystemTime) (id : ℕ) (o : Option PendingPacket) (k : Socket)
      → get k.pending_packets id ≡ o
      → IsSound k
      → IsSound (resend now id o k).1
  unfolding resend finished
  resend-IsSound now id none k found s = IsSound-frame k _ refl refl refl s
  resend-IsSound now id (some p) k found s = elim (Bool-cases (leb max_retries p.retries)) [
    | inl over ↦ rw over (IsSound-frame _ _ refl refl refl (resolve-IsSound id timeout p k s found))
    | inr few ↦ elim (Bool-cases (leb retry_timeout (now - p.timestamp))) [
      | inl due ↦ rw (few, due) (after_resend-IsSound now id p k (ground arith) found s)
      | inr early ↦ rw (few, early) s
    ]
  ]

  pub retransmit-IsSound :
      (now : SystemTime) (id : ℕ) (k : Socket) → IsSound k → IsSound (retransmit now id k).1
  unfolding retransmit
  retransmit-IsSound now id k s = resend-IsSound now id _ k refl s

  acknowledge-IsSound :
      (now : SystemTime) (id : ℕ) (o : Option PendingPacket) (k : Socket)
      → get k.pending_packets id ≡ o
      → IsSound k
      → IsSound (acknowledge now id o k)
  unfolding acknowledge
  acknowledge-IsSound now id none k found s = s
  acknowledge-IsSound now id (some p) k found s = resolve-IsSound id _ p k s found

  pub receive_ack-IsSound :
      (now : SystemTime) (id : ℕ) (k : Socket) → IsSound k → IsSound (receive_ack now id k)
  unfolding receive_ack
  receive_ack-IsSound now id k s = acknowledge-IsSound now id _ k refl s

  pub send_to-IsSound :
      (addr : SocketAddr) (b : Bytes) (k : Socket) → IsSound k → IsSound (send_to addr b k).1
  unfolding send_to
  send_to-IsSound addr b k s = elim (Bool-cases (k.fate k.calls)) [
    | inl sent ↦ rw sent (IsSound-frame k _ refl refl refl s)
    | inr lost ↦ rw lost (IsSound-frame k _ refl refl refl s)
  ]

  pub grow-IsSound :
      (k : Socket)
      → k.sequence_number + 1 < u64_mod
      → IsSound k
      → IsSound (record k { sequence_number = (k.sequence_number + 1) % u64_mod })
  grow-IsSound k room s = record {
    bounded = λ id p found. ((s.bounded id p found).0, omega (arith, s.bounded id p found));
    settled = All-map k.results (λ e h. (omega arith, h.1)) s.settled;
    once = s.once;
  }
