-- ===== src/Common/Reliable/Retransmission.antt =====
-- The loop of `handle_retransmission`: how long it runs and how it ends.
use pessi_streamer.Base.{
  ℕ, zero, suc, ◌+◌, ◌-◌, ◌≤◌, ◌<◌, ◌≡◌, refl, true, false, none, some, List, [], ◌∷◌, arith,
  length, inl, inr, Bool-cases, nat_beq_iff, nat_eq, leb, leb→le,
}
use pessi_streamer.Containers.{Containers, get, insert, get-insert, get-remove}
use pessi_streamer.Common.Packet.{SystemTime}
use pessi_streamer.Common.Reliable.{
  Socket, PendingPacket, max_retries, retry_timeout, send_to, resolve, finished, after_resend,
  resend, retransmit, retransmission_loop, timeout,
}

-- Each wake-up comes at least `TIMEOUT` after the one before, the first after the given time.
abbrev pub Spaced : SystemTime → List SystemTime → Type 0
Spaced t [] = Unit
Spaced t (now ∷ later) = (t + retry_timeout ≤ now) × Spaced now later

abbrev pub repeat {ℓ} : {A : Type ℓ} → ℕ → A → List A → List A
repeat zero a l = l
repeat (suc n) a l = repeat n a (a ∷ l)

module _ ⦃lib : Containers⦄ where
  abbrev resent_packet : SystemTime → PendingPacket → PendingPacket
  resent_packet now p = record p { timestamp = now; retries = p.retries + 1 }

  abbrev resent : SystemTime → ℕ → PendingPacket → Socket → Socket
  resent now id p k = record k {
    calls = k.calls + 1;
    wire = (p.destination, p.bytes) ∷ k.wire;
    pending_packets = insert k.pending_packets id (resent_packet now p);
  }

  get-resent :
      (now : SystemTime) (id : ℕ) (p : PendingPacket) (k : Socket)
      → get (resent now id p k).pending_packets id ≡ some (resent_packet now p)
  get-resent now id p k =
      ground (arith, get-insert k.pending_packets id (resent_packet now p) id, nat_beq_iff id id)

  module _ (now : SystemTime) (id : ℕ) (p : PendingPacket) (k : Socket)
      (found : get k.pending_packets id ≡ some p) where
    retransmit_sent :
        p.timestamp + retry_timeout ≤ now
        → p.retries < max_retries
        → k.fate k.calls ≡ true
        → retransmit now id k ≡ (true, resent now id p k)
    unfolding retransmit resend after_resend send_to
    retransmit_sent due few up = ground arith

    retransmit_lost :
        p.timestamp + retry_timeout ≤ now
        → p.retries < max_retries
        → k.fate k.calls ≡ false
        → retransmit now id k ≡ finished id (record k { calls = k.calls + 1 })
    unfolding retransmit resend after_resend send_to
    retransmit_lost due few down = ground arith

    retransmit_last :
        max_retries ≤ p.retries → retransmit now id k ≡ finished id (resolve id timeout k)
    unfolding retransmit resend
    retransmit_last over = ground arith

  -- A packet that has `n` retries left and is never acknowledged, while every send succeeds and
  -- the wake-ups are at least the retry timeout apart: the loop sends it exactly `n` times
  -- more, to its destination, and the wake-up after that ends the loop, drops the packet and
  -- reports `Timeout` on its channel.
  pub retransmission_gives_up :
      (n : ℕ) (ts : List SystemTime) (id : ℕ) (p : PendingPacket) (k : Socket)
      → get k.pending_packets id ≡ some p
      → p.retries + n ≡ max_retries
      → length ts ≡ suc n
      → Spaced p.timestamp ts
      → ((c : ℕ) → k.fate c ≡ true)
      → ((retransmission_loop id ts k).0 ≡ false)
        × ((retransmission_loop id ts k).1.wire ≡ repeat n (p.destination, p.bytes) k.wire)
        × ((retransmission_loop id ts k).1.results ≡ (id, timeout) ∷ k.results)
        × (get (retransmission_loop id ts k).1.pending_packets id ≡ none)
  unfolding retransmission_loop
  retransmission_gives_up n [] id p k found left rounds spaced up = absurd (omega arith)
  retransmission_gives_up zero (now ∷ later) id p k found left rounds spaced up =
      rw (retransmit_last now id p k found (omega arith))
        (unfold finished resolve in (refl, refl, refl, removed))
    where
      removed : get (lib.remove nat_eq k.pending_packets id) id ≡ none
      removed = ground (arith, get-remove k.pending_packets id id, nat_beq_iff id id)
  retransmission_gives_up (suc n) (now ∷ later) id p k found left rounds spaced up =
      rw (retransmit_sent now id p k found spaced.0 (omega arith) (up k.calls)) (
        retransmission_gives_up n later id (resent_packet now p) (resent now id p k)
          (get-resent now id p k) (omega arith) (omega arith) spaced.1 up)

  -- Whatever sends fail: a pending packet with `n` retries left has no loop any more after more
  -- than `n` wake-ups that are at least the retry timeout apart.
  pub retransmission_ends :
      (n : ℕ) (ts : List SystemTime) (id : ℕ) (p : PendingPacket) (k : Socket)
      → get k.pending_packets id ≡ some p
      → max_retries ≤ p.retries + n
      → n < length ts
      → Spaced p.timestamp ts
      → (retransmission_loop id ts k).0 ≡ false
  unfolding retransmission_loop finished
  retransmission_ends n [] id p k found left rounds spaced = absurd (omega arith)
  retransmission_ends n (now ∷ later) id p k found left rounds spaced =
      elim (Bool-cases (leb max_retries p.retries)) [
        | inl over ↦ rw (retransmit_last now id p k found (leb→le _ _ over))
        | inr few ↦ elim (Bool-cases (k.fate k.calls)) [
          | inl up ↦ rw (retransmit_sent now id p k found spaced.0 (ground arith) up) (
              retransmission_ends (n - 1) later id (resent_packet now p) (resent now id p k)
                (get-resent now id p k) (ground arith) (ground arith) spaced.1)
          | inr down ↦ rw (retransmit_lost now id p k found spaced.0 (ground arith) down)
        ]
      ]
