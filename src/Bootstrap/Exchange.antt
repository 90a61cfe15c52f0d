-- ===== src/Bootstrap/Exchange.antt =====
-- What a node gets from the bootstrapper (bootstrapper/src/bootstrapper.rs, common/src/neighbours.rs).
use pessi_streamer.Base.{
  ℕ, ◌-◌, ◌<◌, ◌≤◌, ◌≡◌, ◌⊎◌, ◌∙◌, refl, inl, inr, true, false, map, Option, none, some, List, [],
  ◌∷◌, ◌++◌, arith, nat_eq, is_empty, unwrap_or, if◌then◌else◌, length, leb, All, Bool-cases,
}
use pessi_streamer.Containers.{Containers, get}
use pessi_streamer.Common.Packet.{SocketAddr, BootstrapperNeighboursResponse}
use pessi_streamer.Common.Effect.{ok}
use pessi_streamer.Common.Reliable.{Bytes}
use pessi_streamer.Bootstrap.{
  ResponseCodec, TcpStream, State, write_all, response, handle_client, run_server, Attempt,
  FetchError, socket_error, connect_error, read_error, no_data, bincode_error, buffer_size, take,
  read, parse_response, on_read, fetch_neighbours, fetch_bootstrapper_with_retries,
}

take_all : {A : Type 0} (n : ℕ) (xs : List A) → length xs ≤ n → take n xs ≡ xs
unfolding take
take_all n [] h = refl
take_all n (x ∷ xs) h = ground (arith, take_all (n - 1) xs (omega arith))

take-take :
    {A : Type 0} (n m : ℕ) (xs : List A) → take n (take m xs) ≡ take (if leb n m then n else m) xs
unfolding take
take-take n m [] = refl
take-take n m (x ∷ xs) = ground (arith, take-take (n - 1) (m - 1) xs)

least_lt : (n m l : ℕ) → n < l → (if leb n m then n else m) < l
least_lt n m l h = ground arith

-- The attempt comes to its read, with these bytes arrived.
abbrev pub Reaches : Attempt → Bytes → Type 0
Reaches a b = (a.binds ≡ true) × (a.connects ≡ true) × (a.arrived ≡ some b) × (a.shuts_down ≡ true)

module _ ⦃codec : ResponseCodec⦄ where
  -- No attempt fetches anything.
  abbrev AreFailed : List Attempt → Type 0
  AreFailed failed = All (λ a. (e : FetchError) × (fetch_neighbours a ≡ inl e)) failed

  retries_lem :
      (failed later : List Attempt)
      → AreFailed failed
      → fetch_bootstrapper_with_retries (failed ++ later) ≡ fetch_bootstrapper_with_retries later
  unfolding fetch_bootstrapper_with_retries
  retries_lem [] later h = refl
  retries_lem (a ∷ failed) later ((e, fails), rest) = rw fails (retries_lem failed later rest)

  fetch_reached :
      (a : Attempt) (b : Bytes) (r : BootstrapperNeighboursResponse)
      → Reaches a b
      → length b ≤ buffer_size
      → is_empty b ≡ false
      → codec.deserialize b ≡ some r
      → fetch_neighbours a ≡ inr r
  unfolding fetch_neighbours on_read parse_response
  fetch_reached a b r (binds, connects, arrived, shuts) small filled parsed =
      rw (binds, connects, arrived, shuts)
        (rw (take_all buffer_size b small) (rw filled (rw parsed refl)))

module _ ⦃lib : Containers⦄ ⦃codec : ResponseCodec⦄ where
  -- Every connection that is accepted before `accept` fails is served, from the same neighbours; this
  -- ends the loop.
  run_server_lem :
      (hash : SocketAddr → ℕ) (cs : List (TcpStream × SocketAddr))
      (later : List (Option (TcpStream × SocketAddr))) (s : State)
      → run_server hash (map some cs ++ none ∷ later) s
        ≡ (map (λ c. (handle_client hash c.1 s c.0).1) cs, false)
  unfolding run_server
  run_server_lem hash [] later s = refl
  run_server_lem hash (c ∷ cs) later s = rw (run_server_lem hash cs later s) refl

  -- What the bootstrapper writes to a node, the node fetches: however many attempts failed before,
  -- the first attempt at which the whole response has arrived yields the neighbours listed for the
  -- address of the node, or none where it is not listed, and the hash of its address. This holds
  -- for a response of at most 1024 bytes.
  pub bootstrap_lem :
      (hash : SocketAddr → ℕ) (addr : SocketAddr) (s : State) (k : TcpStream) (b : Bytes)
      (failed later : List Attempt) (a : Attempt)
      → codec.serialize (response hash addr s) ≡ some b
      → k.accepts ≡ true
      → is_empty b ≡ false
      → length b ≤ buffer_size
      → All (λ x. (e : FetchError) × (fetch_neighbours x ≡ inl e)) failed
      → Reaches a b
      → (handle_client hash addr s k ≡ (ok tt, record k { written = some b }))
        × (fetch_bootstrapper_with_retries (failed ++ a ∷ later)
            ≡ some
                (record { neighbours = unwrap_or (get s.neighbours addr.ip) []; id = hash addr }))
  unfolding handle_client write_all response fetch_bootstrapper_with_retries
  bootstrap_lem hash addr s k b failed later a written accepts filled small fails reaches = (
    rw (written, handle_client) (rw accepts refl),
    retries_lem failed (a ∷ later) fails
        ∙ rw
            (fetch_reached a b (response hash addr s) reaches small filled
              (codec.read_back (response hash addr s) b written))
            refl,
  )

module _ ⦃codec : ResponseCodec⦄ where
  -- `bincode` reads no packet from fewer bytes than it writes for it.
  abbrev pub RefusesPrefixes : Type 0
  RefusesPrefixes =
      (r : BootstrapperNeighboursResponse) (b : Bytes) (n : ℕ)
      → codec.serialize r ≡ some b
      → n < length b
      → codec.deserialize (take n b) ≡ none

  -- What has arrived of `b` at the time of the read: nothing in time, or its first bytes.
  abbrev pub Brings : Attempt → Bytes → Type 0
  Brings a b = (a.arrived ≡ none) ⊎ ((m : ℕ) × (a.arrived ≡ some (take m b)))

  large-fails :
      (r : BootstrapperNeighboursResponse) (b : Bytes) (a : Attempt)
      → RefusesPrefixes
      → codec.serialize r ≡ some b
      → buffer_size < length b
      → Brings a b
      → (e : FetchError) × (fetch_neighbours a ≡ inl e)
  unfolding fetch_neighbours on_read parse_response
  large-fails r b a refuses written large brings = elim (Bool-cases a.binds) [
    | inr unbound ↦ (socket_error, rw unbound refl)
    | inl bound ↦ elim (Bool-cases a.connects) [
      | inr unconnected ↦ (connect_error, rw (bound, unconnected) refl)
      | inl connected ↦ elim brings [
        | inl nothing ↦ (read_error, rw (bound, connected, nothing) refl)
        | inr (m, arrived) ↦ elim (Bool-cases (is_empty (read (take m b)))) [
          | inl empty ↦ (no_data, rw (bound, connected, arrived) (rw empty refl))
          | inr filled ↦ (
            bincode_error,
            rw (bound, connected, arrived)
                (rw filled (
                  rw (take-take buffer_size m b) (
                    rw
                      (refuses r b (if leb buffer_size m then buffer_size else m) written
                        (least_lt buffer_size m (length b) large))
                      refl))),
          )
        ]
      ]
    ]
  ]

  -- A response of more than 1024 bytes is never fetched: whatever the attempts bring of it, the node
  -- retries forever. `bincode` is taken to read nothing from the first bytes of what it writes.
  pub bootstrap_large :
      (r : BootstrapperNeighboursResponse) (b : Bytes) (attempts : List Attempt)
      → RefusesPrefixes
      → codec.serialize r ≡ some b
      → buffer_size < length b
      → All (λ a. Brings a b) attempts
      → fetch_bootstrapper_with_retries attempts ≡ none
  unfolding fetch_bootstrapper_with_retries
  bootstrap_large r b [] refuses written large brings = refl
  bootstrap_large r b (a ∷ attempts) refuses written large (first, rest) =
      let (e, fails) = large-fails r b a refuses written large first in
      rw fails (bootstrap_large r b attempts refuses written large rest)
