-- ===== src/Examples/Bootstraps.antt =====
-- The theorems on the bootstrapper, at a node that asks it for its neighbours.
use pessi_streamer.Base.{
  string_eq, ℕ, zero, suc, ◌+◌, ◌-◌, ◌≡◌, ◌<◌, ◌∙◌, refl, ap, sym, inl, inr, true, false, Option,
  none, some, List, [], ◌∷◌, nat_eq, nat_beq, arith, length, Bool-cases, ==_refl, ◌==◌,
  if◌then◌else◌,
}
use pessi_streamer.Containers.Assoc.{assoc_containers}
use pessi_streamer.Common.Packet.{SocketAddr, IpAddr, BootstrapperNeighboursResponse}
use pessi_streamer.Common.Effect.{ok}
use pessi_streamer.Common.Reliable.{Bytes}
use pessi_streamer.Bootstrap.{
  ResponseCodec, State as BootstrapState, response, handle_client, Attempt, fetch_neighbours,
  fetch_bootstrapper_with_retries, connect_error, take, buffer_size,
}
use pessi_streamer.Bootstrap.Exchange.{RefusesPrefixes, bootstrap_large}
use Prim.Native.String.{String}
use pessi_streamer.Node.State.{State as NodeState}
use pessi_streamer.Node.Tasks.{checks_clients, run}
use pessi_streamer.Node.Invariant.{IsValid}
use pessi_streamer.Start.{start_node, start_node_lem}
use pessi_streamer.Examples.{tiny_codec, relay, up, some-injective}

-- A codec of the bootstrapper's responses, which starts with the number of neighbours.
abbrev pub short_serialize : BootstrapperNeighboursResponse → Option Bytes
short_serialize r = some (length r.neighbours ∷ r.id ∷ r.neighbours)

abbrev pub short_deserialize : Bytes → Option BootstrapperNeighboursResponse
short_deserialize [] = none
short_deserialize (n ∷ []) = none
short_deserialize (n ∷ id ∷ ips) =
    if length ips == n then some (record { neighbours = ips; id = id }) else none

pub short_read_back :
    (r : BootstrapperNeighboursResponse) (b : Bytes)
    → short_serialize r ≡ some b
    → short_deserialize b ≡ some r
short_read_back r b e =
    ap short_deserialize (sym (some-injective e)) ∙ rw (==_refl (length r.neighbours)) refl

instance abbrev pub short_codec : ResponseCodec
short_codec = record {
  serialize = short_serialize;
  deserialize = short_deserialize;
  read_back = short_read_back;
}

abbrev topology : BootstrapState
topology = record { neighbours = (2, 1 ∷ 9 ∷ []) ∷ [] }

abbrev pub too_early : Attempt
too_early = record { binds = true; connects = false; arrived = none; shuts_down = true }

abbrev pub in_time : Attempt
in_time = record {
  binds = true;
  connects = true;
  arrived = some (2 ∷ 7 ∷ 1 ∷ 9 ∷ []);
  shuts_down = true;
}

abbrev pub number : SocketAddr → ℕ
number addr = 7

-- The only address that is read is that of the bootstrapper.
abbrev pub only_local : String → Option IpAddr
only_local text = if text == "10.0.0.1" then some 1 else none

start_node_lem_example :
    (handle_client number relay topology (record { accepts = true; written = none })
      ≡ (ok tt, record { accepts = true; written = some (2 ∷ 7 ∷ 1 ∷ 9 ∷ []) }))
    × ((n : NodeState) × (start_node only_local
            (some "10.0.0.1")
            (too_early ∷ in_time ∷ [])
            true
            2
            up
          ≡ some n)
        × (n.neighbours ≡ 1 ∷ 9 ∷ [])
        × (n.id ≡ 7)
        × IsValid (run ((5, checks_clients) ∷ []) n))
unfolding response fetch_neighbours
start_node_lem_example =
    start_node_lem only_local "10.0.0.1" 1 2 up number topology
      (record { accepts = true; written = none }) (2 ∷ 7 ∷ 1 ∷ 9 ∷ []) (too_early ∷ []) [] in_time
      ((5, checks_clients) ∷ []) refl refl refl refl (omega arith) ((connect_error, refl), tt)
      (refl, refl, refl, refl) (tt, tt)

length-take : {A : Type 0} (n : ℕ) (xs : List A) → n < length xs → length (take n xs) ≡ n
unfolding take
length-take n [] h = absurd (omega arith)
length-take n (x ∷ xs) h = elim (Bool-cases (nat_beq n 0)) [
  | inl none_left ↦ ground (arith, none_left, h)
  | inr more ↦ ground (arith, more, length-take (n - 1) xs)
]

short_deserialize-take :
    (n id : ℕ) (ips : List IpAddr)
    → n < length ips + 2
    → short_deserialize (take n (length ips ∷ id ∷ ips)) ≡ none
unfolding take
short_deserialize-take n id ips h = elim (Bool-cases (nat_beq n 0)) [
  | inl no_byte ↦ rw no_byte refl
  | inr some_bytes ↦ elim (Bool-cases (nat_beq (n - 1) 0)) [
    | inl one_byte ↦ rw (some_bytes, one_byte) refl
    | inr more ↦
        let left : n - 1 - 1 < length ips = ground (arith, some_bytes, more, h) in
        let differs : (length (take (n - 1 - 1) ips) == length ips) ≡ false =
          ground (arith, length-take (n - 1 - 1) ips left, left) in
        rw (some_bytes, more) (rw differs refl)
  ]
]

short_codec-RefusesPrefixes : RefusesPrefixes
short_codec-RefusesPrefixes r b n written few =
    let same = some-injective written in
    ap (λ c. short_deserialize (take n c)) (sym same)
    ∙ short_deserialize-take n r.id r.neighbours (ground (arith, few, ap length same))

abbrev many : ℕ → List IpAddr
many zero = []
many (suc n) = 1 ∷ many n

length-many : (n : ℕ) → length (many n) ≡ n
length-many zero = refl
length-many (suc n) = ground (arith, length-many n)

crowd : BootstrapperNeighboursResponse
crowd = record { neighbours = many 1100; id = 7 }

crowd_bytes : Bytes
unfolding crowd
crowd_bytes = length crowd.neighbours ∷ crowd.id ∷ crowd.neighbours

abbrev cut_off : Attempt
cut_off = record {
  binds = true;
  connects = true;
  arrived = some (take 1024 crowd_bytes);
  shuts_down = true;
}

crowd_bytes-large : buffer_size < length crowd_bytes
unfolding crowd_bytes crowd
crowd_bytes-large = ground (arith, length-many 1100)

bootstrap_large_example : fetch_bootstrapper_with_retries (cut_off ∷ []) ≡ none
unfolding crowd_bytes
bootstrap_large_example =
    bootstrap_large crowd crowd_bytes (cut_off ∷ []) short_codec-RefusesPrefixes refl
      crowd_bytes-large (inr (1024, refl), tt)
