-- ===== src/Examples/Talks.antt =====
-- A codec of the packets with which pings, their answers and floods are sent.
use Prim.Native.String.{String}
use mathlib.Core.Option
use pessi_streamer.Base.{
  string_eq, ℕ, zero, suc, ◌≡◌, ◌∙◌, refl, ap, sym, inl, inr, Option, none, some, List, [], ◌∷◌,
  nat_eq, arith, ◌==◌, ==_iff, if◌then◌else◌, Bool-cases,
}
use pessi_streamer.Containers.Assoc.{assoc_containers}
use pessi_streamer.Common.Packet.{
  SocketAddr, addr_eq, VideoId, Packet, FloodPacket, VideoListPacket, video, node, server, client,
  client_ping, new_neighbour, flood, video_list,
}
use pessi_streamer.Common.Reliable.{Bytes, Codec, UdpPacket, unreliable, reliable, ack}
use pessi_streamer.Examples.{some-injective}

-- A list that holds just the video named "seven".
abbrev pub only_seven : List (VideoId × String) → Option ℕ
only_seven [] = none
only_seven ((v, name) ∷ []) = if name == "seven" then some v else none
only_seven (x ∷ y ∷ l) = none

only_seven-read :
    (l : List (VideoId × String)) (v : ℕ) → only_seven l ≡ some v → (v, "seven") ∷ [] ≡ l
only_seven-read [] v e = cc e
only_seven-read ((w, name) ∷ []) v e = elim (Bool-cases (name == "seven")) [
  | inl same ↦
      let names : name ≡ "seven" = (==_iff name "seven").0 same in
      let ids : w ≡ v = ground (arith, same, e) in rw (names, ids) refl
  | inr other ↦ absurd (ground (arith, other, e))
]
only_seven-read (x ∷ y ∷ l) v e = cc e

abbrev flood_bytes : ℕ → Option ℕ → List ℕ → List SocketAddr → Option Bytes
flood_bytes created (some v) (n ∷ []) [] = some (3 ∷ created ∷ v ∷ n ∷ [])
flood_bytes created o visited parents = none

-- A packet that a node passed on.
abbrev relay_bytes : ℕ → ℕ → Option ℕ → List ℕ → List SocketAddr → Option Bytes
relay_bytes id created (some v) (n ∷ m ∷ []) (a ∷ b ∷ []) =
    some (4 ∷ id ∷ created ∷ v ∷ n ∷ m ∷ a.ip ∷ a.port ∷ b.ip ∷ b.port ∷ [])
relay_bytes id created o visited parents = none

-- A codec of the packets that are sent here.
abbrev talk_serialize : UdpPacket Packet → Option Bytes
talk_serialize (ack id) = some (0 ∷ id ∷ [])
talk_serialize (reliable id (node (client_ping n videos))) = some (1 ∷ id ∷ n ∷ videos)
talk_serialize (reliable id (node new_neighbour)) = none
talk_serialize (reliable id (node (flood p))) =
    relay_bytes id p.created_at_server_time (only_seven p.videos_available) p.visited_nodes
      p.my_parents
talk_serialize (reliable id (server p)) = none
talk_serialize (reliable id (video p)) = none
talk_serialize (reliable id (client (video_list p))) =
    Option.map (λ v. 2 ∷ id ∷ p.sequence_number ∷ p.answer_creation_date ∷ v ∷ [])
      (only_seven p.videos)
talk_serialize (unreliable (node (flood p))) =
    flood_bytes p.created_at_server_time (only_seven p.videos_available) p.visited_nodes
      p.my_parents
talk_serialize (unreliable (node (client_ping n videos))) = none
talk_serialize (unreliable (node new_neighbour)) = none
talk_serialize (unreliable (video p)) = none
talk_serialize (unreliable (server p)) = none
talk_serialize (unreliable (client p)) = none

abbrev listed : ℕ → ℕ → List (VideoId × String) → VideoListPacket
listed n date videos = record { sequence_number = n; videos = videos; answer_creation_date = date }

abbrev flooded : ℕ → List (VideoId × String) → List ℕ → FloodPacket
flooded created videos visited = record {
  created_at_server_time = created;
  videos_available = videos;
  visited_nodes = visited;
  my_parents = [];
}

abbrev relayed : ℕ → List (VideoId × String) → List ℕ → List SocketAddr → FloodPacket
relayed created videos visited parents = record {
  created_at_server_time = created;
  videos_available = videos;
  visited_nodes = visited;
  my_parents = parents;
}

abbrev talk_deserialize : Bytes → Option (UdpPacket Packet)
talk_deserialize (zero ∷ id ∷ []) = some (ack id)
talk_deserialize ((suc zero) ∷ id ∷ n ∷ videos) = some (reliable id (node (client_ping n videos)))
talk_deserialize ((suc (suc zero)) ∷ id ∷ n ∷ date ∷ v ∷ []) =
    some (reliable id (client (video_list (listed n date ((v, "seven") ∷ [])))))
talk_deserialize ((suc (suc (suc zero))) ∷ created ∷ v ∷ n ∷ []) =
    some (unreliable (node (flood (flooded created ((v, "seven") ∷ []) (n ∷ [])))))
talk_deserialize
      ((suc (suc (suc (suc zero))))
        ∷ id
        ∷ created
        ∷ v
        ∷ n
        ∷ m
        ∷ ip
        ∷ port
        ∷ other_ip
        ∷ other_port
        ∷ []) =
    some (
      reliable id (
        node (
          flood (
            relayed created ((v, "seven") ∷ []) (n ∷ m ∷ []) (
              record { ip = ip; port = port }
              ∷ record { ip = other_ip; port = other_port }
              ∷ [])))))
talk_deserialize b = none

flood-read :
    (created : ℕ) (videos : List (VideoId × String)) (visited : List ℕ) (parents : List SocketAddr)
    (b : Bytes)
    → flood_bytes created (only_seven videos) visited parents ≡ some b
    → talk_deserialize b
      ≡ some (
          unreliable (
            node (
              flood (record {
                created_at_server_time = created;
                videos_available = videos;
                visited_nodes = visited;
                my_parents = parents;
              }))))
flood-read created videos visited parents b e = go (only_seven videos) refl visited parents e
  where
    go :
        (o : Option ℕ)
        → only_seven videos ≡ o
        → (visited : List ℕ) (parents : List SocketAddr)
        → flood_bytes created o visited parents ≡ some b
        → talk_deserialize b
          ≡ some (
              unreliable (
                node (
                  flood (record {
                    created_at_server_time = created;
                    videos_available = videos;
                    visited_nodes = visited;
                    my_parents = parents;
                  }))))
    go none found visited parents e = absurd (cc e)
    go (some v) found [] parents e = absurd (cc e)
    go (some v) found (n ∷ m ∷ ms) parents e = absurd (cc e)
    go (some v) found (n ∷ []) (a ∷ as') e = absurd (cc e)
    go (some v) found (n ∷ []) [] e =
        ap talk_deserialize (sym (some-injective e))
        ∙ ap (λ l. some (unreliable (node (flood (flooded created l (n ∷ []))))))
            (only_seven-read videos v found)

relay-read :
    (id created : ℕ) (videos : List (VideoId × String)) (visited : List ℕ)
    (parents : List SocketAddr) (b : Bytes)
    → relay_bytes id created (only_seven videos) visited parents ≡ some b
    → talk_deserialize b
      ≡ some (reliable id (node (flood (relayed created videos visited parents))))
relay-read id created videos visited parents b e = go (only_seven videos) refl visited parents e
  where
    go :
        (o : Option ℕ)
        → only_seven videos ≡ o
        → (visited : List ℕ) (parents : List SocketAddr)
        → relay_bytes id created o visited parents ≡ some b
        → talk_deserialize b
          ≡ some (reliable id (node (flood (relayed created videos visited parents))))
    go none found visited parents e = absurd (cc e)
    go (some v) found [] parents e = absurd (cc e)
    go (some v) found (n ∷ []) parents e = absurd (cc e)
    go (some v) found (n ∷ m ∷ k ∷ ks) parents e = absurd (cc e)
    go (some v) found (n ∷ m ∷ []) [] e = absurd (cc e)
    go (some v) found (n ∷ m ∷ []) (x ∷ []) e = absurd (cc e)
    go (some v) found (n ∷ m ∷ []) (x ∷ y ∷ z ∷ l) e = absurd (cc e)
    go (some v) found (n ∷ m ∷ []) (x ∷ y ∷ []) e =
        ap talk_deserialize (sym (some-injective e))
        ∙ ap (λ l. some (reliable id (node (flood (relayed created l (n ∷ m ∷ []) (x ∷ y ∷ []))))))
            (only_seven-read videos v found)

list-read :
    (id n date : ℕ) (videos : List (VideoId × String)) (b : Bytes)
    → Option.map (λ v. 2 ∷ id ∷ n ∷ date ∷ v ∷ []) (only_seven videos) ≡ some b
    → talk_deserialize b ≡ some (reliable id (client (video_list (listed n date videos))))
list-read id n date videos b e = go (only_seven videos) refl e
  where
    go :
        (o : Option ℕ)
        → only_seven videos ≡ o
        → Option.map (λ v. 2 ∷ id ∷ n ∷ date ∷ v ∷ []) o ≡ some b
        → talk_deserialize b ≡ some (reliable id (client (video_list (listed n date videos))))
    go none found e = absurd (cc e)
    go (some v) found e =
        ap talk_deserialize (sym (some-injective e))
        ∙ ap (λ l. some (reliable id (client (video_list (listed n date l)))))
            (only_seven-read videos v found)

pub talk_read_back :
    (p : UdpPacket Packet) (b : Bytes) → talk_serialize p ≡ some b → talk_deserialize b ≡ some p
talk_read_back (ack id) b e = ap talk_deserialize (sym (some-injective e))
talk_read_back (reliable id (node (client_ping n videos))) b e =
    ap talk_deserialize (sym (some-injective e))
talk_read_back (reliable id (node new_neighbour)) b e = cc e
talk_read_back (reliable id (node (flood p))) b e =
    relay-read id p.created_at_server_time p.videos_available p.visited_nodes p.my_parents b e
talk_read_back (reliable id (server p)) b e = cc e
talk_read_back (reliable id (video p)) b e = cc e
talk_read_back (reliable id (client (video_list p))) b e =
    list-read id p.sequence_number p.answer_creation_date p.videos b e
talk_read_back (unreliable (node (flood p))) b e =
    flood-read p.created_at_server_time p.videos_available p.visited_nodes p.my_parents b e
talk_read_back (unreliable (node (client_ping n videos))) b e = cc e
talk_read_back (unreliable (node new_neighbour)) b e = cc e
talk_read_back (unreliable (video p)) b e = cc e
talk_read_back (unreliable (server p)) b e = cc e
talk_read_back (unreliable (client p)) b e = cc e

instance abbrev pub talk_codec : Codec Packet
talk_codec = record {
  serialize = talk_serialize;
  deserialize = talk_deserialize;
  read_back = talk_read_back;
}
