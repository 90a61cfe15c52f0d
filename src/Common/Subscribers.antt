-- ===== src/Common/Subscribers.antt =====
-- The lists of subscribers that the node and the server keep for each video: a push of an address
-- that is not there, and `retain` of the other addresses (node/src/handle.rs, server/src/server.rs).
use pessi_streamer.Base.{
  ◌≡◌, true, ◌&&◌, ◌||◌, not, List, [], ◌∷◌, ◌++◌, arith, ◌==◌, ==_iff, contains, retain,
  contains-append, contains-retain, distinct, distinct-push, distinct-retain, if◌then◌else◌,
}
use pessi_streamer.Common.Packet.{SocketAddr, addr_eq}

abbrev pub add_subscriber : SocketAddr → List SocketAddr → List SocketAddr
add_subscriber addr subscribers =
    if contains subscribers addr then subscribers else subscribers ++ addr ∷ []

abbrev pub drop_subscriber : SocketAddr → List SocketAddr → List SocketAddr
drop_subscriber addr = retain λ a. not (a == addr)

pub contains-add_subscriber :
    (addr b : SocketAddr) (subscribers : List SocketAddr)
    → contains (add_subscriber addr subscribers) b ≡ ((addr == b) || contains subscribers b)
unfolding contains
contains-add_subscriber addr b subscribers =
    ground (arith, contains-append subscribers (addr ∷ []) b, ==_iff addr b)

pub contains-drop_subscriber :
    (addr b : SocketAddr) (subscribers : List SocketAddr)
    → contains (drop_subscriber addr subscribers) b ≡ (not (addr == b) && contains subscribers b)
contains-drop_subscriber addr b subscribers =
    ground
      (arith, contains-retain (λ a. not (a == addr)) subscribers b, ==_iff addr b, ==_iff b addr)

pub add_subscriber-distinct :
    (addr : SocketAddr) (subscribers : List SocketAddr)
    → distinct subscribers ≡ true
    → distinct (add_subscriber addr subscribers) ≡ true
add_subscriber-distinct addr subscribers h = ground (arith, distinct-push subscribers addr)

pub drop_subscriber-distinct :
    (addr : SocketAddr) (subscribers : List SocketAddr)
    → distinct subscribers ≡ true
    → distinct (drop_subscriber addr subscribers) ≡ true
drop_subscriber-distinct addr subscribers h = distinct-retain (λ a. not (a == addr)) subscribers h
