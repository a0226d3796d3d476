-- ===== src/Gtests/Topics.antt =====
-- cpp/gtests/test_ps.cpp: the two tests. `pack` and `unpack`, the global variable `i` and the address of
-- the unix socket are parameters. The tests start two threads: here the publisher's loop runs before
-- the subscriber's.
pub mod Pass
pub mod AnyOrder
pub mod Whole
use marko.Base.{ℕ, zero, suc, ◌<>◌, List, [], ◌∷◌}
use marko.Base.Int.{ℤ, pos, ◌+ℤ◌}
use marko.Base.Decimal.{to_decimal}
use marko.System.{Message, InetAddr, UnixAddr, System}
use marko.Time.{msleep}
use marko.Socket.{close}
use marko.Datagram.Class.{SocketClass}
use marko.Datagram.Udp.{socket_udp}
use marko.Datagram.Unix.{socket_unix}
use marko.PubSub.{Publisher, Subscriber, new_subscriber, register_cb, new_publisher, connect}
use marko.PubSub.Session.{publish_each, once_each}
use marko.Examples.Structs.{Codec}
use marko.Gtests.{Gtest}

abbrev pub port : ℕ
port = 8888

abbrev pub loop : ℕ
loop = 5

pub record PsdataT : Type 0 where
  pub a : ℤ

-- `int i`
pub record Global (World : Type 0) : Type 0 where
  pub value : World → ℤ
  pub set : ℤ → World → World

-- `callback`. The `int` is counted up without a bound.
unfoldable pub callback :
    {World : Type 0} → Gtest World → Global World → Codec PsdataT → Message → World → World
unfolding ◌+ℤ◌
callback G K codec m w =
    let d = codec.unpack m in let i = K.value w in G.expect_eq d.a i (K.set (i +ℤ pos 1) w)

-- What the loop of `pub_thread` publishes, from `i` on.
unfoldable pub packed : Codec PsdataT → ℕ → ℕ → List Message
packed codec zero i = []
packed codec (suc rounds) i = codec.pack (record { a = pos i }) ∷ packed codec rounds (suc i)

abbrev pub udpaddr : (S : System) → InetAddr
udpaddr S = S.inet_sockaddr ("udp://127.0.0.1:" <> to_decimal port)

module _ (S : System) (G : Gtest S.World) (K : Global S.World) (codec : Codec PsdataT) where
  open S use {World}

  module _ {Addr : Type 0} (C : SocketClass World Addr) where
    -- Both threads up to their loops.
    unfoldable pub start : Addr → World → (Publisher Addr × Subscriber World) × World
    unfolding new_subscriber register_cb callback new_publisher connect msleep
    start addr w =
        let (s, w1) = new_subscriber C codec.size w in
        let (bound, w2) = C.bind s.socket addr w1 in
        let (p, w3) = new_publisher C (msleep S (pos 1) w2) in
        let (answer, w4) = connect C p addr w3 in
        ((answer.1, register_cb s (callback G K codec)), w4)

    -- A test.
    unfoldable pub pub_sub : Addr → World → World
    unfolding start packed publish_each once_each close
    pub_sub addr w =
        let ((p, s), w1) = start addr (K.set (pos 0) w) in
        let w2 = once_each C loop s (publish_each C p (packed codec loop 0) w1) in
        (close S p.socket (close S s.socket w2).1).1

  -- TEST(marko, pub_sub_udp)
  abbrev pub pub_sub_udp : World → World
  pub_sub_udp = pub_sub (socket_udp S) (udpaddr S)

  -- TEST(marko, pub_sub_unix), with `unaddr`.
  abbrev pub pub_sub_unix : UnixAddr → World → World
  pub_sub_unix = pub_sub (socket_unix S)
