-- ===== src/Gtests/Topics/Whole.antt =====
-- The tests of cpp/gtests/test_ps.cpp on any system that makes and binds sockets, from their first call.
use marko.Base.{◌≡◌, refl, ◌∙◌, true, false, some, [], ◌∷◌, ◌++◌}
use marko.Base.Int.{ℤ, pos, negsuc, is_negative}
use marko.System.{InetAddr, UnixAddr, System}
use marko.System.Laws.{Descriptors}
use marko.Datagram.Class.{SocketClass}
use marko.Datagram.Udp.{socket_udp}
use marko.Datagram.Unix
use marko.Datagram.Unix.{socket_unix}
use marko.Datagram.Network.{DeliveryLaws, Delivery, udp-Delivery, unix-Delivery, RecvIsRecvfrom}
use marko.Datagram.SetUp.{BindLaws, SetUp, udp-SetUp, unix-SetUp, queue-connect, route-connect}
use marko.PubSub.{new_subscriber, new_publisher, connect}
use marko.RequestReply.Answer.{LeavesNet}
use marko.Examples.Structs.{Codec}
use marko.Gtests.{Gtest, GtestLaws, Untouched}
use marko.Gtests.SetUp as Start
use marko.Gtests.Topics.{PsdataT, Global, udpaddr, start, pub_sub_udp, pub_sub_unix}
use marko.Gtests.Topics.Pass.{GlobalLaws, PsdataLaws, expected-pub_sub}

-- After the set-up the address leads to the subscriber and nothing waits there, where the publisher's
-- `connect` changes neither.
module _ (S : System) (G : Gtest S.World) (K : Global S.World) (codec : Codec PsdataT)
    (E : Descriptors S) {Addr : Type 0} (C : SocketClass S.World Addr) (D : Delivery S.World Addr C)
    (U : SetUp S E C D) (sleep_left : (t : ℤ) → LeavesNet C D (S.sleep_for t)) (addr : Addr)
    (w : S.World) (first : is_negative (Start.bound S C addr w).socket_fd ≡ false)
    (answered : Start.bind_answer S C addr w ≡ true)
    (second : is_negative (Start.other S C addr w).socket_fd ≡ false) where
  abbrev connected : S.World
  connected = (C.connect (Start.other S C addr w) addr (Start.made S C addr w)).1

  route-start :
      D.route connected addr ≡ D.route (Start.made S C addr w) addr
      → D.route (start S G K codec C addr w).1 addr
        ≡ some (start S G K codec C addr w).0.1.socket.socket_fd
  unfolding start new_subscriber new_publisher connect
  route-start same = same ∙ Start.route-made S E C D U sleep_left addr w first second answered

  queue-start :
      D.queue connected (Start.bound S C addr w).socket_fd
        ≡ D.queue (Start.made S C addr w) (Start.bound S C addr w).socket_fd
      → D.queue (start S G K codec C addr w).1 (start S G K codec C addr w).0.1.socket.socket_fd
        ≡ []
  unfolding start new_subscriber new_publisher connect
  queue-start same = same ∙ Start.queue-bound S E C D U sleep_left addr w first second

module _ (S : System) (timeout : S.socket_timeout ≡ negsuc 0)
    (invalid : is_negative S.socket_err ≡ true) (E : Descriptors S) (G : Gtest S.World)
    (L : GtestLaws S.World G) (K : Global S.World) (V : GlobalLaws S.World G L K)
    (codec : Codec PsdataT) (R : PsdataLaws codec) where
  -- TEST(marko, pub_sub_unix) expects of its five callbacks' data to be 0, 1, 2, 3 and 4, in order, as
  -- the global `i` counts, and they are, its publisher's loop running before its subscriber's, on any
  -- system that delivers, makes sockets and binds them, where both sockets are made and the bind
  -- answers true. `pack` and `unpack` keep the struct's `int`; no call of the library expects anything
  -- or touches `i`; EXPECT_EQ, a sleep and a change of `i` leave the network alone.
  pub expected-pub_sub_unix_whole :
      (N : DeliveryLaws S.World UnixAddr S.unix) (recvs : RecvIsRecvfrom S)
      → BindLaws S S.unix N
      → Untouched S (socket_unix S) L.expected
      → Untouched S (socket_unix S) K.value
      → ((a b : ℤ) → LeavesNet (socket_unix S) (unix-Delivery S timeout N recvs) (G.expect_eq a b))
      → ((i : ℤ) → LeavesNet (socket_unix S) (unix-Delivery S timeout N recvs) (K.set i))
      → ((t : ℤ) → LeavesNet (socket_unix S) (unix-Delivery S timeout N recvs) (S.sleep_for t))
      → (unaddr : UnixAddr) (w : S.World)
      → is_negative (Start.bound S (socket_unix S) unaddr (K.set (pos 0) w)).socket_fd ≡ false
      → Start.bind_answer S (socket_unix S) unaddr (K.set (pos 0) w) ≡ true
      → is_negative (Start.other S (socket_unix S) unaddr (K.set (pos 0) w)).socket_fd ≡ false
      → L.expected (pub_sub_unix S G K codec unaddr w)
        ≡ L.expected w
          ++ (pos 0, pos 0) ∷ (pos 1, pos 1) ∷ (pos 2, pos 2) ∷ (pos 3, pos 3) ∷ (pos 4, pos 4) ∷ []
  unfolding Unix.connect
  expected-pub_sub_unix_whole N recvs B X Y expects_left set_left sleep_left unaddr w first answered
        second =
      let D = unix-Delivery S timeout N recvs in
      let U = unix-SetUp S timeout invalid E N recvs B in
      let w0 = K.set (pos 0) w in
      expected-pub_sub S G L K V codec R (socket_unix S) D X Y expects_left set_left unaddr w
        (route-start S G K codec E (socket_unix S) D U sleep_left unaddr w0 first answered second
          refl)
        (queue-start S G K codec E (socket_unix S) D U sleep_left unaddr w0 first answered second
          refl)

  -- TEST(marko, pub_sub_udp), which is as that test, expects and is given the same over UDP, where also
  -- the publisher's connect, a second bind to the subscriber's address, answers false.
  pub expected-pub_sub_udp_whole :
      (N : DeliveryLaws S.World InetAddr S.inet) (B : BindLaws S S.inet N)
      → Untouched S (socket_udp S) L.expected
      → Untouched S (socket_udp S) K.value
      → ((a b : ℤ) → LeavesNet (socket_udp S) (udp-Delivery S timeout N) (G.expect_eq a b))
      → ((i : ℤ) → LeavesNet (socket_udp S) (udp-Delivery S timeout N) (K.set i))
      → ((t : ℤ) → LeavesNet (socket_udp S) (udp-Delivery S timeout N) (S.sleep_for t))
      → (w : S.World)
      → is_negative (Start.bound S (socket_udp S) (udpaddr S) (K.set (pos 0) w)).socket_fd ≡ false
      → Start.bind_answer S (socket_udp S) (udpaddr S) (K.set (pos 0) w) ≡ true
      → is_negative (Start.other S (socket_udp S) (udpaddr S) (K.set (pos 0) w)).socket_fd ≡ false
      → ((socket_udp S).connect
          (Start.other S (socket_udp S) (udpaddr S) (K.set (pos 0) w))
          (udpaddr S)
          (Start.made S (socket_udp S) (udpaddr S) (K.set (pos 0) w))).0
        ≡ false
      → L.expected (pub_sub_udp S G K codec w)
        ≡ L.expected w
          ++ (pos 0, pos 0) ∷ (pos 1, pos 1) ∷ (pos 2, pos 2) ∷ (pos 3, pos 3) ∷ (pos 4, pos 4) ∷ []
  unfolding udp-Delivery
  expected-pub_sub_udp_whole N B X Y expects_left set_left sleep_left w first answered second
        refused =
      let D = udp-Delivery S timeout N in
      let U = udp-SetUp S timeout invalid E N B in
      let w0 = K.set (pos 0) w in
      let p = Start.other S (socket_udp S) (udpaddr S) w0 in
      let made = Start.made S (socket_udp S) (udpaddr S) w0 in
      expected-pub_sub S G L K V codec R (socket_udp S) D X Y expects_left set_left (udpaddr S) w
        (route-start S G K codec E (socket_udp S) D U sleep_left (udpaddr S) w0 first answered
          second (route-connect S N B p (udpaddr S) made (udpaddr S) refused))
        (queue-start S G K codec E (socket_udp S) D U sleep_left (udpaddr S) w0 first answered
          second (queue-connect S N B p (udpaddr S) made _))
