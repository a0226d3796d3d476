-- ===== src/Gtests/Requests/Whole.antt =====
-- The tests of cpp/gtests/test_rr.cpp on any system that makes and binds sockets, from their first call.
use marko.Base.{◌≡◌, ◌≢◌, refl, ◌∙◌, true, false, some, [], ◌∷◌, ◌++◌}
use marko.Base.Int.{ℤ, pos, negsuc, is_negative}
use marko.System.{InetAddr, UnixAddr, System}
use marko.System.Laws.{Descriptors}
use marko.Datagram.Udp.{socket_udp}
use marko.Datagram.Unix.{socket_unix}
use marko.Datagram.Network.{DeliveryLaws, Delivery, udp-Delivery, unix-Delivery, RecvIsRecvfrom}
use marko.Datagram.SetUp.{BindLaws, SetUp, udp-SetUp, unix-SetUp}
use marko.RequestReply.{new_reply, new_request}
use marko.RequestReply.Answer.{Ready, LeavesNet}
use marko.Examples.Structs.{Codec}
use marko.Gtests.{Gtest, GtestLaws, Untouched}
use marko.Gtests.SetUp as Start
use marko.Gtests.Requests.{
  RequestT, start_reply, udpaddr, start_udp, req_rep_udp, start_unix, req_rep_unix,
}
use marko.Gtests.Requests.Rounds.{RequestLaws}
use marko.Gtests.Requests.Pass.{expected-req_rep_udp, expected-req_rep_unix}

module _ (S : System) (G : Gtest S.World) (codec : Codec RequestT) (E : Descriptors S) where
  open S use {World}

  pub start_udp-Ready :
      (D : Delivery World InetAddr (socket_udp S)) (U : SetUp S E (socket_udp S) D)
      (sleep_left : (t : ℤ) → LeavesNet (socket_udp S) D (S.sleep_for t)) (w : World)
      → is_negative (start_udp S G codec w).0.1.socket.socket_fd ≡ false
      → Start.bind_answer S (socket_udp S) (udpaddr S G codec) w ≡ true
      → is_negative (start_udp S G codec w).0.0.socket.socket_fd ≡ false
      → (to : InetAddr)
      → D.route (start_udp S G codec w).1 to ≡ some (start_udp S G codec w).0.0.socket.socket_fd
      → Ready
          (socket_udp S)
          D
          (start_udp S G codec w).0.0
          (start_udp S G codec w).0.1
          (udpaddr S G codec)
          to
          (start_udp S G codec w).1
  unfolding start_udp start_reply new_reply new_request
  start_udp-Ready D U sleep_left w first answered second to back = record {
    apart = Start.apart S E (socket_udp S) D U sleep_left (udpaddr S G codec) w first second;
    there =
        Start.route-made S E (socket_udp S) D U sleep_left (udpaddr S G codec) w first second
          answered;
    back = back;
    asked = Start.queue-bound S E (socket_udp S) D U sleep_left (udpaddr S G codec) w first second;
    answered =
        Start.queue-other S E (socket_udp S) D U sleep_left (udpaddr S G codec) w first second;
  }

  pub start_unix-Ready :
      (D : Delivery World UnixAddr (socket_unix S)) (U : SetUp S E (socket_unix S) D)
      (sleep_left : (t : ℤ) → LeavesNet (socket_unix S) D (S.sleep_for t)) (unix unix2 : UnixAddr)
      (w : World)
      → is_negative (start_unix S G codec unix unix2 w).0.1.socket.socket_fd ≡ false
      → Start.bind_answer S (socket_unix S) unix2 w ≡ true
      → is_negative (start_unix S G codec unix unix2 w).0.0.socket.socket_fd ≡ false
      → ((socket_unix S).bind
          (Start.other S (socket_unix S) unix2 w)
          unix
          (Start.made S (socket_unix S) unix2 w)).0
        ≡ true
      → unix2 ≢ unix
      → Ready
          (socket_unix S)
          D
          (start_unix S G codec unix unix2 w).0.0
          (start_unix S G codec unix unix2 w).0.1
          unix2
          unix
          (start_unix S G codec unix unix2 w).1
  unfolding start_unix start_reply new_reply new_request
  start_unix-Ready D U sleep_left unix unix2 w first answered second answered' differ =
      let q = Start.other S (socket_unix S) unix2 w in
      let made = Start.made S (socket_unix S) unix2 w in
      record {
        apart = Start.apart S E (socket_unix S) D U sleep_left unix2 w first second;
        there =
            U.bind-other_route q unix unix2 made differ
            ∙ Start.route-made S E (socket_unix S) D U sleep_left unix2 w first second answered;
        back = U.bind-route q unix made answered';
        asked =
            U.bind-queue q unix made _
            ∙ Start.queue-bound S E (socket_unix S) D U sleep_left unix2 w first second;
        answered =
            U.bind-queue q unix made _
            ∙ Start.queue-other S E (socket_unix S) D U sleep_left unix2 w first second;
      }

module _ (S : System) (timeout : S.socket_timeout ≡ negsuc 0)
    (invalid : is_negative S.socket_err ≡ true) (E : Descriptors S) (G : Gtest S.World)
    (L : GtestLaws S.World G) (codec : Codec RequestT) (R : RequestLaws codec) where
  -- TEST(marko, req_rep_udp) expects 0, 2, 4, 6 and 8 of its five answers, in order, and is given them,
  -- its threads' calls alternating, on any system that delivers, makes sockets and binds them, where
  -- both sockets are made, the replier's bind answers true and the name that the requester's socket is
  -- given leads to it. `pack` and `unpack` keep the struct's `int`; no call of the library expects
  -- anything; EXPECT_EQ and a sleep leave the network alone.
  pub expected-req_rep_udp_whole :
      (N : DeliveryLaws S.World InetAddr S.inet)
      → BindLaws S S.inet N
      → Untouched S (socket_udp S) L.expected
      → ((a b : ℤ) → LeavesNet (socket_udp S) (udp-Delivery S timeout N) (G.expect_eq a b))
      → ((t : ℤ) → LeavesNet (socket_udp S) (udp-Delivery S timeout N) (S.sleep_for t))
      → (w : S.World) → is_negative (start_udp S G codec w).0.1.socket.socket_fd ≡ false
      → Start.bind_answer S (socket_udp S) (udpaddr S G codec) w ≡ true
      → is_negative (start_udp S G codec w).0.0.socket.socket_fd ≡ false
      → N.route
          (start_udp S G codec w).1
          (N.name (start_udp S G codec w).1 (start_udp S G codec w).0.0.socket.socket_fd)
        ≡ some (start_udp S G codec w).0.0.socket.socket_fd
      → L.expected (req_rep_udp S G codec w)
        ≡ L.expected w
          ++ (pos 0, pos 0) ∷ (pos 2, pos 2) ∷ (pos 4, pos 4) ∷ (pos 6, pos 6) ∷ (pos 8, pos 8) ∷ []
  unfolding udp-Delivery
  expected-req_rep_udp_whole N B X expects_left sleep_left w first answered second back =
      let D = udp-Delivery S timeout N in
      expected-req_rep_udp S G L codec R D X expects_left sleep_left
        (N.name (start_udp S G codec w).1 (start_udp S G codec w).0.0.socket.socket_fd) w
        (start_udp-Ready S G codec E D (udp-SetUp S timeout invalid E N B) sleep_left w first
          answered second _ back)
        refl

  -- TEST(marko, req_rep_unix) expects 0, 2, 4, 6 and 8 of its five answers, in order, and of each the
  -- struct's size, and is given them, its threads' calls alternating, on any system that delivers,
  -- makes sockets and binds them, where both sockets are made, both binds answer true and the two
  -- addresses differ. `pack` and `unpack` keep the struct's `int`; no call of the library expects
  -- anything; EXPECT_EQ and a sleep leave the network alone.
  pub expected-req_rep_unix_whole :
      (N : DeliveryLaws S.World UnixAddr S.unix) (recvs : RecvIsRecvfrom S)
      → BindLaws S S.unix N
      → Untouched S (socket_unix S) L.expected
      → ((a b : ℤ) → LeavesNet (socket_unix S) (unix-Delivery S timeout N recvs) (G.expect_eq a b))
      → ((t : ℤ) → LeavesNet (socket_unix S) (unix-Delivery S timeout N recvs) (S.sleep_for t))
      → (unix unix2 : UnixAddr) (w : S.World) → unix2 ≢ unix
      → is_negative (start_unix S G codec unix unix2 w).0.1.socket.socket_fd ≡ false
      → Start.bind_answer S (socket_unix S) unix2 w ≡ true
      → is_negative (start_unix S G codec unix unix2 w).0.0.socket.socket_fd ≡ false
      → ((socket_unix S).bind
          (Start.other S (socket_unix S) unix2 w)
          unix
          (Start.made S (socket_unix S) unix2 w)).0
        ≡ true
      → let size = pos codec.size in
        L.expected (req_rep_unix S G codec unix unix2 w)
        ≡ L.expected w
          ++ (pos 0, pos 0)
            ∷ (size, size)
            ∷ (pos 2, pos 2)
            ∷ (size, size)
            ∷ (pos 4, pos 4)
            ∷ (size, size)
            ∷ (pos 6, pos 6)
            ∷ (size, size)
            ∷ (pos 8, pos 8)
            ∷ (size, size)
            ∷ []
  expected-req_rep_unix_whole N recvs B X expects_left sleep_left unix unix2 w differ first answered
        second answered' =
      let D = unix-Delivery S timeout N recvs in
      expected-req_rep_unix S G L codec R D X expects_left sleep_left unix unix2 w (
        start_unix-Ready S G codec E D (unix-SetUp S timeout invalid E N recvs B) sleep_left unix
          unix2 w first answered second answered' differ)
