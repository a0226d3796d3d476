-- ===== src/Gtests/Requests/Pass.antt =====
-- The tests of cpp/gtests/test_rr.cpp pass: what they expect, and that it holds.
use marko.Base.{◌≡◌, refl, ap, ◌∙◌, [], ◌∷◌, ◌++◌}
use marko.Base.Int.{ℤ, pos}
use marko.System.{InetAddr, UnixAddr, System}
use marko.Time.{msleep}
use marko.Datagram.Udp.{socket_udp}
use marko.Datagram.Unix.{socket_unix}
use marko.Datagram.Network.{Delivery}
use marko.RequestReply.{new_reply, new_request}
use marko.RequestReply.Answer.{Ready, LeavesNet}
use marko.Examples.Structs.{Codec}
use marko.Gtests.{Gtest, GtestLaws, Untouched}
use marko.Gtests.Requests.{
  loop, RequestT, start_reply, udpaddr, start_udp, req_rep_udp, start_unix, req_rep_unix,
}
use marko.Gtests.Requests.Rounds.{RequestLaws, all_pairs}
use marko.Gtests.Requests.Rounds as Rounds
use marko.Gtests.Requests.Loops as Loops

module _ (S : System) (G : Gtest S.World) (L : GtestLaws S.World G) (codec : Codec RequestT)
    (R : RequestLaws codec) where
  open S use {World}

  -- Nothing is expected before the loops.
  pub expected-start_udp :
      (D : Delivery World InetAddr (socket_udp S)) (X : Untouched S (socket_udp S) L.expected)
      → ((a b : ℤ) → LeavesNet (socket_udp S) D (G.expect_eq a b))
      → ((t : ℤ) → LeavesNet (socket_udp S) D (S.sleep_for t))
      → (w : World) → L.expected (start_udp S G codec w).1 ≡ L.expected w
  unfolding start_udp start_reply new_request msleep
  expected-start_udp D X expects_left sleep_left w =
      X.of_make _
      ∙ X.of_sleep_for _ _
      ∙ Loops.expected-start_reply S G L codec R (socket_udp S) D X expects_left sleep_left
          (udpaddr S G codec) w

  pub expected-start_unix :
      (D : Delivery World UnixAddr (socket_unix S)) (X : Untouched S (socket_unix S) L.expected)
      → ((a b : ℤ) → LeavesNet (socket_unix S) D (G.expect_eq a b))
      → ((t : ℤ) → LeavesNet (socket_unix S) D (S.sleep_for t))
      → (unix unix2 : UnixAddr) (w : World)
      → L.expected (start_unix S G codec unix unix2 w).1 ≡ L.expected w
  unfolding start_unix start_reply new_request msleep
  expected-start_unix D X expects_left sleep_left unix unix2 w =
      X.of_bind _ unix _
      ∙ X.of_make _
      ∙ X.of_sleep_for _ _
      ∙ Loops.expected-start_reply S G L codec R (socket_unix S) D X expects_left sleep_left unix2 w

  -- TEST(marko, req_rep_udp) expects 0, 2, 4, 6 and 8 of the five answers, in order, and is given
  -- them, where the threads' calls alternate, the network delivers from the end of the set-up on,
  -- the address leads to the replier, and the requester's name leads back to it. `pack` and `unpack`
  -- keep the struct's `int`; no call of the library expects anything.
  pub expected-req_rep_udp :
      (D : Delivery World InetAddr (socket_udp S)) (X : Untouched S (socket_udp S) L.expected)
      → ((a b : ℤ) → LeavesNet (socket_udp S) D (G.expect_eq a b))
      → ((t : ℤ) → LeavesNet (socket_udp S) D (S.sleep_for t))
      → (to : InetAddr) (w : World)
      → Ready
          (socket_udp S)
          D
          (start_udp S G codec w).0.0
          (start_udp S G codec w).0.1
          (udpaddr S G codec)
          to
          (start_udp S G codec w).1
      → D.name (start_udp S G codec w).1 (start_udp S G codec w).0.0.socket.socket_fd ≡ to
      → L.expected (req_rep_udp S G codec w)
        ≡ L.expected w
          ++ (pos 0, pos 0) ∷ (pos 2, pos 2) ∷ (pos 4, pos 4) ∷ (pos 6, pos 6) ∷ (pos 8, pos 8) ∷ []
  unfolding req_rep_udp start_udp start_reply new_request msleep
  expected-req_rep_udp D X expects_left sleep_left to w ready named =
      let ((q, r), started) = start_udp S G codec w in
      Loops.expected-finish S G L codec R (socket_udp S) D X expects_left sleep_left q r _
      ∙ Loops.expected-udp_loop S G L codec R (socket_udp S) D X expects_left sleep_left q
          (new_reply (socket_udp S) codec.size w).0 (udpaddr S G codec) to refl refl started ready
          named
      ∙ ap (λ es. es ++ all_pairs (Rounds.answer_pairs S G L codec R) loop 0)
          (expected-start_udp D X expects_left sleep_left w)

  -- TEST(marko, req_rep_unix) expects 0, 2, 4, 6 and 8 of the five answers, in order, and the
  -- struct's size of each, and is given them, where the threads' calls alternate, the network
  -- delivers from the end of the set-up on, the second address leads to the replier and the first
  -- one to the requester. `pack` and `unpack` keep the struct's `int`; no call of the library
  -- expects anything.
  pub expected-req_rep_unix :
      (D : Delivery World UnixAddr (socket_unix S)) (X : Untouched S (socket_unix S) L.expected)
      → ((a b : ℤ) → LeavesNet (socket_unix S) D (G.expect_eq a b))
      → ((t : ℤ) → LeavesNet (socket_unix S) D (S.sleep_for t))
      → (unix unix2 : UnixAddr) (w : World)
      → Ready
          (socket_unix S)
          D
          (start_unix S G codec unix unix2 w).0.0
          (start_unix S G codec unix unix2 w).0.1
          unix2
          unix
          (start_unix S G codec unix unix2 w).1
      → let size = pos codec.size in
        L.expected (req_rep_unix S G codec unix unix2 w)
        ≡ L.expected w
          ++ (pos 0, pos 0)
            ∷ (size, size)
            ∷ (pos 2, pos 2)
            ∷ (size, size)
            ∷ (pos 4, pos 4)
            ∷ (size, size)
            ∷ (pos 6, pos 6)
            ∷ (size, size)
            ∷ (pos 8, pos 8)
            ∷ (size, size)
            ∷ []
  unfolding req_rep_unix start_unix start_reply new_request msleep
  expected-req_rep_unix D X expects_left sleep_left unix unix2 w ready =
      let ((q, r), started) = start_unix S G codec unix unix2 w in
      Loops.expected-finish S G L codec R (socket_unix S) D X expects_left sleep_left q r _
      ∙ Loops.expected-unix_loop S G L codec R (socket_unix S) D X expects_left sleep_left q
          (new_reply (socket_unix S) codec.size w).0 unix2 unix refl refl started ready
      ∙ ap (λ es. es ++ all_pairs (Rounds.both_pairs S G L codec R) loop 0)
          (expected-start_unix D X expects_left sleep_left unix unix2 w)
