-- ===== src/Gtests/Requests/Interleaved.antt =====
-- The tests of cpp/gtests/test_rr.cpp, the calls of their threads' loops in any order from the end of the
-- set-up on, on any system that makes and binds sockets.
use marko.Base.{ℕ}
use marko.System.{InetAddr, UnixAddr, System}
use marko.Datagram.Udp.{socket_udp}
use marko.Datagram.Unix.{socket_unix}
use marko.Datagram.Network.{Delivery}
use marko.RequestReply.{once, once_to}
use marko.Examples.Structs.{Codec}
use marko.Gtests.{Gtest}
use marko.Gtests.SetUp as Start
use marko.Gtests.Requests.{RequestT, udpaddr, start_udp, start_unix, expect_answer, expect_both}
use marko.Gtests.Requests.AnyOrder.{Calls, EndsOrGoesOn}

-- The calls of a test's threads from the end of its set-up on, and whether they go on.
module _ (S : System) (G : Gtest S.World) (codec : Codec RequestT) where
  module _ (D : Delivery S.World InetAddr (socket_udp S)) (w : S.World) where
    abbrev pub UdpCalls : ℕ → ℕ → ℕ → S.World → Type 0
    UdpCalls =
        let ((q, r), started) = start_udp S G codec w in
        Calls S codec (socket_udp S) D q r (udpaddr S G codec) (expect_answer S G codec)
          (once (socket_udp S) r) started

    abbrev pub UdpGoesOn : ℕ → ℕ → ℕ → S.World → Type 0
    UdpGoesOn =
        let ((q, r), started) = start_udp S G codec w in
        EndsOrGoesOn S codec (socket_udp S) D q r (udpaddr S G codec) (expect_answer S G codec)
          (once (socket_udp S) r) started

  module _ (D : Delivery S.World UnixAddr (socket_unix S)) (unix unix2 : UnixAddr)
      (w : S.World) where
    abbrev pub UnixCalls : ℕ → ℕ → ℕ → S.World → Type 0
    UnixCalls =
        let ((q, r), started) = start_unix S G codec unix unix2 w in
        Calls S codec (socket_unix S) D q r unix2 (expect_both S G codec)
          (once_to (socket_unix S) r unix) started

    abbrev pub UnixGoesOn : ℕ → ℕ → ℕ → S.World → Type 0
    UnixGoesOn =
        let ((q, r), started) = start_unix S G codec unix unix2 w in
        EndsOrGoesOn S codec (socket_unix S) D q r unix2 (expect_both S G codec)
          (once_to (socket_unix S) r unix) started
