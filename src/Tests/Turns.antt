-- ===== src/Tests/Turns.antt =====
-- The tests of cpp/gtests/test_rr.cpp after some calls of their threads, on the machine.
use marko.Base.Int.{pos}
use marko.Time.{msleep}
use marko.System.Loopback.{Machine, localhost}
use marko.Datagram.Udp
use marko.Datagram.Unix
use marko.RequestReply.{Reply, Request, once, once_to}
use marko.Gtests.Requests.{start_udp, start_unix, expect_answer}
use marko.Tests.Setting.{S, fresh, udp, unix, path_address}
use marko.Tests.Gtests.{gtest, request_codec}
use marko.Tests.Structs.{int_bytes}

abbrev started : (Request × Reply Machine) × Machine
started = start_udp S gtest request_codec fresh

-- The first question is sent, then answered, then its answer read.
abbrev asked : Machine
asked = (udp.sendto started.0.0.socket (int_bytes (pos 0)) localhost (pos 0) started.1).1

abbrev served : Machine
served = (once udp started.0.1 asked).1

abbrev read : Machine
read =
    let (rp, w) = udp.recv started.0.0.socket 4 (pos 0) served in
    msleep S (pos 1) (expect_answer S gtest request_codec 0 rp w)

-- Over unix sockets, after the first question is sent and answered.
abbrev unix_started : (Request × Reply Machine) × Machine
unix_started = start_unix S gtest request_codec (path_address "a") (path_address "b") fresh

abbrev unix_asked : Machine
unix_asked =
    (unix.sendto unix_started.0.0.socket (int_bytes (pos 0)) (path_address "b") (pos 0)
      unix_started.1).1

abbrev unix_served : Machine
unix_served = (once_to unix unix_started.0.1 (path_address "a") unix_asked).1
