-- ===== src/Tests/Requesters.antt =====
-- Two requesters of one replier.
use marko.Base.{
  Option, ◌*◌, ◌%◌, ◌≡◌, ◌↔◌, refl, ◌≢◌, false, [], ◌∷◌, length-map, map, length, ◌∙◌, some, ◌==◌,
  if◌then◌else◌, arith,
}
use marko.Base.Int.{ℤ, pos, beq_ℤ, beq_ℤ_iff}
use marko.System.{Message, InetAddr}
use marko.System.Loopback.{Machine, localhost}
use marko.System.Loopback.Meets.{loopback-DeliveryLaws, mail-DeliveryLaws}
use marko.Socket.{Socket}
use marko.Datagram.Udp.{recv, recvfrom, sendto}
use marko.Datagram.Network.{udp-Delivery}
use marko.RequestReply.{once, returned}
use marko.RequestReply.Threads.{serve_each}
use marko.RequestReply.Several.Settled.{receive_each, received-Run}
use marko.RequestReply.Several.{
  Run, idle, then_step, asks, receives, other_asks, serves, IsServed, outstanding, Setup,
}
use marko.RequestReply.Several.Replies.{Run-outstanding}
use marko.RequestReply.Several.Remote.{RemoteRun, RemoteRun-Run_iff}
use marko.RequestReply.Several.Late.{exchange_each-late}
use marko.RequestReply.Exchange.{exchange_each}
use marko.Tests.Setting.{S, asker, machine, third, udp, network, double, requester, replier}
use marko.Tests.Messaging.{computes}

-- Where the second requester's socket, descriptor 5, is bound.
abbrev second : InetAddr
second = record { sin_family = pos 2; sin_port = 2000; s_addr = 0x0100_007f }

abbrev fifth : Socket
fifth = record { socket_fd = pos 5 }

abbrev route : InetAddr → Option ℤ
route a =
    if a.sin_port == 1000
    then some (pos 3)
    else if a.sin_port == 2000
    then some (pos 5)
    else some (pos 4)

abbrev name : ℤ → InetAddr
name d = if beq_ℤ d (pos 3) then asker else if beq_ℤ d (pos 5) then second else localhost

abbrev crowded : Machine
crowded = record machine { inet = record { route = route; name = name; queue = λ d. [] } }

abbrev ours : Message
ours = 1 ∷ 2 ∷ 3 ∷ 4 ∷ []

abbrev theirs : Message
theirs = 9 ∷ 9 ∷ 9 ∷ 9 ∷ []

-- The second asks, then the first, both are served, and the first receives.
abbrev asked_twice : Machine
asked_twice =
    (sendto S third ours localhost (pos 0) (sendto S fifth theirs localhost (pos 0) crowded).1).1

abbrev served_twice : Machine
served_twice = (once udp replier (once udp replier asked_twice).1).1

apart : (d e : ℤ) → beq_ℤ d e ≡ false → d ≢ e
apart d e other same = cc (rw ((beq_ℤ_iff d e).1 same) at other)

conversation :
    Run udp network requester replier localhost route name crowded
      (ours ∷ [])
      ((recv S third 4 (pos 0) served_twice).0 ∷ [])
      (recv S third 4 (pos 0) served_twice).1
unfolding once recv recvfrom sendto udp-Delivery loopback-DeliveryLaws mail-DeliveryLaws
conversation =
    then_step
      (then_step
        (then_step
          (then_step
            (then_step idle (
              other_asks fifth (pos 5) theirs refl (apart (pos 5) (pos 3) refl)
                (apart (pos 5) (pos 4) refl) refl))
            (asks ours refl))
          (serves theirs second ((ours, asker) ∷ []) refl))
        (serves ours asker [] refl))
      (receives (double ours) localhost [] refl)

setup : Setup udp network requester replier localhost route name (λ m w. (double m, w)) double
setup = record {
  set = refl;
  computes = computes udp network;
  some_ask = omega arith;
  some_answer = omega arith;
  reply_sized = λ m sized. length-map (λ b. 2 * b % 256) m ∙ sized;
  there = refl;
  back = refl;
  apart = apart (pos 3) (pos 4) refl;
}

nothing_waits : IsServed udp network requester replier localhost route name crowded
unfolding udp-Delivery loopback-DeliveryLaws mail-DeliveryLaws
nothing_waits = record { routes = λ b. refl; names = λ d. refl; asked = tt; answered = tt }

Run-outstanding_example :
    let w = (recv S third 4 (pos 0) served_twice).1 in
    IsServed udp network requester replier localhost route name w
    × ((recv S third 4 (pos 0) served_twice).0
          ∷ outstanding udp network requester replier localhost route name double w
        ≡ (2 ∷ 4 ∷ 6 ∷ 8 ∷ []) ∷ [])
unfolding udp-Delivery loopback-DeliveryLaws mail-DeliveryLaws
Run-outstanding_example = Run-outstanding setup conversation nothing_waits

-- An answer of before waits at the first requester.
abbrev late : Machine
late = record crowded {
  inet = record crowded.inet {
    queue = λ d. if beq_ℤ d (pos 3) then (7 ∷ 7 ∷ 7 ∷ 7 ∷ [], localhost) ∷ [] else [];
  };
}

late_waits : IsServed udp network requester replier localhost route name late
unfolding udp-Delivery loopback-DeliveryLaws mail-DeliveryLaws
late_waits = record { routes = λ b. refl; names = λ d. refl; asked = tt; answered = (refl, tt) }

exchange_each-late_example :
    map
      (λ answer. answer.1)
      (exchange_each udp requester (once udp replier) (ours ∷ theirs ∷ []) localhost late).0
    ≡ (7 ∷ 7 ∷ 7 ∷ 7 ∷ []) ∷ (2 ∷ 4 ∷ 6 ∷ 8 ∷ []) ∷ []
unfolding udp-Delivery loopback-DeliveryLaws mail-DeliveryLaws
exchange_each-late_example =
    exchange_each-late setup (ours ∷ theirs ∷ []) (7 ∷ 7 ∷ 7 ∷ 7 ∷ []) localhost late
      (refl, (refl, tt)) late_waits refl refl

-- Both have asked, and nobody has been answered.
both_asked :
    Run udp network requester replier localhost route name crowded (ours ∷ []) [] asked_twice
unfolding sendto udp-Delivery loopback-DeliveryLaws mail-DeliveryLaws
both_asked =
    then_step
      (then_step idle (
        other_asks fifth (pos 5) theirs refl (apart (pos 5) (pos 3) refl)
          (apart (pos 5) (pos 4) refl) refl))
      (asks ours refl)

received-Run_example :
    let (outcome, settled) = serve_each (once udp replier) 2 asked_twice in
    (outcome ≡ returned tt)
    × ((receive_each udp requester (length (settled.inet.queue (pos 3))) settled).0
        ≡ (2 ∷ 4 ∷ 6 ∷ 8 ∷ []) ∷ [])
unfolding sendto udp-Delivery loopback-DeliveryLaws mail-DeliveryLaws
received-Run_example = received-Run setup both_asked nothing_waits refl

RemoteRun-Run_iff_example :
    RemoteRun 4 double [] (ours ∷ theirs ∷ []) (double ours ∷ []) (double theirs ∷ []) ↔ (
      (w : Machine) × (Run udp network requester replier localhost route name crowded
        (ours ∷ theirs ∷ [])
        (double ours ∷ [])
        w)
      × (outstanding udp network requester replier localhost route name double w
          ≡ double theirs ∷ []))
unfolding udp-Delivery loopback-DeliveryLaws mail-DeliveryLaws
RemoteRun-Run_iff_example =
    RemoteRun-Run_iff setup crowded (ours ∷ theirs ∷ []) (double ours ∷ []) (double theirs ∷ [])
      nothing_waits
