-- ===== src/Tests/Messaging.antt =====
-- Publishing, subscribing, asking and answering.
use marko.Base.{
  ◌*◌, ◌%◌, ◌↔◌, ◌≡◌, refl, Bool, true, false, List, none, some, [], ◌∷◌, ◌++◌, length, ◌==◌,
  if◌then◌else◌, length-map, ◌∙◌, arith,
}
use marko.Base.Int.{pos}
use marko.System.{Message, InetAddr}
use marko.System.Loopback.{Machine, localhost, broadcast}
use marko.System.Trace.{traced, sendto_call, inet_address}
use marko.Datagram.Udp.{recvfrom, recv}
use marko.Datagram.Unix.{socket_unix}
use marko.Datagram.Class.{SocketClass}
use marko.Datagram.Network.{Delivery, udp-Delivery}
use marko.System.Loopback.Meets.{loopback-DeliveryLaws, mail-DeliveryLaws}
use marko.Base.Decimal.{to_decimal}
use marko.Datagram.Unix
use marko.Datagram.Receive.{udp-SizedClass, IsWhole, receives-IsWhole}
use marko.Datagram.Broadcast.{new_bc}
use marko.Datagram.Casting.{cast_each, cast_each-journal, make_calls, option_calls}
use marko.PubSub.{Publisher}
use marko.RequestReply.{Outcome, Reply, returned, bad_function_call, once, once_to}
use marko.RequestReply.Once.{once-refuses_iff, once-unregistered}
use marko.PubSub
use marko.RequestReply
use marko.RequestReply.Sizes.{callbacks-same_at_size}
use marko.RequestReply.Answer.{Ready}
use marko.RequestReply.Exchange.{Computes, exchange_each, exchange_each-answers}
use marko.Tests.Setting.{
  S, asker, machine, fourth, udp, network, double, requester, replier, publisher, notes, subscriber,
}

ready : Ready udp network requester replier localhost asker machine
unfolding udp-Delivery loopback-DeliveryLaws mail-DeliveryLaws
ready = record {
  apart = λ e. ground arith;
  there = refl;
  back = refl;
  asked = refl;
  answered = refl;
}

-- Two messages of four bytes, and their doubles.
abbrev questions : List Message
questions = (1 ∷ 2 ∷ 3 ∷ 4 ∷ []) ∷ (200 ∷ 0 ∷ 0 ∷ 1 ∷ []) ∷ []

abbrev doubles : List (Outcome Bool × Message)
doubles = (returned true, 2 ∷ 4 ∷ 6 ∷ 8 ∷ []) ∷ (returned true, 144 ∷ 0 ∷ 0 ∷ 2 ∷ []) ∷ []

pub computes :
    {Addr : Type 0} (C : SocketClass Machine Addr) (D : Delivery Machine Addr C)
    → Computes C D (λ m w. (double m, w)) double
computes C D = record {
  answer = λ m w. refl;
  same_net = λ m w. (λ b. refl, λ d. refl);
  same_queue = λ m w d. refl;
}

exchange_each-answers_example :
    (exchange_each udp requester (once udp replier) questions localhost machine).0 ≡ doubles
unfolding udp-Delivery loopback-DeliveryLaws mail-DeliveryLaws
exchange_each-answers_example =
    exchange_each-answers udp network requester replier localhost asker (λ m w. (double m, w))
      double refl (computes udp network) (omega arith) (omega arith)
      (λ m sized. length-map (λ b. 2 * b % 256) m ∙ sized) questions machine (refl, (refl, tt))
      ready refl

-- A machine on which the two bytes 5 and 6 wait for descriptor 4.
abbrev two_bytes : Machine
two_bytes = record machine { inet = record machine.inet { queue = λ d. (5 ∷ 6 ∷ [], asker) ∷ [] } }

receives-IsWhole_example :
    IsWhole 4 (recvfrom S fourth 4 none (pos 0) two_bytes).0.0
    × IsWhole 4 (recv S fourth 4 (pos 0) two_bytes).0
    × IsWhole 4 (Unix.recvfrom S fourth 4 none (pos 0) two_bytes).0.0
    × IsWhole 4 (Unix.recv S fourth 4 (pos 0) two_bytes).0
receives-IsWhole_example = receives-IsWhole S fourth 4 none none (pos 0) two_bytes

once-refuses_iff_example :
    (((once udp replier two_bytes).0 ≡ returned false) ↔ (
      length
        (recvfrom S fourth 4
          (some (record { sin_family = pos 0; sin_port = 0; s_addr = 0 }))
          (pos 0)
          two_bytes).0.0
      ≡ 0))
    × (((once_to udp replier asker two_bytes).0 ≡ returned false)
        ↔ (length (recv S fourth 4 (pos 0) two_bytes).0 ≡ 0))
once-refuses_iff_example = once-refuses_iff udp (udp-SizedClass S) replier asker two_bytes

-- Two bytes reach a callback that expects four.
abbrev unregistered : Reply Machine
unregistered = record replier { callback = none }

once-unregistered_example :
    ((once udp unregistered two_bytes).0 ≡ bad_function_call)
    × ((once udp unregistered two_bytes).1.inet.queue (pos 4) ≡ [])
unfolding udp-Delivery loopback-DeliveryLaws mail-DeliveryLaws
once-unregistered_example =
    once-unregistered udp network unregistered (5 ∷ 6 ∷ []) asker [] two_bytes refl refl
      (λ e. ground arith)

-- Two of three addresses lead to the subscriber.
abbrev spreading : Publisher InetAddr
spreading = record publisher { clientaddrs = localhost ∷ asker ∷ localhost ∷ [] }

cast_each-journal_example :
    let c = new_bc (traced S) 9999 (machine, []) in
    (cast_each (traced S) c.0 ((1 ∷ []) ∷ []) c.1).1
    ≡ make_calls S machine
      ++ (option_calls S machine
          ++ sendto_call (pos 5) (1 ∷ []) (pos 0) (inet_address broadcast) ∷ [])
unfolding to_decimal
cast_each-journal_example = cast_each-journal S 9999 ((1 ∷ []) ∷ []) machine []

-- Callbacks that do something else with messages of other sizes.
abbrev notes_two : Message → Machine → Machine
notes_two m w = if length m == 2 then notes m w else w

abbrev doubles_four : Message → Machine → Message × Machine
doubles_four m w = (if length m == 4 then double m else [], w)

callbacks-same_at_size_example :
    (PubSub.once udp (record subscriber { callbacks = notes ∷ [] }) two_bytes
      ≡ PubSub.once udp (record subscriber { callbacks = notes_two ∷ [] }) two_bytes)
    × (once udp (RequestReply.register_cb replier (λ m w. (double m, w))) two_bytes
        ≡ once udp (RequestReply.register_cb replier doubles_four) two_bytes)
    × (once_to udp (RequestReply.register_cb replier (λ m w. (double m, w))) asker two_bytes
        ≡ once_to udp (RequestReply.register_cb replier doubles_four) asker two_bytes)
callbacks-same_at_size_example =
    callbacks-same_at_size udp (udp-SizedClass S) subscriber (notes ∷ []) (notes_two ∷ []) replier
      asker (λ m w. (double m, w)) doubles_four two_bytes ((λ m w sized. rw sized), tt)
      (λ m w sized. rw sized)
