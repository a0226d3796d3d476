-- ===== src/Tests/Gtests.antt =====
-- The tests of cpp/gtests on the machine.
use text.Mathlib.Text.{◌==◌ as str_eq}
use marko.Base.{◌≡◌, ◌≢◌, refl, ap, false, [], ◌∷◌, ◌++◌, ℕ, map, ◌+◌, arith}
use marko.Base.Int.{pos}
use marko.System.{Message, UnixAddr}
use marko.Time.{msleep}
use marko.Base.Decimal.{to_decimal}
use marko.Socket.{make_socket, reuse_socket}
use marko.PubSub
use marko.PubSub.{new_subscriber, new_publisher}
use marko.RequestReply.{new_reply, register_cb, new_request}
use marko.System.Loopback.{Machine, of_le_bytes}
use marko.System.Loopback.Meets.{
  loopback-Descriptors, loopback-DeliveryLaws, loopback-UnixDeliveryLaws, mail-DeliveryLaws,
}
use marko.System.Loopback.Binds.{loopback-BindLaws, loopback-UnixBindLaws}
use marko.Datagram.Network.{unix-Delivery}
use marko.Datagram.Udp
use marko.Datagram.Unix
use marko.Examples.Structs.{Codec}
use marko.Gtests.{Gtest, GtestLaws}
use marko.Gtests.Requests.{RequestT, req_rep_udp, req_rep_unix, start_udp, start_unix, start_reply}
use marko.Gtests.Requests.Rounds.{RequestLaws}
use marko.Gtests.Requests.Whole.{expected-req_rep_udp_whole, expected-req_rep_unix_whole}
use marko.Gtests.Topics.{packed, PsdataT, Global, pub_sub_udp, pub_sub_unix, start}
use marko.Gtests.Topics.AnyOrder.{Rounds, begun, publishes, takes, expected-Rounds}
use marko.Gtests.Topics.Whole.{expected-pub_sub_udp_whole, expected-pub_sub_unix_whole}
use marko.PubSub.{Publisher, Subscriber, publish, once}
use marko.Gtests.Topics.Pass.{GlobalLaws, PsdataLaws}
use marko.Tests.Setting.{S, fresh, unix, unix_network, path_address}
use marko.Tests.Untouched.{unix-Untouched, udp-Untouched, udp-LeavesNet, unix-LeavesNet}
use marko.Tests.Structs.{int_bytes, of_le_bytes-le_bytes, length-int_bytes}

abbrev pub host : Message
host = 97 ∷ 98 ∷ []

abbrev pub gtest : Gtest Machine
gtest = record { expect_eq = λ a b w. record w { expectations = w.expectations ++ (a, b) ∷ [] } }

abbrev pub gtest_laws : GtestLaws Machine gtest
gtest_laws = record { expected = λ w. w.expectations; expected-expect_eq = λ a b w. refl }

abbrev pub request_codec : Codec RequestT
request_codec = record {
  pack = λ d. int_bytes d.a;
  unpack = λ m. record { a = pos (of_le_bytes m) };
  size = 4;
}

pub request_laws : RequestLaws request_codec
request_laws = record {
  read = λ n small i. record { a = pos (of_le_bytes-le_bytes n small i) };
  sized = λ d. length-int_bytes d.a;
  some_bytes = omega arith;
}

expected-req_rep_udp_whole_example :
    (req_rep_udp S gtest request_codec fresh).expectations
    ≡ (pos 0, pos 0) ∷ (pos 2, pos 2) ∷ (pos 4, pos 4) ∷ (pos 6, pos 6) ∷ (pos 8, pos 8) ∷ []
unfolding start_udp start_reply Udp.make Udp.bind make_socket new_reply register_cb new_request
    msleep to_decimal loopback-DeliveryLaws mail-DeliveryLaws
expected-req_rep_udp_whole_example =
    expected-req_rep_udp_whole S refl refl (loopback-Descriptors host) gtest gtest_laws
      request_codec request_laws (loopback-DeliveryLaws host) (loopback-BindLaws host)
      (udp-Untouched (λ es i. es))
      (λ a b. udp-LeavesNet (λ w. (w.expectations ++ (a, b) ∷ [], w.counter)))
      (λ t. udp-LeavesNet (λ w. (w.expectations, w.counter))) fresh refl refl refl refl

-- Other paths.
pub paths_differ : path_address "b" ≢ path_address "a"
paths_differ e =
    let same = ap (λ p. str_eq p.sun_path "a") e in let differ : str_eq "b" "a" ≡ false = refl in cc

expected-req_rep_unix_whole_example :
    (req_rep_unix S gtest request_codec (path_address "a") (path_address "b") fresh).expectations
    ≡ (pos 0, pos 0)
      ∷ (pos 4, pos 4)
      ∷ (pos 2, pos 2)
      ∷ (pos 4, pos 4)
      ∷ (pos 4, pos 4)
      ∷ (pos 4, pos 4)
      ∷ (pos 6, pos 6)
      ∷ (pos 4, pos 4)
      ∷ (pos 8, pos 8)
      ∷ (pos 4, pos 4)
      ∷ []
unfolding start_unix start_reply Unix.make Unix.bind make_socket new_reply register_cb new_request
    msleep
expected-req_rep_unix_whole_example =
    expected-req_rep_unix_whole S refl refl (loopback-Descriptors host) gtest gtest_laws
      request_codec request_laws (loopback-UnixDeliveryLaws host) (λ fd n w. refl)
      (loopback-UnixBindLaws host) (unix-Untouched (λ es i. es))
      (λ a b. unix-LeavesNet (λ w. (w.expectations ++ (a, b) ∷ [], w.counter)))
      (λ t. unix-LeavesNet (λ w. (w.expectations, w.counter))) (path_address "a") (path_address "b")
      fresh paths_differ refl refl refl refl

abbrev psdata_codec : Codec PsdataT
psdata_codec = record {
  pack = λ d. int_bytes d.a;
  unpack = λ m. record { a = pos (of_le_bytes m) };
  size = 4;
}

abbrev global : Global Machine
global = record { value = λ w. w.counter; set = λ i w. record w { counter = i } }

global_laws : GlobalLaws Machine gtest gtest_laws global
global_laws = record {
  value-set = λ i w. refl;
  value-expect_eq = λ a b w. refl;
  expected-set = λ i w. refl;
}

psdata_laws : PsdataLaws psdata_codec
psdata_laws = record {
  read = λ n small i. record { a = pos (of_le_bytes-le_bytes n small i) };
  sized = λ d. length-int_bytes d.a;
  some_bytes = omega arith;
}

expected-pub_sub_unix_whole_example :
    (pub_sub_unix S gtest global psdata_codec (path_address "b") fresh).expectations
    ≡ (pos 0, pos 0) ∷ (pos 1, pos 1) ∷ (pos 2, pos 2) ∷ (pos 3, pos 3) ∷ (pos 4, pos 4) ∷ []
unfolding Unix.make Unix.bind make_socket msleep
expected-pub_sub_unix_whole_example =
    expected-pub_sub_unix_whole S refl refl (loopback-Descriptors host) gtest gtest_laws global
      global_laws psdata_codec psdata_laws (loopback-UnixDeliveryLaws host) (λ fd n w. refl)
      (loopback-UnixBindLaws host) (unix-Untouched (λ es i. es)) (unix-Untouched (λ es i. i))
      (λ a b. unix-LeavesNet (λ w. (w.expectations ++ (a, b) ∷ [], w.counter)))
      (λ i. unix-LeavesNet (λ w. (w.expectations, i)))
      (λ t. unix-LeavesNet (λ w. (w.expectations, w.counter))) (path_address "b") fresh refl refl
      refl

-- The publisher's bind finds the subscriber's address in use.
expected-pub_sub_udp_whole_example :
    (pub_sub_udp S gtest global psdata_codec fresh).expectations
    ≡ (pos 0, pos 0) ∷ (pos 1, pos 1) ∷ (pos 2, pos 2) ∷ (pos 3, pos 3) ∷ (pos 4, pos 4) ∷ []
unfolding Udp.make Udp.bind Udp.connect reuse_socket make_socket msleep to_decimal
expected-pub_sub_udp_whole_example =
    expected-pub_sub_udp_whole S refl refl (loopback-Descriptors host) gtest gtest_laws global
      global_laws psdata_codec psdata_laws (loopback-DeliveryLaws host) (loopback-BindLaws host)
      (udp-Untouched (λ es i. es)) (udp-Untouched (λ es i. i))
      (λ a b. udp-LeavesNet (λ w. (w.expectations ++ (a, b) ∷ [], w.counter)))
      (λ i. udp-LeavesNet (λ w. (w.expectations, i)))
      (λ t. udp-LeavesNet (λ w. (w.expectations, w.counter))) fresh refl refl refl refl

-- The set-up of a test, and the test after two rounds of the publisher with one of the subscriber between.
abbrev set_up : (Publisher UnixAddr × Subscriber Machine) × Machine
set_up = start S gtest global psdata_codec unix (path_address "b") fresh

abbrev published : ℕ → Machine → Machine
published n = publish unix set_up.0.0 (int_bytes (pos n))

abbrev halfway : Machine
halfway = published 1 (once unix set_up.0.1 (published 0 set_up.1))

half_done : Rounds unix unix_network psdata_codec set_up.0.0 set_up.0.1 set_up.1 2 1 halfway
unfolding start new_subscriber PubSub.register_cb new_publisher PubSub.connect msleep Unix.make
    Unix.bind Unix.connect make_socket PubSub.publish Unix.sendto unix-Delivery
    loopback-UnixDeliveryLaws mail-DeliveryLaws
half_done =
    publishes
      (takes (int_bytes (pos 0)) (path_address "") [] (publishes begun (omega arith)) (omega arith)
        refl)
      (omega arith)

expected-Rounds_example :
    (halfway.expectations ≡ (pos 0, pos 0) ∷ [])
    × (left : ℕ) × (1 + left ≡ 2)
    × (map (λ d. d.0) (halfway.unix.queue (pos 3)) ≡ packed psdata_codec left 1)
unfolding start new_subscriber PubSub.register_cb new_publisher PubSub.connect msleep Unix.make
    Unix.bind Unix.connect make_socket unix-Delivery loopback-UnixDeliveryLaws mail-DeliveryLaws
expected-Rounds_example =
    expected-Rounds S gtest gtest_laws global global_laws psdata_codec psdata_laws unix unix_network
      (unix-Untouched (λ es i. es)) (unix-Untouched (λ es i. i))
      (λ a b. unix-LeavesNet (λ w. (w.expectations ++ (a, b) ∷ [], w.counter)))
      (λ i. unix-LeavesNet (λ w. (w.expectations, i))) (path_address "b") fresh halfway 2 1 refl
      refl half_done
