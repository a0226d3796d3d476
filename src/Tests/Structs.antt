-- ===== src/Tests/Structs.antt =====
-- rr.cpp with structs that are packed as on a little-endian machine.
use marko.Base.{
  replicate, length-append, ◌==◌, ◌^◌, ℕ, ◌-◌, ◌*◌, ◌/◌, ◌<◌, ◌≡◌, refl, ap, [], ◌∷◌, ◌++◌, drop,
  take, length, none, arith,
}
use marko.Base.Int.{ℤ, pos, negsuc}
use marko.Base.Decimal.{to_decimal, int_to_decimal}
use marko.System.{Message}
use marko.System.Loopback.{le_bytes, of_le_bytes, localhost}
use marko.System.Loopback.Meets.{loopback-PrintLaws, loopback-DeliveryLaws, mail-DeliveryLaws}
use marko.Datagram.Network.{udp-Delivery}
use marko.RequestReply.{Reply, Request, register_cb, once}
use marko.RequestReply.Answer.{Ready}
use marko.Examples.Ps
use marko.Examples.Ps.Lines.{DataLaws, lines, printing, printed-once_each-publish_each}
use marko.PubSub.Session.{once_each, publish_each}
use marko.Datagram.Udp.{recv, sendto}
use marko.Examples.Msg
use marko.Examples.Console.{PrintsApart, PrintsNothing}
use marko.Examples.Structs.{Codec, Doubles}
use marko.Examples.Rr.{RequestT, ResponseT, cb}
use marko.Examples.Rr.Answers.{CodecLaws, converse, converse-answers}
use marko.Tests.Setting.{S, asker, machine, third, fourth, udp, network, publisher}

-- A stand-in for `double`: numbers of ten thousandths.
abbrev pub ten_thousandths : Doubles
ten_thousandths = record {
  Double = ℕ;
  decimal = λ digits places. digits * 10 ^ (4 - places);
  of_int = λ i. elim i [ pos n ↦ n * 10000 | negsuc n ↦ 0 ];
  times = λ x y. x * y / 10000;
  equal = λ x y. x == y;
  text = to_decimal;
}

-- An `int` of 32 bits.
abbrev pub int_bytes : ℤ → Message
int_bytes (pos n) = le_bytes n
int_bytes (negsuc n) = le_bytes (0xffff_ffff - n)

abbrev pub asks : Codec (RequestT ℕ)
asks = record {
  pack = λ m. le_bytes m.a ++ le_bytes (m.a / 0x1_0000_0000) ++ int_bytes m.b;
  unpack = λ m. record { a = of_le_bytes (take 8 m); b = pos (of_le_bytes (drop 8 m)) };
  size = 12;
}

abbrev pub answers : Codec ResponseT
answers = record {
  pack = λ m. int_bytes m.a;
  unpack = λ m. record { a = pos (of_le_bytes m) };
  size = 4;
}

pub of_le_bytes-le_bytes : (n : ℕ) → n < 0x8000_0000 → of_le_bytes (le_bytes n) ≡ n
of_le_bytes-le_bytes n small = omega arith

pub length-int_bytes : (i : ℤ) → length (int_bytes i) ≡ 4
length-int_bytes (pos n) = refl
length-int_bytes (negsuc n) = refl

codecs : CodecLaws ten_thousandths asks answers
codecs = record {
  ask-read = λ d n small. ap pos (of_le_bytes-le_bytes n small);
  answer-read = λ n small. ap pos (of_le_bytes-le_bytes n small);
  ask-size = λ m. omega (arith, length-int_bytes m.b);
  answer-size = λ m. length-int_bytes m.a;
}

prints_apart : PrintsApart S network
unfolding udp-Delivery loopback-DeliveryLaws mail-DeliveryLaws
prints_apart = record { same_net = λ t w. (λ b. refl, λ d. refl); same_queue = λ t w d. refl }

abbrev requester : Request
requester = record { socket = third; msg_size = 4 }

abbrev replier : Reply S.World
replier = record { socket = fourth; callback = none; msg_size = 12 }

ready :
    Ready udp network requester
      (register_cb replier (cb S ten_thousandths asks answers))
      localhost
      asker
      machine
unfolding register_cb udp-Delivery loopback-DeliveryLaws mail-DeliveryLaws
ready = record {
  apart = λ e. ground arith;
  there = refl;
  back = refl;
  asked = refl;
  answered = refl;
}

converse-answers_example :
    (converse S ten_thousandths asks answers requester
      (once udp (register_cb replier (cb S ten_thousandths asks answers)))
      localhost
      5
      0
      machine).0
    ≡ pos 0 ∷ pos 1 ∷ pos 2 ∷ pos 3 ∷ pos 4 ∷ []
unfolding udp-Delivery loopback-DeliveryLaws mail-DeliveryLaws
converse-answers_example =
    converse-answers S ten_thousandths asks answers network codecs prints_apart requester replier
      localhost asker refl refl (omega arith) (omega arith) machine ready refl

-- With four bytes of padding.
abbrev pub data_codec : Codec (Ps.DataT ℕ)
data_codec = record {
  pack = λ m. le_bytes m.a ++ le_bytes (m.a / 0x1_0000_0000) ++ int_bytes m.b ++ replicate 4 0;
  unpack = λ m. record { a = of_le_bytes (take 8 m); b = pos (of_le_bytes (take 4 (drop 8 m))) };
  size = 16;
}

-- What the tenth message of ps.cpp is printed as.
ps_test :
    (Ps.cb S ten_thousandths data_codec
      (data_codec.pack (record { a = 12000; b = pos 9 }))
      machine).printed
    ≡ "data_t 12000 9 size 16\n" ∷ []
unfolding Ps.cb to_decimal int_to_decimal
ps_test = refl

data_laws : DataLaws ten_thousandths data_codec
data_laws = record {
  read = λ n small j. record { a = 12000; b = pos (of_le_bytes-le_bytes n small j) };
  sized = λ d. omega (arith, length-append (int_bytes d.b) (replicate 4 0), length-int_bytes d.b);
}

prints_nothing : PrintsNothing S (loopback-PrintLaws (97 ∷ 98 ∷ []))
unfolding recv sendto loopback-PrintLaws
prints_nothing = record { printed-recv = λ s n w. refl; printed-sendto = λ s m a w. refl }

printed-once_each-publish_each_example :
    (once_each udp 10
      (printing S ten_thousandths data_codec fourth)
      (publish_each udp publisher (Ps.packed S ten_thousandths data_codec 10 0) machine)).printed
    ≡ lines ten_thousandths data_codec 10 0
unfolding loopback-PrintLaws udp-Delivery loopback-DeliveryLaws mail-DeliveryLaws
printed-once_each-publish_each_example =
    printed-once_each-publish_each S ten_thousandths data_codec data_laws
      (loopback-PrintLaws (97 ∷ 98 ∷ [])) network prints_apart prints_nothing publisher fourth
      localhost machine (omega arith) refl refl refl

-- msg.cpp with both structs packed into two bytes.
abbrev one_byte : Codec (Msg.DataT ℕ)
one_byte = record {
  pack = λ m. m.a / 1000 ∷ 3 ∷ [];
  unpack = λ m. record { a = 11000; b = pos 3 };
  size = 2;
}

abbrev other_byte : Codec (Msg.Data2T ℕ)
other_byte = record {
  pack = λ m. m.a / 1000 ∷ 6 ∷ [];
  unpack = λ m. record { a = 22000; b = pos 6 };
  size = 2;
}

msg_test :
    (Msg.main S ten_thousandths one_byte other_byte machine).printed
    ≡ "22," ∷ "6," ∷ "\n" ∷ "good: 11000 3\n" ∷ "size of contructed: 1024\n" ∷ []
unfolding Msg.main to_decimal int_to_decimal
msg_test = refl
