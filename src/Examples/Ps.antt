-- ===== src/Examples/Ps.antt =====
-- cpp/examples/ps.cpp: a publisher and a subscriber.
pub mod Lines
use text.Mathlib.Text.{◌==◌ as str_eq}
use marko.Base.{ℕ, zero, suc, String, ◌<>◌, List, [], ◌∷◌, if◌then◌else◌}
use marko.Base.Int.{ℤ, pos}
use marko.Base.Decimal.{to_decimal, int_to_decimal}
use marko.System.{Message, System}
use marko.Socket.{newline}
use marko.Datagram.Udp.{socket_udp}
use marko.Info.Host.{get_host_ip}
use marko.PubSub.Threads.{pub_example, sub_example}
use marko.Examples.Structs.{Codec, Doubles}

abbrev pub port : ℕ
port = 3000

abbrev pub max_loop : ℕ
max_loop = 10

pub record DataT (Double : Type 0) : Type 0 where
  pub a : Double
  pub b : ℤ

-- What `data_t::print` writes.
abbrev pub data_line : (F : Doubles) → Codec (DataT F.Double) → DataT F.Double → String
data_line F codec d =
    "data_t "
    <> (F.text d.a
        <> (" " <> (int_to_decimal d.b <> (" size " <> (to_decimal codec.size <> newline)))))

module _ (S : System) (F : Doubles) (codec : Codec (DataT F.Double)) where
  open S use {World}

  -- `data_t::print`
  abbrev pub print : DataT F.Double → World → World
  print d w = S.print (data_line F codec d) w

  -- What the loop of `pub` publishes, from `i` on.
  unfoldable pub packed : ℕ → ℕ → List Message
  packed zero i = []
  packed (suc rounds) i =
      codec.pack (record { a = F.decimal 12 1; b = pos i }) ∷ packed rounds (suc i)

  -- `pub`, with the text in the global `HOST`.
  unfoldable pub run_pub : String → World → World
  unfolding pub_example packed
  run_pub host w =
      pub_example S (socket_udp S)
        (S.inet_sockaddr ("udp://" <> (host <> (":" <> to_decimal port)))) (packed max_loop 0) w

  unfoldable pub cb : Message → World → World
  cb m w = print (codec.unpack m) w

  unfoldable pub run_sub : World → World
  unfolding sub_example cb
  run_sub w =
      sub_example S (socket_udp S) codec.size (S.inet_sockaddr ("udp://*:" <> to_decimal port)) cb
        max_loop w

  -- The program, of which `HOST` is set first, and its exit status.
  unfoldable pub main : List String → World → ℕ × World
  unfolding get_host_ip run_pub run_sub
  main args w =
      let (host, w1) = get_host_ip S w in
      elim args [
        | name ∷ arg ∷ [] ↦
            if str_eq arg "p"
            then (0, run_pub host w1)
            else if str_eq arg "s"
            then (0, run_sub w1)
            else (
              0,
              S.print ("Usage: ./ps p|s" <> (newline <> (" publisher send 10 messages" <> newline)))
                  w1,
            )
        | _ ↦ (1, S.print ("Usage: ./ps p|s" <> newline) w1)
      ]
