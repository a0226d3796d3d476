-- ===== src/Examples/Ps/Lines.antt =====
-- A run of cpp/examples/ps.cpp: what the subscriber prints of what the publisher sends.
use marko.Base.{
  ℕ, zero, suc, ◌+◌, ◌≤◌, ◌<◌, ◌≡◌, refl, sym, ap, ◌∙◌, String, some, List, [], ◌∷◌, ◌++◌, map,
  length, arith,
}
use marko.Base.Int.{pos}
use marko.System.{Message, InetAddr, System}
use marko.System.Laws.{PrintLaws}
use marko.Socket.{Socket}
use marko.Datagram.Udp.{socket_udp}
use marko.Datagram.Network.{Delivery}
use marko.PubSub.{Publisher, Subscriber, call_all}
use marko.PubSub.Session.{AllSized, Watcher, publish_each, once_each, seen-once_each-publish_each}
use marko.Examples.Structs.{Codec, Doubles}
use marko.Examples.Console.{PrintsApart, PrintsNothing}
use marko.Examples.Ps.{DataT, data_line, packed, cb, max_loop}

-- What `pack` and `unpack` promise, as long as the `int` is one.
pub record DataLaws (F : Doubles) (codec : Codec (DataT F.Double)) : Type 0 where
  pub read :
      (n : ℕ)
      → n < 0x8000_0000
      → codec.unpack (codec.pack (record { a = F.decimal 12 1; b = pos n }))
        ≡ record { a = F.decimal 12 1; b = pos n }
  pub sized : (d : DataT F.Double) → length (codec.pack d) ≡ codec.size

module _ (F : Doubles) (codec : Codec (DataT F.Double)) where
  -- The lines for the numbers from `i` on.
  abbrev pub lines : ℕ → ℕ → List String
  lines zero i = []
  lines (suc rounds) i =
      data_line F codec (record { a = F.decimal 12 1; b = pos i }) ∷ lines rounds (suc i)

-- The subscriber on which `cb` is registered.
abbrev pub printing :
    (S : System) (F : Doubles) → Codec (DataT F.Double) → Socket → Subscriber S.World
printing S F codec s = record { socket = s; callbacks = cb S F codec ∷ []; data_size = codec.size }

module _ (S : System) (F : Doubles) (codec : Codec (DataT F.Double)) (L : DataLaws F codec) where
  packed-AllSized : (rounds i : ℕ) → AllSized codec.size (packed S F codec rounds i)
  unfolding packed
  packed-AllSized zero i = tt
  packed-AllSized (suc rounds) i = (L.sized _, packed-AllSized rounds (suc i))

  length-packed : (rounds i : ℕ) → length (packed S F codec rounds i) ≡ rounds
  unfolding packed
  length-packed zero i = refl
  length-packed (suc rounds) i = ap suc (length-packed rounds (suc i))

  abbrev note : Message → String
  note m = data_line F codec (codec.unpack m)

  map-packed :
      (rounds i : ℕ)
      → i + rounds ≤ 0x8000_0000
      → map note (packed S F codec rounds i) ≡ lines F codec rounds i
  unfolding packed
  map-packed zero i small = refl
  map-packed (suc rounds) i small =
      λ j. data_line F codec (L.read i (omega arith) j) ∷ map-packed rounds (suc i) (omega arith) j

  module _ (P : PrintLaws S) (D : Delivery S.World InetAddr (socket_udp S)) (A : PrintsApart S D)
      (N : PrintsNothing S P) where
    unfoldable printer : Watcher S.World InetAddr (socket_udp S) D (cb S F codec ∷ []) String note
    unfolding cb call_all
    printer = record {
      seen = P.printed;
      seen-call_all = λ m w. P.printed-print _ w;
      queue-call_all = λ m w d. A.same_queue _ w d;
      route-call_all = λ m w a. (A.same_net _ w).0 a;
      seen-recv = λ s n w. N.printed-recv s n w;
      seen-sendto = λ s m a w. N.printed-sendto s m a w;
    }

    -- The loops of ps.cpp's `pub` and `sub`, one after the other over a network that delivers: where
    -- nothing waits at first, the subscriber prints the ten lines of the ten data that the publisher
    -- sends, in order, where `unpack` gives back what was packed, of the struct's size.
    pub printed-once_each-publish_each :
        (p : Publisher InetAddr) (s : Socket) (a : InetAddr) (w : S.World)
        → 0 < codec.size
        → p.clientaddrs ≡ a ∷ []
        → D.route w a ≡ some s.socket_fd
        → D.queue w s.socket_fd ≡ []
        → P.printed (
            once_each
              (socket_udp S)
              max_loop
              (printing S F codec s)
              (publish_each (socket_udp S) p (packed S F codec max_loop 0) w))
          ≡ P.printed w ++ lines F codec max_loop 0
    unfolding printer
    printed-once_each-publish_each p s a w some_bytes one routed empty =
        let sent = packed S F codec max_loop 0 in
        ap
          (λ k. P.printed (
            once_each (socket_udp S) k (printing S F codec s)
              (publish_each (socket_udp S) p sent w)))
          (sym (length-packed max_loop 0))
        ∙ seen-once_each-publish_each (socket_udp S) D (printing S F codec s) printer some_bytes p a
            sent w one routed empty (packed-AllSized max_loop 0)
        ∙ ap (λ ls. P.printed w ++ ls) (map-packed max_loop 0 (omega arith))
