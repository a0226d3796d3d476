-- ===== src/Gtests/Topics/AnyOrder.antt =====
-- The tests of cpp/gtests/test_ps.cpp with the rounds of their two loops in any order.
use mathlib.Core.List.{append_assoc, append-nil, map-append}
use marko.Base.{
  ℕ, zero, suc, ◌+◌, ◌<◌, ◌≡◌, refl, sym, ap, ◌∙◌, some, List, [], ◌∷◌, ◌++◌, map, length, arith,
}
use marko.Base.Int.{ℤ, pos, beq_ℤ_refl}
use marko.System.{Message, System}
use marko.Time.{msleep}
use marko.Datagram.Class.{SocketClass}
use marko.Datagram.Network.{Datagram, Delivery}
use marko.PubSub.{
  Publisher, Subscriber, publish, once, call_all, new_subscriber, register_cb, new_publisher,
  connect, register_addr,
}
use marko.PubSub.Session.{publish-one, once-received}
use marko.RequestReply.Answer.{LeavesNet}
use marko.Examples.Structs.{Codec}
use marko.Gtests.{Gtest, GtestLaws, Untouched}
use marko.Gtests.Topics.{loop, PsdataT, Global, callback, packed, start}
use marko.Gtests.Topics.Pass.{
  PsdataLaws, GlobalLaws, pairs, expected-callback, value-callback, queue-callback, value-start,
  expected-start,
}

-- How far the loops are: the rounds of the publisher's and of the subscriber's that are done. A round
-- of the subscriber's is one in which a datagram waits.
pub data Rounds {World Addr : Type 0} (C : SocketClass World Addr) (D : Delivery World Addr C)
    (codec : Codec PsdataT) (p : Publisher Addr) (s : Subscriber World) (w : World)
    : ℕ → ℕ → World → Type 0 where
  begun : Rounds C D codec p s w 0 0 w
  publishes :
      {n k : ℕ} {w' : World}
      → Rounds C D codec p s w n k w'
      → n < loop
      → Rounds C D codec p s w (suc n) k (publish C p (codec.pack (record { a = pos n })) w')
  takes :
      {n k : ℕ} {w' : World} (m : Message) (b : Addr) (rest : List (Datagram Addr))
      → Rounds C D codec p s w n k w'
      → k < loop
      → D.queue w' s.socket.socket_fd ≡ (m, b) ∷ rest
      → Rounds C D codec p s w n (suc k) (once C s w')

packed-last :
    (codec : Codec PsdataT) (rounds i n : ℕ)
    → i + rounds ≡ n
    → packed codec rounds i ++ codec.pack (record { a = pos n }) ∷ [] ≡ packed codec (suc rounds) i
unfolding packed
packed-last codec zero i n e =
    ap (λ j. codec.pack (record { a = pos j }) ∷ []) (sym e ∙ omega arith)
packed-last codec (suc rounds) i n e =
    ap (◌∷◌ (codec.pack (record { a = pos i }))) (packed-last codec rounds (suc i) n (omega arith))

pairs-last :
    (rounds i n : ℕ) → i + rounds ≡ n → pairs rounds i ++ (pos n, pos n) ∷ [] ≡ pairs (suc rounds) i
pairs-last zero i n e = ap (λ j. (pos j, pos j) ∷ []) (sym e ∙ omega arith)
pairs-last (suc rounds) i n e = ap (◌∷◌ (pos i, pos i)) (pairs-last rounds (suc i) n (omega arith))

-- The first of the messages that wait.
first_packed :
    {Addr : Type 0} (codec : Codec PsdataT) (left k : ℕ) (m : Message) (b : Addr)
    (rest : List (Datagram Addr))
    → map (λ d. d.0) ((m, b) ∷ rest) ≡ packed codec left k
    → (left' : ℕ) × (left ≡ suc left')
      × (m ≡ codec.pack (record { a = pos k }))
      × (map (λ d. d.0) rest ≡ packed codec left' (suc k))
unfolding packed
first_packed codec zero k m b rest e = absurd (cc e)
first_packed codec (suc left) k m b rest e = (left, refl, cc e, cc e)

module _ (S : System) (G : Gtest S.World) (L : GtestLaws S.World G) (K : Global S.World)
    (V : GlobalLaws S.World G L K) (codec : Codec PsdataT) (R : PsdataLaws codec) {Addr : Type 0}
    (C : SocketClass S.World Addr) (D : Delivery S.World Addr C) (X : Untouched S C L.expected)
    (Y : Untouched S C K.value) (expects_left : (a b : ℤ) → LeavesNet C D (G.expect_eq a b))
    (set_left : (i : ℤ) → LeavesNet C D (K.set i)) where
  open S use {World}

  route-callback :
      (m : Message) (w : World) (a : Addr) → D.route (callback G K codec m w) a ≡ D.route w a
  unfolding callback
  route-callback m w a = ((expects_left _ _).same_net _).0 a ∙ ((set_left _).same_net w).0 a

  module _ (p : Publisher Addr) (s : Subscriber World) (a : Addr) (before : List (ℤ × ℤ))
      (to : p.clientaddrs ≡ a ∷ []) (one : s.callbacks ≡ callback G K codec ∷ [])
      (size : s.data_size ≡ codec.size) where
    -- Between rounds: what waits has been published and not taken, `i` counts what was taken, and so
    -- many expectations have been made.
    record IsBetween (n k : ℕ) (w : World) : Type 0 where
      pub left : ℕ
      pub sum : k + left ≡ n
      pub waits : map (λ d. d.0) (D.queue w s.socket.socket_fd) ≡ packed codec left k
      pub counted : K.value w ≡ pos k
      pub made : L.expected w ≡ before ++ pairs k 0
      pub routed : D.route w a ≡ some s.socket.socket_fd

    publish-IsBetween :
        (n k : ℕ) (w : World)
        → IsBetween n k w
        → IsBetween (suc n) k (publish C p (codec.pack (record { a = pos n })) w)
    publish-IsBetween n k w v =
        let m = codec.pack (record { a = pos n }) in
        let queued : D.queue (C.sendto p.socket m a (pos 0) w).1 s.socket.socket_fd
            ≡ D.queue w s.socket.socket_fd ++ (m, D.name w p.socket.socket_fd) ∷ [] =
          D.sendto-queue p.socket s.socket.socket_fd m a w s.socket.socket_fd v.routed
          ∙ rw (beq_ℤ_refl s.socket.socket_fd) in
        rw (publish-one C D p a m w to) (record {
          left = suc v.left;
          sum = omega (arith, v.sum);
          waits =
              rw (queued, map-append)
                (ap (λ ms. ms ++ m ∷ []) v.waits ∙ packed-last codec v.left k n v.sum);
          counted = Y.of_sendto _ _ _ w ∙ v.counted;
          made = X.of_sendto _ _ _ w ∙ v.made;
          routed = (D.sendto-route p.socket m a w).0 a ∙ v.routed;
        })

    once-IsBetween :
        (n k : ℕ) (w : World) (m : Message) (b : Addr) (rest : List (Datagram Addr))
        → k < loop
        → D.queue w s.socket.socket_fd ≡ (m, b) ∷ rest
        → IsBetween n k w
        → IsBetween n (suc k) (once C s w)
    unfolding call_all
    once-IsBetween n k w m b rest small first v =
        let (left', more, same, others) =
          first_packed codec v.left k m b rest (ap (map (λ d. d.0)) (sym first) ∙ v.waits) in
        let taken : World = (C.recv s.socket s.data_size (pos 0) w).1 in
        let counted' : K.value taken ≡ pos k = Y.of_recv s.socket s.data_size w ∙ v.counted in
        let received : once C s w ≡ callback G K codec m taken =
          once-received C D s (omega (arith, size, R.some_bytes)) m b rest w
            (ap length same ∙ R.sized _ ∙ sym size) first
          ∙ rw one in
        rw (received, same)
          (record {
            left = left';
            sum = omega (arith, v.sum, more);
            waits =
                ap (map (λ d. d.0)) (
                  queue-callback S G L K V codec R C D X Y expects_left set_left _ taken
                    s.socket.socket_fd
                  ∙ D.recv-queue s.socket s.data_size w m b rest s.socket.socket_fd first
                  ∙ rw (beq_ℤ_refl s.socket.socket_fd))
                ∙ others;
            counted =
                value-callback S G L K V codec R C D X Y expects_left set_left k taken counted';
            made =
                expected-callback S G L K V codec R C D X Y expects_left set_left k taken
                  (omega arith) counted'
                ∙ rw (X.of_recv, v.made)
                    (append_assoc before (pairs k 0) _
                      ∙ ap (λ es. before ++ es) (pairs-last k 0 k (omega arith)));
            routed =
                route-callback _ taken a ∙ (D.recv-route s.socket s.data_size w).0 a ∙ v.routed;
          })

    Rounds-IsBetween :
        {w : World} {n k : ℕ} {w' : World}
        → Rounds C D codec p s w n k w'
        → IsBetween 0 0 w
        → IsBetween n k w'
    Rounds-IsBetween begun v = v
    Rounds-IsBetween (publishes {n = n} {k = k} {w' = w'} rounds small) v =
        publish-IsBetween n k w' (Rounds-IsBetween rounds v)
    Rounds-IsBetween (takes {n = n} {k = k} {w' = w'} m b rest rounds small first) v =
        once-IsBetween n k w' m b rest small first (Rounds-IsBetween rounds v)

  -- In a test of test_ps.cpp, in whatever order the rounds of the two loops come and wherever they
  -- stand: when the subscriber has done `k` rounds, the data of the first `k` callbacks were expected
  -- to be 0, 1 and so on, in order, as `i` counts, and they were; and the messages that wait are
  -- those published and not taken, in order. The network delivers from the end of the set-up on, the address leads to the
  -- subscriber, and nothing waits there at first; `pack` and `unpack` keep the struct's `int`; no
  -- call of the library expects anything or touches `i`.
  pub expected-Rounds :
      (addr : Addr) (w w' : World) (n k : ℕ)
      → D.route (start S G K codec C addr (K.set (pos 0) w)).1 addr
        ≡ some (start S G K codec C addr (K.set (pos 0) w)).0.1.socket.socket_fd
      → D.queue
          (start S G K codec C addr (K.set (pos 0) w)).1
          (start S G K codec C addr (K.set (pos 0) w)).0.1.socket.socket_fd
        ≡ []
      → Rounds C D codec
          (start S G K codec C addr (K.set (pos 0) w)).0.0
          (start S G K codec C addr (K.set (pos 0) w)).0.1
          (start S G K codec C addr (K.set (pos 0) w)).1
          n
          k
          w'
      → (L.expected w' ≡ L.expected w ++ pairs k 0)
        × (left : ℕ) × (k + left ≡ n)
        × (map
              (λ d. d.0)
              (D.queue w' (start S G K codec C addr (K.set (pos 0) w)).0.1.socket.socket_fd)
            ≡ packed codec left k)
  unfolding start new_subscriber register_cb new_publisher connect register_addr msleep packed
  expected-Rounds addr w w' n k routed none_waits rounds =
      let ((p, s), started) = start S G K codec C addr (K.set (pos 0) w) in
      let at_start : IsBetween p s addr (L.expected w) refl refl refl 0 0 started = record {
        left = 0;
        sum = omega arith;
        waits = ap (map (λ d. d.0)) none_waits;
        counted = value-start S G L K V codec R C D X Y expects_left set_left addr w;
        made =
            expected-start S G L K V codec R C D X Y expects_left set_left addr w
            ∙ sym (append-nil (L.expected w));
        routed = routed;
      } in
      let v = Rounds-IsBetween p s addr (L.expected w) refl refl refl rounds at_start in
      (v.made, v.left, v.sum, v.waits)
