-- ===== src/Gtests/Topics/Pass.antt =====
-- The tests of cpp/gtests/test_ps.cpp pass: what they expect, and that it holds.
use mathlib.Core.List.{append_assoc, append-nil}
use marko.Base.{
  ℕ, zero, suc, ◌+◌, ◌≤◌, ◌<◌, ◌≡◌, refl, sym, ap, ◌∙◌, List, [], ◌∷◌, ◌++◌, map, some, length,
  arith,
}
use marko.Base.Int.{ℤ, pos, ◌+ℤ◌, beq_ℤ_refl}
use marko.System.{Message, System}
use marko.Time.{msleep}
use marko.Datagram.Class.{SocketClass}
use marko.Datagram.Network.{Delivery}
use marko.PubSub.{
  Publisher, Subscriber, call_all, new_subscriber, register_cb, new_publisher, connect,
  register_addr,
}
use marko.PubSub.Session.{publish_each, once_each, publish-one, queue-publish_each, once-received}
use marko.RequestReply.Answer.{LeavesNet}
use marko.Examples.Structs.{Codec}
use marko.Gtests.{Gtest, GtestLaws, Untouched, see-close}
use marko.Gtests.Topics.{loop, PsdataT, Global, callback, packed, start, pub_sub}

-- What `pack` and `unpack` promise of the struct, as long as its `int` is one.
pub record PsdataLaws (codec : Codec PsdataT) : Type 0 where
  pub read :
      (n : ℕ)
      → n < 0x8000_0000
      → codec.unpack (codec.pack (record { a = pos n })) ≡ record { a = pos n }
  pub sized : (d : PsdataT) → length (codec.pack d) ≡ codec.size
  pub some_bytes : 0 < codec.size

-- The variable and what is expected do not touch each other.
pub record GlobalLaws (World : Type 0) (G : Gtest World) (L : GtestLaws World G) (K : Global World)
    : Type 0 where
  pub value-set : (i : ℤ) (w : World) → K.value (K.set i w) ≡ i
  pub value-expect_eq : (a b : ℤ) (w : World) → K.value (G.expect_eq a b w) ≡ K.value w
  pub expected-set : (i : ℤ) (w : World) → L.expected (K.set i w) ≡ L.expected w

abbrev pub pairs : ℕ → ℕ → List (ℤ × ℤ)
pairs zero i = []
pairs (suc rounds) i = (pos i, pos i) ∷ pairs rounds (suc i)

next : (i : ℕ) → pos i +ℤ pos 1 ≡ pos (suc i)
unfolding ◌+ℤ◌
next i = ground arith

see-publish_each :
    {S : System} {Addr : Type 0} {C : SocketClass S.World Addr} {A : Type 0} {see : S.World → A}
    (D : Delivery S.World Addr C)
    → Untouched S C see
    → (p : Publisher Addr) (a : Addr) (msgs : List Message) (w : S.World) → p.clientaddrs ≡ a ∷ []
    → see (publish_each C p msgs w) ≡ see w
unfolding publish_each
see-publish_each D X p a [] w one = refl
see-publish_each {C = C} D X p a (m ∷ msgs) w one =
    see-publish_each D X p a msgs _ one ∙ rw (publish-one C D p a m w one) (X.of_sendto _ _ _ w)

module _ (S : System) (G : Gtest S.World) (L : GtestLaws S.World G) (K : Global S.World)
    (V : GlobalLaws S.World G L K) (codec : Codec PsdataT) (R : PsdataLaws codec) {Addr : Type 0}
    (C : SocketClass S.World Addr) (D : Delivery S.World Addr C) (X : Untouched S C L.expected)
    (Y : Untouched S C K.value) (expects_left : (a b : ℤ) → LeavesNet C D (G.expect_eq a b))
    (set_left : (i : ℤ) → LeavesNet C D (K.set i)) where
  open S use {World}

  abbrev called : ℕ → World → World
  called i w = callback G K codec (codec.pack (record { a = pos i })) w

  pub expected-callback :
      (i : ℕ) (w : World)
      → i < 0x8000_0000
      → K.value w ≡ pos i
      → L.expected (called i w) ≡ L.expected w ++ (pos i, pos i) ∷ []
  unfolding callback
  expected-callback i w small counted =
      L.expected-expect_eq _ _ _
      ∙ rw (counted, V.expected-set) (ap (λ d. L.expected w ++ (d.a, pos i) ∷ []) (R.read i small))

  pub value-callback : (i : ℕ) (w : World) → K.value w ≡ pos i → K.value (called i w) ≡ pos (suc i)
  unfolding callback
  value-callback i w counted = V.value-expect_eq _ _ _ ∙ V.value-set _ w ∙ rw counted (next i)

  pub queue-callback :
      (m : Message) (w : World) (d : ℤ) → D.queue (callback G K codec m w) d ≡ D.queue w d
  unfolding callback
  queue-callback m w d = (expects_left _ _).same_queue _ d ∙ (set_left _).same_queue w d

  pub value-start :
      (addr : Addr) (w : World) → K.value (start S G K codec C addr (K.set (pos 0) w)).1 ≡ pos 0
  unfolding start new_subscriber new_publisher connect msleep
  value-start addr w =
      Y.of_connect _ addr _
      ∙ Y.of_make _
      ∙ Y.of_sleep_for _ _
      ∙ Y.of_bind _ addr _
      ∙ Y.of_make _
      ∙ V.value-set (pos 0) w

  pub expected-start :
      (addr : Addr) (w : World)
      → L.expected (start S G K codec C addr (K.set (pos 0) w)).1 ≡ L.expected w
  unfolding start new_subscriber new_publisher connect msleep
  expected-start addr w =
      X.of_connect _ addr _
      ∙ X.of_make _
      ∙ X.of_sleep_for _ _
      ∙ X.of_bind _ addr _
      ∙ X.of_make _
      ∙ V.expected-set (pos 0) w

  -- The subscriber's loop.
  module _ (s : Subscriber World) (one : s.callbacks ≡ callback G K codec ∷ [])
      (size : s.data_size ≡ codec.size) where
    expected-once_each :
        (rounds i : ℕ) (from : Addr) (w : World)
        → i + rounds ≤ 0x8000_0000
        → D.queue w s.socket.socket_fd ≡ map (λ m. (m, from)) (packed codec rounds i)
        → K.value w ≡ pos i
        → L.expected (once_each C rounds s w) ≡ L.expected w ++ pairs rounds i
    unfolding once_each packed call_all callback
    expected-once_each zero i from w small waiting counted = sym (append-nil (L.expected w))
    expected-once_each (suc rounds) i from w small waiting counted =
        let (later_small, now_small) : (suc i + rounds ≤ 0x8000_0000) × (i < 0x8000_0000) =
          omega arith in
        let m = codec.pack (record { a = pos i }) in
        let taken : World = (C.recv s.socket s.data_size (pos 0) w).1 in
        let later : List (Message × Addr) = map (λ x. (x, from)) (packed codec rounds (suc i)) in
        let received =
          once-received C D s (omega (arith, size, R.some_bytes)) m from later w
            (R.sized _ ∙ sym size) waiting
          ∙ rw one in
        let counted' = Y.of_recv s.socket s.data_size w ∙ counted in
        let left =
          queue-callback m taken s.socket.socket_fd
          ∙ D.recv-queue s.socket s.data_size w m from later s.socket.socket_fd waiting
          ∙ rw (beq_ℤ_refl s.socket.socket_fd) in
        ap (λ x. L.expected (once_each C rounds s x)) received
        ∙ expected-once_each rounds (suc i) from (called i taken) later_small left
            (value-callback i taken counted')
        ∙ rw (expected-callback i taken now_small counted', X.of_recv)
            (append_assoc (L.expected w) _ _)

  -- A test of test_ps.cpp expects of the five callbacks' data to be 0, 1, 2, 3 and 4, in order, as
  -- `i` counts, and they are, where the publisher's loop runs before the subscriber's, the network
  -- delivers from the end of the set-up on, the address leads to the subscriber, and nothing waits
  -- there. `pack` and `unpack` keep the struct's `int`; no call of the library expects anything or
  -- touches `i`.
  pub expected-pub_sub :
      (addr : Addr) (w : World)
      → D.route (start S G K codec C addr (K.set (pos 0) w)).1 addr
        ≡ some (start S G K codec C addr (K.set (pos 0) w)).0.1.socket.socket_fd
      → D.queue
          (start S G K codec C addr (K.set (pos 0) w)).1
          (start S G K codec C addr (K.set (pos 0) w)).0.1.socket.socket_fd
        ≡ []
      → L.expected (pub_sub S G K codec C addr w)
        ≡ L.expected w
          ++ (pos 0, pos 0) ∷ (pos 1, pos 1) ∷ (pos 2, pos 2) ∷ (pos 3, pos 3) ∷ (pos 4, pos 4) ∷ []
  unfolding pub_sub start new_subscriber register_cb new_publisher connect register_addr msleep
  expected-pub_sub addr w routed idle =
      let ((p, s), started) = start S G K codec C addr (K.set (pos 0) w) in
      let sent : World = publish_each C p (packed codec loop 0) started in
      let in_range : 0 + loop ≤ 0x8000_0000 = omega arith in
      let from = D.name started p.socket.socket_fd in
      let waiting =
        queue-publish_each C D p addr s.socket.socket_fd from (packed codec loop 0) started refl
          routed refl
        ∙ rw idle in
      see-close S X p.socket _
      ∙ see-close S X s.socket _
      ∙ expected-once_each s refl refl loop 0 from sent in_range waiting
          (see-publish_each D Y p addr (packed codec loop 0) started refl ∙ value-start addr w)
      ∙ ap (λ es. es ++ pairs loop 0)
          (see-publish_each D X p addr (packed codec loop 0) started refl ∙ expected-start addr w)
