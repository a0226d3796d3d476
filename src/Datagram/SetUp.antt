-- ===== src/Datagram/SetUp.antt =====
-- What a system does when a socket is made and bound, at the sockets of cpp/src/marko/socket_udp.hpp
-- and socket_uds.hpp. Network has what it does with datagrams.
use marko.Base.{
  ◌≡◌, ◌≢◌, ◌∙◌, Bool, true, false, Bool-cases, inl, inr, [], some, arith, if◌then◌else◌,
}
use marko.Base.Int.{ℤ, pos, negsuc, beq_ℤ, beq_ℤ_iff, beq_ℤ_refl, is_negative}
use marko.System.{InetAddr, UnixAddr, OptionValue, AddressCalls, System}
use marko.System.Laws.{Descriptors}
use marko.Socket.{Socket, new, close, make_socket, setsockopt, reuse_socket}
use marko.Socket.Lifecycle.{make_socket-Owns}
use marko.Datagram.Class.{SocketClass}
use marko.Datagram.Network.{DeliveryLaws, Delivery, udp-Delivery, unix-Delivery, RecvIsRecvfrom}
use marko.Datagram.Udp
use marko.Datagram.Udp.{socket_udp}
use marko.Datagram.Unix
use marko.Datagram.Unix.{socket_unix}

-- At one type of address: nothing waits at the descriptor that `socket` opens; a `bind` that succeeds
-- has the address lead to the descriptor, and leaves alone where the other addresses lead, as one that fails
-- does with all.
pub record BindLaws (S : System) {Addr : Type 0} (c : AddressCalls S.World Addr)
    (L : DeliveryLaws S.World Addr c) : Type 0 where
  pub socket-queue :
      (f t p : ℤ) (w : S.World) (d : ℤ)
      → is_negative (S.socket f t p w).0 ≡ false
      → L.queue (S.socket f t p w).1 d ≡ (if beq_ℤ d (S.socket f t p w).0 then [] else L.queue w d)
  pub socket-route :
      (f t p : ℤ) (w : S.World) (b : Addr) → L.route (S.socket f t p w).1 b ≡ L.route w b
  pub bind-queue :
      (fd : ℤ) (a : Addr) (w : S.World) (d : ℤ) → L.queue (c.bind fd a w).1 d ≡ L.queue w d
  pub bind-route :
      (fd : ℤ) (a : Addr) (w : S.World)
      → (c.bind fd a w).0 ≡ pos 0
      → L.route (c.bind fd a w).1 a ≡ some fd
  pub bind-other_route :
      (fd : ℤ) (a b : Addr) (w : S.World) → b ≢ a → L.route (c.bind fd a w).1 b ≡ L.route w b
  pub bind-refused_route :
      (fd : ℤ) (a b : Addr) (w : S.World)
      → beq_ℤ (c.bind fd a w).0 (pos 0) ≡ false
      → L.route (c.bind fd a w).1 b ≡ L.route w b
  pub setsockopt-queue :
      (fd l n : ℤ) (v : OptionValue) (w : S.World) (d : ℤ)
      → L.queue (S.setsockopt fd l n v w).1 d ≡ L.queue w d
  pub setsockopt-route :
      (fd l n : ℤ) (v : OptionValue) (w : S.World) (b : Addr)
      → L.route (S.setsockopt fd l n v w).1 b ≡ L.route w b

-- The same of a socket class. A socket is made if its descriptor is not negative.
pub record SetUp (S : System) (E : Descriptors S) {Addr : Type 0} (C : SocketClass S.World Addr)
    (D : Delivery S.World Addr C) : Type 0 where
  pub make-fresh : (w : S.World) → E.is_open w (C.make w).0.socket_fd ≡ false
  pub make-opens :
      (w : S.World)
      → is_negative (C.make w).0.socket_fd ≡ false
      → E.is_open (C.make w).1 (C.make w).0.socket_fd ≡ true
  pub make-queue :
      (w : S.World) (d : ℤ)
      → is_negative (C.make w).0.socket_fd ≡ false
      → D.queue (C.make w).1 d ≡ (if beq_ℤ d (C.make w).0.socket_fd then [] else D.queue w d)
  pub make-route :
      (w : S.World) (b : Addr)
      → is_negative (C.make w).0.socket_fd ≡ false
      → D.route (C.make w).1 b ≡ D.route w b
  pub bind-keeps :
      (s : Socket) (a : Addr) (w : S.World) (d : ℤ) → E.is_open (C.bind s a w).1 d ≡ E.is_open w d
  pub bind-queue :
      (s : Socket) (a : Addr) (w : S.World) (d : ℤ) → D.queue (C.bind s a w).1 d ≡ D.queue w d
  pub bind-route :
      (s : Socket) (a : Addr) (w : S.World)
      → (C.bind s a w).0 ≡ true
      → D.route (C.bind s a w).1 a ≡ some s.socket_fd
  pub bind-other_route :
      (s : Socket) (a b : Addr) (w : S.World) → b ≢ a → D.route (C.bind s a w).1 b ≡ D.route w b

module _ (S : System) (E : Descriptors S) (invalid : is_negative S.socket_err ≡ true) where
  not_error : (fd : ℤ) → is_negative fd ≡ false → beq_ℤ fd S.socket_err ≡ false
  not_error fd made = ground (arith, beq_ℤ_iff fd S.socket_err)

  negative-close :
      (fd : ℤ) (w : S.World)
      → is_negative fd ≡ true
      → is_negative (close S (record { socket_fd = fd }) w).0.socket_fd ≡ true
  unfolding close
  negative-close fd w failed = ground arith

  made_fd :
      (f t p : ℤ) (w : S.World)
      → is_negative (make_socket S (new S) f t p w).0.1.socket_fd ≡ false
      → (make_socket S (new S) f t p w
          ≡ ((true, record { socket_fd = (S.socket f t p w).0 }), (S.socket f t p w).1))
        × (is_negative (S.socket f t p w).0 ≡ false)
  unfolding make_socket
  made_fd f t p w made = elim (Bool-cases (is_negative (S.socket f t p w).0)) [
    | inl failed ↦
        cc (negative-close (S.socket f t p w).0 (S.socket f t p w).1 failed, rw failed at made)
    | inr opened ↦ (rw opened, opened)
  ]

  -- A constructor that makes a socket of a family.
  module _ {Addr : Type 0} (c : AddressCalls S.World Addr) (L : DeliveryLaws S.World Addr c)
      (B : BindLaws S c L) (f t p : ℤ) (w : S.World) where
    abbrev made : (Bool × Socket) × S.World
    made = make_socket S (new S) f t p w

    made-fresh : E.is_open w made.0.1.socket_fd ≡ false
    made-fresh = (make_socket-Owns S E invalid f t p w).0

    module _ (success : is_negative made.0.1.socket_fd ≡ false) where
      made-opens : E.is_open made.1 made.0.1.socket_fd ≡ true
      made-opens =
          (make_socket-Owns S E invalid f t p w).1 made.0.1.socket_fd
          ∙ rw (beq_ℤ_refl made.0.1.socket_fd, not_error made.0.1.socket_fd success)

      made-queue :
          (d : ℤ) → L.queue made.1 d ≡ (if beq_ℤ d made.0.1.socket_fd then [] else L.queue w d)
      made-queue d =
          let (same, opened) = made_fd f t p w success in rw same (B.socket-queue f t p w d opened)

      made-route : (b : Addr) → L.route made.1 b ≡ L.route w b
      made-route b =
          let (same, opened) = made_fd f t p w success in rw same (B.socket-route f t p w b)

-- The two classes on a system that promises it.
module _ (S : System) (timeout : S.socket_timeout ≡ negsuc 0)
    (invalid : is_negative S.socket_err ≡ true) (E : Descriptors S) where
  pub udp-SetUp :
      (L : DeliveryLaws S.World InetAddr S.inet)
      → BindLaws S S.inet L
      → SetUp S E (socket_udp S) (udp-Delivery S timeout L)
  unfolding udp-Delivery Udp.make Udp.bind
  udp-SetUp L B = record {
    make-fresh = λ w. made-fresh S E invalid S.inet L B S.af_inet S.sock_dgram (pos 0) w;
    make-opens = λ w. made-opens S E invalid S.inet L B S.af_inet S.sock_dgram (pos 0) w;
    make-queue = λ w d h. made-queue S E invalid S.inet L B S.af_inet S.sock_dgram (pos 0) w h d;
    make-route = λ w b h. made-route S E invalid S.inet L B S.af_inet S.sock_dgram (pos 0) w h b;
    bind-keeps = λ s a w d. E.inet_keeps.bind-keeps s.socket_fd a w d;
    bind-queue = λ s a w d. B.bind-queue s.socket_fd a w d;
    bind-route = λ s a w h. B.bind-route s.socket_fd a w ((beq_ℤ_iff _ _).0 h);
    bind-other_route = λ s a b w h. B.bind-other_route s.socket_fd a b w h;
  }

  pub unix-SetUp :
      (L : DeliveryLaws S.World UnixAddr S.unix) (recvs : RecvIsRecvfrom S)
      → BindLaws S S.unix L
      → SetUp S E (socket_unix S) (unix-Delivery S timeout L recvs)
  unfolding unix-Delivery Unix.make Unix.bind
  unix-SetUp L recvs B = record {
    make-fresh = λ w. made-fresh S E invalid S.unix L B S.af_unix S.sock_dgram (pos 0) w;
    make-opens = λ w. made-opens S E invalid S.unix L B S.af_unix S.sock_dgram (pos 0) w;
    make-queue = λ w d h. made-queue S E invalid S.unix L B S.af_unix S.sock_dgram (pos 0) w h d;
    make-route = λ w b h. made-route S E invalid S.unix L B S.af_unix S.sock_dgram (pos 0) w h b;
    bind-keeps = λ s a w d. E.unix_keeps.bind-keeps s.socket_fd a w d;
    bind-queue = λ s a w d. B.bind-queue s.socket_fd a w d;
    bind-route = λ s a w h. B.bind-route s.socket_fd a w ((beq_ℤ_iff _ _).0 h);
    bind-other_route = λ s a b w h. B.bind-other_route s.socket_fd a b w h;
  }

-- What `setsockopt` leaves alone, `reuseSocket` does.
see-reuse_socket :
    (S : System) {A : Type 0} (see : S.World → A)
    → ((fd l n : ℤ) (v : OptionValue) (w : S.World) → see (S.setsockopt fd l n v w).1 ≡ see w)
    → (s : Socket) (w : S.World) → see (reuse_socket S s true w).1 ≡ see w
unfolding reuse_socket setsockopt
see-reuse_socket S see kept s w =
    let (answer, w') = setsockopt S s S.sol_socket S.so_reuseport (pos 1) w in
    elim (Bool-cases answer) [
      | inl done ↦ rw done (kept _ _ _ _ w)
      | inr refused ↦ rw refused (kept _ _ _ _ w' ∙ kept _ _ _ _ w)
    ]

module _ (S : System) (L : DeliveryLaws S.World InetAddr S.inet) (B : BindLaws S S.inet L)
    (s : Socket) (a : InetAddr) (w : S.World) where
  -- `SocketUDP::connect` puts nothing in a queue and takes nothing from one.
  pub queue-connect : (d : ℤ) → L.queue (Udp.connect S s a w).1 d ≡ L.queue w d
  unfolding Udp.connect Udp.bind
  queue-connect d =
      let (reused, w') = reuse_socket S s true w in
      let same =
        see-reuse_socket S (λ x. L.queue x d) (λ fd l n v x. B.setsockopt-queue fd l n v x d) s w in
      elim (Bool-cases reused) [
        | inl done ↦ rw done (B.bind-queue _ a w' d ∙ same)
        | inr refused ↦ rw refused same
      ]

  -- If it answers false, every address leads where it led.
  pub route-connect :
      (b : InetAddr)
      → (Udp.connect S s a w).0 ≡ false
      → L.route (Udp.connect S s a w).1 b ≡ L.route w b
  unfolding Udp.connect Udp.bind
  route-connect b refused =
      let (reused, w') = reuse_socket S s true w in
      let same =
        see-reuse_socket S (λ x. L.route x b) (λ fd l n v x. B.setsockopt-route fd l n v x b) s w in
      elim (Bool-cases reused) [
        | inl done ↦ rw done (B.bind-refused_route _ a b w' (rw done at refused) ∙ same)
        | inr undone ↦ rw undone same
      ]
