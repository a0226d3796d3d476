-- ===== src/Tests/Untouched.antt =====
-- What the calls of the library leave alone on the machine that runs the tests of cpp/gtests.
use marko.Base.{◌≡◌, refl, List, ℕ, Option, Bool-cases, inl, inr, none, some}
use marko.Base.Int.{ℤ, pos}
use marko.System.{UnixAddr, InetAddr, OptionValue, int_value, timeval_value}
use marko.Socket.{Socket, make_socket, new, close, reuse_socket}
use marko.System.Loopback.{Machine, set_option, in_use}
use marko.System.Loopback.Meets.{
  loopback-DeliveryLaws, loopback-UnixDeliveryLaws, mail-DeliveryLaws,
}
use marko.Datagram.Network.{udp-Delivery, unix-Delivery}
use marko.Datagram.Udp
use marko.Datagram.Unix
use marko.RequestReply.Answer.{LeavesNet}
use marko.Gtests.{Untouched}
use marko.Tests.Setting.{S, udp, network, unix, unix_network}

-- What no call of the library touches.
module _ {A : Type 0} (part : List (ℤ × ℤ) → ℤ → A) where
  abbrev see : Machine → A
  see w = part w.expectations w.counter

  see_option : (fd : ℤ) (v : OptionValue) (w : Machine) → see (set_option fd v w).1 ≡ see w
  see_option fd (int_value n) w = refl
  see_option fd (timeval_value tv) w = refl

  see_made : (f t p : ℤ) (w : Machine) → see (make_socket S (new S) f t p w).1 ≡ see w
  unfolding make_socket close
  see_made f t p w = elim (Bool-cases (w.opened (pos w.next))) [
    | inl taken ↦ rw taken
    | inr free ↦ rw free
  ]

  see_unix_bind : (fd : ℤ) (a : UnixAddr) (w : Machine) → see (S.unix.bind fd a w).1 ≡ see w
  see_unix_bind fd a w = elim (Bool-cases (in_use (w.unix.route a) w)) [
    | inl taken ↦ rw taken
    | inr free ↦ rw free
  ]

  see_udp_bind : (fd : ℤ) (a : InetAddr) (w : Machine) → see (S.inet.bind fd a w).1 ≡ see w
  see_udp_bind fd a w = elim (Bool-cases (in_use (w.inet.route a) w)) [
    | inl taken ↦ rw taken
    | inr free ↦ rw free
  ]

  see_unix :
      (s : Socket) (n : ℕ) (a : Option UnixAddr) (w : Machine)
      → see (unix.recvfrom s n a (pos 0) w).1 ≡ see w
  unfolding Unix.recvfrom
  see_unix s n none w = refl
  see_unix s n (some a) w = refl

  see_udp :
      (s : Socket) (n : ℕ) (a : Option InetAddr) (w : Machine)
      → see (udp.recvfrom s n a (pos 0) w).1 ≡ see w
  unfolding Udp.recvfrom
  see_udp s n none w = refl
  see_udp s n (some a) w = refl

  pub unix-Untouched : Untouched S unix see
  unfolding Unix.make Unix.bind Unix.connect Unix.recv Unix.sendto
  unix-Untouched = record {
    of_make = λ w. see_made S.af_unix S.sock_dgram (pos 0) w;
    of_bind = λ s a w. see_unix_bind s.socket_fd a w;
    of_connect = λ s a w. refl;
    of_recvfrom = see_unix;
    of_recv = λ s n w. refl;
    of_sendto = λ s m a w. refl;
    of_close_fd = λ fd w. refl;
    of_sleep_for = λ d w. refl;
  }

  pub udp-Untouched : Untouched S udp see
  unfolding Udp.make Udp.bind Udp.connect Udp.recv Udp.sendto Udp.recvfrom reuse_socket
  udp-Untouched = record {
    of_make = λ w. see_made S.af_inet S.sock_dgram (pos 0) w;
    of_bind = λ s a w. see_udp_bind s.socket_fd a w;
    of_connect = λ s a w. see_udp_bind s.socket_fd a w;
    of_recvfrom = see_udp;
    of_recv = λ s n w. refl;
    of_sendto = λ s m a w. refl;
    of_close_fd = λ fd w. refl;
    of_sleep_for = λ d w. refl;
  }

-- What is no call of the machine leaves its network alone.
pub udp-LeavesNet :
    (part : Machine → List (ℤ × ℤ) × ℤ)
    → LeavesNet udp network (λ w. record w { expectations = (part w).0; counter = (part w).1 })
unfolding udp-Delivery loopback-DeliveryLaws mail-DeliveryLaws
udp-LeavesNet part = record { same_net = λ w. (λ b. refl, λ d. refl); same_queue = λ w d. refl }

pub unix-LeavesNet :
    (part : Machine → List (ℤ × ℤ) × ℤ)
    → LeavesNet unix unix_network
        (λ w. record w { expectations = (part w).0; counter = (part w).1 })
unfolding unix-Delivery loopback-UnixDeliveryLaws mail-DeliveryLaws
unix-LeavesNet part = record { same_net = λ w. (λ b. refl, λ d. refl); same_queue = λ w d. refl }
