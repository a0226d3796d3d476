-- ===== src/Gtests.antt =====
-- The tests of cpp/gtests: what they use of googletest, as a parameter, and what
-- calls leave the expectations alone.
pub mod SetUp
pub mod Requests
pub mod Topics
use marko.Base.{
  ℕ, ◌≡◌, refl, Bool, true, Bool-cases, inl, inr, Option, some, List, [], ◌∷◌, ◌++◌, if◌then◌else◌,
}
use marko.Base.Int.{ℤ, pos, beq_ℤ, ◌*ℤ◌}
use marko.System.{Message, System}
use marko.Socket.{Socket, close}
use marko.Datagram.Class.{SocketClass}

-- EXPECT_EQ on two integers; a test that does not hold is noted and the program goes on.
pub record Gtest (World : Type 0) : Type 0 where
  pub expect_eq : ℤ → ℤ → World → World

-- The pairs that were expected to be equal, in order.
pub record GtestLaws (World : Type 0) (G : Gtest World) : Type 0 where
  pub expected : World → List (ℤ × ℤ)
  pub expected-expect_eq :
      (a b : ℤ) (w : World) → expected (G.expect_eq a b w) ≡ expected w ++ (a, b) ∷ []

-- The calls of a socket class, of the destructor and of a sleep leave alone what `see` sees.
pub record Untouched (S : System) {Addr : Type 0} (C : SocketClass S.World Addr) {A : Type 0}
    (see : S.World → A) : Type 0 where
  pub of_make : (w : S.World) → see (C.make w).1 ≡ see w
  pub of_bind : (s : Socket) (a : Addr) (w : S.World) → see (C.bind s a w).1 ≡ see w
  pub of_connect : (s : Socket) (a : Addr) (w : S.World) → see (C.connect s a w).1 ≡ see w
  pub of_recvfrom :
      (s : Socket) (n : ℕ) (a : Option Addr) (w : S.World)
      → see (C.recvfrom s n a (pos 0) w).1 ≡ see w
  pub of_recv : (s : Socket) (n : ℕ) (w : S.World) → see (C.recv s n (pos 0) w).1 ≡ see w
  pub of_sendto :
      (s : Socket) (m : Message) (a : Addr) (w : S.World) → see (C.sendto s m a (pos 0) w).1 ≡ see w
  pub of_close_fd : (fd : ℤ) (w : S.World) → see (S.close_fd fd w).1 ≡ see w
  pub of_sleep_for : (d : ℤ) (w : S.World) → see (S.sleep_for d w) ≡ see w

pub see-close :
    (S : System) {Addr : Type 0} {C : SocketClass S.World Addr} {A : Type 0} {see : S.World → A}
    → Untouched S C see
    → (s : Socket) (w : S.World) → see (close S s w).1 ≡ see w
unfolding close
see-close S X s w = elim (Bool-cases (beq_ℤ s.socket_fd S.socket_err)) [
  | inl closed ↦ rw closed
  | inr opened ↦ rw opened (X.of_close_fd _ w)
]
