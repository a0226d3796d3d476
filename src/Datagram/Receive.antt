-- ===== src/Datagram/Receive.antt =====
-- What the receiving methods of cpp/src/marko/socket_udp.hpp and socket_uds.hpp return: the size of
-- the buffer, or nothing.
use marko.Base.{
  ℕ, ◌-◌, ◌≤◌, ◌≡◌, refl, ◌⊎◌, inl, inr, Bool, false, Bool-cases, ◌||◌, ◌++◌, Option, none, some,
  length, length-replicate, length-overwrite, overwrite-replicate, ◌∙◌, arith, if◌then◌else◌,
}
use marko.Base.Int.{ℤ, pos, beq_ℤ}
use marko.System.{Message, InetAddr, UnixAddr, System}
use marko.Socket.{Socket}
use marko.Datagram.Class.{SocketClass, filled, zeros}
use marko.Datagram.Udp
use marko.Datagram.Unix

-- A call that returned `num` gave no message.
abbrev pub is_nothing : System → ℤ → Bool
is_nothing S num = beq_ℤ num S.socket_timeout || beq_ℤ num (pos 0)

pub length-filled :
    (S : System) (n : ℕ) (num : ℤ) (stored : Message)
    → length (filled S n num stored) ≡ (if is_nothing S num then 0 else n)
unfolding filled
length-filled S n num stored = elim (Bool-cases (is_nothing S num)) [
  | inl e ↦ rw e
  | inr e ↦ rw e (length-overwrite (zeros n) stored ∙ length-replicate n 0)
]

-- The bytes that a call stored, and zeros behind them.
pub filled-stored :
    (S : System) (n : ℕ) (num : ℤ) (stored : Message)
    → is_nothing S num ≡ false
    → length stored ≤ n
    → filled S n num stored ≡ stored ++ zeros (n - length stored)
unfolding filled
filled-stored S n num stored some_num fits = rw some_num (overwrite-replicate n 0 stored fits)

-- A receiving method of a class returns as many bytes as it was asked for, or none.
pub record SizedClass {World Addr : Type 0} (C : SocketClass World Addr) : Type 0 where
  pub length-recvfrom :
      (s : Socket) (n : ℕ) (a : Option Addr) (flags : ℤ) (w : World)
      → (length (C.recvfrom s n a flags w).0.0 ≡ 0) ⊎ (length (C.recvfrom s n a flags w).0.0 ≡ n)
  pub length-recv :
      (s : Socket) (n : ℕ) (flags : ℤ) (w : World)
      → (length (C.recv s n flags w).0 ≡ 0) ⊎ (length (C.recv s n flags w).0 ≡ n)

module _ (S : System) where
  length-filled_cases :
      (n : ℕ) (num : ℤ) (stored : Message)
      → (length (filled S n num stored) ≡ 0) ⊎ (length (filled S n num stored) ≡ n)
  length-filled_cases n num stored = ground (arith, length-filled S n num stored)

  udp_length-recvfrom :
      (s : Socket) (n : ℕ) (a : Option InetAddr) (flags : ℤ) (w : S.World)
      → (length (Udp.recvfrom S s n a flags w).0.0 ≡ 0)
        ⊎ (length (Udp.recvfrom S s n a flags w).0.0 ≡ n)
  unfolding Udp.recvfrom
  udp_length-recvfrom s n none flags w = length-filled_cases n _ _
  udp_length-recvfrom s n (some a) flags w = length-filled_cases n _ _

  unix_length-recvfrom :
      (s : Socket) (n : ℕ) (a : Option UnixAddr) (flags : ℤ) (w : S.World)
      → (length (Unix.recvfrom S s n a flags w).0.0 ≡ 0)
        ⊎ (length (Unix.recvfrom S s n a flags w).0.0 ≡ n)
  unfolding Unix.recvfrom
  unix_length-recvfrom s n none flags w = inl refl
  unix_length-recvfrom s n (some a) flags w = length-filled_cases n _ _

  -- `SocketUDP` and `SocketUnix` meet it, whatever the system answers: a datagram that is shorter
  -- than the buffer is returned in the buffer's size.
  pub udp-SizedClass : SizedClass (Udp.socket_udp S)
  unfolding Udp.recv
  udp-SizedClass = record {
    length-recvfrom = udp_length-recvfrom;
    length-recv = λ s n flags w. udp_length-recvfrom s n none flags w;
  }

  pub unix-SizedClass : SizedClass (Unix.socket_unix S)
  unfolding Unix.recv
  unix-SizedClass = record {
    length-recvfrom = unix_length-recvfrom;
    length-recv = λ s n flags w. length-filled_cases n _ _;
  }

-- Nothing, or as many bytes as were asked for.
abbrev pub IsWhole : ℕ → Message → Type 0
IsWhole n m = (length m ≡ 0) ⊎ (length m ≡ n)

-- Whatever the system answers, and whatever the size of the datagram: the receiving methods of
-- `SocketUDP` and of `SocketUnix` return no byte or exactly as many as they were asked for.
pub receives-IsWhole :
    (S : System) (s : Socket) (n : ℕ) (a : Option InetAddr) (b : Option UnixAddr) (flags : ℤ)
    (w : S.World)
    → IsWhole n (Udp.recvfrom S s n a flags w).0.0
      × IsWhole n (Udp.recv S s n flags w).0
      × IsWhole n (Unix.recvfrom S s n b flags w).0.0
      × IsWhole n (Unix.recv S s n flags w).0
receives-IsWhole S s n a b flags w =
    let udp = udp-SizedClass S in
    let unix = unix-SizedClass S in
    (
      udp.length-recvfrom s n a flags w,
      udp.length-recv s n flags w,
      unix.length-recvfrom s n b flags w,
      unix.length-recv s n flags w,
    )
