-- ===== src/System/Laws.antt =====
-- What the system's documentation says of its calls, in the parts that the theorems use. Each is
-- met by the machine of Loopback.
use mathlib.Core.Option
use marko.Base.{
  ℕ, ◌%◌, ◌≡◌, String, Bool, true, false, Option, some, List, [], length, replicate, overwrite, ◌∷◌,
  ◌++◌, if◌then◌else◌,
}
use marko.Base.Int.{ℤ, pos, beq_ℤ, is_negative}
use marko.System.{
  Message, Timeval, InetAddr, UnixAddr, OptionValue, timeval_value, AddressCalls, System,
}
use marko.Time.Timeout.{duration_usec}

-- select(2): when the time is over no descriptor is left in a set; on an error the sets are as
-- they were.
pub record SelectLaws (S : System) : Type 0 where
  pub select-timeout :
      (n : ℤ) (r v : Option (List ℤ)) (tv : Timeval) (w : S.World)
      → (S.select n r v tv w).0.count ≡ pos 0
      → ((S.select n r v tv w).0.readfds ≡ Option.map (λ _. []) r)
        × ((S.select n r v tv w).0.writefds ≡ Option.map (λ _. []) v)
  pub select-error :
      (n : ℤ) (r v : Option (List ℤ)) (tv : Timeval) (w : S.World)
      → is_negative (S.select n r v tv w).0.count ≡ true
      → ((S.select n r v tv w).0.readfds ≡ r) × ((S.select n r v tv w).0.writefds ≡ v)

-- SO_RCVTIMEO in socket(7): a call that succeeds sets the time that a receiving call waits.
pub record TimeoutLaws (S : System) : Type 0 where
  -- In microseconds.
  pub receive_timeout : S.World → ℤ → ℤ
  pub receive_timeout-setsockopt :
      (fd : ℤ) (tv : Timeval) (w : S.World)
      → (S.setsockopt fd S.sol_socket S.so_rcvtimeo (timeval_value tv) w).0 ≡ pos 0
      → receive_timeout (S.setsockopt fd S.sol_socket S.so_rcvtimeo (timeval_value tv) w).1 fd
        ≡ duration_usec tv

-- The calls at one type of address leave the open descriptors alone.
pub record KeepsOpen (World Addr : Type 0) (is_open : World → ℤ → Bool)
    (c : AddressCalls World Addr) : Type 0 where
  pub bind-keeps :
      (fd : ℤ) (a : Addr) (w : World) (d : ℤ) → is_open (c.bind fd a w).1 d ≡ is_open w d
  pub connect-keeps :
      (fd : ℤ) (a : Addr) (w : World) (d : ℤ) → is_open (c.connect fd a w).1 d ≡ is_open w d
  pub recvfrom-keeps :
      (fd : ℤ) (n : ℕ) (flags : ℤ) (b : Bool) (w : World) (d : ℤ)
      → is_open (c.recvfrom fd n flags b w).1 d ≡ is_open w d
  pub sendto-keeps :
      (fd : ℤ) (m : Message) (flags : ℤ) (a : Addr) (w : World) (d : ℤ)
      → is_open (c.sendto fd m flags a w).1 d ≡ is_open w d
  pub getsockname-keeps :
      (fd : ℤ) (a : Addr) (w : World) (d : ℤ) → is_open (c.getsockname fd a w).1 d ≡ is_open w d

-- Which descriptors are open: `socket` opens one that was not open, or fails; `close` closes the
-- one that it is given, and no other call opens or closes any. No negative descriptor is open.
pub record Descriptors (S : System) : Type 0 where
  pub is_open : S.World → ℤ → Bool
  pub open-negative : (w : S.World) (d : ℤ) → is_negative d ≡ true → is_open w d ≡ false
  pub socket-fresh :
      (f t p : ℤ) (w : S.World)
      → is_negative (S.socket f t p w).0 ≡ false
      → is_open w (S.socket f t p w).0 ≡ false
  pub socket-opens :
      (f t p : ℤ) (w : S.World) (d : ℤ)
      → is_open (S.socket f t p w).1 d ≡ (
          if is_negative (S.socket f t p w).0
          then is_open w d
          else if beq_ℤ d (S.socket f t p w).0
          then true
          else is_open w d)
  pub close-closes :
      (fd : ℤ) (w : S.World) (d : ℤ)
      → is_open (S.close_fd fd w).1 d ≡ (if beq_ℤ d fd then false else is_open w d)
  pub inet_keeps : KeepsOpen S.World InetAddr is_open S.inet
  pub unix_keeps : KeepsOpen S.World UnixAddr is_open S.unix
  pub setsockopt-keeps :
      (fd l n : ℤ) (v : OptionValue) (w : S.World) (d : ℤ)
      → is_open (S.setsockopt fd l n v w).1 d ≡ is_open w d
  pub ioctl-keeps :
      (fd r v : ℤ) (w : S.World) (d : ℤ) → is_open (S.ioctl fd r v w).1 d ≡ is_open w d
  pub select-keeps :
      (n : ℤ) (r v : Option (List ℤ)) (tv : Timeval) (w : S.World) (d : ℤ)
      → is_open (S.select n r v tv w).1 d ≡ is_open w d
  pub recv-keeps :
      (fd : ℤ) (n : ℕ) (flags : ℤ) (w : S.World) (d : ℤ)
      → is_open (S.recv fd n flags w).1 d ≡ is_open w d
  pub sleep_for-keeps : (t : ℤ) (w : S.World) (d : ℤ) → is_open (S.sleep_for t w) d ≡ is_open w d

-- Standard output as the texts printed so far; `getsockopt` and `getsockname` print nothing.
pub record PrintLaws (S : System) : Type 0 where
  pub printed : S.World → List String
  pub printed-print : (t : String) (w : S.World) → printed (S.print t w) ≡ printed w ++ t ∷ []
  pub printed-getsockopt :
      (fd l n : ℤ) (k : ℕ) (w : S.World) → printed (S.getsockopt fd l n k w).1 ≡ printed w
  pub printed-getsockname :
      (fd : ℤ) (a : InetAddr) (w : S.World) → printed (S.inet.getsockname fd a w).1 ≡ printed w

-- `getsockopt` at the level SOL_SOCKET with room for one byte, on a little-endian machine: it
-- truncates the option's `int` to its low byte.
pub record ByteLaws (S : System) (fd : ℤ) : Type 0 where
  pub value : ℤ → ℕ
  pub getsockopt-byte :
      (n : ℤ) (w : S.World)
      → (S.getsockopt fd S.sol_socket n 1 w).0 ≡ record { err = pos 0; bytes = value n % 256 ∷ [] }

-- A descriptor of which all that is asked for can be read: its type, its name, the options at the level
-- IPPROTO_IP with room for one byte, and the address of the interface for multicasts.
pub record Readable (S : System) (fd : ℤ) : Type 0 where
  pub options : ByteLaws S fd
  pub type : ℤ
  pub getsockopt-type :
      (before : Message) (w : S.World)
      → length before ≡ 4
      → S.int_of_bytes (overwrite before (S.getsockopt fd S.sol_socket S.so_type 4 w).0.bytes)
        ≡ type
  pub name : InetAddr
  pub getsockname-name :
      (w : S.World) → (S.inet.getsockname fd S.inet.zero_addr w).0 ≡ (pos 0, name)
  pub ip_value : ℤ → ℕ
  pub getsockopt-ip_byte :
      (n : ℤ) (w : S.World)
      → (S.getsockopt fd S.ipproto_ip n 1 w).0
        ≡ record { err = pos 0; bytes = ip_value n % 256 ∷ [] }
  pub interface : String
  pub getsockopt-interface :
      (w : S.World)
      → S.inet_ntop S.af_inet
          (S.addr_of_bytes (
            overwrite (replicate 4 0) (S.getsockopt fd S.ipproto_ip S.ip_multicast_if 4 w).0.bytes))
          32
        ≡ some interface
