-- ===== src/Datagram/Class.antt =====
-- What the class templates take as `SOCKET` and `SOCKADDR`: the methods of a datagram socket over
-- addresses `Addr`. `SocketUDP` (Udp.antt) and `SocketUnix` (Unix.antt) are the two that are used.
use marko.Base.{ℕ, Option, none, some, Bool, [], replicate, ◌||◌, if◌then◌else◌, overwrite, St}
use marko.Base.Int.{ℤ, pos, beq_ℤ}
use marko.System.{Message, System}
use marko.Socket.{Socket}

pub record SocketClass (World Addr : Type 0) : Type 0 where
  -- The constructor.
  pub make : World → Socket × World
  -- `{0}`
  pub zero_addr : Addr
  pub bind : Socket → Addr → St World Bool
  pub connect : Socket → Addr → St World Bool
  -- Size, what `from_addr` points to (`none` is NULL), flags. The result has what it points to then.
  pub recvfrom : Socket → ℕ → Option Addr → ℤ → St World (Message × Option Addr)
  pub recv : Socket → ℕ → ℤ → St World Message
  pub sendto : Socket → Message → Addr → ℤ → St World ℤ

-- `message_t dst(n)`: n bytes that are zero.
abbrev pub zeros : ℕ → Message
zeros n = replicate n 0

-- The message that the receiving methods return for a call that returned `num` and stored
-- `stored`: `if (num == SOCKET_TIMEOUT || num == 0) dst.clear();`.
unfoldable pub filled : (S : System) → ℕ → ℤ → Message → Message
unfolding overwrite
filled S msg_size num stored =
    if beq_ℤ num S.socket_timeout || beq_ℤ num (pos 0)
    then []
    else overwrite (zeros msg_size) stored

-- The address struct after a call that may have stored one.
abbrev pub stored_addr {ℓ} : {A : Type ℓ} → A → Option A → A
stored_addr before none = before
stored_addr before (some a) = a
