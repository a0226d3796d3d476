-- ===== src/Datagram/Unix.antt =====
-- `class SocketUnix` of cpp/src/marko/socket_uds.hpp.
use marko.Base.{ℕ, Bool, true, Option, none, some, [], St, pure, ◌>>=◌}
use marko.Base.Int.{ℤ, pos, beq_ℤ}
use marko.System.{Message, UnixAddr, System}
use marko.Socket.{Socket, new, make_socket}
use marko.Datagram.Class.{SocketClass, filled, stored_addr}

module _ (S : System) where
  open S use {World, unix, af_unix, sock_dgram}

  -- `SocketUnix()`. Whether the socket was made is not looked at.
  unfoldable pub make : World → Socket × World
  unfolding new make_socket
  make w = let made = make_socket S (new S) af_unix sock_dgram (pos 0) w in (made.0.1, made.1)

  unfoldable pub recvfrom : Socket → ℕ → Option UnixAddr → ℤ → St World (Message × Option UnixAddr)
  unfolding filled
  recvfrom s msg_size none flags = pure ([], none)
  recvfrom s msg_size (some from_addr) flags = do
    r ← unix.recvfrom s.socket_fd msg_size flags true
    pure (filled S msg_size r.num r.stored, some (stored_addr unix.zero_addr r.source))

  unfoldable pub recv : Socket → ℕ → ℤ → St World Message
  unfolding filled
  recv s msg_size flags = do r ← S.recv s.socket_fd msg_size flags; pure (filled S msg_size r.0 r.1)

  unfoldable pub sendto : Socket → Message → UnixAddr → ℤ → St World ℤ
  sendto s msg addr flags = unix.sendto s.socket_fd msg flags addr

  unfoldable pub connect : Socket → UnixAddr → St World Bool
  connect s addr = pure true

  unfoldable pub bind : Socket → UnixAddr → St World Bool
  bind s addr = do err ← unix.bind s.socket_fd addr; pure (beq_ℤ err (pos 0))

  abbrev pub socket_unix : SocketClass World UnixAddr
  socket_unix = record {
    make = make;
    zero_addr = unix.zero_addr;
    bind = bind;
    connect = connect;
    recvfrom = recvfrom;
    recv = recv;
    sendto = sendto;
  }
