-- ===== src/Datagram/Udp.antt =====
-- `class SocketUDP` of cpp/src/marko/socket_udp.hpp.
use marko.Base.{
  ℕ, String, Bool, true, false, not, Option, none, some, St, pure, ◌>>=◌, if◌then◌else◌,
}
use marko.Base.Int.{ℤ, pos, beq_ℤ}
use marko.System.{Message, InetAddr, System}
use marko.Socket.{Socket, new, make_socket, reuse_socket}
use marko.Datagram.Class.{SocketClass, filled, stored_addr}

module _ (S : System) where
  open S use {World, inet, af_inet, sock_dgram, to_string}

  -- `SocketUDP()`. Whether the socket was made is not looked at.
  unfoldable pub make : World → Socket × World
  unfolding new make_socket
  make w = let made = make_socket S (new S) af_inet sock_dgram (pos 0) w in (made.0.1, made.1)

  unfoldable pub bind : Socket → InetAddr → St World Bool
  bind s addr = do err ← inet.bind s.socket_fd addr; pure (beq_ℤ err (pos 0))

  unfoldable pub connect : Socket → InetAddr → St World Bool
  unfolding bind reuse_socket
  connect s addr = do reused ← reuse_socket S s true; if not reused then pure false else bind s addr

  unfoldable pub recvfrom : Socket → ℕ → Option InetAddr → ℤ → St World (Message × Option InetAddr)
  unfolding filled
  recvfrom s msg_size none flags = do
    r ← inet.recvfrom s.socket_fd msg_size flags false
    pure (filled S msg_size r.num r.stored, none)
  recvfrom s msg_size (some from_addr) flags = do
    r ← inet.recvfrom s.socket_fd msg_size flags true
    pure (filled S msg_size r.num r.stored, some (stored_addr inet.zero_addr r.source))

  unfoldable pub recv : Socket → ℕ → ℤ → St World Message
  unfolding recvfrom
  recv s msg_size flags = do r ← recvfrom s msg_size none flags; pure r.0

  unfoldable pub sendto : Socket → Message → InetAddr → ℤ → St World ℤ
  sendto s msg addr flags = inet.sendto s.socket_fd msg flags addr

  unfoldable pub getsockname : Socket → St World String
  getsockname s = do
    r ← inet.getsockname s.socket_fd inet.zero_addr
    pure (if not (beq_ℤ r.0 (pos 0)) then "" else to_string r.1)

  abbrev pub socket_udp : SocketClass World InetAddr
  socket_udp = record {
    make = make;
    zero_addr = inet.zero_addr;
    bind = bind;
    connect = connect;
    recvfrom = recvfrom;
    recv = recv;
    sendto = sendto;
  }
