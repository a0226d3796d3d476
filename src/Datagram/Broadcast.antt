-- ===== src/Datagram/Broadcast.antt =====
-- `class SocketBC` of cpp/src/marko/socket_bc.hpp.
use marko.Base.{ℕ, ◌<>◌, St, pure, ◌>>=◌}
use marko.Base.Int.{ℤ, pos}
use marko.Base.Decimal.{to_decimal}
use marko.System.{Message, InetAddr, System}
use marko.Socket.{Socket, setsockopt}
use marko.Datagram.Udp.{make, sendto}

pub record SocketBc : Type 0 where
  pub socket : Socket
  pub bc_addr : InetAddr

module _ (S : System) where
  open S use {World, sol_socket, ipproto_ip, so_broadcast, ip_multicast_loop, inet_sockaddr}

  -- `SocketBC(port)`. Whether the options were set is not looked at.
  unfoldable pub new_bc : ℕ → World → SocketBc × World
  unfolding make setsockopt
  new_bc port = do
    s ← make S
    loud ← setsockopt S s sol_socket so_broadcast (pos 1)
    looped ← setsockopt S s ipproto_ip ip_multicast_loop (pos 1)
    pure (record { socket = s; bc_addr = inet_sockaddr ("udp://bc:" <> to_decimal port) })

  unfoldable pub cast : SocketBc → Message → St World ℤ
  unfolding sendto
  cast b msg = sendto S b.socket msg b.bc_addr (pos 0)
