-- ===== src/Info/Host.antt =====
-- `get_hostname` and `get_host_ip` of cpp/src/marko/info.hpp.
use marko.Base.{
  zero, suc, String, Option, none, some, [], ◌∷◌, length, replicate, leb, overwrite, if◌then◌else◌,
  St, pure, ◌>>=◌,
}
use marko.Base.Int.{pos, is_negative}
use marko.System.{Message, InetAddr, System}
use mathlib.Core.Option

-- `std::string(name)`: the bytes before the first zero. `none` is a read past the buffer's end.
unfoldable pub c_string : Message → Option Message
c_string [] = none
c_string (zero ∷ bytes) = some []
c_string (suc b ∷ bytes) = Option.map (λ rest. suc b ∷ rest) (c_string bytes)

-- A call stores `stored` in a buffer. `none` is a write past the buffer's end.
unfoldable pub write_buffer : Message → Message → Option Message
unfolding overwrite
write_buffer buffer stored =
    if leb (length stored) (length buffer) then some (overwrite buffer stored) else none

module _ (S : System) where
  open S use {World, inet, af_inet, sock_dgram, inaddr_any, inet_sockaddr}

  -- `name` has 256 bytes, and the call is told 265. `none` is undefined behaviour.
  unfoldable pub get_hostname : St World (Option Message)
  unfolding c_string write_buffer
  get_hostname = do
    r ← S.getnameinfo (inet_sockaddr "udp://127.0.0.1:9000") 265 (pos 0)
    pure (Option.bind (write_buffer (replicate 256 0) r.1) c_string)

  -- The struct that `getsockname` is handed.
  abbrev pub any_address : InetAddr
  any_address = record inet.zero_addr { sin_family = af_inet; s_addr = inaddr_any }

  unfoldable pub get_host_ip : St World String
  get_host_ip = do
    sockfd ← S.socket af_inet sock_dgram (pos 0)
    if is_negative sockfd then pure "" else (do
      ignored ← inet.connect sockfd (inet_sockaddr "udp://9.9.9.9:9999")
      r ← inet.getsockname sockfd any_address
      if is_negative r.0
          then pure ""
          else (do closed ← S.close_fd sockfd; pure (S.inet_ntoa r.1.s_addr)))
