-- ===== src/System.antt =====
-- What the library calls and does not implement, as one record: the constants and the calls of the
-- operating system (sys/socket.h, netinet/in.h, sys/un.h, netdb.h, unistd.h), `std::this_thread::
-- sleep_for`, standard output, and `socket_defs.hpp`, which comes from the git submodule
-- cpp/src/socket_defs. The state of the machine is the unknown type `World`.
pub mod Trace
pub mod Laws
pub mod Loopback
use marko.Base.{ℕ, String, Bool, Option, List}
use marko.Base.Int.{ℤ}

-- `message_t`, a `std::vector<uint8_t>` (cpp/readme.md).
abbrev pub Message : Type 0
Message = List ℕ

-- `struct timeval`
pub record Timeval : Type 0 where
  pub tv_sec : ℤ
  pub tv_usec : ℤ

-- `struct sockaddr_in`, by the fields that the library sets.
pub record InetAddr : Type 0 where
  pub sin_family : ℤ
  pub sin_port : ℕ
  pub s_addr : ℕ

-- `struct sockaddr_un`
pub record UnixAddr : Type 0 where
  pub sun_family : ℤ
  pub sun_path : String

pub record Constants : Type 0 where
  pub af_inet : ℤ
  pub af_unix : ℤ
  pub sock_dgram : ℤ
  pub sock_stream : ℤ
  pub sock_raw : ℤ
  pub sol_socket : ℤ
  pub ipproto_ip : ℤ
  pub so_type : ℤ
  pub so_acceptconn : ℤ
  pub so_broadcast : ℤ
  pub so_dontroute : ℤ
  pub so_error : ℤ
  pub so_oobinline : ℤ
  pub so_reuseaddr : ℤ
  pub so_reuseport : ℤ
  pub so_rcvbuf : ℤ
  pub so_rcvlowat : ℤ
  pub so_sndbuf : ℤ
  pub so_sndlowat : ℤ
  pub so_rcvtimeo : ℤ
  pub ip_multicast_if : ℤ
  pub ip_multicast_loop : ℤ
  pub ip_multicast_ttl : ℤ
  pub ip_ttl : ℤ
  pub fionbio : ℤ
  pub inaddr_any : ℕ
  pub fd_setsize : ℕ

-- socket_defs.hpp
pub record SocketDefs : Type 0 where
  pub socket_err : ℤ
  pub socket_timeout : ℤ
  pub inet_sockaddr : String → InetAddr
  pub to_string : InetAddr → String

-- The value that `setsockopt` is pointed to.
pub data OptionValue : Type 0 where
  int_value : ℤ → OptionValue
  timeval_value : Timeval → OptionValue

-- What `recvfrom` and `recv` do to their caller: the returned number, the bytes stored from the
-- start of the buffer on, and the address stored, if one was asked for.
pub record Received (Addr : Type 0) : Type 0 where
  pub num : ℤ
  pub stored : Message
  pub source : Option Addr

-- What `getsockopt` does to its caller: the returned number and the bytes stored.
pub record Fetched : Type 0 where
  pub err : ℤ
  pub bytes : Message

-- What `select` does to its caller; a set that was NULL stays absent.
pub record Selected : Type 0 where
  pub count : ℤ
  pub readfds : Option (List ℤ)
  pub writefds : Option (List ℤ)

-- The calls that take an address, at one type of address.
pub record AddressCalls (World Addr : Type 0) : Type 0 where
  -- `{0}`
  pub zero_addr : Addr
  pub bind : ℤ → Addr → World → ℤ × World
  pub connect : ℤ → Addr → World → ℤ × World
  -- Descriptor, size of the buffer, flags, and whether the address pointer is not NULL.
  pub recvfrom : ℤ → ℕ → ℤ → Bool → World → Received Addr × World
  pub sendto : ℤ → Message → ℤ → Addr → World → ℤ × World
  -- Descriptor and the address struct before; the struct after.
  pub getsockname : ℤ → Addr → World → (ℤ × Addr) × World

pub record System : Type 1 where
  pub constants : Constants
  pub open constants use *
  pub defs : SocketDefs
  pub open defs use *
  pub World : Type 0
  pub inet : AddressCalls World InetAddr
  pub unix : AddressCalls World UnixAddr
  pub socket : ℤ → ℤ → ℤ → World → ℤ × World
  pub close_fd : ℤ → World → ℤ × World
  pub setsockopt : ℤ → ℤ → ℤ → OptionValue → World → ℤ × World
  -- Descriptor, level, name, and the size of the buffer.
  pub getsockopt : ℤ → ℤ → ℤ → ℕ → World → Fetched × World
  -- Descriptor, request, and the `int` that is pointed to.
  pub ioctl : ℤ → ℤ → ℤ → World → ℤ × World
  pub select : ℤ → Option (List ℤ) → Option (List ℤ) → Timeval → World → Selected × World
  -- Descriptor, size of the buffer, flags.
  pub recv : ℤ → ℕ → ℤ → World → (ℤ × Message) × World
  -- Address, size given for the host name, flags; the bytes stored.
  pub getnameinfo : InetAddr → ℕ → ℤ → World → (ℤ × Message) × World
  pub inet_ntoa : ℕ → String
  -- Family, address, size of the buffer; `none` if nothing is stored.
  pub inet_ntop : ℤ → ℕ → ℕ → Option String
  -- The `int` and the address that these bytes are in memory.
  pub int_of_bytes : Message → ℤ
  pub addr_of_bytes : Message → ℕ
  pub errno : World → ℤ
  pub strerror : ℤ → String
  -- In microseconds.
  pub sleep_for : ℤ → World → World
  pub print : String → World → World
  -- Standard error.
  pub print_err : String → World → World
  -- The address that a dotted text is, and the text that bytes are.
  pub inet_addr : String → ℕ
  pub text_of_bytes : Message → String
