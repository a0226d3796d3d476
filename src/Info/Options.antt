-- ===== src/Info/Options.antt =====
-- The tables of `class SocketInfo` of cpp/src/marko/info.hpp.
use marko.Base.{String, Option, none, some, List, [], ◌∷◌, ◌++◌, if◌then◌else◌}
use marko.Base.Int.{ℤ, beq_ℤ}
use marko.System.{System}

-- `enum SocketTypes`
pub data SocketTypes : Type 0 where
  udp uds tcp : SocketTypes

-- `enum dataTypes`
pub data DataTypes : Type 0 where
  int_type bool_type type_type timeval_type : DataTypes

pub record SoOpts : Type 0 where
  pub val : ℤ
  pub description : String
  pub type : DataTypes

abbrev pub opt : ℤ → String → DataTypes → SoOpts
opt val description type = record { val = val; description = description; type = type }

-- `std::map<int,std::string>`: its entries, and `operator[]`, which adds a missing key.
abbrev pub lookup : ℤ → List (ℤ × String) → Option String
lookup k [] = none
lookup k ((j, text) ∷ entries) = if beq_ℤ k j then some text else lookup k entries

unfoldable pub index : List (ℤ × String) → ℤ → String × List (ℤ × String)
index entries k = elim (lookup k entries) [
  | some text ↦ (text, entries)
  | none ↦ ("", entries ++ (k, "") ∷ [])
]

module _ (S : System) where
  abbrev pub socket_types : List (ℤ × String)
  socket_types = (S.sock_dgram, "DGRAM") ∷ (S.sock_raw, "RAW") ∷ (S.sock_stream, "STREAM") ∷ []

  abbrev pub socket_opts_sol : List SoOpts
  socket_opts_sol =
      opt S.so_type "socket type" type_type
      ∷ opt S.so_acceptconn "Accepting connections" bool_type
      ∷ opt S.so_broadcast "Broadcast messages supported" bool_type
      ∷ opt S.so_dontroute "Bypass normal routing" bool_type
      ∷ opt S.so_error "Socket error status" bool_type
      ∷ opt S.so_oobinline "Out-of-band data is transmitted in line" bool_type
      ∷ opt S.so_reuseaddr "SO_REUSEADDR" bool_type
      ∷ opt S.so_reuseport "SO_REUSEPORT" bool_type
      ∷ opt S.so_rcvbuf "Receive buffer size" int_type
      ∷ opt S.so_rcvlowat "receive low water mark" int_type
      ∷ opt S.so_sndbuf "Send buffer size" int_type
      ∷ opt S.so_sndlowat "send low water mark" int_type
      ∷ []
