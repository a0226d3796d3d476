-- ===== src/Info/Report.antt =====
-- `class SocketInfo` of cpp/src/marko/info.hpp. What an uninitialised local holds is an argument.
use marko.Base.{
  ℕ, String, ◌<>◌, ◌||◌, Option, none, some, List, [], ◌∷◌, length, replicate, ◌==◌, if◌then◌else◌,
  overwrite, St, pure, ◌>>=◌,
}
use marko.Base.Int.{ℤ, pos, beq_ℤ, is_negative}
use marko.Base.Decimal.{to_decimal, int_to_decimal}
use marko.System.{Message, System}
use marko.Socket.{newline}
use marko.Info.Options.{
  int_type, bool_type, type_type, timeval_type, SocketTypes, SoOpts, index, socket_opts_sol,
}

pub record SocketInfo : Type 0 where
  pub socket_fd : ℤ
  pub socket_types : List (ℤ × String)

-- The first byte of a buffer after a call that stored `bytes` there: `u_char val`.
abbrev pub stored_byte : ℕ → Message → ℕ
stored_byte val [] = val
stored_byte val (b ∷ bytes) = b

-- `u_char val` and `socklen_t size`, which the calls of `getsockopt` share.
pub record Locals : Type 0 where
  pub val : ℕ
  pub size : ℕ

abbrev pub text_or_empty : Option String → String
text_or_empty none = ""
text_or_empty (some text) = text

module _ (S : System) where
  open S use {
    World, inet, sol_socket, ipproto_ip, so_type, sock_dgram, sock_stream, af_inet, ip_multicast_if,
    ip_multicast_loop, ip_multicast_ttl, ip_ttl, to_string,
  }

  -- `getsockopt(socket_fd, level, name, &val, &size)`; `size` is set by a call that succeeds.
  unfoldable pub fetch_byte : ℤ → ℤ → ℤ → Locals → St World Locals
  fetch_byte fd level name v = do
    r ← S.getsockopt fd level name v.size
    pure (record {
      val = stored_byte v.val r.bytes;
      size = if beq_ℤ r.err (pos 0) then length r.bytes else v.size;
    })

  -- What the loop of `info_so` prints for an option, if anything, and the table after it.
  unfoldable pub describe : List (ℤ × String) → SoOpts → ℕ → Option String × List (ℤ × String)
  unfolding index
  describe types m val = elim m.type [
    | int_type ↦ (some (m.description <> (": " <> to_decimal val)), types)
    | bool_type ↦ (some (m.description <> (": " <> (if val == 0 then "false" else "true"))), types)
    | type_type ↦
        (some (m.description <> (": " <> (index types (pos val)).0)), (index types (pos val)).1)
    | timeval_type ↦ (none, types)
  ]

  -- A line of the report, which stands behind two spaces.
  unfoldable pub print_line : Option String → World → World
  print_line none w = w
  print_line (some line) w = S.print ("  " <> (line <> newline)) w

  unfoldable pub info_so_loop :
      ℤ → List (ℤ × String) → List SoOpts → Locals → World → List (ℤ × String) × World
  unfolding fetch_byte describe print_line
  info_so_loop fd types [] v w = (types, w)
  info_so_loop fd types (m ∷ opts) v w =
      let (v', w') = fetch_byte fd sol_socket m.val v w in
      let (line, types') = describe types m v'.val in
      info_so_loop fd types' opts v' (print_line line w')

  unfoldable pub info_so : ℕ → SocketInfo → World → SocketInfo × World
  unfolding info_so_loop
  info_so val si w =
      let w' = S.print (" [Socket Layer]-----------------" <> newline) w in
      let (types, w'') =
        info_so_loop si.socket_fd si.socket_types (socket_opts_sol S)
          (record { val = val; size = 1 }) w' in
      (record si { socket_types = types }, w'')

  unfoldable pub getsockname : SocketInfo → St World String
  getsockname si = do
    r ← inet.getsockname si.socket_fd inet.zero_addr
    pure (if is_negative r.0 then "" else to_string r.1)

  abbrev pub enabled : ℕ → String
  enabled val = if val == 0 then "disabled" else "enabled"

  -- `addr` starts as zeros and `ip` as the empty text.
  unfoldable pub info_ip : ℕ → SocketInfo → World → World
  unfolding fetch_byte print_line
  info_ip val si w =
      let fd = si.socket_fd in
      let w1 = S.print (" [IP Protocol]-----------------" <> newline) w in
      let (r, w2) = S.getsockopt fd ipproto_ip ip_multicast_if 4 w1 in
      let s_addr = S.addr_of_bytes (overwrite (replicate 4 0) r.bytes) in
      let ip = text_or_empty (S.inet_ntop af_inet s_addr 32) in
      let w3 = print_line (some ("multicast IF: " <> ip)) w2 in
      let (v1, w4) =
        fetch_byte fd ipproto_ip ip_multicast_loop (record { val = val; size = 1 }) w3 in
      let w5 = print_line (some ("multicast loopback: " <> enabled v1.val)) w4 in
      let (v2, w6) = fetch_byte fd ipproto_ip ip_multicast_ttl v1 w5 in
      let w7 = print_line (some ("multicast TTL: " <> to_decimal v2.val)) w6 in
      let (v3, w8) = fetch_byte fd ipproto_ip ip_ttl v2 w7 in
      print_line (some ("IP TTL: " <> to_decimal v3.val)) w8

  -- What the locals of `info` and of the two methods hold before they are set.
  abbrev pub Unset : Type 0
  Unset = record { type : Message; so_val : ℕ; ip_val : ℕ }

  unfoldable pub info : Unset → SocketInfo → String → SocketTypes → World → SocketInfo × World
  unfolding getsockname
  info unset si s st w =
      let heading = "[" <> (s <> (" Socket] =====================================" <> newline)) in
      let (name, w1) = getsockname si (S.print heading w) in
      let w2 = print_line (some ("bind/connect to: " <> name)) w1 in
      let w3 = print_line (some ("file descriptor: " <> int_to_decimal si.socket_fd)) w2 in
      let (r, w4) = S.getsockopt si.socket_fd sol_socket so_type 4 w3 in
      let type = S.int_of_bytes (overwrite unset.type r.bytes) in
      let (si', w5) =
        (if beq_ℤ type sock_dgram || beq_ℤ type sock_stream
          then info_so unset.so_val si w4
          else (si, w4)) in
      (si', if beq_ℤ type sock_dgram then info_ip unset.ip_val si' w5 else w5)
