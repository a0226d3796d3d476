-- ===== src/Examples/Simple.antt =====
-- cpp/examples/simple.cpp: a publisher and a subscriber over the system calls alone. Its `exit` ends
-- the program; what an uninitialised local holds is an argument.
pub mod Address
pub mod Subscriber
pub mod Publisher
pub mod Conversation
use text.Mathlib.Text.{◌==◌ as str_eq}
use marko.Base.{
  ℕ, suc, zero, ◌+◌, ◌*◌, ◌/◌, ◌%◌, String, ◌<>◌, Bool, true, false, Option, none, some, List, [],
  ◌∷◌, ◌==◌, if◌then◌else◌, replicate, overwrite, St, pure,
}
use marko.Base.Int.{ℤ, pos, is_negative}
use marko.Base.Decimal.{to_decimal, int_to_decimal}
use marko.System.{Message, InetAddr, Received, int_value, System}
use marko.Socket.{newline}
use marko.Datagram.Class.{stored_addr}
use marko.Info.Host.{c_string}
use marko.Info.Report.{Locals, fetch_byte, print_line, enabled, text_or_empty}

-- `htons` and `ntohs` on a little-endian machine. The argument is turned into a `uint16_t`.
unfoldable pub htons : ℕ → ℕ
htons port = port % 256 * 256 + port / 256 % 256

unfoldable pub ntohs : ℕ → ℕ
ntohs port = port % 256 * 256 + port / 256 % 256

abbrev pub max_buffer_size : ℕ
max_buffer_size = 32

abbrev pub host : String
host = "127.0.0.1"

abbrev pub port : ℕ
port = 6666

abbrev pub max_loop : ℕ
max_loop = 5

-- "hello"
abbrev pub hello : Message
hello = 104 ∷ 101 ∷ 108 ∷ 108 ∷ 111 ∷ []

-- How a function of the program ends: it returns, it calls `exit(EXIT_FAILURE)`, or its behaviour is
-- undefined.
pub data Ending : Type 0 where
  returned exited undefined : Ending

-- The program's exit status; `none` where its behaviour is undefined.
abbrev pub exit_status : Ending → Option ℕ
exit_status returned = some 0
exit_status exited = some 1
exit_status undefined = none

-- What a round of `sub` comes to.
pub data Round : Type 0 where
  fails overruns : Round
  prints : String → Round

module _ (S : System) where
  open S use {
    World, inet, af_inet, sock_dgram, sol_socket, ipproto_ip, so_acceptconn, so_reuseaddr,
    so_reuseport, ip_multicast_loop, inaddr_any,
  }

  abbrev pub perror : String → World → World
  perror what w = S.print_err (what <> (": " <> (S.strerror (S.errno w) <> newline))) w

  -- `getUdpAddr(ip, port)`
  unfoldable pub get_udp_addr : String → ℕ → InetAddr
  unfolding htons
  get_udp_addr ip port = record {
    sin_family = af_inet;
    s_addr = S.inet_addr ip;
    sin_port = htons port;
  }

  -- `getUdpAddr(port)`
  unfoldable pub get_any_addr : ℕ → InetAddr
  unfolding htons
  get_any_addr port = record { sin_family = af_inet; s_addr = inaddr_any; sin_port = htons port }

  -- `ip` has 32 bytes that are zero.
  unfoldable pub get_ip_port : InetAddr → String
  unfolding ntohs
  get_ip_port addr =
      text_or_empty (S.inet_ntop af_inet addr.s_addr 32)
      <> (":" <> to_decimal (ntohs addr.sin_port))

  -- The returned number is not looked at.
  unfoldable pub getsockname : ℤ → St World String
  unfolding get_ip_port
  getsockname fd w = let (r, w') = inet.getsockname fd inet.zero_addr w in (get_ip_port r.1, w')

  abbrev pub true_or_false : ℕ → String
  true_or_false val = if val == 0 then "false" else "true"

  -- `val` is what the local holds before it is set.
  unfoldable pub info : ℕ → ℤ → World → World
  unfolding getsockname fetch_byte print_line
  info val fd w =
      let (hostinfo, w1) = getsockname fd w in
      let w2 = S.print ("Socket =====================================" <> newline) w1 in
      let w3 = print_line S (some ("bind/connect to: " <> hostinfo)) w2 in
      let w4 = print_line S (some ("fd: " <> int_to_decimal fd)) w3 in
      let (v1, w5) =
        fetch_byte S fd ipproto_ip ip_multicast_loop (record { val = val; size = 1 }) w4 in
      let w6 = print_line S (some ("multicast loopback: " <> enabled S v1.val)) w5 in
      let (v2, w7) = fetch_byte S fd sol_socket so_acceptconn v1 w6 in
      let w8 = print_line S (some ("accept connections: " <> enabled S v2.val)) w7 in
      let (v3, w9) = fetch_byte S fd sol_socket so_reuseaddr v2 w8 in
      let w10 = print_line S (some ("reuse addr: " <> true_or_false v3.val)) w9 in
      let (v4, w11) = fetch_byte S fd sol_socket so_reuseport v3 w10 in
      print_line S (some ("reuse port: " <> true_or_false v4.val)) w11

  -- The line for a datagram: `<< buffer` writes up to the first zero. `none` is a read past the end.
  unfoldable pub received_line : Message → InetAddr → Option String
  unfolding c_string get_ip_port
  received_line buffer from = elim (c_string buffer) [
    | some text ↦
        some ("Received " <> (S.text_of_bytes text <> (" from " <> (get_ip_port from <> newline))))
    | none ↦ none
  ]

  -- A round of `sub`, after the call. Both buffers are cleared before it.
  unfoldable pub round : Received InetAddr → Round
  unfolding received_line overwrite
  round r = elim (is_negative r.num) [
    | true ↦ fails
    | false ↦
        elim (received_line (overwrite (replicate max_buffer_size 0) r.stored)
          (stored_addr inet.zero_addr r.source)) [ none ↦ overruns | some line ↦ prints line ]
  ]

  -- The loop of `sub`, with the rounds that are left.
  unfoldable pub sub_loop : ℕ → ℤ → World → Ending × World
  unfolding round
  sub_loop zero fd w = (returned, w)
  sub_loop (suc rounds) fd w =
      let (r, w') = inet.recvfrom fd max_buffer_size (pos 0) true w in
      elim (round r) [
        | fails ↦ (exited, perror "Error in receiving data" w')
        | overruns ↦ (undefined, w')
        | prints line ↦ sub_loop rounds fd (S.print line w')
      ]

  -- The end of `sub` and of `pub`, which `exit` skips.
  abbrev pub close_up : ℤ → Ending × World → Ending × World
  close_up fd (returned, w) = (returned, (S.close_fd fd w).1)
  close_up fd (exited, w) = (exited, w)
  close_up fd (undefined, w) = (undefined, w)

  unfoldable pub run_sub : ℕ → World → Ending × World
  run_sub val w =
      let (fd, w1) = S.socket af_inet sock_dgram (pos 0) w in
      if is_negative fd
      then (exited, perror "Failed to create socket" w1)
      else (let w2 = (S.setsockopt fd sol_socket so_reuseaddr (int_value (pos 1)) w1).1 in
          let w3 = (S.setsockopt fd sol_socket so_reuseport (int_value (pos 1)) w2).1 in
          let (err, w4) = inet.bind fd (get_any_addr port) w3 in
          if is_negative err
          then (exited, perror "Binding failed" w4)
          else close_up fd (sub_loop max_loop fd (info val fd w4)))

  -- The loop of `pub`.
  unfoldable pub pub_loop : ℕ → ℤ → InetAddr → World → Ending × World
  pub_loop zero fd addr w = (returned, w)
  pub_loop (suc rounds) fd addr w =
      let (num, w') = inet.sendto fd hello (pos 0) addr w in
      elim (is_negative num) [
        | true ↦ (exited, perror "Error in sending data" w')
        | false ↦ pub_loop rounds fd addr (S.print ("Reply sent to client " <> newline) w')
      ]

  unfoldable pub run_pub : ℕ → World → Ending × World
  run_pub val w =
      let (fd, w1) = S.socket af_inet sock_dgram (pos 0) w in
      if is_negative fd
      then (exited, perror "Failed to create socket" w1)
      else close_up fd (pub_loop max_loop fd (get_udp_addr host port) (info val fd w1))

  abbrev pub usage : String
  usage = "Usage: ./ps p|s" <> newline

  -- `main` when there is one argument.
  unfoldable pub run : String → ℕ → World → Option ℕ × World
  run arg val w =
      if str_eq arg "p"
      then (let (ending, w') = run_pub val w in (exit_status ending, w'))
      else if str_eq arg "s"
      then (let (ending, w') = run_sub val w in (exit_status ending, w'))
      else (some 0, S.print usage w)

  -- The arguments, with the program's name before them, and what the local of `info` holds.
  unfoldable pub main : List String → ℕ → World → Option ℕ × World
  unfolding run
  main (name ∷ arg ∷ []) val w = run arg val w
  main [] val w = (some 1, S.print usage w)
  main (name ∷ []) val w = (some 1, S.print usage w)
  main (name ∷ arg ∷ other ∷ args) val w = (some 1, S.print usage w)
