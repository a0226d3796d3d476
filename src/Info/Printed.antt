-- ===== src/Info/Printed.antt =====
-- The whole report that `SocketInfo::info` of cpp/src/marko/info.hpp prints.
use mathlib.Core.List.{append_assoc, append-nil}
use marko.Base.{
  ℕ, ◌%◌, ◌≡◌, refl, sym, ap, ◌∙◌, inl, inr, String, ◌<>◌, ◌||◌, Bool-cases, some, List, [], ◌∷◌,
  ◌++◌, length, if◌then◌else◌,
}
use marko.Base.Int.{ℤ, beq_ℤ}
use marko.Base.Decimal.{to_decimal, int_to_decimal}
use marko.System.{System}
use marko.System.Laws.{PrintLaws, Readable}
use marko.Socket.{newline}
use marko.Info.Options.{SocketTypes, socket_types, socket_opts_sol}
use marko.Info.Report.{
  SocketInfo, Unset, Locals, fetch_byte, describe, print_line, enabled, getsockname, info_so,
  info_ip, info,
}
use marko.Info.Words.{truth, truth_if, switch, switch-enabled, type_name, type_name-index}
use marko.Info.Values.{report, printed-print_line, printed-info_so_loop-low_byte}

module _ (S : System) (P : PrintLaws S) (si : SocketInfo) (R : Readable S si.socket_fd) where
  open S use {World}

  -- A printed line, and one that names a value.
  abbrev pub line : String → String
  line text = "  " <> (text <> "\n")

  abbrev pub entry : String → String → String
  entry name text = line (name <> (": " <> text))

  -- The low bytes of the options at the level SOL_SOCKET and of those at the level IPPROTO_IP.
  abbrev pub low_byte : ℤ → ℕ
  low_byte n = R.options.value n % 256

  abbrev pub ip_byte : ℤ → ℕ
  ip_byte n = R.ip_value n % 256

  abbrev pub heading : String → List String
  heading s =
      ("[" <> (s <> (" Socket] =====================================" <> "\n")))
      ∷ line ("bind/connect to: " <> S.to_string R.name)
      ∷ line ("file descriptor: " <> int_to_decimal si.socket_fd)
      ∷ []

  abbrev pub socket_layer : List String
  socket_layer =
      " [Socket Layer]-----------------\n"
      ∷ entry "socket type" (type_name S (low_byte S.so_type))
      ∷ entry "Accepting connections" (truth (low_byte S.so_acceptconn))
      ∷ entry "Broadcast messages supported" (truth (low_byte S.so_broadcast))
      ∷ entry "Bypass normal routing" (truth (low_byte S.so_dontroute))
      ∷ entry "Socket error status" (truth (low_byte S.so_error))
      ∷ entry "Out-of-band data is transmitted in line" (truth (low_byte S.so_oobinline))
      ∷ entry "SO_REUSEADDR" (truth (low_byte S.so_reuseaddr))
      ∷ entry "SO_REUSEPORT" (truth (low_byte S.so_reuseport))
      ∷ entry "Receive buffer size" (to_decimal (low_byte S.so_rcvbuf))
      ∷ entry "receive low water mark" (to_decimal (low_byte S.so_rcvlowat))
      ∷ entry "Send buffer size" (to_decimal (low_byte S.so_sndbuf))
      ∷ entry "send low water mark" (to_decimal (low_byte S.so_sndlowat))
      ∷ []

  abbrev ip_lines : String → List String
  ip_lines loopback =
      " [IP Protocol]-----------------\n"
      ∷ line ("multicast IF: " <> R.interface)
      ∷ line ("multicast loopback: " <> loopback)
      ∷ line ("multicast TTL: " <> to_decimal (ip_byte S.ip_multicast_ttl))
      ∷ line ("IP TTL: " <> to_decimal (ip_byte S.ip_ttl))
      ∷ []

  abbrev pub ip_protocol : List String
  ip_protocol = ip_lines (switch (ip_byte S.ip_multicast_loop))

  reported :
      " [Socket Layer]-----------------\n" ∷ report S (socket_types S) (socket_opts_sol S) low_byte
      ≡ socket_layer
  unfolding describe
  reported = simp (truth_if, type_name-index)

  printed-info_so :
      (val : ℕ) (w : World)
      → si.socket_types ≡ socket_types S
      → P.printed (info_so S val si w).1 ≡ P.printed w ++ socket_layer
  unfolding info_so
  printed-info_so val w made =
      printed-info_so_loop-low_byte S P si.socket_fd R.options si.socket_types (socket_opts_sol S)
        val _
      ∙ rw (P.printed-print, made) (append_assoc (P.printed w) _ _)
      ∙ ap (λ p. P.printed w ++ p) reported

  -- The locals after a call of `getsockopt` at the level IPPROTO_IP.
  fetched-ip :
      (n : ℤ) (v : Locals) (w : World)
      → v.size ≡ 1
      → (fetch_byte S si.socket_fd S.ipproto_ip n v w).0 ≡ record { val = ip_byte n; size = 1 }
  unfolding fetch_byte
  fetched-ip n v w one = rw (one, R.getsockopt-ip_byte n w)

  fetched-same :
      (l n : ℤ) (v : Locals) (w : World)
      → P.printed (fetch_byte S si.socket_fd l n v w).1 ≡ P.printed w
  unfolding fetch_byte
  fetched-same l n v w = P.printed-getsockopt _ _ n _ w

  -- A line of `info_ip`.
  printed-ip :
      (text : ℕ → String) (n : ℤ) (v : Locals) (w : World)
      → v.size ≡ 1
      → let (v', w') = fetch_byte S si.socket_fd S.ipproto_ip n v w in
        (P.printed (print_line S (some (text v'.val)) w')
          ≡ P.printed w ++ line (text (ip_byte n)) ∷ [])
        × (v'.size ≡ 1)
  printed-ip text n v w one = (
    printed-print_line S P _ _ ∙ rw (fetched-ip n v w one, fetched-same S.ipproto_ip n v w),
    ap (λ u. u.size) (fetched-ip n v w one),
  )

  printed-info_ip :
      (val : ℕ) (w : World) → P.printed (info_ip S val si w) ≡ P.printed w ++ ip_protocol
  unfolding info_ip
  printed-info_ip val w =
      let loopback = λ (n : ℕ). "multicast loopback: " <> enabled S n in
      let ttl = λ (n : ℕ). "multicast TTL: " <> to_decimal n in
      let ip_ttl = λ (n : ℕ). "IP TTL: " <> to_decimal n in
      let v : Locals = record { val = val; size = 1 } in
      let w1 : World = S.print (" [IP Protocol]-----------------" <> newline) w in
      let (r, w2) = S.getsockopt si.socket_fd S.ipproto_ip S.ip_multicast_if 4 w1 in
      let w3 : World = print_line S (some ("multicast IF: " <> R.interface)) w2 in
      let (v1, w4) = fetch_byte S si.socket_fd S.ipproto_ip S.ip_multicast_loop v w3 in
      let w5 : World = print_line S (some (loopback v1.val)) w4 in
      let (v2, w6) = fetch_byte S si.socket_fd S.ipproto_ip S.ip_multicast_ttl v1 w5 in
      let w7 : World = print_line S (some (ttl v2.val)) w6 in
      let (first, one) = printed-ip loopback S.ip_multicast_loop v w3 refl in
      let (second, one') = printed-ip ttl S.ip_multicast_ttl v1 w5 one in
      let (third, one'') = printed-ip ip_ttl S.ip_ttl v2 w7 one' in
      rw (R.getsockopt-interface w1) (
        third
        ∙ rw (second, first, printed-print_line, P.printed-getsockopt, P.printed-print)
            (simp append_assoc))
      ∙ ap (λ text. P.printed w ++ ip_lines text) (switch-enabled S (ip_byte S.ip_multicast_loop))

module _ (S : System) (P : PrintLaws S) (si : SocketInfo) (R : Readable S si.socket_fd) where
  -- On a descriptor of which all that is asked for can be read, SocketInfo::info of an object whose
  -- table of types is as it was made prints the heading with the descriptor's name and number; if
  -- it is a datagram or a stream socket, the twelve options, each by the low byte of its value: the
  -- type by its name, seven as false where that byte is 0 and else as true, four in decimal; and if
  -- it is a datagram socket, the four lines on IP, the loopback as disabled where its low byte is 0
  -- and else as enabled, both times to live by their low bytes in decimal; whatever the argument st
  -- says, and where an int has four bytes.
  pub printed-info :
      (unset : Unset S) (s : String) (st : SocketTypes) (w : S.World)
      → length unset.type ≡ 4
      → si.socket_types ≡ socket_types S
      → P.printed (info S unset si s st w).1
        ≡ P.printed w
          ++ heading S P si R s
          ++ (if beq_ℤ R.type S.sock_dgram || beq_ℤ R.type S.sock_stream
              then socket_layer S P si R
              else [])
          ++ (if beq_ℤ R.type S.sock_dgram then ip_protocol S P si R else [])
  unfolding info getsockname info_so
  printed-info unset s st w whole made =
      let top : String =
        "[" <> (s <> (" Socket] =====================================" <> newline)) in
      let (name, w1) = getsockname S si (S.print top w) in
      let w2 : S.World = print_line S (some ("bind/connect to: " <> name)) w1 in
      let w3 : S.World =
        print_line S (some ("file descriptor: " <> int_to_decimal si.socket_fd)) w2 in
      let w4 : S.World = (S.getsockopt si.socket_fd S.sol_socket S.so_type 4 w3).1 in
      let headed : P.printed w4 ≡ P.printed w ++ heading S P si R s =
        rw
          (
            P.printed-getsockopt, printed-print_line, printed-print_line, R.getsockname-name,
            P.printed-getsockname, P.printed-print,
          )
          (simp append_assoc) in
      let (si', w5) = info_so S unset.so_val si w4 in
      let layered : P.printed w5 ≡ P.printed w ++ heading S P si R s ++ socket_layer S P si R =
        printed-info_so S P si R unset.so_val w4 made
        ∙ ap (λ p. p ++ socket_layer S P si R) headed in
      rw (R.getsockopt-type unset.type w3 whole) (elim (Bool-cases (beq_ℤ R.type S.sock_dgram)) [
        | inl dgram ↦ rw dgram (
            printed-info_ip S P si' R unset.ip_val w5 ∙ ap (λ p. p ++ ip_protocol S P si R) layered)
        | inr other ↦ elim (Bool-cases (beq_ℤ R.type S.sock_stream)) [
          | inl stream ↦ rw (other, stream) (layered ∙ sym (append-nil _))
          | inr neither ↦ rw (other, neither) (headed ∙ sym (append-nil _) ∙ sym (append-nil _))
        ]
      ])
