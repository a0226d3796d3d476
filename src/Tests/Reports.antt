-- ===== src/Tests/Reports.antt =====
-- The host's name and address, and the report on a descriptor.
use marko.Base.{
  ℕ, zero, suc, replicate, none, ◌≡◌, refl, true, not, ◌&&◌, some, List, [], ◌∷◌, if◌then◌else◌,
  arith, overwrite, ◌++◌, overwrite_all, ap,
}
use marko.Base.Int.{pos, negsuc, is_negative, beq_ℤ}
use marko.Base.Decimal.{to_decimal}
use marko.System.{Message, System}
use marko.System.Loopback.Meets.{loopback-Descriptors}
use marko.Info.Host.{c_string, write_buffer, get_hostname, get_host_ip}
use marko.Info.Options.{udp, SoOpts, opt, int_type, socket_types}
use marko.Info.Report.{SocketInfo, info, info_so_loop, describe}
use marko.Info.Printed.{printed-info}
use marko.Info.Safety.{IsText, get_hostname-text, is_open-get_host_ip, opened, naming}
use marko.System.Laws.{PrintLaws, Readable}
use marko.System.Loopback.{loopback, of_le_bytes, option_value}
use marko.Tests.Setting.{asker, S, machine}

-- A host whose name has 260 bytes.
abbrev long_name : Message
long_name = replicate 260 97

long_name-IsText : (n : ℕ) → IsText (replicate n 97)
long_name-IsText zero = tt
long_name-IsText (suc n) = (omega arith, long_name-IsText n)

get_hostname-text_example : (get_hostname (loopback long_name) machine).0 ≡ none
unfolding long_name-IsText
get_hostname-text_example =
    get_hostname-text (loopback long_name) long_name machine (long_name-IsText 260) λ size. refl

-- A name of 2 bytes is returned.
short_name : (get_hostname S machine).0 ≡ some (97 ∷ 98 ∷ [])
unfolding get_hostname c_string write_buffer mathlib.Core.Option.bind
short_name = refl

is_open-get_host_ip_example :
    let D = loopback-Descriptors (97 ∷ 98 ∷ []) in
    D.is_open (get_host_ip S machine).1 (pos 5) ≡ (
      if beq_ℤ (pos 5) (opened S D machine).0
        && (not (is_negative (opened S D machine).0) && is_negative (naming S D machine))
      then true
      else D.is_open machine (pos 5))
is_open-get_host_ip_example =
    is_open-get_host_ip S (loopback-Descriptors (97 ∷ 98 ∷ [])) machine (pos 5)

abbrev buffer_size : List SoOpts
buffer_size = opt (pos 8) "Receive buffer size" int_type ∷ []

-- The machine with a `getsockopt` that fails.
abbrev deaf : System
deaf = record S { getsockopt = λ fd l n k w. (record { err = negsuc 0; bytes = [] }, w) }

prints_unset :
    (info_so_loop deaf
      (pos 3)
      (socket_types S)
      buffer_size
      (record { val = 7; size = 1 })
      machine).1.printed
    ≡ "  Receive buffer size: 7\n" ∷ []
unfolding info_so_loop describe to_decimal
prints_unset = refl

-- The machine on which every descriptor is bound to the asker's address.
abbrev bound : System
bound = record S { inet = record S.inet { getsockname = λ fd a w. ((pos 0, asker), w) } }

abbrev bound_prints : PrintLaws bound
bound_prints = record {
  printed = λ w. w.printed;
  printed-print = λ t w. refl;
  printed-getsockopt = λ fd l n k w. refl;
  printed-getsockname = λ fd a w. refl;
}

-- Descriptor 3: a datagram socket, of which the loopback is read as the options of SOL_SOCKET are.
abbrev readable : Readable bound (pos 3)
unfolding overwrite
readable = record {
  options = record { value = option_value; getsockopt-byte = λ n w. refl };
  type = pos 2;
  getsockopt-type = λ before w whole.
      ap (λ bytes. pos (of_le_bytes bytes)) (overwrite_all before (2 ∷ 0 ∷ 0 ∷ 0 ∷ []) whole);
  name = asker;
  getsockname-name = λ w. refl;
  ip_value = option_value;
  getsockopt-ip_byte = λ n w. refl;
  interface = "0.0.0.0";
  getsockopt-interface = λ w. refl;
}

abbrev about_third : SocketInfo
about_third = record { socket_fd = pos 3; socket_types = socket_types S }

printed-info_example :
    (info bound
      (record { type = 1 ∷ 2 ∷ 3 ∷ 4 ∷ []; so_val = 7; ip_val = 8 })
      about_third
      "test"
      udp
      machine).1.printed
    ≡ "[test Socket] =====================================\n"
      ∷ "  bind/connect to: 127.0.0.1:9999\n" ∷ "  file descriptor: 3\n"
      ∷ " [Socket Layer]-----------------\n" ∷ "  socket type: DGRAM\n"
      ∷ "  Accepting connections: false\n" ∷ "  Broadcast messages supported: false\n"
      ∷ "  Bypass normal routing: false\n" ∷ "  Socket error status: false\n"
      ∷ "  Out-of-band data is transmitted in line: false\n" ∷ "  SO_REUSEADDR: true\n"
      ∷ "  SO_REUSEPORT: false\n" ∷ "  Receive buffer size: 0\n" ∷ "  receive low water mark: 1\n"
      ∷ "  Send buffer size: 0\n" ∷ "  send low water mark: 0\n"
      ∷ " [IP Protocol]-----------------\n" ∷ "  multicast IF: 0.0.0.0\n"
      ∷ "  multicast loopback: enabled\n" ∷ "  multicast TTL: 0\n" ∷ "  IP TTL: 64\n" ∷ []
unfolding readable to_decimal marko.Base.Decimal.int_to_decimal
printed-info_example =
    printed-info bound bound_prints about_third readable
      (record { type = 1 ∷ 2 ∷ 3 ∷ 4 ∷ []; so_val = 7; ip_val = 8 }) "test" udp machine refl refl
