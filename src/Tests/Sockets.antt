-- ===== src/Tests/Sockets.antt =====
-- The socket objects: their descriptors, options and readiness, and the broadcasting socket.
use mathlib.Core.Option
use marko.Base.{◌≡◌, ◌↔◌, refl, true, false, none, some, List, [], ◌∷◌}
use marko.Base.Int.{pos, ◌*ℤ◌, ◌+ℤ◌, tmod, is_negative}
use marko.System.{InetAddr, UnixAddr}
use marko.System.Loopback.{Machine, localhost}
use marko.System.Loopback.Meets.{loopback-SelectLaws, loopback-TimeoutLaws, loopback-Descriptors}
use marko.System.Trace.{traced, bind_call, inet_address}
use marko.Time.{get_time}
use marko.Socket.{settimeout, available, available_for_write, poll_read, poll_write}
use marko.Socket.Options.{port_call, settimeout-receive_timeout_iff}
use marko.Socket.Readiness.{polls_iff}
use marko.Datagram.Udp
use marko.Datagram.Udp.{socket_udp}
use marko.Datagram.Unix.{socket_unix}
use marko.Datagram.Lifetime.{Use, polls, sends, receives, closes, binds, asks_name, lifetime}
use marko.Datagram.Tidy.{classes_leave_nothing_open}
use marko.Datagram.Naming.{connect-journal}
use marko.Tests.Setting.{S, asker, machine, fresh, third}

-- 2500 ms are 2 s and 500 µs.
get_time_test : get_time (pos 2500) ≡ record { tv_sec = pos 2; tv_usec = pos 500 }
unfolding get_time
get_time_test = refl

settimeout-receive_timeout_iff_example :
    ((settimeout S third (pos 2500) machine).1.waits (pos 3) ≡ pos 2500 *ℤ pos 1000)
    ↔ (tmod (pos 2500) 1000 ≡ pos 0)
unfolding settimeout loopback-TimeoutLaws
settimeout-receive_timeout_iff_example =
    settimeout-receive_timeout_iff S (loopback-TimeoutLaws (97 ∷ 98 ∷ [])) third (pos 2500) machine
      refl

polls_iff_example :
    (((available S third machine).0 ≡ some true)
      ↔ (is_negative (poll_read S third machine).0.count ≡ true))
    × (((available_for_write S third machine).0 ≡ some true)
        ↔ (is_negative (poll_write S third machine).0.count ≡ true))
polls_iff_example = polls_iff S (loopback-SelectLaws (97 ∷ 98 ∷ [])) third machine refl

-- Descriptor 3 is ready to write and 7 is not open.
ready_to_write : (available_for_write S third machine).0 ≡ some false
unfolding available_for_write ◌+ℤ◌
ready_to_write = refl

not_open : (available_for_write S (record { socket_fd = pos 7 }) machine).0 ≡ some true
unfolding available_for_write ◌+ℤ◌
not_open = refl

connect-journal_example :
    ((Udp.connect (traced S) third localhost (fresh, [])).1.1
      ≡ port_call S third true ∷ bind_call (pos 3) (inet_address localhost) ∷ [])
    × ((Udp.connect (traced S) third localhost (fresh, [])).0 ≡ true)
connect-journal_example = connect-journal S third localhost fresh []

-- A UDP socket that is bound, asked for its name and closed, and a Unix socket that is polled.
abbrev udp_uses : List (Use InetAddr)
udp_uses = binds asker ∷ asks_name ∷ polls ∷ sends (1 ∷ []) asker (pos 0) ∷ closes ∷ []

abbrev unix_uses : List (Use UnixAddr)
unix_uses = polls ∷ receives 4 (pos 0) ∷ []

abbrev after_udp : Machine
after_udp =
    Option.get_or (lifetime S (socket_udp S) (some (Udp.getsockname S)) udp_uses machine) machine

abbrev after_unix : Machine
after_unix = Option.get_or (lifetime S (socket_unix S) none unix_uses machine) machine

classes_leave_nothing_open_example :
    let D = loopback-Descriptors (97 ∷ 98 ∷ []) in
    (D.is_open after_udp (pos 5) ≡ D.is_open machine (pos 5))
    × (D.is_open after_unix (pos 5) ≡ D.is_open machine (pos 5))
unfolding lifetime available Option.bind Udp.make marko.Datagram.Unix.make
classes_leave_nothing_open_example =
    classes_leave_nothing_open S (loopback-Descriptors (97 ∷ 98 ∷ [])) refl udp_uses unix_uses
      machine after_udp after_unix (pos 5) refl refl

-- A closed socket cannot be polled.
closed_then_polled : lifetime S (socket_unix S) none (closes ∷ polls ∷ []) machine ≡ none
unfolding lifetime available Option.bind marko.Datagram.Unix.make
closed_then_polled = refl
