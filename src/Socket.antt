-- ===== src/Socket.antt =====
-- `class Socket` of cpp/src/marko/socket.hpp: a file descriptor, its options, and whether it is
-- ready. The class has no other field, so an object of it or of a class derived from it without
-- fields of its own (`SocketUDP`, `SocketUnix`) is this record.
pub mod Lifecycle
pub mod Options
pub mod Readiness
use marko.Base.{
  ℕ, String, ◌<>◌, Bool, true, false, Option, none, some, List, [], ◌∷◌, St, pure, ◌>>=◌, ltb,
  if◌then◌else◌,
}
use marko.Base.Int.{ℤ, pos, negsuc, ◌+ℤ◌, beq_ℤ, is_negative, is_positive}
use marko.Base.Decimal.{int_to_decimal}
use marko.System.{Timeval, Selected, timeval_value, int_value, System}
use marko.Time.{get_time}

-- `enum class socket_error`
pub data SocketError : Type 0 where
  ok create_fail close_fail recv_error recevfrom_error recv_timeout recevfrom_timeout : SocketError
  send_error sendto_error bind_error getsockname_error : SocketError

pub record Socket : Type 0 where
  pub socket_fd : ℤ

abbrev pub newline : String
newline = "\n"

-- `FD_ISSET`, over a set as the list of its members.
abbrev pub fd_isset : ℤ → List ℤ → Bool
fd_isset fd [] = false
fd_isset fd (x ∷ xs) = if beq_ℤ fd x then true else fd_isset fd xs

-- A set that the caller passed to `select`, after the call.
abbrev pub left_in : Option (List ℤ) → List ℤ
left_in none = []
left_in (some fds) = fds

module _ (S : System) where
  open S use {
    World, socket_err, sol_socket, so_rcvtimeo, so_reuseport, so_reuseaddr, fionbio, fd_setsize,
  }

  unfoldable pub print_error : World → World
  print_error w =
      S.print ("ERROR[" <> int_to_decimal (S.errno w) <> "]: " <> S.strerror (S.errno w) <> newline)
        w

  -- `Socket()`
  unfoldable pub new : Socket
  new = record { socket_fd = socket_err }

  unfoldable pub close : Socket → World → Socket × World
  close s w =
      if beq_ℤ s.socket_fd socket_err
      then (s, w)
      else (record { socket_fd = socket_err }, (S.close_fd s.socket_fd w).1)

  unfoldable pub settimeout : Socket → ℤ → St World Bool
  settimeout s timeout_msec = do
    err ← S.setsockopt s.socket_fd sol_socket so_rcvtimeo (timeval_value (get_time timeout_msec))
    pure (beq_ℤ err (pos 0))

  unfoldable pub setnonblocking : Socket → Bool → St World Bool
  setnonblocking s val = do
    err ← S.ioctl s.socket_fd fionbio (if val then pos 1 else pos 0)
    pure (beq_ℤ err (pos 0))

  unfoldable pub setsockopt : Socket → ℤ → ℤ → ℤ → St World Bool
  setsockopt s level name val = do
    err ← S.setsockopt s.socket_fd level name (int_value val)
    pure (beq_ℤ err (pos 0))

  -- 1 msec (1000 usec)
  abbrev pub poll_time : Timeval
  poll_time = record { tv_sec = pos 0; tv_usec = pos 1000 }

  -- Whether `FD_SET` stays inside the set. Elsewhere its effect is undefined.
  abbrev pub is_selectable : ℤ → Bool
  is_selectable (pos fd) = ltb fd fd_setsize
  is_selectable (negsuc n) = false

  -- The `select` of `available`, and that of `availableForWrite`.
  abbrev pub poll_read : Socket → St World Selected
  poll_read s = S.select (s.socket_fd +ℤ pos 1) (some (s.socket_fd ∷ [])) none poll_time

  abbrev pub poll_write : Socket → St World Selected
  poll_write s = S.select (s.socket_fd +ℤ pos 1) none (some (s.socket_fd ∷ [])) poll_time

  -- `none` is undefined behaviour.
  unfoldable pub available : Socket → St World (Option Bool)
  available s =
      if is_selectable s.socket_fd
      then (do
        r ← poll_read s
        let ready = fd_isset s.socket_fd (left_in r.readfds)
        pure (some (if is_positive r.count then false else ready)))
      else pure none

  unfoldable pub available_for_write : Socket → St World (Option Bool)
  available_for_write s =
      if is_selectable s.socket_fd
      then (do
        r ← poll_write s
        let ready = fd_isset s.socket_fd (left_in r.writefds)
        pure (some (if is_positive r.count then false else ready)))
      else pure none

  -- `ok || setsockopt(...)` makes the second call only if the first failed.
  unfoldable pub reuse_socket : Socket → Bool → St World Bool
  unfolding setsockopt
  reuse_socket s enable =
      if enable
      then (do
        done ← setsockopt s sol_socket so_reuseport (pos 1)
        if done then pure true else setsockopt s sol_socket so_reuseaddr (pos 1))
      else (do
        done ← setsockopt s sol_socket so_reuseport (pos 0)
        if done then pure true else setsockopt s sol_socket so_reuseaddr (pos 0))

  unfoldable pub make_socket : Socket → ℤ → ℤ → ℤ → World → (Bool × Socket) × World
  unfolding close
  make_socket s family type proto w =
      let (fd, w') = S.socket family type proto w in
      let made : Socket = record { socket_fd = fd } in
      if is_negative fd then ((false, (close made w').0), (close made w').1) else ((true, made), w')
