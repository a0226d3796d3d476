-- ===== src/Datagram/Casting.antt =====
-- The calls of `class SocketBC` of cpp/src/marko/socket_bc.hpp, from its constructor on.
use mathlib.Core.List.{append_assoc, append-nil}
use marko.Base.{
  ℕ, ◌≡◌, sym, ◌∙◌, ap, ◌<>◌, ◌&&◌, not, Bool-cases, inl, inr, List, [], ◌∷◌, ◌++◌, map,
  if◌then◌else◌, arith,
}
use marko.Base.Int.{ℤ, pos, beq_ℤ, beq_ℤ_iff, is_negative}
use marko.Base.Decimal.{to_decimal}
use marko.System.{Message, int_value, System}
use marko.System.Trace.{
  Call, socket_call, close_call, setsockopt_call, sendto_call, inet_address, traced,
}
use marko.Datagram.Udp.{make}
use marko.Datagram.Broadcast.{SocketBc, new_bc, cast}

module _ (S : System) where
  -- `for (...) s.cast(m);`
  unfoldable pub cast_each : SocketBc → List Message → S.World → S.World
  cast_each b [] w = w
  cast_each b (m ∷ msgs) w = cast_each b msgs (cast S b m w).1

module _ (S : System) where
  cast_journal :
      (b : SocketBc) (msgs : List Message) (w : S.World) (journal : List Call)
      → (cast_each (traced S) b msgs (w, journal)).1
        ≡ journal
          ++ map (λ m. sendto_call b.socket.socket_fd m (pos 0) (inet_address b.bc_addr)) msgs
  unfolding cast_each cast
  cast_journal b [] w journal = sym (append-nil journal)
  cast_journal b (m ∷ msgs) w journal = cast_journal b msgs _ _ ∙ append_assoc journal _ _

  -- What `socket` answers to the constructor, and the descriptor of the object then.
  abbrev pub answered_fd : S.World → ℤ
  answered_fd w = (S.socket S.af_inet S.sock_dgram (pos 0) w).0

  abbrev pub bc_fd : S.World → ℤ
  bc_fd w = if is_negative (answered_fd w) then S.socket_err else answered_fd w

  -- The calls that make the socket; a failed descriptor is closed unless it is SOCKET_ERR.
  abbrev pub make_calls : S.World → List Call
  make_calls w =
      socket_call S.af_inet S.sock_dgram (pos 0)
      ∷ (if is_negative (answered_fd w) && not (beq_ℤ (answered_fd w) S.socket_err)
          then close_call (answered_fd w) ∷ []
          else [])

  socket_fd-make :
      (w : S.World) (journal : List Call) → (make (traced S) (w, journal)).0.socket_fd ≡ bc_fd w
  unfolding make
  socket_fd-make w journal = ground (arith, beq_ℤ_iff (answered_fd w) S.socket_err)

  make-journal :
      (w : S.World) (journal : List Call)
      → (make (traced S) (w, journal)).1.1 ≡ journal ++ make_calls w
  unfolding make
  make-journal w journal = elim (Bool-cases (is_negative (answered_fd w))) [
    | inl failed ↦ elim (Bool-cases (beq_ℤ (answered_fd w) S.socket_err)) [
      | inl same ↦ rw (failed, same)
      | inr other ↦ rw (failed, other) (append_assoc journal _ _)
    ]
    | inr made ↦ rw made
  ]

  -- The options that the constructor sets.
  abbrev pub option_calls : S.World → List Call
  option_calls w =
      setsockopt_call (bc_fd w) S.sol_socket S.so_broadcast (int_value (pos 1))
      ∷ setsockopt_call (bc_fd w) S.ipproto_ip S.ip_multicast_loop (int_value (pos 1))
      ∷ []

  new_bc-journal :
      (port : ℕ) (w : S.World) (journal : List Call)
      → ((new_bc (traced S) port (w, journal)).1.1 ≡ journal ++ (make_calls w ++ option_calls w))
        × ((new_bc (traced S) port (w, journal)).0.socket.socket_fd ≡ bc_fd w)
  unfolding new_bc
  new_bc-journal port w journal = (
    ap
          (λ fd.
            ((make (traced S) (w, journal)).1.1
              ++ setsockopt_call fd S.sol_socket S.so_broadcast (int_value (pos 1)) ∷ [])
            ++ setsockopt_call fd S.ipproto_ip S.ip_multicast_loop (int_value (pos 1)) ∷ [])
          (socket_fd-make w journal)
        ∙ rw (make-journal w journal) (simp append_assoc),
    socket_fd-make w journal,
  )

  -- From its constructor on, a `SocketBC` sends every message once, in order, to the address that
  -- "udp://bc:" and the port stand for, with SO_BROADCAST set before the first; these are all its
  -- calls. If no socket was made, the same calls go to the descriptor SOCKET_ERR.
  pub cast_each-journal :
      (port : ℕ) (msgs : List Message) (w : S.World) (journal : List Call)
      → let (b, w') = new_bc (traced S) port (w, journal) in
        (cast_each (traced S) b msgs w').1
        ≡ journal
          ++ (make_calls w
              ++ (option_calls w
                  ++ map
                      (λ m.
                        sendto_call
                          (bc_fd w)
                          m
                          (pos 0)
                          (inet_address (S.inet_sockaddr ("udp://bc:" <> to_decimal port))))
                      msgs))
  unfolding new_bc
  cast_each-journal port msgs w journal =
      cast_journal _ msgs _ _
      ∙ rw ((new_bc-journal port w journal).0, (new_bc-journal port w journal).1)
          (simp append_assoc)
