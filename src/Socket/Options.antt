-- ===== src/Socket/Options.antt =====
-- The options that a socket sets: `reuseSocket` and `settimeout`.
use mathlib.Core.List.{append_assoc}
use marko.Base.{
  ◌≡◌, refl, ◌↔◌, inl, inr, Bool, true, false, ◌||◌, Bool-cases, List, [], ◌∷◌, ◌++◌, if◌then◌else◌,
}
use marko.Base.Int.{ℤ, pos, ◌*ℤ◌, tmod, beq_ℤ, beq_ℤ_iff}
use marko.System.{int_value, System}
use marko.System.Laws.{TimeoutLaws}
use marko.System.Trace.{Call, setsockopt_call, traced}
use marko.Time.{get_time}
use marko.Time.Timeout.{duration_usec-get_time_iff}
use marko.Socket.{Socket, settimeout, reuse_socket}

-- The option's `int` for a flag.
abbrev pub flag : Bool → ℤ
flag b = if b then pos 1 else pos 0

module _ (S : System) (s : Socket) where
  -- The two calls that `reuseSocket` may make, and what the system answers to them.
  abbrev pub port_call : Bool → Call
  port_call enable =
      setsockopt_call s.socket_fd S.sol_socket S.so_reuseport (int_value (flag enable))

  abbrev pub addr_call : Bool → Call
  addr_call enable =
      setsockopt_call s.socket_fd S.sol_socket S.so_reuseaddr (int_value (flag enable))

  abbrev pub port_answer : Bool → S.World → ℤ × S.World
  port_answer enable =
      S.setsockopt s.socket_fd S.sol_socket S.so_reuseport (int_value (flag enable))

  abbrev pub addr_answer : Bool → S.World → ℤ × S.World
  addr_answer enable w =
      S.setsockopt s.socket_fd S.sol_socket S.so_reuseaddr (int_value (flag enable))
        (port_answer enable w).1

  -- `reuseSocket` sets SO_REUSEPORT to the flag, and SO_REUSEADDR only when that fails; these are
  -- all its calls. It answers true exactly when one of the two was set.
  pub reuse_socket-journal :
      (enable : Bool) (w : S.World) (journal : List Call)
      → ((reuse_socket (traced S) s enable (w, journal)).0
          ≡ (beq_ℤ (port_answer enable w).0 (pos 0) || beq_ℤ (addr_answer enable w).0 (pos 0)))
        × ((reuse_socket (traced S) s enable (w, journal)).1.1
            ≡ journal
              ++ port_call enable
                ∷ (if beq_ℤ (port_answer enable w).0 (pos 0) then [] else addr_call enable ∷ []))
  unfolding reuse_socket
  reuse_socket-journal true w journal = elim (Bool-cases (beq_ℤ (port_answer true w).0 (pos 0))) [
    | inl set ↦ rw set (refl, refl)
    | inr failed ↦ rw failed (refl, append_assoc journal _ _)
  ]
  reuse_socket-journal false w journal = elim (Bool-cases (beq_ℤ (port_answer false w).0 (pos 0))) [
    | inl set ↦ rw set (refl, refl)
    | inr failed ↦ rw failed (refl, append_assoc journal _ _)
  ]

module _ (S : System) (L : TimeoutLaws S) where
  -- After a `settimeout` that answers true, the receive timeout is the one asked for exactly when
  -- that is a number of whole seconds.
  pub settimeout-receive_timeout_iff :
      (s : Socket) (t : ℤ) (w : S.World)
      → (settimeout S s t w).0 ≡ true
      → (L.receive_timeout (settimeout S s t w).1 s.socket_fd ≡ t *ℤ pos 1000)
        ↔ (tmod t 1000 ≡ pos 0)
  unfolding settimeout
  settimeout-receive_timeout_iff s t w done =
      rw (L.receive_timeout-setsockopt s.socket_fd (get_time t) w ((beq_ℤ_iff _ _).0 done))
        (duration_usec-get_time_iff t)
