-- ===== src/Datagram/Naming.antt =====
-- Which calls `SocketUDP::connect` of cpp/src/marko/socket_udp.hpp makes.
use mathlib.Core.List.{append_assoc, append-nil}
use marko.Base.{
  ◌≡◌, refl, inl, inr, Bool, true, Bool-cases, ◌||◌, ◌&&◌, List, [], ◌∷◌, ◌++◌, if◌then◌else◌,
}
use marko.Base.Int.{pos, beq_ℤ}
use marko.System.{InetAddr, System}
use marko.System.Trace.{Call, bind_call, inet_address, traced}
use marko.Socket.{Socket}
use marko.Socket.Options.{port_call, addr_call, port_answer, addr_answer}
use marko.Datagram.Udp

-- What `reuseSocket(true)` asks of the system.
abbrev pub reuse_calls : (S : System) → Socket → S.World → List Call
reuse_calls S s w =
    port_call S s true
    ∷ (if beq_ℤ (port_answer S s true w).0 (pos 0) then [] else addr_call S s true ∷ [])

abbrev pub is_reused : (S : System) → Socket → S.World → Bool
is_reused S s w =
    beq_ℤ (port_answer S s true w).0 (pos 0) || beq_ℤ (addr_answer S s true w).0 (pos 0)

-- The machine after `reuseSocket(true)`.
abbrev pub after_reuse : (S : System) → Socket → S.World → S.World
after_reuse S s w =
    if beq_ℤ (port_answer S s true w).0 (pos 0)
    then (port_answer S s true w).1
    else (addr_answer S s true w).1

module _ (S : System) where
  -- `SocketUDP::connect` connects to nothing: its calls are those of `reuseSocket(true)` and then,
  -- unless both of these fail, one `bind` of the socket itself to the address that it is given. It
  -- answers true exactly when an option was set and that `bind` returned 0.
  pub connect-journal :
      (s : Socket) (addr : InetAddr) (w : S.World) (journal : List Call)
      → ((Udp.connect (traced S) s addr (w, journal)).1.1
          ≡ journal
            ++ reuse_calls S s w
            ++ (if is_reused S s w then bind_call s.socket_fd (inet_address addr) ∷ [] else []))
        × ((Udp.connect (traced S) s addr (w, journal)).0 ≡ (
            is_reused S s w && beq_ℤ (S.inet.bind s.socket_fd addr (after_reuse S s w)).0 (pos 0)))
  unfolding Udp.connect
  connect-journal s addr w journal = elim (Bool-cases (beq_ℤ (port_answer S s true w).0 (pos 0))) [
    | inl set ↦ rw set (refl, refl)
    | inr first ↦ elim (Bool-cases (beq_ℤ (addr_answer S s true w).0 (pos 0))) [
      | inl set ↦ rw (first, set) (simp append_assoc, refl)
      | inr second ↦ rw (first, second) (simp (append_assoc, append-nil), refl)
    ]
  ]
