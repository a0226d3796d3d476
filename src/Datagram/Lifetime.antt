-- ===== src/Datagram/Lifetime.antt =====
-- A datagram socket from its constructor to its destructor, with any use in between.
use mathlib.Core.Option
use marko.Base.{ℕ, Bool, String, List, [], ◌∷◌, Option, some, St}
use marko.Base.Int.{ℤ}
use marko.System.{Message, System}
use marko.Socket.{
  Socket, close, settimeout, setnonblocking, setsockopt, available, available_for_write,
  reuse_socket,
}
use marko.Datagram.Class.{SocketClass}

-- A call of a public method.
pub data Use (Addr : Type 0) : Type 0 where
  sets_timeout : ℤ → Use Addr
  sets_nonblocking : Bool → Use Addr
  sets_option : ℤ → ℤ → ℤ → Use Addr
  reuses : Bool → Use Addr
  polls : Use Addr
  polls_for_write : Use Addr
  closes : Use Addr
  binds : Addr → Use Addr
  connects : Addr → Use Addr
  receives_from : ℕ → Option Addr → ℤ → Use Addr
  receives : ℕ → ℤ → Use Addr
  sends : Message → Addr → ℤ → Use Addr
  asks_name : Use Addr

-- `getsockname` is the class's method of that name, which only `SocketUDP` has.
module _ (S : System) {Addr : Type 0} (C : SocketClass S.World Addr)
    (getsockname : Option (Socket → St S.World String)) where
  -- `none` is undefined behaviour, or a call of a method that the class does not have.
  unfoldable pub step : Use Addr → Socket → S.World → Option (Socket × S.World)
  step (sets_timeout t) s w = some (s, (settimeout S s t w).1)
  step (sets_nonblocking b) s w = some (s, (setnonblocking S s b w).1)
  step (sets_option l n v) s w = some (s, (setsockopt S s l n v w).1)
  step (reuses b) s w = some (s, (reuse_socket S s b w).1)
  step polls s w = let (ready, w') = available S s w in Option.map (λ _. (s, w')) ready
  step polls_for_write s w =
      let (ready, w') = available_for_write S s w in Option.map (λ _. (s, w')) ready
  step closes s w = some (close S s w)
  step (binds a) s w = some (s, (C.bind s a w).1)
  step (connects a) s w = some (s, (C.connect s a w).1)
  step (receives_from n a flags) s w = some (s, (C.recvfrom s n a flags w).1)
  step (receives n flags) s w = some (s, (C.recv s n flags w).1)
  step (sends m a flags) s w = some (s, (C.sendto s m a flags w).1)
  step asks_name s w = Option.map (λ ask. (s, (ask s w).1)) getsockname

  unfoldable pub run : List (Use Addr) → Socket → S.World → Option (Socket × S.World)
  unfolding step
  run [] s w = some (s, w)
  run (u ∷ us) s w = Option.bind (step u s w) λ r. run us r.0 r.1

  -- The object is made, used, and destroyed. `none`: one of its uses is not defined.
  unfoldable pub lifetime : List (Use Addr) → S.World → Option S.World
  unfolding run close
  lifetime us w = let (s, w1) = C.make w in Option.map (λ r. (close S r.0 r.1).1) (run us s w1)
