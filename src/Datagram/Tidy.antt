-- ===== src/Datagram/Tidy.antt =====
-- The descriptors that the methods of the two classes open and close: none, but in the constructor.
use mathlib.Core.Option
use marko.Base.{
  ℕ, ◌≡◌, refl, ◌∙◌, Bool, true, false, Bool-cases, inl, inr, List, [], ◌∷◌, Option, none, some,
  String, St,
}
use marko.Base.Int.{ℤ, pos, is_negative, beq_ℤ}
use marko.System.{Message, System, InetAddr, UnixAddr, int_value}
use marko.System.Laws.{Descriptors}
use marko.Socket.{
  Socket, settimeout, setnonblocking, setsockopt, available, available_for_write, reuse_socket,
  is_selectable,
}
use marko.Socket.Lifecycle.{Owns, Keeps, Owns-Keeps, make_socket-Owns, close-Owns, is_open-close}
use marko.Datagram.Class.{SocketClass}
use marko.Datagram.Udp.{socket_udp}
use marko.Datagram.Udp
use marko.Datagram.Unix.{socket_unix}
use marko.Datagram.Unix
use marko.Datagram.Defined.{Holds, Holds-map, Holds-bind, Holds-map_some}
use marko.Datagram.Lifetime.{
  Use, sets_timeout, sets_nonblocking, sets_option, reuses, polls, polls_for_write, closes, binds,
  connects, receives_from, receives, sends, asks_name, step, run, lifetime,
}

-- The methods of a class keep the descriptors, and its constructor owns what it opens.
pub record TidyClass (S : System) (D : Descriptors S) {Addr : Type 0} (C : SocketClass S.World Addr)
    : Type 0 where
  pub make-Owns : (w : S.World) → Owns S D (D.is_open w) (C.make w).0 (C.make w).1
  pub bind-Keeps : (s : Socket) (a : Addr) (w : S.World) → Keeps S D w (C.bind s a w).1
  pub connect-Keeps : (s : Socket) (a : Addr) (w : S.World) → Keeps S D w (C.connect s a w).1
  pub recvfrom-Keeps :
      (s : Socket) (n : ℕ) (a : Option Addr) (flags : ℤ) (w : S.World)
      → Keeps S D w (C.recvfrom s n a flags w).1
  pub recv-Keeps :
      (s : Socket) (n : ℕ) (flags : ℤ) (w : S.World) → Keeps S D w (C.recv s n flags w).1
  pub sendto-Keeps :
      (s : Socket) (m : Message) (a : Addr) (flags : ℤ) (w : S.World)
      → Keeps S D w (C.sendto s m a flags w).1

module _ (S : System) (D : Descriptors S) (s : Socket) (w : S.World) where
  reuse_socket-Keeps : (b : Bool) → Keeps S D w (reuse_socket S s b w).1
  unfolding reuse_socket
  reuse_socket-Keeps true d =
      elim (Bool-cases (
        beq_ℤ (S.setsockopt s.socket_fd S.sol_socket S.so_reuseport (int_value (pos 1)) w).0
          (pos 0))) [
            | inl set ↦ rw set (D.setsockopt-keeps _ _ _ _ w d)
            | inr failed ↦
                rw failed (D.setsockopt-keeps _ _ _ _ _ d ∙ D.setsockopt-keeps _ _ _ _ w d)
          ]
  reuse_socket-Keeps false d =
      elim (Bool-cases (
        beq_ℤ (S.setsockopt s.socket_fd S.sol_socket S.so_reuseport (int_value (pos 0)) w).0
          (pos 0))) [
            | inl set ↦ rw set (D.setsockopt-keeps _ _ _ _ w d)
            | inr failed ↦
                rw failed (D.setsockopt-keeps _ _ _ _ _ d ∙ D.setsockopt-keeps _ _ _ _ w d)
          ]

  available-Keeps : Keeps S D w (available S s w).1
  unfolding available
  available-Keeps d = elim (Bool-cases (is_selectable S s.socket_fd)) [
    | inl fits ↦ rw fits (D.select-keeps _ _ _ _ w d)
    | inr other ↦ rw other
  ]

  available_for_write-Keeps : Keeps S D w (available_for_write S s w).1
  unfolding available_for_write
  available_for_write-Keeps d = elim (Bool-cases (is_selectable S s.socket_fd)) [
    | inl fits ↦ rw fits (D.select-keeps _ _ _ _ w d)
    | inr other ↦ rw other
  ]

module _ (S : System) (D : Descriptors S) (invalid : is_negative S.socket_err ≡ true) where
  open D use {inet_keeps, unix_keeps}

  udp_recvfrom-Keeps :
      (s : Socket) (n : ℕ) (a : Option InetAddr) (flags : ℤ) (w : S.World)
      → Keeps S D w (Udp.recvfrom S s n a flags w).1
  unfolding Udp.recvfrom
  udp_recvfrom-Keeps s n none flags w d = inet_keeps.recvfrom-keeps _ _ _ _ w d
  udp_recvfrom-Keeps s n (some a) flags w d = inet_keeps.recvfrom-keeps _ _ _ _ w d

  udp_connect-Keeps :
      (s : Socket) (a : InetAddr) (w : S.World) → Keeps S D w (Udp.connect S s a w).1
  unfolding Udp.connect
  udp_connect-Keeps s a w d = elim (Bool-cases (reuse_socket S s true w).0) [
    | inl set ↦ rw set (inet_keeps.bind-keeps _ _ _ d ∙ reuse_socket-Keeps S D s w true d)
    | inr failed ↦ rw failed (reuse_socket-Keeps S D s w true d)
  ]

  pub udp-TidyClass : TidyClass S D (socket_udp S)
  unfolding Udp.make Udp.bind Udp.recv Udp.sendto
  udp-TidyClass = record {
    make-Owns = λ w. make_socket-Owns S D invalid _ _ _ w;
    bind-Keeps = λ s a w d. inet_keeps.bind-keeps _ _ w d;
    connect-Keeps = udp_connect-Keeps;
    recvfrom-Keeps = udp_recvfrom-Keeps;
    recv-Keeps = λ s n flags w. udp_recvfrom-Keeps s n none flags w;
    sendto-Keeps = λ s m a flags w d. inet_keeps.sendto-keeps _ _ _ _ w d;
  }

  unix_recvfrom-Keeps :
      (s : Socket) (n : ℕ) (a : Option UnixAddr) (flags : ℤ) (w : S.World)
      → Keeps S D w (Unix.recvfrom S s n a flags w).1
  unfolding Unix.recvfrom
  unix_recvfrom-Keeps s n none flags w d = refl
  unix_recvfrom-Keeps s n (some a) flags w d = unix_keeps.recvfrom-keeps _ _ _ _ w d

  pub unix-TidyClass : TidyClass S D (socket_unix S)
  unfolding Unix.make Unix.bind Unix.connect Unix.recv Unix.sendto
  unix-TidyClass = record {
    make-Owns = λ w. make_socket-Owns S D invalid _ _ _ w;
    bind-Keeps = λ s a w d. unix_keeps.bind-keeps _ _ w d;
    connect-Keeps = λ s a w d. refl;
    recvfrom-Keeps = unix_recvfrom-Keeps;
    recv-Keeps = λ s n flags w d. D.recv-keeps _ _ _ w d;
    sendto-Keeps = λ s m a flags w d. unix_keeps.sendto-keeps _ _ _ _ w d;
  }

module _ (S : System) (D : Descriptors S) (invalid : is_negative S.socket_err ≡ true)
    {Addr : Type 0} (C : SocketClass S.World Addr) (T : TidyClass S D C)
    (getsockname : Option (Socket → St S.World String))
    (getsockname-Keeps : Holds
      (λ ask. (s : Socket) (w : S.World) → Keeps S D w (ask s w).1)
      getsockname) where
  -- A socket and the world own what was opened since.
  abbrev OwnsBoth : (ℤ → Bool) → Socket × S.World → Type 0
  OwnsBoth before r = Owns S D before r.0 r.1

  name-Owns :
      (ask : Option (Socket → St S.World String))
      → Holds (λ f. (s : Socket) (w : S.World) → Keeps S D w (f s w).1) ask
      → (before : ℤ → Bool) (s : Socket) (w : S.World) → Owns S D before s w
      → Holds (OwnsBoth before) (Option.map (λ f. (s, (f s w).1)) ask)
  name-Owns none kept before s w o = tt
  name-Owns (some f) kept before s w o = Owns-Keeps S D invalid before s _ _ (kept s w) o

  step-Owns :
      (u : Use Addr) (before : ℤ → Bool) (s : Socket) (w : S.World)
      → before S.socket_err ≡ false
      → Owns S D before s w
      → Holds (OwnsBoth before) (step S C getsockname u s w)
  unfolding step settimeout setnonblocking setsockopt
  step-Owns (sets_timeout t) before s w n o =
      Owns-Keeps S D invalid before s _ _ (λ d. D.setsockopt-keeps _ _ _ _ w d) o
  step-Owns (sets_nonblocking b) before s w n o =
      Owns-Keeps S D invalid before s _ _ (λ d. D.ioctl-keeps _ _ _ w d) o
  step-Owns (sets_option l m v) before s w n o =
      Owns-Keeps S D invalid before s _ _ (λ d. D.setsockopt-keeps _ _ _ _ w d) o
  step-Owns (reuses b) before s w n o =
      Owns-Keeps S D invalid before s _ _ (reuse_socket-Keeps S D s w b) o
  step-Owns polls before s w n o =
      Holds-map (OwnsBoth before) _ (available S s w).0
        (Owns-Keeps S D invalid before s _ _ (available-Keeps S D s w) o)
  step-Owns polls_for_write before s w n o =
      Holds-map (OwnsBoth before) _ (available_for_write S s w).0
        (Owns-Keeps S D invalid before s _ _ (available_for_write-Keeps S D s w) o)
  step-Owns closes before s w n o = close-Owns S D invalid before s w n o
  step-Owns (binds a) before s w n o = Owns-Keeps S D invalid before s _ _ (T.bind-Keeps s a w) o
  step-Owns (connects a) before s w n o =
      Owns-Keeps S D invalid before s _ _ (T.connect-Keeps s a w) o
  step-Owns (receives_from k a flags) before s w n o =
      Owns-Keeps S D invalid before s _ _ (T.recvfrom-Keeps s k a flags w) o
  step-Owns (receives k flags) before s w n o =
      Owns-Keeps S D invalid before s _ _ (T.recv-Keeps s k flags w) o
  step-Owns (sends m a flags) before s w n o =
      Owns-Keeps S D invalid before s _ _ (T.sendto-Keeps s m a flags w) o
  step-Owns asks_name before s w n o = name-Owns getsockname getsockname-Keeps before s w o

  run-Owns :
      (us : List (Use Addr)) (before : ℤ → Bool) (s : Socket) (w : S.World)
      → before S.socket_err ≡ false
      → Owns S D before s w
      → Holds (OwnsBoth before) (run S C getsockname us s w)
  unfolding run
  run-Owns [] before s w n o = o
  run-Owns (u ∷ us) before s w n o =
      Holds-bind (OwnsBoth before) (OwnsBoth before) _ (step S C getsockname u s w)
        (step-Owns u before s w n o) λ r o'. run-Owns us before r.0 r.1 n o'

  -- Whatever is done with a socket, its own `close` included, and whatever the system answers, if
  -- all that is done is defined the descriptors that are open when it has been destroyed are those
  -- open before it was made.
  pub is_open-lifetime :
      (us : List (Use Addr)) (w w' : S.World) (d : ℤ)
      → lifetime S C getsockname us w ≡ some w'
      → D.is_open w' d ≡ D.is_open w d
  unfolding lifetime
  is_open-lifetime us w w' d ends =
      Holds-map_some (OwnsBoth (D.is_open w)) (λ x. D.is_open x d ≡ D.is_open w d) _
        (run S C getsockname us (C.make w).0 (C.make w).1) w'
        (run-Owns us (D.is_open w) _ _ (D.open-negative w _ invalid) (T.make-Owns w))
        (λ r o. is_open-close S D invalid (D.is_open w) r.0 r.1 d o) ends

-- Whatever public methods are called on a SocketUDP or a SocketUnix, its own close and getsockname
-- included, and whatever the system answers: if none of the calls has undefined behaviour, the open
-- descriptors after its destructor are those of before its constructor, where SOCKET_ERR is a negative
-- number.
pub classes_leave_nothing_open :
    (S : System) (D : Descriptors S)
    → is_negative S.socket_err ≡ true
    → (us : List (Use InetAddr)) (vs : List (Use UnixAddr)) (w w_udp w_unix : S.World) (d : ℤ)
    → lifetime S (socket_udp S) (some (Udp.getsockname S)) us w ≡ some w_udp
    → lifetime S (socket_unix S) none vs w ≡ some w_unix
    → (D.is_open w_udp d ≡ D.is_open w d) × (D.is_open w_unix d ≡ D.is_open w d)
unfolding Udp.getsockname
classes_leave_nothing_open S D invalid us vs w w_udp w_unix d udp_ends unix_ends = (
  is_open-lifetime S D invalid (socket_udp S) (udp-TidyClass S D invalid) (some (Udp.getsockname S))
      (λ s w e. D.inet_keeps.getsockname-keeps _ _ w e) us w w_udp d udp_ends,
  is_open-lifetime S D invalid (socket_unix S) (unix-TidyClass S D invalid) none tt vs w w_unix d
      unix_ends,
)
