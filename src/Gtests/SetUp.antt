-- ===== src/Gtests/SetUp.antt =====
-- The set-up that the tests of cpp/gtests have in common: one thread makes a socket and binds it, the
-- other one sleeps and makes a socket.
use marko.Base.{◌≡◌, ◌≢◌, ◌∙◌, Bool, true, false, Bool-cases, inl, inr, [], some}
use marko.Base.Int.{ℤ, pos, beq_ℤ, beq_ℤ_refl, is_negative}
use marko.System.{System}
use marko.System.Laws.{Descriptors}
use marko.Time.{msleep}
use marko.Socket.{Socket}
use marko.Datagram.Class.{SocketClass}
use marko.Datagram.Network.{Delivery}
use marko.Datagram.SetUp.{SetUp}
use marko.RequestReply.Answer.{LeavesNet}

module _ (S : System) {Addr : Type 0} (C : SocketClass S.World Addr) (addr : Addr)
    (w : S.World) where
  abbrev pub bound : Socket
  bound = (C.make w).0

  -- What the bind answers.
  abbrev pub bind_answer : Bool
  bind_answer = (C.bind bound addr (C.make w).1).0

  abbrev slept : S.World
  slept = msleep S (pos 1) (C.bind bound addr (C.make w).1).1

  abbrev pub other : Socket
  other = (C.make slept).0

  abbrev pub made : S.World
  made = (C.make slept).1

module _ (S : System) (E : Descriptors S) {Addr : Type 0} (C : SocketClass S.World Addr)
    (D : Delivery S.World Addr C) (U : SetUp S E C D)
    (sleep_left : (t : ℤ) → LeavesNet C D (S.sleep_for t)) (addr : Addr) (w : S.World) where
  module _ (first : is_negative (bound S C addr w).socket_fd ≡ false)
      (second : is_negative (other S C addr w).socket_fd ≡ false) where
    is_open-slept : E.is_open (slept S C addr w) (bound S C addr w).socket_fd ≡ true
    unfolding msleep
    is_open-slept =
        E.sleep_for-keeps _ _ _ ∙ U.bind-keeps (bound S C addr w) addr _ _ ∙ U.make-opens w first

    pub apart : (other S C addr w).socket_fd ≢ (bound S C addr w).socket_fd
    apart same =
        let closed = U.make-fresh (slept S C addr w) in
        let opened = is_open-slept in cc (rw same at closed)

    queue-slept : D.queue (slept S C addr w) (bound S C addr w).socket_fd ≡ []
    unfolding msleep
    queue-slept =
        (sleep_left _).same_queue _ _
        ∙ U.bind-queue (bound S C addr w) addr _ _
        ∙ U.make-queue w _ first
        ∙ rw (beq_ℤ_refl (bound S C addr w).socket_fd)

    pub queue-bound : D.queue (made S C addr w) (bound S C addr w).socket_fd ≡ []
    queue-bound =
        U.make-queue (slept S C addr w) _ second
        ∙ elim (Bool-cases (beq_ℤ (bound S C addr w).socket_fd (other S C addr w).socket_fd)) [
          | inl same ↦ rw same
          | inr differs ↦ rw differs queue-slept
        ]

    pub queue-other : D.queue (made S C addr w) (other S C addr w).socket_fd ≡ []
    queue-other =
        U.make-queue (slept S C addr w) _ second ∙ rw (beq_ℤ_refl (other S C addr w).socket_fd)

    pub route-made :
        (bind_answer S C addr w) ≡ true
        → D.route (made S C addr w) addr ≡ some (bound S C addr w).socket_fd
    unfolding msleep
    route-made answered =
        U.make-route (slept S C addr w) addr second
        ∙ ((sleep_left _).same_net _).0 addr
        ∙ U.bind-route (bound S C addr w) addr _ answered
