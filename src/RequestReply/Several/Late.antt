-- ===== src/RequestReply/Several/Late.antt =====
-- A requester that an answer reaches late, as after a `request` of cpp/src/marko/request_reply.hpp that
-- timed out: nothing in a message says which request it answers.
use marko.Base.{◌≡◌, refl, ap, ◌∙◌, Option, some, List, [], ◌∷◌, ◌++◌, map, length, take, St}
use marko.Base.Int.{ℤ, pos, beq_ℤ_refl}
use marko.System.{Message}
use marko.Datagram.Class.{SocketClass}
use marko.Datagram.Network.{Delivery}
use marko.PubSub.Session.{AllSized, received-of_sized}
use marko.RequestReply.{Reply, Request, once}
use marko.RequestReply.Exchange.{exchange, exchange_each}
use marko.RequestReply.Several.{IsServed, Setup}
use marko.RequestReply.Several.Calls.{
  Good, asked-Good, queue-asked, answers-asked, requests-received, received-Good, once-served,
  requests-served, answers-hers, served-keeps,
}

module _ {World Addr : Type 0} {C : SocketClass World Addr} {D : Delivery World Addr C}
    {q : Request} {r : Reply World} {addr : Addr} {route : Addr → Option ℤ} {name : ℤ → Addr}
    {f : Message → St World Message} {g : Message → Message}
    (E : Setup C D q r addr route name f g) where
  open E use {some_answer, reply_sized, back, apart}

  -- One answer waits at the requester, and no request at the replier.
  abbrev IsLate : Message → Addr → World → Type 0
  IsLate old b w =
      Good E w
      × (D.queue w r.socket.socket_fd ≡ [])
      × (D.queue w q.socket.socket_fd ≡ (old, b) ∷ [])

  module _ (m old : Message) (b : Addr) (w : World) (sized : length m ≡ r.msg_size)
      (late : IsLate old b w) where
    abbrev asked : World
    asked = (C.sendto q.socket m addr (pos 0) w).1

    asked_kept : Good E asked
    asked_kept = asked-Good E q.socket q.socket.socket_fd m w late.0 back apart sized

    waiting : D.queue asked r.socket.socket_fd ≡ (m, name q.socket.socket_fd) ∷ []
    waiting = queue-asked E q.socket q.socket.socket_fd m w late.0 back ∙ rw late.1

    abbrev served : World
    served = (once C r asked).1

    served_kept : Good E served
    served_kept =
        rw
          (once-served E m (name q.socket.socket_fd) [] asked asked_kept waiting sized
            q.socket.socket_fd back apart)
          (served-keeps E m (name q.socket.socket_fd) [] asked asked_kept waiting sized
            q.socket.socket_fd back apart tt).0

    served_idle : D.queue served r.socket.socket_fd ≡ []
    served_idle =
        ap (λ x. D.queue x r.socket.socket_fd)
          (once-served E m (name q.socket.socket_fd) [] asked asked_kept waiting sized
            q.socket.socket_fd back apart)
        ∙ requests-served E m (name q.socket.socket_fd) [] asked asked_kept waiting sized
            q.socket.socket_fd back apart

    -- The replier's name when it answers.
    abbrev replier : Addr
    replier =
        D.name (f m (C.recvfrom r.socket r.msg_size (some C.zero_addr) (pos 0) asked).1).1
          r.socket.socket_fd

    -- The new answer stands behind the late one.
    answered : D.queue served q.socket.socket_fd ≡ (old, b) ∷ (g m, replier) ∷ []
    answered =
        ap (λ x. D.queue x q.socket.socket_fd)
          (once-served E m (name q.socket.socket_fd) [] asked asked_kept waiting sized
            q.socket.socket_fd back apart)
        ∙ answers-hers E m (name q.socket.socket_fd) [] asked asked_kept waiting sized
            q.socket.socket_fd back apart (beq_ℤ_refl q.socket.socket_fd)
        ∙ ap (λ ds. ds ++ (g m, replier) ∷ [])
            (answers-asked E q.socket q.socket.socket_fd m w late.0 back ∙ late.2)

    abbrev received_from : World
    received_from = (C.recv q.socket q.msg_size (pos 0) served).1

    left : D.queue received_from q.socket.socket_fd ≡ (g m, replier) ∷ []
    left =
        D.recv-queue q.socket q.msg_size served old b _ q.socket.socket_fd answered
        ∙ rw (beq_ℤ_refl q.socket.socket_fd)

    exchange-IsLate :
        ((exchange C q (once C r) m addr w).0.1 ≡ old)
        × IsLate (g m) replier (exchange C q (once C r) m addr w).1
    unfolding exchange
    exchange-IsLate =
        let old_sized : AllSized q.msg_size (old ∷ g m ∷ []) =
          rw answered at served_kept.answered in
        (
          D.recv-first q.socket q.msg_size served old b _ answered
              ∙ received-of_sized q.msg_size old old_sized.0 some_answer,
          (
            received-Good E q.socket q.msg_size old b _ served served_kept answered apart
                (rw left (old_sized.1.0, tt)),
            requests-received E q.socket q.msg_size old b _ served served_kept answered apart
                ∙ served_idle,
            left,
          ),
        )

  -- Where one answer waits at a requester before its first request, as after one that timed out,
  -- and no request waits at the replier: each request, with no other requester's call in between,
  -- is given the answer to the one before it, the first the late one. The requests have the size
  -- that the Reply was made for, the late answer and the callback's answers the size that the
  -- Request was made for, neither size is 0, the network delivers, the address leads to the Reply
  -- and the replies lead back, each to a socket of its own, and the callback's answers depend on
  -- the message alone, and it leaves the network alone.
  pub exchange_each-late :
      (msgs : List Message) (old : Message) (b : Addr) (w : World)
      → AllSized r.msg_size msgs
      → IsServed C D q r addr route name w
      → D.queue w r.socket.socket_fd ≡ []
      → D.queue w q.socket.socket_fd ≡ (old, b) ∷ []
      → map (λ answer. answer.1) (exchange_each C q (once C r) msgs addr w).0
        ≡ take (length msgs) (old ∷ map g msgs)
  unfolding exchange_each
  exchange_each-late [] old b w all good idle late = refl
  exchange_each-late (m ∷ msgs) old b w (sized, all) good idle late =
      let now : IsLate old b w = (good, idle, late) in
      let (same, (good', idle', late')) = exchange-IsLate m old b w sized now in
      λ i.
        same i
        ∷ exchange_each-late msgs (g m) (replier m old b w sized now) _ all good' idle' late' i
