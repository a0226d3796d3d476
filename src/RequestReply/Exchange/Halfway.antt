-- ===== src/RequestReply/Exchange/Halfway.antt =====
-- A `Request` and a `Reply` between their calls: what waits once the request is sent, and once it is
-- answered.
use marko.Base.{◌<◌, ◌≡◌, ◌∙◌, Bool, true, [], ◌∷◌, some, length, St, if◌then◌else◌}
use marko.Base.Int.{ℤ, pos, beq_ℤ}
use marko.System.{Message}
use marko.Datagram.Class.{SocketClass}
use marko.Datagram.Network.{Delivery}
use marko.RequestReply.{Outcome, returned, Reply, Request, once, once_to}
use marko.RequestReply.Answer.{Ready, IsSameNet, queue-sent, queue-answer, queue-emptied}
use marko.RequestReply.Exchange.{Computes, once-sent, once_to-sent, computed_net}

module _ {World Addr : Type 0} (C : SocketClass World Addr) (D : Delivery World Addr C)
    (q : Request) (r : Reply World) (addr to : Addr) (f : Message → St World Message)
    (g : Message → Message) (set : r.callback ≡ some f) (computes : Computes C D f g)
    (asks : 0 < r.msg_size) (answers : 0 < q.msg_size)
    (reply_sized : (m : Message) → length m ≡ r.msg_size → length (g m) ≡ q.msg_size)
    (msg : Message) (w : World) (sized : length msg ≡ r.msg_size)
    (v : Ready C D q r addr to w) where
  abbrev asked : World
  asked = (C.sendto q.socket msg addr (pos 0) w).1

  -- The reply waits at the requester, and no request at the replier.
  abbrev pub IsAnswered : World → Type 0
  IsAnswered w' =
      ((b : Addr) × (D.queue w' q.socket.socket_fd ≡ (g msg, b) ∷ []))
      × (D.queue w' r.socket.socket_fd ≡ [])

  serve-IsAnswered :
      (serve : World → Outcome Bool × World) (took : World)
      → IsSameNet C D asked took
      → ((d : ℤ) → D.queue took d ≡ (if beq_ℤ d r.socket.socket_fd then [] else D.queue asked d))
      → serve asked ≡ (returned true, (C.sendto r.socket (g msg) to (pos 0) took).1)
      → IsAnswered (serve asked).1
  serve-IsAnswered serve took kept queues serves = rw serves (
    (_, queue-answer C D q r addr to msg w v (g msg) took kept queues),
    queue-emptied C D q r addr to msg w v (g msg) took kept queues,
  )

  pub once-IsAnswered : D.name w q.socket.socket_fd ≡ to → IsAnswered (once C r asked).1
  once-IsAnswered named =
      serve-IsAnswered (once C r) _
        (computed_net C D q r addr to f g set computes asks answers reply_sized msg w sized v _
          (D.recvfrom-route r.socket r.msg_size C.zero_addr _))
        (λ d.
          computes.same_queue msg _ d
          ∙ D.recvfrom-queue r.socket r.msg_size C.zero_addr _ msg _ [] d
              (queue-sent C D q r addr to msg w v))
        (once-sent C D q r addr to f g set computes asks answers reply_sized msg w sized v named)

  pub once_to-IsAnswered : IsAnswered (once_to C r to asked).1
  once_to-IsAnswered =
      serve-IsAnswered (once_to C r to) _
        (computed_net C D q r addr to f g set computes asks answers reply_sized msg w sized v _
          (D.recv-route r.socket r.msg_size _))
        (λ d.
          computes.same_queue msg _ d
          ∙ D.recv-queue r.socket r.msg_size _ msg _ [] d (queue-sent C D q r addr to msg w v))
        (once_to-sent C D q r addr to f g set computes asks answers reply_sized msg w sized v)
