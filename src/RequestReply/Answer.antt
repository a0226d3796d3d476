-- ===== src/RequestReply/Answer.antt =====
-- The state of the network while a `Request` is answered, whichever `once` of the `Reply` answers it.
use marko.Base.{◌≡◌, sym, ◌∙◌, ◌≢◌, Bool-cases, inl, inr, [], ◌∷◌, some, if◌then◌else◌, arith}
use marko.Base.Int.{ℤ, pos, beq_ℤ, beq_ℤ_iff, beq_ℤ_refl}
use marko.System.{Message}
use marko.Datagram.Class.{SocketClass}
use marko.Datagram.Network.{Delivery}
use marko.RequestReply.{Reply, Request}

module _ {World Addr : Type 0} (C : SocketClass World Addr) (D : Delivery World Addr C) where
  -- The address leads to the replier and `to` to the requester, and nothing waits.
  pub record Ready (q : Request) (r : Reply World) (addr to : Addr) (w : World) : Type 0 where
    pub apart : q.socket.socket_fd ≢ r.socket.socket_fd
    pub there : D.route w addr ≡ some r.socket.socket_fd
    pub back : D.route w to ≡ some q.socket.socket_fd
    pub asked : D.queue w r.socket.socket_fd ≡ []
    pub answered : D.queue w q.socket.socket_fd ≡ []

  -- Nothing but the queues has changed.
  abbrev pub IsSameNet : World → World → Type 0
  IsSameNet w w' = ((b : Addr) → D.route w' b ≡ D.route w b) × ((d : ℤ) → D.name w' d ≡ D.name w d)

  pub IsSameNet-trans : (u v w : World) → IsSameNet u v → IsSameNet v w → IsSameNet u w
  IsSameNet-trans u v w (routes, names) (routes', names') =
      (λ b. routes' b ∙ routes b, λ d. names' d ∙ names d)

  -- What is no call of a socket leaves the network alone.
  pub record LeavesNet (act : World → World) : Type 0 where
    pub same_net : (w : World) → IsSameNet w (act w)
    pub same_queue : (w : World) (d : ℤ) → D.queue (act w) d ≡ D.queue w d

  pub left-Ready :
      (q : Request) (r : Reply World) (addr to : Addr) (act : World → World) (w : World)
      → LeavesNet act
      → Ready q r addr to w
      → Ready q r addr to (act w)
  left-Ready q r addr to act w left v = record {
    apart = v.apart;
    there = (left.same_net w).0 addr ∙ v.there;
    back = (left.same_net w).0 to ∙ v.back;
    asked = left.same_queue w r.socket.socket_fd ∙ v.asked;
    answered = left.same_queue w q.socket.socket_fd ∙ v.answered;
  }

  module _ (q : Request) (r : Reply World) (addr to : Addr) (msg : Message) (w : World)
      (v : Ready q r addr to w) where
    -- The machine after the request is sent.
    abbrev pub sent : World
    sent = (C.sendto q.socket msg addr (pos 0) w).1

    pub queue-sent : D.queue sent r.socket.socket_fd ≡ (msg, D.name w q.socket.socket_fd) ∷ []
    queue-sent =
        D.sendto-queue q.socket _ msg addr w _ v.there ∙ rw (beq_ℤ_refl r.socket.socket_fd, v.asked)

    pub queue-unanswered : D.queue sent q.socket.socket_fd ≡ []
    queue-unanswered =
        D.sendto-queue q.socket _ msg addr w _ v.there
        ∙ elim (Bool-cases (beq_ℤ q.socket.socket_fd r.socket.socket_fd)) [
          | inl same ↦ absurd (v.apart ((beq_ℤ_iff _ _).0 same))
          | inr other ↦ rw other v.answered
        ]

    -- It is taken, and the reply is sent and received.
    module _ (reply : Message) (taken : World) (kept : IsSameNet sent taken)
        (queues : (d : ℤ)
          → D.queue taken d ≡ (if beq_ℤ d r.socket.socket_fd then [] else D.queue sent d)) where
      abbrev pub served : World
      served = (C.sendto r.socket reply to (pos 0) taken).1

      abbrev pub done : World
      done = (C.recv q.socket q.msg_size (pos 0) served).1

      taken_net : IsSameNet w taken
      taken_net = IsSameNet-trans w sent taken (D.sendto-route q.socket msg addr w) kept

      pub done_net : IsSameNet w done
      done_net =
          IsSameNet-trans w served done
            (IsSameNet-trans w taken served taken_net (D.sendto-route r.socket reply to taken))
            (D.recv-route q.socket q.msg_size served)

      queue-taken :
          (d : ℤ) → D.queue taken d ≡ (if beq_ℤ d r.socket.socket_fd then [] else D.queue w d)
      queue-taken d = queues d ∙ rw (D.sendto-queue q.socket _ msg addr w d v.there) (ground arith)

      queue-served :
          (d : ℤ)
          → D.queue served d ≡ (
              if beq_ℤ d q.socket.socket_fd
              then (reply, D.name taken r.socket.socket_fd) ∷ []
              else if beq_ℤ d r.socket.socket_fd
              then []
              else D.queue w d)
      queue-served d =
          D.sendto-queue r.socket _ reply to taken d (taken_net.0 to ∙ v.back)
          ∙ rw (queue-taken d) (elim (Bool-cases (beq_ℤ d q.socket.socket_fd)) [
            | inl same ↦
                rw ((beq_ℤ_iff d q.socket.socket_fd).0 same, v.answered)
                  (ground (arith, beq_ℤ_refl q.socket.socket_fd))
            | inr other ↦ rw other
          ])

      pub queue-answer :
          D.queue served q.socket.socket_fd ≡ (reply, D.name taken r.socket.socket_fd) ∷ []
      queue-answer = queue-served q.socket.socket_fd ∙ rw (beq_ℤ_refl q.socket.socket_fd)

      pub queue-emptied : D.queue served r.socket.socket_fd ≡ []
      queue-emptied =
          queue-served r.socket.socket_fd
          ∙ elim (Bool-cases (beq_ℤ r.socket.socket_fd q.socket.socket_fd)) [
            | inl same ↦ absurd (v.apart (sym ((beq_ℤ_iff _ _).0 same)))
            | inr other ↦ rw (other, beq_ℤ_refl r.socket.socket_fd)
          ]

      pub done-Ready : Ready q r addr to done
      done-Ready = record {
        apart = v.apart;
        there = done_net.0 addr ∙ v.there;
        back = done_net.0 to ∙ v.back;
        asked =
            D.recv-queue q.socket q.msg_size served reply _ [] r.socket.socket_fd queue-answer
            ∙ rw (queue-served r.socket.socket_fd, beq_ℤ_refl r.socket.socket_fd) (ground arith);
        answered =
            D.recv-queue q.socket q.msg_size served reply _ [] q.socket.socket_fd queue-answer
            ∙ rw (beq_ℤ_refl q.socket.socket_fd);
      }
