-- ===== src/RequestReply/Exchange.antt =====
-- A `Request` and a `Reply` over a network that delivers, as in cpp/examples/rr.cpp and
-- cpp/gtests/test_rr.cpp. `request` sends and then waits; the other thread's `once` runs in between.
pub mod Halfway
use mathlib.Core.List.{append-nil}
use marko.Base.{
  ℕ, ◌<◌, ◌≡◌, refl, ap, ◌∙◌, ◌≢◌, Bool, true, List, [], ◌∷◌, map, some, length, take, take_all, St,
  if◌then◌else◌, arith,
}
use marko.Base.Int.{ℤ, pos, beq_ℤ}
use marko.System.{Message}
use marko.Datagram.Class.{SocketClass}
use marko.Datagram.Network.{Delivery}
use marko.PubSub.Session.{AllSized, received-of_sized, zeros-none}
use marko.RequestReply.{Outcome, returned, Reply, Request, once, once_to, request}
use marko.RequestReply.Once.{padded, once-answers, once_to-answers}
use marko.RequestReply.Answer.{
  Ready, IsSameNet, IsSameNet-trans, queue-sent, queue-answer, done-Ready, done_net,
}
use marko.RequestReply.Answer as Answer

module _ {World Addr : Type 0} (C : SocketClass World Addr) where
  -- The two calls of `request`, with one call `serve` of the other side between them.
  unfoldable pub exchange :
      Request
      → (World → Outcome Bool × World)
      → Message
      → Addr
      → World
      → (Outcome Bool × Message) × World
  exchange q serve msg addr w =
      let (sent, w1) = C.sendto q.socket msg addr (pos 0) w in
      let (outcome, w2) = serve w1 in
      let (reply, w3) = C.recv q.socket q.msg_size (pos 0) w2 in ((outcome, reply), w3)

  -- `for (...) rp = r.request(msg, addr);` against `for (...) r.once();` or `r.once(to)`.
  unfoldable pub exchange_each :
      Request
      → (World → Outcome Bool × World)
      → List Message
      → Addr
      → World
      → List (Outcome Bool × Message) × World
  exchange_each q serve [] addr w = ([], w)
  exchange_each q serve (msg ∷ msgs) addr w =
      let (answer, w') = exchange q serve msg addr w in
      let (answers, w'') = exchange_each q serve msgs addr w' in (answer ∷ answers, w'')

module _ {World Addr : Type 0} (C : SocketClass World Addr) where
  -- A `request` is an exchange in which the other side does nothing.
  request-exchange :
      (q : Request) (msg : Message) (addr : Addr) (outcome : Outcome Bool) (w : World)
      → let (answer, w') = exchange C q (λ w1. (outcome, w1)) msg addr w in
        request C q msg addr w ≡ (answer.1, w')
  unfolding request exchange
  request-exchange q msg addr outcome w = refl

pub some_taken : (n : ℕ) (m : Message) → length m ≡ n → 0 < n → length (take n m) ≢ 0
some_taken n m sized some_bytes e =
    absurd (omega (arith, sized, ap length (take_all m), rw (← sized) at e))

pub padded-of_sized : (n : ℕ) (m : Message) → length m ≡ n → padded n m ≡ m
padded-of_sized n m sized = rw (← sized, take_all m) (rw (zeros-none (length m)) (append-nil m))

module _ {World Addr : Type 0} (C : SocketClass World Addr) (q : Request)
    (serve : World → Outcome Bool × World) (addr : Addr) (g : Message → Message) (n : ℕ)
    (IsKept : World → Type 0)
    (one_answer : (msg : Message) (w : World)
      → length msg ≡ n
      → IsKept w
      → ((exchange C q serve msg addr w).0 ≡ (returned true, g msg))
        × IsKept (exchange C q serve msg addr w).1) where
  loop-answers :
      (msgs : List Message) (w : World)
      → AllSized n msgs
      → IsKept w
      → (exchange_each C q serve msgs addr w).0 ≡ map (λ m. (returned true, g m)) msgs
  unfolding exchange_each
  loop-answers [] w sized k = refl
  loop-answers (msg ∷ msgs) w (sized, others) k =
      let (answer, kept) = one_answer msg w sized k in
      rw answer (ap (◌∷◌ (returned true, g msg)) (loop-answers msgs _ others kept))

-- A callback that computes `g`; what else it does leaves the network alone.
pub record Computes {World Addr : Type 0} (C : SocketClass World Addr) (D : Delivery World Addr C)
    (f : Message → St World Message) (g : Message → Message) : Type 0 where
  pub answer : (m : Message) (w : World) → (f m w).0 ≡ g m
  pub same_net : (m : Message) (w : World) → IsSameNet C D w (f m w).1
  pub same_queue : (m : Message) (w : World) (d : ℤ) → D.queue (f m w).1 d ≡ D.queue w d

module _ {World Addr : Type 0} (C : SocketClass World Addr) (D : Delivery World Addr C)
    (q : Request) (r : Reply World) (addr to : Addr) (f : Message → St World Message)
    (g : Message → Message) (set : r.callback ≡ some f) (computes : Computes C D f g)
    (asks : 0 < r.msg_size) (answers : 0 < q.msg_size)
    (reply_sized : (m : Message) → length m ≡ r.msg_size → length (g m) ≡ q.msg_size) where
  module _ (msg : Message) (w : World) (sized : length msg ≡ r.msg_size)
      (v : Ready C D q r addr to w) where
    abbrev sent : World
    sent = Answer.sent C D q r addr to msg w v

    -- The request is taken by `once`, or by `once(to)`.
    abbrev taken_from : World
    taken_from = (C.recvfrom r.socket r.msg_size (some C.zero_addr) (pos 0) sent).1

    abbrev taken : World
    taken = (C.recv r.socket r.msg_size (pos 0) sent).1

    -- The callback has run.
    computed_net : (took : World) → IsSameNet C D sent took → IsSameNet C D sent (f msg took).1
    computed_net took kept =
        IsSameNet-trans C D sent took (f msg took).1 kept (computes.same_net msg took)

    once-sent :
        D.name w q.socket.socket_fd ≡ to
        → once C r sent
          ≡ (returned true, (C.sendto r.socket (g msg) to (pos 0) (f msg taken_from).1).1)
    once-sent named =
        once-answers C D r f msg (D.name w q.socket.socket_fd) [] sent set
          (queue-sent C D q r addr to msg w v) (some_taken r.msg_size msg sized asks)
        ∙ rw (padded-of_sized r.msg_size msg sized, computes.answer msg taken_from, named)

    once_to-sent :
        once_to C r to sent
        ≡ (returned true, (C.sendto r.socket (g msg) to (pos 0) (f msg taken).1).1)
    once_to-sent =
        once_to-answers C D r to f msg (D.name w q.socket.socket_fd) [] sent set
          (queue-sent C D q r addr to msg w v) (some_taken r.msg_size msg sized asks)
        ∙ rw (padded-of_sized r.msg_size msg sized, computes.answer msg taken)

    -- A call that takes the request and sends the reply to `to` answers it.
    module _ (serve : World → Outcome Bool × World) (took : World) (kept : IsSameNet C D sent took)
        (queues : (d : ℤ)
          → D.queue took d ≡ (if beq_ℤ d r.socket.socket_fd then [] else D.queue sent d))
        (serves : serve sent ≡ (returned true, (C.sendto r.socket (g msg) to (pos 0) took).1)) where
      abbrev done : World
      done = Answer.done C D q r addr to msg w v (g msg) took kept queues

      exchange-serves : exchange C q serve msg addr w ≡ ((returned true, g msg), done)
      unfolding exchange
      exchange-serves = rw (
        serves,
        D.recv-first q.socket q.msg_size _ (g msg) _ []
            (queue-answer C D q r addr to msg w v (g msg) took kept queues),
        received-of_sized q.msg_size (g msg) (reply_sized msg sized) answers,
      )

      exchange-Ready :
          ((exchange C q serve msg addr w).0 ≡ (returned true, g msg))
          × Ready C D q r addr to (exchange C q serve msg addr w).1
          × IsSameNet C D w (exchange C q serve msg addr w).1
      exchange-Ready = rw exchange-serves (
        refl,
        done-Ready C D q r addr to msg w v (g msg) took kept queues,
        done_net C D q r addr to msg w v (g msg) took kept queues,
      )

  -- One message that `once` answers by its sender's name.
  pub exchange-answers :
      (msg : Message) (w : World)
      → length msg ≡ r.msg_size
      → Ready C D q r addr to w × (D.name w q.socket.socket_fd ≡ to)
      → ((exchange C q (once C r) msg addr w).0 ≡ (returned true, g msg))
        × (Ready C D q r addr to (exchange C q (once C r) msg addr w).1
            × (D.name (exchange C q (once C r) msg addr w).1 q.socket.socket_fd ≡ to))
  exchange-answers msg w sized (v, named) =
      let (answer, ready, net) =
        exchange-Ready msg w sized v (once C r) _
          (computed_net msg w sized v _ (D.recvfrom-route r.socket r.msg_size C.zero_addr _))
          (λ d.
            computes.same_queue msg _ d
            ∙ D.recvfrom-queue r.socket r.msg_size C.zero_addr _ msg _ [] d
                (queue-sent C D q r addr to msg w v))
          (once-sent msg w sized v named) in
      (answer, (ready, net.1 q.socket.socket_fd ∙ named))

  -- Where the network delivers, a Request and a Reply have sockets of their own, the address leads
  -- to the Reply and the requester's name back to the Request, nothing waits at either at first,
  -- the callback's answer to a message of the Reply's size depends on the message alone and has the
  -- Request's size, the callback leaves the network alone, and neither size is 0: the Request,
  -- sending messages of the Reply's size, each after the reply to the one before, gets for each
  -- what the callback computes from it, in order, and each once answers true.
  pub exchange_each-answers :
      (msgs : List Message) (w : World)
      → AllSized r.msg_size msgs
      → Ready C D q r addr to w
      → D.name w q.socket.socket_fd ≡ to
      → (exchange_each C q (once C r) msgs addr w).0 ≡ map (λ m. (returned true, g m)) msgs
  exchange_each-answers msgs w all v named =
      loop-answers C q (once C r) addr g r.msg_size
        (λ w'. Ready C D q r addr to w' × (D.name w' q.socket.socket_fd ≡ to)) exchange-answers msgs
        w all (v, named)

  -- One message that `once(to)` answers.
  pub exchange-once_to-answers :
      (msg : Message) (w : World)
      → length msg ≡ r.msg_size
      → Ready C D q r addr to w
      → ((exchange C q (once_to C r to) msg addr w).0 ≡ (returned true, g msg))
        × Ready C D q r addr to (exchange C q (once_to C r to) msg addr w).1
  exchange-once_to-answers msg w sized kept =
      let (answer, ready, net) =
        exchange-Ready msg w sized kept (once_to C r to) _
          (computed_net msg w sized kept _ (D.recv-route r.socket r.msg_size _))
          (λ d.
            computes.same_queue msg _ d
            ∙ D.recv-queue r.socket r.msg_size _ msg _ [] d (queue-sent C D q r addr to msg w kept))
          (once_to-sent msg w sized kept) in
      (answer, ready)

  -- Against `once(to)`, where `to` leads to the requester, a `Request` that sends messages of the
  -- size that the `Reply` was made for gets for each what the callback makes of it, in order, and
  -- each `once(to)` answers true, whatever name the network gives the requester. The callback is one
  -- whose result depends on the message alone and has the size that the `Request` was made for, and
  -- that leaves the network alone.
  pub exchange_each-once_to-answers :
      (msgs : List Message) (w : World)
      → AllSized r.msg_size msgs
      → Ready C D q r addr to w
      → (exchange_each C q (once_to C r to) msgs addr w).0 ≡ map (λ m. (returned true, g m)) msgs
  exchange_each-once_to-answers msgs w all v =
      loop-answers C q (once_to C r to) addr g r.msg_size (Ready C D q r addr to)
        exchange-once_to-answers msgs w all v
