-- ===== src/RequestReply/Several/Settled.antt =====
-- What comes of the requests once no more are made: the replier's loop, and the receiving halves of
-- the requester's `request`s.
use mathlib.Core.List.{append-nil, append_assoc}
use marko.Base.{ℕ, zero, suc, ◌≡◌, refl, sym, ap, ◌∙◌, Option, List, [], ◌∷◌, ◌++◌, map, length, St}
use marko.Base.Int.{ℤ, pos, beq_ℤ_refl}
use marko.System.{Message}
use marko.Datagram.Class.{SocketClass}
use marko.Datagram.Network.{Datagram, Delivery}
use marko.PubSub.Session.{AllSized, received-of_sized}
use marko.RequestReply.{returned, Reply, Request, once}
use marko.RequestReply.Once.{once-answers}
use marko.RequestReply.Exchange.{some_taken}
use marko.RequestReply.Threads.{serve_each}
use marko.RequestReply.Several.{
  Run, idle, then_step, serves, AllAsked, IsServed, outstanding, Setup,
}
use marko.RequestReply.Several.Calls.{
  Good, owed, outstanding-of, once-served, requests-served, served-keeps,
}
use marko.RequestReply.Several.Replies.{Run-outstanding}

-- As many calls of `recv`: what they return.
unfoldable pub receive_each :
    {World Addr : Type 0} → SocketClass World Addr → Request → ℕ → St World (List Message)
receive_each C q zero w = ([], w)
receive_each C q (suc k) w =
    let (m, w') = C.recv q.socket q.msg_size (pos 0) w in
    let (ms, w'') = receive_each C q k w' in (m ∷ ms, w'')

module _ {World Addr : Type 0} {C : SocketClass World Addr} {D : Delivery World Addr C}
    {q : Request} {r : Reply World} {addr : Addr} {route : Addr → Option ℤ} {name : ℤ → Addr}
    {f : Message → St World Message} {g : Message → Message}
    (E : Setup C D q r addr route name f g) where
  open E use {set, some_ask, some_answer}

  received-waiting :
      (ds : List (Datagram Addr)) (w : World)
      → D.queue w q.socket.socket_fd ≡ ds
      → AllSized q.msg_size (map (λ d. d.0) ds)
      → (receive_each C q (length ds) w).0 ≡ map (λ d. d.0) ds
  unfolding receive_each
  received-waiting [] w waiting sized = refl
  received-waiting ((m, b) ∷ ds) w waiting (sized, others) =
      let got : (C.recv q.socket q.msg_size (pos 0) w).0 ≡ m =
        D.recv-first q.socket q.msg_size w m b ds waiting
        ∙ received-of_sized q.msg_size m sized some_answer in
      let left =
        D.recv-queue q.socket q.msg_size w m b ds q.socket.socket_fd waiting
        ∙ rw (beq_ℤ_refl q.socket.socket_fd) in
      λ i. got i ∷ received-waiting ds _ left others i

  pub Run-append :
      {w w' w'' : World} {asked got ms ks : List Message}
      → Run C D q r addr route name w asked got w'
      → Run C D q r addr route name w' ms ks w''
      → Run C D q r addr route name w (asked ++ ms) (got ++ ks) w''
  Run-append {asked = asked} {got = got} before idle = rw (append-nil asked, append-nil got) before
  Run-append {asked = asked} {got = got} before
        (then_step {asked = ms} {got = ks} {ms = ms'} {ks = ks'} run step) =
      rw (← append_assoc asked ms ms', ← append_assoc got ks ks')
        (then_step (Run-append before run) step)

  -- What the replier leaves when it has served the requests that wait.
  pub served-waiting :
      (ds : List (Datagram Addr)) (w : World)
      → D.queue w r.socket.socket_fd ≡ ds
      → Good E w
      → let (outcome, w') = serve_each (once C r) (length ds) w in
        (outcome ≡ returned tt)
        × Good E w'
        × (D.queue w' r.socket.socket_fd ≡ [])
        × (owed E w' ≡ owed E w)
        × Run C D q r addr route name w [] [] w'
  unfolding serve_each
  served-waiting [] w waiting v = (refl, v, waiting, refl, idle)
  served-waiting ((m, b) ∷ ds) w waiting v =
      let ((sized, d, leads, not_his), all) : AllAsked C D q r addr route name ((m, b) ∷ ds) =
        rw waiting at v.asked in
      let answered =
        ap (λ x. x.0)
          (once-answers C D r f m b ds w set waiting (some_taken r.msg_size m sized some_ask)) in
      let served = once-served E m b ds w v waiting sized d leads not_his in
      let (good, same) = served-keeps E m b ds w v waiting sized d leads not_his all in
      let good' : Good E (once C r w).1 = rw served good in
      let same' : owed E (once C r w).1 ≡ owed E w = rw served same in
      let left =
        ap (λ x. D.queue x r.socket.socket_fd) served
        ∙ requests-served E m b ds w v waiting sized d leads not_his in
      let (ended, kept, none_left, still, run) = served-waiting ds (once C r w).1 left good' in
      rw (serve_each, answered)
        (
          ended,
          kept,
          none_left,
          still ∙ same',
          Run-append (then_step idle (serves m b ds waiting)) run,
        )

  -- Where the network delivers, the address leads to the Reply and each reply back to its
  -- requester, each on a socket of its own; every request, of whichever requester and also one that
  -- waits at the start, has the size that the Reply was made for, every answer, also one that waits
  -- at the start, has the size that the Request was made for, neither size is 0; and the callback's
  -- answers depend on the message alone, and it leaves the network alone: however the calls of a
  -- requester, of other requesters and of once were interleaved, if nothing was owed to this
  -- requester at the start, as many more calls of once as requests wait end without an exception,
  -- and as many more calls of recv as answers wait then give the requester, after what it has
  -- received, the callback's answers to all that it sent, in order.
  pub received-Run :
      {w w' : World} {asked got : List Message}
      → Run C D q r addr route name w asked got w'
      → IsServed C D q r addr route name w
      → outstanding C D q r addr route name g w ≡ []
      → let (outcome, settled) =
          serve_each (once C r) (length (D.queue w' r.socket.socket_fd)) w' in
        (outcome ≡ returned tt)
        × (got ++ (receive_each C q (length (D.queue settled q.socket.socket_fd)) settled).0
            ≡ map g asked)
  received-Run {w = w} {w' = w'} {asked = asked} {got = got} run v nothing =
      let (good, balance) = Run-outstanding E run v in
      let settled : World = (serve_each (once C r) (length (D.queue w' r.socket.socket_fd)) w').1 in
      let (ended, kept, none_left, same, run') =
        served-waiting (D.queue w' r.socket.socket_fd) w' refl good in
      let answers : List Message = map (λ d. d.0) (D.queue settled q.socket.socket_fd) in
      let all_answered : answers ≡ owed E settled =
        sym (outstanding-of E settled _ _ refl none_left ∙ append-nil answers) in
      (
        ended,
        ap (λ ms. got ++ ms)
              (received-waiting (D.queue settled q.socket.socket_fd) settled refl kept.answered
                ∙ all_answered
                ∙ same)
            ∙ balance
            ∙ ap (λ ms. ms ++ map g asked) nothing,
      )
