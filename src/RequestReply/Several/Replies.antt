-- ===== src/RequestReply/Several/Replies.antt =====
-- What a requester receives among others.
use mathlib.Core.List.{append_assoc, append-nil, map-append}
use marko.Base.{◌≡◌, refl, sym, ap, ◌∙◌, Option, List, [], ◌∷◌, ◌++◌, map, St}
use marko.Base.Int.{ℤ, pos, beq_ℤ_refl}
use marko.System.{Message}
use marko.Datagram.Class.{SocketClass}
use marko.Datagram.Network.{Delivery}
use marko.PubSub.Session.{AllSized, received-of_sized}
use marko.RequestReply.{Reply, Request}
use marko.RequestReply.Several.{
  beq_ne, Step, asks, receives, other_asks, other_receives, serves, Run, idle, then_step, AllAsked,
  IsServed, outstanding, Setup,
}
use marko.RequestReply.Several.Calls.{
  Good, owed, outstanding-of, received_world, asked-Good, outstanding-asked, requests-received,
  received-Good, once-served, served-keeps,
}

module _ {World Addr : Type 0} {C : SocketClass World Addr} {D : Delivery World Addr C}
    {q : Request} {r : Reply World} {addr : Addr} {route : Addr → Option ℤ} {name : ℤ → Addr}
    {f : Message → St World Message} {g : Message → Message}
    (E : Setup C D q r addr route name f g) where
  open E use {set, computes, some_ask, some_answer, reply_sized, there, back, apart}

  -- What a step owes: the requester received what was owed first, and is owed the replies to
  -- what it asked.
  pub Step-outstanding :
      {w w' : World} {ms ks : List Message}
      → Step C D q r addr route name w ms ks w'
      → Good E w
      → Good E w' × (ks ++ owed E w' ≡ owed E w ++ map g ms)
  Step-outstanding {w = w} (asks m sized) v = (
    asked-Good E q.socket q.socket.socket_fd m w v back apart sized,
    outstanding-asked E q.socket q.socket.socket_fd m w v back (m ∷ [])
        (rw (back, beq_ℤ_refl q.socket.socket_fd)),
  )
  Step-outstanding {w = w} (receives m b rest first) v =
      let sized : AllSized q.msg_size (m ∷ map (λ d. d.0) rest) = rw first at v.answered in
      let left : D.queue (received_world E q.socket q.msg_size m b rest w v first apart)
            q.socket.socket_fd
          ≡ rest =
        D.recv-queue q.socket q.msg_size w m b rest q.socket.socket_fd first
        ∙ rw (beq_ℤ_refl q.socket.socket_fd) in
      let got : (C.recv q.socket q.msg_size (pos 0) w).0 ≡ m =
        D.recv-first q.socket q.msg_size w m b rest first
        ∙ received-of_sized q.msg_size m sized.0 some_answer in
      (
        received-Good E q.socket q.msg_size m b rest w v first apart (rw left sized.1),
        rw got (
            ap (◌∷◌ m) (
              outstanding-of E _ _ _ left
                (requests-received E q.socket q.msg_size m b rest w v first apart))
            ∙ sym (outstanding-of E w _ _ first refl)
            ∙ sym (append-nil (owed E w))),
      )
  Step-outstanding {w = w} (other_asks s d m leads not_hers not_his sized) v = (
    asked-Good E s d m w v leads not_his sized,
    outstanding-asked E s d m w v leads [] (rw (leads, beq_ne d q.socket.socket_fd not_hers)),
  )
  Step-outstanding {w = w} (other_receives s n m b rest not_hers not_his first) v =
      let kept : D.queue (received_world E s n m b rest w v first not_his) q.socket.socket_fd
          ≡ D.queue w q.socket.socket_fd =
        D.recv-queue s n w m b rest q.socket.socket_fd first
        ∙ rw (beq_ne q.socket.socket_fd s.socket_fd (λ e. not_hers (sym e))) in
      (
        received-Good E s n m b rest w v first not_his (rw kept v.answered),
        outstanding-of E _ _ _ kept (requests-received E s n m b rest w v first not_his)
            ∙ sym (append-nil (owed E w)),
      )
  Step-outstanding {w = w} (serves m b rest first) v =
      let ((sized, d, leads, not_his), all) : AllAsked C D q r addr route name ((m, b) ∷ rest) =
        rw first at v.asked in
      let (good, same) = served-keeps E m b rest w v first sized d leads not_his all in
      rw (once-served E m b rest w v first sized d leads not_his)
        (good, same ∙ sym (append-nil (owed E w)))

  -- Where the network delivers, the address leads to the Reply and each reply back to its
  -- requester, each on a socket of its own; every request, of whichever requester and also one that
  -- waits at the start, has the size that the Reply was made for, every answer, also one that waits
  -- at the start, has the size that the Request was made for, neither size is 0; and the callback's
  -- answers depend on the message alone, and it leaves the network alone: however the calls of a
  -- requester, of other requesters and of once are interleaved, what the requester has received,
  -- followed by what is outstanding, is what was outstanding at the start followed by the
  -- callback's answers to what it sent since, in the order in which it sent; and what waits, the
  -- addresses and the names are again as was said of the start.
  pub Run-outstanding :
      {w w' : World} {asked got : List Message}
      → Run C D q r addr route name w asked got w'
      → IsServed C D q r addr route name w
      → IsServed C D q r addr route name w'
        × (got ++ outstanding C D q r addr route name g w'
            ≡ outstanding C D q r addr route name g w ++ map g asked)
  Run-outstanding idle v = (v, sym (append-nil _))
  Run-outstanding {w = w} {w' = w''}
        (then_step {asked = sent} {got = had} {ms = ms} {ks = ks} run step) v =
      let (good, so_far) = Run-outstanding run v in
      let (good', one_more) = Step-outstanding step good in
      (
        good',
        append_assoc had ks (owed E w'')
            ∙ ap (λ x. had ++ x) one_more
            ∙ sym (append_assoc had _ (map g ms))
            ∙ ap (λ x. x ++ map g ms) so_far
            ∙ append_assoc (owed E w) (map g sent) (map g ms)
            ∙ ap (λ x. owed E w ++ x) (sym (map-append g sent ms)),
      )
