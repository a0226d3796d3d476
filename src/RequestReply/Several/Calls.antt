-- ===== src/RequestReply/Several/Calls.antt =====
-- The calls of several requesters and their replier: what each leaves waiting.
use mathlib.Core.List.{append_assoc, map-append}
use marko.Base.{
  ℕ, ◌≡◌, ◌≢◌, refl, sym, ap, ◌∙◌, true, false, Bool-cases, inl, inr, Option, some, List, [], ◌∷◌,
  ◌++◌, map, length, if◌then◌else◌, St, arith,
}
use marko.Base.Int.{ℤ, pos, negsuc, beq_ℤ, beq_ℤ_refl}
use marko.System.{Message}
use marko.Socket.{Socket}
use marko.Datagram.Class.{SocketClass}
use marko.Datagram.Network.{Datagram, Delivery}
use marko.PubSub.Session.{AllSized}
use marko.PubSub.Interleaving.{AllSized-append}
use marko.RequestReply.{Reply, Request, once}
use marko.RequestReply.Once.{once-answers}
use marko.RequestReply.Answer.{IsSameNet, IsSameNet-trans}
use marko.RequestReply.Exchange.{some_taken, padded-of_sized}
use marko.RequestReply.Several.{
  beq_ne, AllAsked, AllAsked-append, IsServed, mine, mine-append, outstanding, Setup,
}

beq_comm : (d e : ℤ) → beq_ℤ d e ≡ beq_ℤ e d
beq_comm (pos m) (pos n) = ground arith
beq_comm (pos m) (negsuc n) = refl
beq_comm (negsuc m) (pos n) = refl
beq_comm (negsuc m) (negsuc n) = ground arith

module _ {World Addr : Type 0} {C : SocketClass World Addr} {D : Delivery World Addr C}
    {q : Request} {r : Reply World} {addr : Addr} {route : Addr → Option ℤ} {name : ℤ → Addr}
    {f : Message → St World Message} {g : Message → Message}
    (E : Setup C D q r addr route name f g) where
  open E use {set, computes, some_ask, some_answer, reply_sized, there, back, apart}

  abbrev pub Good : World → Type 0
  Good = IsServed C D q r addr route name

  abbrev mine' : List (Datagram Addr) → List Message
  mine' = mine C D q r addr route name

  abbrev pub owed : World → List Message
  owed = outstanding C D q r addr route name g

  pub outstanding-of :
      (w : World) (to_her to_him : List (Datagram Addr))
      → D.queue w q.socket.socket_fd ≡ to_her
      → D.queue w r.socket.socket_fd ≡ to_him
      → owed w ≡ map (λ d. d.0) to_her ++ map g (mine' to_him)
  outstanding-of w to_her to_him e e' = rw (e, e')

  -- A request is sent by some socket whose name leads back.
  module _ (s : Socket) (d : ℤ) (m : Message) (w : World) (v : Good w)
      (leads : route (name s.socket_fd) ≡ some d) where
    abbrev asked_world : World
    asked_world = (C.sendto s m addr (pos 0) w).1

    pub queue-asked :
        D.queue asked_world r.socket.socket_fd
        ≡ D.queue w r.socket.socket_fd ++ (m, name s.socket_fd) ∷ []
    queue-asked =
        D.sendto-queue s r.socket.socket_fd m addr w r.socket.socket_fd (v.routes addr ∙ there)
        ∙ rw (beq_ℤ_refl r.socket.socket_fd, v.names s.socket_fd)

    pub answers-asked : D.queue asked_world q.socket.socket_fd ≡ D.queue w q.socket.socket_fd
    answers-asked =
        D.sendto-queue s r.socket.socket_fd m addr w q.socket.socket_fd (v.routes addr ∙ there)
        ∙ rw (beq_ne q.socket.socket_fd r.socket.socket_fd apart)

    pub asked-Good : d ≢ r.socket.socket_fd → length m ≡ r.msg_size → Good asked_world
    asked-Good apart' sized = record {
      routes = λ b. (D.sendto-route s m addr w).0 b ∙ v.routes b;
      names = λ e. (D.sendto-route s m addr w).1 e ∙ v.names e;
      asked = rw queue-asked (
          AllAsked-append C D q r addr route name (D.queue w r.socket.socket_fd) m
            (name s.socket_fd) d v.asked sized leads apart');
      answered = rw answers-asked v.answered;
    }

    pub outstanding-asked :
        (hers : List Message)
        → mine' ((m, name s.socket_fd) ∷ []) ≡ hers
        → owed asked_world ≡ owed w ++ map g hers
    outstanding-asked hers e =
        outstanding-of asked_world _ _ answers-asked queue-asked
        ∙ rw
            (
              mine-append C D q r addr route name (D.queue w r.socket.socket_fd) m
                  (name s.socket_fd),
              e,
            )
            (simp (map-append, append_assoc))

  -- Some socket other than the replier's receives.
  module _ (s : Socket) (n : ℕ) (m : Message) (b : Addr) (rest : List (Datagram Addr)) (w : World)
      (v : Good w) (first : D.queue w s.socket_fd ≡ (m, b) ∷ rest)
      (not_his : s.socket_fd ≢ r.socket.socket_fd) where
    abbrev pub received_world : World
    received_world = (C.recv s n (pos 0) w).1

    pub requests-received : D.queue received_world r.socket.socket_fd ≡ D.queue w r.socket.socket_fd
    requests-received =
        D.recv-queue s n w m b rest r.socket.socket_fd first
        ∙ rw (beq_ne r.socket.socket_fd s.socket_fd (λ e. not_his (sym e)))

    pub received-Good :
        AllSized q.msg_size (map (λ d. d.0) (D.queue received_world q.socket.socket_fd))
        → Good received_world
    received-Good sized = record {
      routes = λ a. (D.recv-route s n w).0 a ∙ v.routes a;
      names = λ e. (D.recv-route s n w).1 e ∙ v.names e;
      asked = rw requests-received v.asked;
      answered = sized;
    }

  -- The replier serves the first request that waits.
  module _ (m : Message) (b : Addr) (rest : List (Datagram Addr)) (w : World) (v : Good w)
      (first : D.queue w r.socket.socket_fd ≡ (m, b) ∷ rest) (sized : length m ≡ r.msg_size) (d : ℤ)
      (leads : route b ≡ some d) (not_his : d ≢ r.socket.socket_fd) where
    abbrev taken_world : World
    taken_world = (C.recvfrom r.socket r.msg_size (some C.zero_addr) (pos 0) w).1

    abbrev computed_world : World
    computed_world = (f m taken_world).1

    abbrev served_world : World
    served_world = (C.sendto r.socket (g m) b (pos 0) computed_world).1

    pub once-served : (once C r w).1 ≡ served_world
    once-served =
        ap (λ x. x.1)
          (once-answers C D r f m b rest w set first (some_taken r.msg_size m sized some_ask))
        ∙ rw (padded-of_sized r.msg_size m sized, computes.answer m taken_world)

    computed_net : IsSameNet C D w computed_world
    computed_net =
        IsSameNet-trans C D w taken_world computed_world
          (D.recvfrom-route r.socket r.msg_size C.zero_addr w) (computes.same_net m taken_world)

    queue-computed :
        (e : ℤ)
        → D.queue computed_world e ≡ (if beq_ℤ e r.socket.socket_fd then rest else D.queue w e)
    queue-computed e =
        computes.same_queue m taken_world e
        ∙ D.recvfrom-queue r.socket r.msg_size C.zero_addr w m b rest e first

    queue-served :
        (e : ℤ)
        → D.queue served_world e ≡ (
            if beq_ℤ e d
            then D.queue computed_world e ++ (g m, D.name computed_world r.socket.socket_fd) ∷ []
            else D.queue computed_world e)
    queue-served e =
        D.sendto-queue r.socket d (g m) b computed_world e (computed_net.0 b ∙ v.routes b ∙ leads)

    pub requests-served : D.queue served_world r.socket.socket_fd ≡ rest
    requests-served =
        queue-served r.socket.socket_fd
        ∙ rw (beq_ne r.socket.socket_fd d (λ e. not_his (sym e)), queue-computed r.socket.socket_fd)
            (rw (beq_ℤ_refl r.socket.socket_fd))

    answers-computed : D.queue computed_world q.socket.socket_fd ≡ D.queue w q.socket.socket_fd
    answers-computed =
        queue-computed q.socket.socket_fd ∙ rw (beq_ne q.socket.socket_fd r.socket.socket_fd apart)

    -- The answer to the requester, or to another.
    pub answers-hers :
        beq_ℤ q.socket.socket_fd d ≡ true
        → D.queue served_world q.socket.socket_fd
          ≡ D.queue w q.socket.socket_fd ++ (g m, D.name computed_world r.socket.socket_fd) ∷ []
    answers-hers hers = queue-served q.socket.socket_fd ∙ rw (hers, answers-computed)

    answers-others :
        beq_ℤ q.socket.socket_fd d ≡ false
        → D.queue served_world q.socket.socket_fd ≡ D.queue w q.socket.socket_fd
    answers-others others = queue-served q.socket.socket_fd ∙ rw (others, answers-computed)

    served-Good :
        AllSized q.msg_size (map (λ d. d.0) (D.queue served_world q.socket.socket_fd))
        → AllAsked C D q r addr route name rest
        → Good served_world
    served-Good answered all = record {
      routes =
          λ a. (D.sendto-route r.socket (g m) b computed_world).0 a ∙ computed_net.0 a ∙ v.routes a;
      names =
          λ e. (D.sendto-route r.socket (g m) b computed_world).1 e ∙ computed_net.1 e ∙ v.names e;
      asked = rw requests-served all;
      answered = answered;
    }

    -- A reply to the requester takes the place of its request, and one to another changes nothing.
    pub served-keeps :
        AllAsked C D q r addr route name rest → Good served_world × (owed served_world ≡ owed w)
    served-keeps all = elim (Bool-cases (beq_ℤ d q.socket.socket_fd)) [
      | inl same ↦
          let hers = beq_comm q.socket.socket_fd d ∙ same in
          (
            served-Good
                (rw (answers-hers hers, map-append)
                  (AllSized-append q.msg_size _ _ v.answered (reply_sized m sized, tt)))
                all,
            outstanding-of served_world _ _ (answers-hers hers) requests-served
                ∙ rw (leads, same) (simp (map-append, append_assoc))
                ∙ sym (outstanding-of w _ _ refl first),
          )
      | inr other ↦
          let others = beq_comm q.socket.socket_fd d ∙ other in
          (
            served-Good (rw (answers-others others) v.answered) all,
            outstanding-of served_world _ _ (answers-others others) requests-served
                ∙ (rw (leads, other))
                ∙ sym (outstanding-of w _ _ refl first),
          )
    ]
