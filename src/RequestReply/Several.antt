-- ===== src/RequestReply/Several.antt =====
-- Several requesters of one `Reply` that run at once: `Request::request` sends and then receives, and
-- the calls of the others, and `Reply::once`, run in between in any order. A call that waits for a
-- datagram is a step where one waits. One requester is followed.
pub mod Calls
pub mod Replies
pub mod Late
pub mod Settled
pub mod Remote
use mathlib.Core.List.{append_assoc, append-nil, map-append}
use marko.Base.{
  St, ◌<◌, ℕ, ◌<◌, ◌≡◌, ◌≢◌, refl, sym, ap, ◌∙◌, Bool, true, false, Bool-cases, inl, inr, Option,
  none, some, List, [], ◌∷◌, ◌++◌, map, length, if◌then◌else◌, St, arith,
}
use marko.Base.Int.{ℤ, pos, beq_ℤ, beq_ℤ_iff, beq_ℤ_refl}
use marko.System.{Message}
use marko.Socket.{Socket}
use marko.Datagram.Class.{SocketClass}
use marko.Datagram.Network.{Datagram, Delivery}
use marko.PubSub.Session.{AllSized, received-of_sized}
use marko.PubSub.Interleaving.{AllSized-append}
use marko.RequestReply.{Outcome, returned, Reply, Request, once}
use marko.RequestReply.Once.{once-answers}
use marko.RequestReply.Answer.{IsSameNet, IsSameNet-trans}
use marko.RequestReply.Exchange.{Computes, some_taken, padded-of_sized}

-- Whether an address leads to a descriptor.
abbrev pub leads_to : Option ℤ → ℤ → Bool
leads_to none fd = false
leads_to (some d) fd = beq_ℤ d fd

pub beq_ne : (d e : ℤ) → d ≢ e → beq_ℤ d e ≡ false
beq_ne d e apart = elim (Bool-cases (beq_ℤ d e)) [
  | inl same ↦ absurd (apart ((beq_ℤ_iff d e).0 same))
  | inr other ↦ other
]

-- Which descriptors the addresses lead to and which names the descriptors have does not change.
module _ {World Addr : Type 0} (C : SocketClass World Addr) (D : Delivery World Addr C)
    (q : Request) (r : Reply World) (addr : Addr) (route : Addr → Option ℤ) (name : ℤ → Addr) where
  -- One call: of the requester (`asks`, `receives`), of another, or of `once`. The lists have what
  -- the requester sent and what it received.
  pub data Step : World → List Message → List Message → World → Type 0 where
    asks :
        {w : World} (m : Message)
        → length m ≡ r.msg_size
        → Step w (m ∷ []) [] (C.sendto q.socket m addr (pos 0) w).1
    receives :
        {w : World} (m : Message) (b : Addr) (rest : List (Datagram Addr))
        → D.queue w q.socket.socket_fd ≡ (m, b) ∷ rest
        → Step w []
            ((C.recv q.socket q.msg_size (pos 0) w).0 ∷ [])
            (C.recv q.socket q.msg_size (pos 0) w).1
    other_asks :
        {w : World} (s : Socket) (d : ℤ) (m : Message)
        → route (name s.socket_fd) ≡ some d
        → d ≢ q.socket.socket_fd
        → d ≢ r.socket.socket_fd
        → length m ≡ r.msg_size
        → Step w [] [] (C.sendto s m addr (pos 0) w).1
    other_receives :
        {w : World} (s : Socket) (n : ℕ) (m : Message) (b : Addr) (rest : List (Datagram Addr))
        → s.socket_fd ≢ q.socket.socket_fd
        → s.socket_fd ≢ r.socket.socket_fd
        → D.queue w s.socket_fd ≡ (m, b) ∷ rest
        → Step w [] [] (C.recv s n (pos 0) w).1
    serves :
        {w : World} (m : Message) (b : Addr) (rest : List (Datagram Addr))
        → D.queue w r.socket.socket_fd ≡ (m, b) ∷ rest
        → Step w [] [] (once C r w).1

  pub data Run (w : World) : List Message → List Message → World → Type 0 where
    idle : Run w [] [] w
    then_step :
        {asked got ms ks : List Message} {w' w'' : World}
        → Run w asked got w'
        → Step w' ms ks w''
        → Run w (asked ++ ms) (got ++ ks) w''

  -- A request that waits at the replier has its size, and its sender leads to a requester.
  abbrev pub AllAsked : List (Datagram Addr) → Type 0
  AllAsked [] = Unit
  AllAsked ((m, b) ∷ ds) =
      ((length m ≡ r.msg_size) × (d : ℤ) × (route b ≡ some d) × (d ≢ r.socket.socket_fd))
      × AllAsked ds

  pub record IsServed (w : World) : Type 0 where
    pub routes : (b : Addr) → D.route w b ≡ route b
    pub names : (d : ℤ) → D.name w d ≡ name d
    pub asked : AllAsked (D.queue w r.socket.socket_fd)
    pub answered : AllSized q.msg_size (map (λ d. d.0) (D.queue w q.socket.socket_fd))

  -- The requests of the requester among those that wait.
  abbrev pub mine : List (Datagram Addr) → List Message
  mine [] = []
  mine ((m, b) ∷ ds) = if leads_to (route b) q.socket.socket_fd then m ∷ mine ds else mine ds

  -- What the requester has still to receive: the replies that wait, and what the callback, which
  -- computes `g`, makes of those of its requests that wait.
  abbrev pub outstanding : (Message → Message) → World → List Message
  outstanding g w =
      map (λ d. d.0) (D.queue w q.socket.socket_fd) ++ map g (mine (D.queue w r.socket.socket_fd))

  pub AllAsked-append :
      (ds : List (Datagram Addr)) (m : Message) (b : Addr) (d : ℤ)
      → AllAsked ds
      → length m ≡ r.msg_size
      → route b ≡ some d
      → d ≢ r.socket.socket_fd
      → AllAsked (ds ++ (m, b) ∷ [])
  AllAsked-append [] m b d all sized leads apart = ((sized, d, leads, apart), tt)
  AllAsked-append ((m', b') ∷ ds) m b d (one, all) sized leads apart =
      (one, AllAsked-append ds m b d all sized leads apart)

  pub mine-append :
      (ds : List (Datagram Addr)) (m : Message) (b : Addr)
      → mine (ds ++ (m, b) ∷ []) ≡ mine ds ++ mine ((m, b) ∷ [])
  mine-append [] m b = refl
  mine-append ((m', b') ∷ ds) m b = elim (Bool-cases (leads_to (route b') q.socket.socket_fd)) [
    | inl hers ↦ rw hers (ap (◌∷◌ m') (mine-append ds m b))
    | inr others ↦ rw others (mine-append ds m b)
  ]

-- The callback computes `g`, messages have their sizes, and the addresses lead where they should.
pub record Setup {World Addr : Type 0} (C : SocketClass World Addr) (D : Delivery World Addr C)
    (q : Request) (r : Reply World) (addr : Addr) (route : Addr → Option ℤ) (name : ℤ → Addr)
    (f : Message → St World Message) (g : Message → Message) : Type 0 where
  pub set : r.callback ≡ some f
  pub computes : Computes C D f g
  pub some_ask : 0 < r.msg_size
  pub some_answer : 0 < q.msg_size
  pub reply_sized : (m : Message) → length m ≡ r.msg_size → length (g m) ≡ q.msg_size
  pub there : route addr ≡ some r.socket.socket_fd
  pub back : route (name q.socket.socket_fd) ≡ some q.socket.socket_fd
  pub apart : q.socket.socket_fd ≢ r.socket.socket_fd
