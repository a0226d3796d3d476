-- ===== src/PubSub/Session.antt =====
-- A publisher and a subscriber over a network that delivers, as in cpp/examples/ps.cpp and
-- cpp/gtests/test_ps.cpp: a loop of `publish` on one side and a loop of `once` on the other.
use mathlib.Core.List.{append_assoc, append-nil}
use marko.Base.{
  ℕ, zero, suc, ◌-◌, ◌<◌, ◌≡◌, refl, sym, ap, ◌∙◌, List, [], ◌∷◌, ◌++◌, map, some, length, take_all,
  arith,
}
use marko.Base.Int.{ℤ, pos, beq_ℤ_refl}
use marko.System.{Message}
use marko.Socket.{Socket}
use marko.Datagram.Class.{SocketClass, zeros}
use marko.Datagram.Network.{Datagram, Delivery, received}
use marko.PubSub.{Publisher, Subscriber, publish, send_all, once, call_all}

-- Every message has the size that the subscriber was made for.
abbrev pub AllSized : ℕ → List Message → Type 0
AllSized n [] = Unit
AllSized n (m ∷ msgs) = (length m ≡ n) × AllSized n msgs

pub zeros-none : (n : ℕ) → zeros (n - n) ≡ []
zeros-none n = let none_left : n - n ≡ 0 = omega arith in ap zeros none_left

pub received-of_sized : (n : ℕ) (m : Message) → length m ≡ n → 0 < n → received n m ≡ m
received-of_sized n m sized some_bytes =
    rw (← sized, take_all m) (ground (arith, append-nil m, zeros-none (length m)))

module _ {World Addr : Type 0} (C : SocketClass World Addr) where
  -- `for (...) p.publish(m);`
  unfoldable pub publish_each : Publisher Addr → List Message → World → World
  publish_each p [] w = w
  publish_each p (m ∷ msgs) w = publish_each p msgs (publish C p m w)

  -- `for (...) s.once();`
  unfoldable pub once_each : ℕ → Subscriber World → World → World
  once_each zero s w = w
  once_each (suc k) s w = once_each k s (once C s w)

-- What the callbacks of a subscriber have noted: something of each message that they are called on,
-- once. They leave the queues and the routes alone, and the network leaves what they have noted alone.
pub record Watcher (World Addr : Type 0) (C : SocketClass World Addr) (D : Delivery World Addr C)
    (callbacks : List (Message → World → World)) (Seen : Type 0) (note : Message → Seen)
    : Type 0 where
  pub seen : World → List Seen
  pub seen-call_all :
      (m : Message) (w : World) → seen (call_all callbacks m w) ≡ seen w ++ note m ∷ []
  pub queue-call_all :
      (m : Message) (w : World) (d : ℤ) → D.queue (call_all callbacks m w) d ≡ D.queue w d
  pub route-call_all :
      (m : Message) (w : World) (a : Addr) → D.route (call_all callbacks m w) a ≡ D.route w a
  pub seen-recv : (s : Socket) (n : ℕ) (w : World) → seen (C.recv s n (pos 0) w).1 ≡ seen w
  pub seen-sendto :
      (s : Socket) (m : Message) (a : Addr) (w : World) → seen (C.sendto s m a (pos 0) w).1 ≡ seen w

module _ {World Addr : Type 0} (C : SocketClass World Addr) (D : Delivery World Addr C) where
  pub publish-one :
      (p : Publisher Addr) (a : Addr) (m : Message) (w : World)
      → p.clientaddrs ≡ a ∷ []
      → publish C p m w ≡ (C.sendto p.socket m a (pos 0) w).1
  unfolding publish
  publish-one p a m w one = rw (one, send_all)

  -- Publishing to one address puts the messages, in order, at the end of the queue there.
  pub queue-publish_each :
      (p : Publisher Addr) (a : Addr) (to : ℤ) (from : Addr) (msgs : List Message) (w : World)
      → p.clientaddrs ≡ a ∷ []
      → D.route w a ≡ some to
      → D.name w p.socket.socket_fd ≡ from
      → D.queue (publish_each C p msgs w) to ≡ D.queue w to ++ map (λ m. (m, from)) msgs
  unfolding publish_each
  queue-publish_each p a to from [] w one routed named = sym (append-nil (D.queue w to))
  queue-publish_each p a to from (m ∷ msgs) w one routed named = rw (publish-one p a m w one) (
      queue-publish_each p a to from msgs (C.sendto p.socket m a (pos 0) w).1 one
        ((D.sendto-route p.socket m a w).0 a ∙ routed) ((D.sendto-route p.socket m a w).1 _ ∙ named)
      ∙ rw (D.sendto-queue p.socket to m a w to routed, beq_ℤ_refl to, named)
          (append_assoc (D.queue w to) _ _))

module _ {World Addr : Type 0} (C : SocketClass World Addr) (D : Delivery World Addr C)
    (s : Subscriber World) (some_bytes : 0 < s.data_size) where
  pub once-received :
      (m : Message) (a : Addr) (rest : List (Datagram Addr)) (w : World)
      → length m ≡ s.data_size
      → D.queue w s.socket.socket_fd ≡ (m, a) ∷ rest
      → once C s w ≡ call_all s.callbacks m (C.recv s.socket s.data_size (pos 0) w).1
  unfolding once
  once-received m a rest w sized waiting =
      let got =
        D.recv-first s.socket s.data_size w m a rest waiting
        ∙ received-of_sized s.data_size m sized some_bytes in
      rw (got, sized) (ground arith)

module _ {World Addr : Type 0} (C : SocketClass World Addr) (D : Delivery World Addr C)
    (s : Subscriber World) {Seen : Type 0} {note : Message → Seen}
    (W : Watcher World Addr C D s.callbacks Seen note) (some_bytes : 0 < s.data_size) where
  pub seen-once_each :
      (msgs : List Message) (from : Addr) (w : World)
      → AllSized s.data_size msgs
      → D.queue w s.socket.socket_fd ≡ map (λ m. (m, from)) msgs
      → W.seen (once_each C (length msgs) s w) ≡ W.seen w ++ map note msgs
  unfolding once_each
  seen-once_each [] from w sized waiting = sym (append-nil (W.seen w))
  seen-once_each (m ∷ msgs) from w (sized, others) waiting =
      ap (λ x. W.seen (once_each C (length msgs) s x))
        (once-received C D s some_bytes m from (map (λ x. (x, from)) msgs) w sized waiting)
      ∙ (seen-once_each msgs from (call_all s.callbacks m (C.recv s.socket s.data_size (pos 0) w).1)
            others
            (W.queue-call_all m _ _
              ∙ D.recv-queue s.socket s.data_size w m from _ s.socket.socket_fd waiting
              ∙ rw (beq_ℤ_refl s.socket.socket_fd))
          ∙ rw (W.seen-call_all, W.seen-recv) (append_assoc (W.seen w) _ _))

  seen-publish_each :
      (p : Publisher Addr) (a : Addr) (msgs : List Message) (w : World)
      → p.clientaddrs ≡ a ∷ []
      → W.seen (publish_each C p msgs w) ≡ W.seen w
  unfolding publish_each
  seen-publish_each p a [] w one = refl
  seen-publish_each p a (m ∷ msgs) w one =
      seen-publish_each p a msgs _ one ∙ rw (publish-one C D p a m w one) (W.seen-sendto _ _ _ w)

  -- Where the network delivers, a subscriber that starts with nothing waiting hands its callbacks
  -- every message that is published to its address, once and in order, as what they note shows,
  -- given as many calls of `once` and messages of its size.
  pub seen-once_each-publish_each :
      (p : Publisher Addr) (a : Addr) (msgs : List Message) (w : World)
      → p.clientaddrs ≡ a ∷ []
      → D.route w a ≡ some s.socket.socket_fd
      → D.queue w s.socket.socket_fd ≡ []
      → AllSized s.data_size msgs
      → W.seen (once_each C (length msgs) s (publish_each C p msgs w)) ≡ W.seen w ++ map note msgs
  seen-once_each-publish_each p a msgs w one routed idle sized =
      seen-once_each msgs (D.name w p.socket.socket_fd) (publish_each C p msgs w) sized
        (queue-publish_each C D p a s.socket.socket_fd _ msgs w one routed refl ∙ rw idle)
      ∙ rw (seen-publish_each p a msgs w one)
