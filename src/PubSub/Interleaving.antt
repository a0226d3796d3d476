-- ===== src/PubSub/Interleaving.antt =====
-- Publishers and a subscriber that run at once, as the threads of cpp/gtests/test_ps.cpp do: their
-- calls of `publish` and `once` in any order. `recv` waits for a datagram, so that a call of `once`
-- ends, as a step, only where one waits.
use mathlib.Core.List.{append_assoc, append-nil, map-append}
use marko.Base.{ℕ, ◌<◌, ◌≡◌, refl, sym, ap, ◌∙◌, List, [], ◌∷◌, ◌++◌, map, some, length, length-map}
use marko.Base.Int.{pos, beq_ℤ_refl}
use marko.System.{Message}
use marko.Datagram.Class.{SocketClass}
use marko.Datagram.Network.{Datagram, Delivery}
use marko.PubSub.{Publisher, Subscriber, publish, once, call_all}
use marko.PubSub.Session.{AllSized, Watcher, publish-one, once-received, once_each}

pub AllSized-append :
    (n : ℕ) (ms ks : List Message) → AllSized n ms → AllSized n ks → AllSized n (ms ++ ks)
AllSized-append n [] ks h k = k
AllSized-append n (m ∷ ms) ks (h, hs) k = (h, AllSized-append n ms ks hs k)

module _ {World Addr : Type 0} (C : SocketClass World Addr) (D : Delivery World Addr C)
    (s : Subscriber World) (a : Addr) where
  -- The messages that wait for the subscriber.
  abbrev pub waiting : World → List Message
  waiting w = map (λ d. d.0) (D.queue w s.socket.socket_fd)

  -- One call: some publisher whose one address is `a` publishes, or the subscriber takes a message.
  -- The list has what was published.
  pub data Step : World → List Message → World → Type 0 where
    publishes :
        {w : World} (p : Publisher Addr) (m : Message)
        → p.clientaddrs ≡ a ∷ []
        → length m ≡ s.data_size
        → Step w (m ∷ []) (publish C p m w)
    takes :
        {w : World} (d : Datagram Addr) (rest : List (Datagram Addr))
        → D.queue w s.socket.socket_fd ≡ d ∷ rest
        → Step w [] (once C s w)

  -- Any sequence of calls, with what was published in all.
  pub data Run (w : World) : List Message → World → Type 0 where
    idle : Run w [] w
    then_step :
        {msgs ms : List Message} {w' w'' : World}
        → Run w msgs w'
        → Step w' ms w''
        → Run w (msgs ++ ms) w''

  -- The address leads to the subscriber, and all that waits has its size.
  abbrev pub IsServed : World → Type 0
  IsServed w = (D.route w a ≡ some s.socket.socket_fd) × AllSized s.data_size (waiting w)

  module _ (W : Watcher World Addr C D s.callbacks Message (λ m. m))
      (some_bytes : 0 < s.data_size) where
    pub waiting-publish :
        (p : Publisher Addr) (m : Message) (w : World)
        → p.clientaddrs ≡ a ∷ []
        → D.route w a ≡ some s.socket.socket_fd
        → waiting (publish C p m w) ≡ waiting w ++ m ∷ []
    waiting-publish p m w one routed =
        ap waiting (publish-one C D p a m w one)
        ∙ rw
            (
              D.sendto-queue p.socket _ m a w s.socket.socket_fd routed,
              beq_ℤ_refl s.socket.socket_fd,
            )
            (map-append _ _ _)

    pub publish-IsServed :
        (p : Publisher Addr) (m : Message) (w : World)
        → p.clientaddrs ≡ a ∷ []
        → length m ≡ s.data_size
        → IsServed w
        → IsServed (publish C p m w)
    publish-IsServed p m w one sized (routed, all) = (
      rw (publish-one C D p a m w one) ((D.sendto-route p.socket m a w).0 a ∙ routed),
      rw (waiting-publish p m w one routed)
          (AllSized-append s.data_size (waiting w) (m ∷ []) all (sized, tt)),
    )

    publish-step :
        (p : Publisher Addr) (m : Message) (w : World)
        → p.clientaddrs ≡ a ∷ []
        → D.route w a ≡ some s.socket.socket_fd
        → W.seen (publish C p m w) ++ waiting (publish C p m w) ≡ W.seen w ++ waiting w ++ m ∷ []
    publish-step p m w one routed =
        ap (λ x. x ++ waiting (publish C p m w))
          (ap W.seen (publish-one C D p a m w one) ∙ W.seen-sendto p.socket m a w)
        ∙ rw (waiting-publish p m w one routed) (sym (append_assoc (W.seen w) (waiting w) _))

    module _ (m : Message) (b : Addr) (rest : List (Datagram Addr)) (w : World)
        (first : D.queue w s.socket.socket_fd ≡ (m, b) ∷ rest)
        (sized : length m ≡ s.data_size) where
      abbrev received_world : World
      received_world = (C.recv s.socket s.data_size (pos 0) w).1

      once-takes : once C s w ≡ call_all s.callbacks m received_world
      once-takes = once-received C D s some_bytes m b rest w sized first

      pub queue-once : D.queue (once C s w) s.socket.socket_fd ≡ rest
      queue-once =
          ap (λ x. D.queue x s.socket.socket_fd) once-takes
          ∙ W.queue-call_all m received_world s.socket.socket_fd
          ∙ D.recv-queue s.socket s.data_size w m b rest s.socket.socket_fd first
          ∙ rw (beq_ℤ_refl s.socket.socket_fd)

      pub route-once : D.route (once C s w) a ≡ D.route w a
      route-once =
          ap (λ x. D.route x a) once-takes
          ∙ W.route-call_all m received_world a
          ∙ (D.recv-route s.socket s.data_size w).0 a

      pub seen-once : W.seen (once C s w) ≡ W.seen w ++ m ∷ []
      seen-once =
          ap W.seen once-takes
          ∙ W.seen-call_all m received_world
          ∙ ap (λ x. x ++ m ∷ []) (W.seen-recv s.socket s.data_size w)

      once-step : W.seen (once C s w) ++ waiting (once C s w) ≡ W.seen w ++ waiting w ++ []
      once-step = rw (queue-once, seen-once, first) (simp (append_assoc, append-nil))

    pub Step-IsServed :
        {w w' : World} {ms : List Message}
        → Step w ms w'
        → IsServed w
        → IsServed w' × (W.seen w' ++ waiting w' ≡ W.seen w ++ waiting w ++ ms)
    Step-IsServed (publishes p m one sized) served =
        (publish-IsServed p m _ one sized served, publish-step p m _ one served.0)
    Step-IsServed {w = w} (takes (m, b) rest first) (routed, all) =
        let all_sized : AllSized s.data_size (map (λ d. d.0) ((m, b) ∷ rest)) = rw first at all in
        (
          (
            route-once m b rest w first all_sized.0 ∙ routed,
            rw (queue-once m b rest w first all_sized.0) all_sized.1,
          ),
          once-step m b rest w first all_sized.0,
        )

    -- However the calls of publish of any publishers whose one address is the subscriber's and the
    -- calls of once are interleaved, where the network delivers, every message that is published or
    -- that waits at the start has the subscriber's size, which is not 0, and the callbacks note
    -- what they are handed and leave the network alone: what the callbacks have been handed
    -- followed by what still waits is what it was at the start followed by all that was published
    -- since, so that no message is lost, repeated or overtaken; and the address still leads to the
    -- subscriber, with messages of its size.
    pub seen-waiting-Run :
        {w w' : World} {msgs : List Message}
        → Run w msgs w'
        → IsServed w
        → IsServed w' × (W.seen w' ++ waiting w' ≡ W.seen w ++ waiting w ++ msgs)
    seen-waiting-Run idle served = (served, sym (append-nil _))
    seen-waiting-Run {w = w} (then_step {msgs = sent} {ms = ms} run step) served =
        let (before, so_far) = seen-waiting-Run run served in
        let (after, one_more) = Step-IsServed step before in
        (after, one_more ∙ ap (λ x. x ++ ms) so_far ∙ append_assoc (W.seen w ++ waiting w) sent ms)

    seen-drained :
        (q : List (Datagram Addr)) (w : World)
        → D.queue w s.socket.socket_fd ≡ q
        → IsServed w
        → W.seen (once_each C (length q) s w) ≡ W.seen w ++ map (λ d. d.0) q
    unfolding once_each
    seen-drained [] w first served = sym (append-nil (W.seen w))
    seen-drained ((m, b) ∷ rest) w first served =
        let sized : length m ≡ s.data_size = (rw first at served.1).0 in
        seen-drained rest (once C s w) (queue-once m b rest w first sized)
          (Step-IsServed (takes (m, b) rest first) served).0
        ∙ rw (seen-once m b rest w first sized) (append_assoc (W.seen w) _ _)

    -- However the calls of publish of publishers whose one address is the subscriber's and of once
    -- were interleaved, where the network delivers, every message that was published or that waited
    -- at the start has the subscriber's size, which is not 0, and the callbacks note what they are
    -- handed and leave the network alone: as many more calls of once as messages wait hand the
    -- callbacks all that was published and not handed to them yet, in the order of publication.
    pub seen-once_each-Run :
        {w w' : World} {msgs : List Message}
        → Run w msgs w'
        → IsServed w
        → W.seen (once_each C (length (waiting w')) s w') ≡ W.seen w ++ waiting w ++ msgs
    seen-once_each-Run {w' = w'} run served =
        let (after, so_far) = seen-waiting-Run run served in
        ap (λ k. W.seen (once_each C k s w'))
          (length-map (λ d. d.0) (D.queue w' s.socket.socket_fd))
        ∙ seen-drained (D.queue w' s.socket.socket_fd) w' refl after
        ∙ so_far
