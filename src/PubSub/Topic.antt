-- ===== src/PubSub/Topic.antt =====
-- What a topic promises, apart from sockets: the messages that were handed to the subscriber's
-- callbacks, and those that wait. Publishers and a subscriber that run at once implement it.
use marko.Base.{ℕ, ◌<◌, ◌≡◌, List, [], ◌∷◌, ◌++◌, length}
use marko.System.{Message}
use marko.Datagram.Class.{SocketClass}
use marko.Datagram.Network.{Datagram, Delivery}
use marko.PubSub.{Subscriber}
use marko.PubSub.Session.{Watcher}
use marko.PubSub.Interleaving.{waiting}

-- What was handed over, and what waits.
abbrev pub Topic : Type 0
Topic = List Message × List Message

-- A topic for messages of a size: one is added behind those that wait, or the first of them is
-- handed over.
pub data TopicStep (size : ℕ) : Topic → List Message → Topic → Type 0 where
  adds :
      {handed waits : List Message} (m : Message)
      → length m ≡ size
      → TopicStep size (handed, waits) (m ∷ []) (handed, waits ++ m ∷ [])
  hands_over :
      {handed : List Message} (m : Message) (waits : List Message)
      → TopicStep size (handed, m ∷ waits) [] (handed ++ m ∷ [], waits)

pub data TopicRun (size : ℕ) (t : Topic) : List Message → Topic → Type 0 where
  at_rest : TopicRun size t [] t
  then_does :
      {msgs ms : List Message} {t' t'' : Topic}
      → TopicRun size t msgs t'
      → TopicStep size t' ms t''
      → TopicRun size t (msgs ++ ms) t''

module _ {World Addr : Type 0} (C : SocketClass World Addr) (D : Delivery World Addr C)
    (s : Subscriber World) (a : Addr) (W : Watcher World Addr C D s.callbacks Message (λ m. m))
    (some_bytes : 0 < s.data_size) where
  -- The topic that the machine is in.
  abbrev pub topic : World → Topic
  topic w = (W.seen w, waiting C D s a w)
