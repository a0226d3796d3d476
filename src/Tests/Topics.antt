-- ===== src/Tests/Topics.antt =====
-- A publisher and a subscriber over one topic.
use marko.Base.{◌≡◌, refl, [], ◌∷◌, ◌++◌, length, arith}
use marko.System.Loopback.{Machine, localhost}
use marko.System.Loopback.Meets.{loopback-DeliveryLaws, mail-DeliveryLaws}
use marko.Datagram.Udp.{sendto, recv}
use marko.Datagram.Network.{udp-Delivery}
use marko.PubSub.{publish}
use marko.PubSub
use marko.PubSub.Session.{once_each}
use marko.PubSub.Interleaving.{
  Run, idle, then_step, publishes, takes, waiting, IsServed, seen-waiting-Run, seen-once_each-Run,
}
use marko.Tests.Setting.{asker, machine, udp, network, publisher, subscriber, watcher}

-- The subscriber takes the first message before the second is published.
abbrev between : Machine
between =
    publish udp publisher (9 ∷ 9 ∷ [])
      (PubSub.once udp subscriber (publish udp publisher (7 ∷ 8 ∷ []) machine))

taken_between :
    Run udp network subscriber localhost machine ((7 ∷ 8 ∷ []) ∷ (9 ∷ 9 ∷ []) ∷ []) between
unfolding publish recv sendto udp-Delivery loopback-DeliveryLaws mail-DeliveryLaws
taken_between =
    then_step
      (then_step (then_step idle (publishes publisher (7 ∷ 8 ∷ []) refl refl))
        (takes (7 ∷ 8 ∷ [], asker) [] refl))
      (publishes publisher (9 ∷ 9 ∷ []) refl refl)

seen-waiting-Run_example :
    IsServed udp network subscriber localhost between
    × (between.seen ++ waiting udp network subscriber localhost between
        ≡ (7 ∷ 8 ∷ []) ∷ (9 ∷ 9 ∷ []) ∷ [])
unfolding watcher
seen-waiting-Run_example =
    seen-waiting-Run udp network subscriber localhost watcher (omega arith) taken_between (refl, tt)

seen-once_each-Run_example :
    (once_each udp
      (length (waiting udp network subscriber localhost between))
      subscriber
      between).seen
    ≡ (7 ∷ 8 ∷ []) ∷ (9 ∷ 9 ∷ []) ∷ []
unfolding watcher
seen-once_each-Run_example =
    seen-once_each-Run udp network subscriber localhost watcher (omega arith) taken_between
      (refl, tt)
