-- ===== src/Tests/Threads.antt =====
-- The threads of the tests and the examples.
use marko.Base.{◌≡◌, refl, [], ◌∷◌}
use marko.Base.Int.{pos}
use marko.System.Loopback.{localhost}
use marko.Datagram.Udp
use marko.Datagram.Unix
use marko.PubSub
use marko.PubSub.Threads.{pub_thread, sub_thread, sub_example, pub_thread_un, sub_thread_un}
use marko.RequestReply.{returned}
use marko.RequestReply.Threads.{rep_thread, rep_thread_un, req_thread, req_thread_un}
use marko.Tests.Setting.{S, asker, machine, udp, unix, double, notes, path_address}

rep_thread_test : (rep_thread S udp 4 localhost (λ m w. (double m, w)) 5 machine).0 ≡ returned tt
unfolding rep_thread Udp.make Udp.recvfrom Udp.bind
rep_thread_test = refl

rep_thread_un_test :
    (rep_thread_un S unix 4
      (path_address "a")
      (path_address "c")
      (λ m w. (double m, w))
      5
      machine).0
    ≡ returned tt
unfolding rep_thread_un Unix.make Unix.recv Unix.bind
rep_thread_un_test = refl

-- Where nothing is sent or answered, nothing is handed on.
sub_thread_test : (sub_thread S udp 2 localhost notes 1 machine).seen ≡ []
unfolding sub_thread Udp.make PubSub.once Udp.recv Udp.bind
sub_thread_test = refl

sub_example_test : (sub_example S udp 2 localhost notes 1 machine).seen ≡ []
unfolding sub_example Udp.make PubSub.once Udp.recv Udp.connect
sub_example_test = refl

req_thread_test : (req_thread S udp 4 asker ((1 ∷ []) ∷ []) machine).0 ≡ [] ∷ []
unfolding req_thread Udp.recv Udp.sendto Udp.make
req_thread_test = refl

req_thread_un_test :
    (req_thread_un S unix 4 (path_address "c") (path_address "a") ((1 ∷ []) ∷ []) machine).0
    ≡ [] ∷ []
unfolding req_thread_un Unix.recv Unix.sendto Unix.bind Unix.make
req_thread_un_test = refl

-- A message that is published to a path, and a subscriber that gets none.
pub_thread_un_test :
    (pub_thread_un S (path_address "b") ((7 ∷ 8 ∷ []) ∷ []) machine).unix.queue (pos 4)
    ≡ (7 ∷ 8 ∷ [], path_address "") ∷ []
unfolding pub_thread PubSub.publish Unix.make Unix.connect Unix.sendto
pub_thread_un_test = refl

sub_thread_un_test : (sub_thread_un S 2 (path_address "c") notes 1 machine).seen ≡ []
unfolding sub_thread PubSub.once Unix.make Unix.bind Unix.recv
sub_thread_un_test = refl
