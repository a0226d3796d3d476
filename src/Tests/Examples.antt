-- ===== src/Tests/Examples.antt =====
-- The programs of cpp/examples.
use marko.Base.{◌<>◌, ℕ, ◌≡◌, refl, true, false, ◌⊎◌, [], ◌∷◌, ◌++◌, replicate, arith}
use marko.Base.Int.{pos, is_negative}
use marko.System.Trace.{socket_call, traced}
use marko.System.Loopback.{Machine}
use marko.System.Loopback.Meets.{loopback-PrintLaws, loopback-DeliveryLaws, mail-DeliveryLaws}
use marko.Examples.Simple.{
  hello, host, port, get_udp_addr, info, pub_loop, sub_loop, run_pub, returned, exited, undefined,
}
use marko.Examples.Simple.Subscriber.{Apart, line, sub_loop-overruns}
use marko.Examples.Simple.Publisher.{IsCount, send_call, closing, run_pub-journal}
use marko.Examples.Simple.Conversation.{printed-sub_loop-pub_loop}
use marko.Socket.{newline}
use marko.Examples.Regex.{filter, inet, unix_path, throws, invalid_argument, main}
use marko.Examples.Regex.Matching.{codes}
use marko.Examples.Regex.Found.{Protocol}
use marko.Examples.Regex.Numbers.{digits}
use marko.Examples.Regex.Addresses.{filter-with_protocol, filter-throws, filter-unix}
use marko.Tests.Setting.{S, asker, machine}

apart : Apart S (loopback-PrintLaws (97 ∷ 98 ∷ [])) (loopback-DeliveryLaws (97 ∷ 98 ∷ []))
unfolding loopback-PrintLaws loopback-DeliveryLaws mail-DeliveryLaws
apart = record {
  printed-recvfrom = λ fd n w. refl;
  queue-print = λ t w d. refl;
  route-print = λ t w a. refl;
  name-print = λ t w d. refl;
}

-- A machine on which a datagram of 32 bytes waits for descriptor 4.
abbrev flooded : Machine
flooded = record machine {
  inet = record machine.inet { queue = λ d. (replicate 32 7, asker) ∷ [] };
}

sub_loop-overruns_example : (sub_loop S 5 (pos 4) flooded).0 ≡ undefined
unfolding loopback-DeliveryLaws mail-DeliveryLaws
sub_loop-overruns_example =
    sub_loop-overruns S (loopback-PrintLaws (97 ∷ 98 ∷ [])) (loopback-DeliveryLaws (97 ∷ 98 ∷ []))
      apart (pos 4) 4 (replicate 32 7) asker [] flooded refl (search arith) (omega arith)

run_pub-journal_example :
    let addr = get_udp_addr S host port in
    let (ending, (w', journal)) = run_pub (traced S) 0 (machine, []) in
    ((is_negative (pos 5) ≡ true)
      × (ending ≡ exited)
      × (journal ≡ socket_call (pos 2) (pos 2) (pos 0) ∷ []))
    ⊎ ((is_negative (pos 5) ≡ false)
        × ((n : ℕ) × IsCount S 5 n
              (pos 5)
              addr
              (info (traced S) 0 (pos 5) (
                (S.socket (pos 2) (pos 2) (pos 0) machine).1,
                socket_call (pos 2) (pos 2) (pos 0) ∷ [],
              )).0
              ending
            × (journal
                ≡ (info (traced S) 0 (pos 5) (
                  (S.socket (pos 2) (pos 2) (pos 0) machine).1,
                  socket_call (pos 2) (pos 2) (pos 0) ∷ [],
                )).1
                  ++ replicate n (send_call S (pos 5) addr)
                  ++ closing (pos 5) ending)))
run_pub-journal_example = run_pub-journal S 0 machine []

printed-sub_loop-pub_loop_example :
    let w' = (pub_loop S 5 (pos 3) (get_udp_addr S host port) machine).1 in
    ((sub_loop S 5 (pos 4) w').0 ≡ returned)
    × ((sub_loop S 5 (pos 4) w').1.printed ≡ w'.printed ++ replicate 5 (line S (hello, asker)))
unfolding get_udp_addr loopback-PrintLaws loopback-DeliveryLaws mail-DeliveryLaws
printed-sub_loop-pub_loop_example =
    printed-sub_loop-pub_loop S (loopback-PrintLaws (97 ∷ 98 ∷ []))
      (loopback-DeliveryLaws (97 ∷ 98 ∷ [])) apart (pos 3) (pos 4) machine refl refl (λ w. refl)

filter-with_protocol_example :
    filter S (codes "udp://127.0.0.1:3000") machine ≡ (inet (codes "127.0.0.1") 3000, machine)
unfolding digits
filter-with_protocol_example =
    filter-with_protocol S Protocol.udp b'1' (codes "27.0.0.1") 3000 machine tt (search arith)
      (omega arith)

filter-throws_example :
    (filter S (codes "tcp://bc") machine
      ≡ (throws invalid_argument, S.print ("error 0" <> newline) machine))
    × (filter S (codes "tcp://bc:*") machine ≡ (throws invalid_argument, machine))
filter-throws_example =
    filter-throws S Protocol.tcp b'b' (codes "c") [] machine tt (search arith) tt

-- A path with a "-" in it.
filter-unix_example : filter S (codes "unix:///tmp/my-socket") machine ≡ (
  unix_path (codes "/tmp/my"),
  S.print ("unix path: " <> (S.text_of_bytes (codes "/tmp/my") <> newline)) machine,
)
filter-unix_example =
    filter-unix S b'/' (codes "tmp/my") (codes "-socket") machine (search arith) refl

-- What `main` of regex.cpp finds.
main_found :
    (main S machine).0
    ≡ inet (codes "*") 3000 ∷ inet (codes "1.2.3.4") 5000 ∷ unix_path (codes "/bob/here") ∷ []
unfolding main
main_found = refl
