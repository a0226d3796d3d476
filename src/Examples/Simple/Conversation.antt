-- ===== src/Examples/Simple/Conversation.antt =====
-- `pub` and `sub` of cpp/examples/simple.cpp, one after the other on one network.
use mathlib.Core.List.{append-nil, append_assoc}
use marko.Base.{ℕ, suc, zero, ◌≡◌, sym, ◌∙◌, ◌<>◌, false, some, [], ◌∷◌, ◌++◌, replicate, arith}
use marko.Base.Int.{ℤ, pos, is_negative, beq_ℤ_refl}
use marko.System.{InetAddr, System}
use marko.System.Laws.{PrintLaws}
use marko.Socket.{newline}
use marko.Datagram.Network.{DeliveryLaws}
use marko.Examples.Simple.{max_loop, hello, host, port, get_udp_addr, pub_loop, sub_loop, returned}
use marko.Examples.Simple.Subscriber.{AllShort, Apart, line, printed-sub_loop}

AllShort-replicate : (n : ℕ) (a : InetAddr) → AllShort (replicate n (hello, a))
AllShort-replicate zero a = tt
AllShort-replicate (suc n) a = (
  ((omega arith, (omega arith, (omega arith, (omega arith, (omega arith, tt))))), omega arith),
  AllShort-replicate n a,
)

module _ (S : System) (P : PrintLaws S) (L : DeliveryLaws S.World InetAddr S.inet)
    (A : Apart S P L) where
  -- No `sendto` of a hello fails.
  abbrev pub SendsSucceed : ℤ → InetAddr → Type 0
  SendsSucceed fd addr =
      (w : S.World) → is_negative (S.inet.sendto fd hello (pos 0) addr w).0 ≡ false

  queue-pub_loop :
      (rounds : ℕ) (fd to : ℤ) (addr : InetAddr) (w : S.World)
      → L.route w addr ≡ some to
      → SendsSucceed fd addr
      → L.queue (pub_loop S rounds fd addr w).1 to
        ≡ L.queue w to ++ replicate rounds (hello, L.name w fd)
  unfolding pub_loop
  queue-pub_loop zero fd to addr w leads sends = sym (append-nil _)
  queue-pub_loop (suc rounds) fd to addr w leads sends =
      let w' = (S.inet.sendto fd hello (pos 0) addr w).1 in
      let kept = L.sendto-route fd hello addr w in
      let one : L.queue w' to ≡ L.queue w to ++ (hello, L.name w fd) ∷ [] =
        L.sendto-queue fd to hello addr w to leads ∙ rw (beq_ℤ_refl to) in
      let v = S.print ("Reply sent to client " <> newline) w' in
      let leads' : L.route v addr ≡ some to = A.route-print _ w' addr ∙ kept.0 addr ∙ leads in
      let same_name : L.name v fd ≡ L.name w fd = A.name-print _ w' fd ∙ kept.1 fd in
      rw (pub_loop, sends w)
        (queue-pub_loop rounds fd to addr v leads' sends
          ∙ rw (same_name, A.queue-print, one) (append_assoc (L.queue w to) _ _))

  -- Where nothing waits at a socket that 127.0.0.1:6666 leads to, no `sendto` of a hello fails, and
  -- the network delivers, the five rounds of `sub` return after the loop of `pub`, and print five
  -- times "hello" and the name of the socket that sent it.
  pub printed-sub_loop-pub_loop :
      (fd to : ℤ) (w : S.World)
      → L.route w (get_udp_addr S host port) ≡ some to
      → L.queue w to ≡ []
      → SendsSucceed fd (get_udp_addr S host port)
      → let w' = (pub_loop S max_loop fd (get_udp_addr S host port) w).1 in
        ((sub_loop S max_loop to w').0 ≡ returned)
        × (P.printed (sub_loop S max_loop to w').1
            ≡ P.printed w' ++ replicate max_loop (line S (hello, L.name w fd)))
  printed-sub_loop-pub_loop fd to w leads empty sends =
      let addr = get_udp_addr S host port in
      let w' = (pub_loop S max_loop fd addr w).1 in
      let hellos = replicate max_loop (hello, L.name w fd) in
      let waiting : L.queue w' to ≡ hellos =
        queue-pub_loop max_loop fd to addr w leads sends ∙ rw empty in
      printed-sub_loop S P L A to hellos w' waiting (AllShort-replicate max_loop (L.name w fd))
