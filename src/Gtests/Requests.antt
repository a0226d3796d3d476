-- ===== src/Gtests/Requests.antt =====
-- cpp/gtests/test_rr.cpp: the two tests. `pack` and `unpack` are parameters, and so are the addresses
-- of the unix sockets, which socket_defs.hpp makes of texts. The tests start two threads: here `once` of
-- the replier runs between the two calls of each `request`.
pub mod Rounds
pub mod Loops
pub mod Pass
pub mod Whole
pub mod AnyOrder
pub mod Turns
pub mod Interleaved
use marko.Base.{ℕ, zero, suc, ◌<>◌, Bool, List, length, St, pure, ◌>>=◌}
use marko.Base.Int.{ℤ, pos, ◌*ℤ◌}
use marko.Base.Decimal.{to_decimal}
use marko.System.{Message, InetAddr, UnixAddr, System}
use marko.Time.{msleep}
use marko.Socket.{close}
use marko.Datagram.Class.{SocketClass}
use marko.Datagram.Udp.{socket_udp}
use marko.Datagram.Unix.{socket_unix}
use marko.RequestReply.{Outcome, Reply, Request, new_reply, register_cb, once, once_to, new_request}
use marko.RequestReply.Exchange.{exchange}
use marko.Examples.Structs.{Codec}
use marko.Gtests.{Gtest}

abbrev pub port : ℕ
port = 9999

abbrev pub loop : ℕ
loop = 5

-- Also `response_t`.
pub record RequestT : Type 0 where
  pub a : ℤ

-- `cb2`. A product that is no `int` is undefined behaviour of the code.
unfoldable pub cb2 : {World : Type 0} → Codec RequestT → Message → St World Message
unfolding ◌*ℤ◌
cb2 codec m = let req = codec.unpack m in pure (codec.pack (record { a = pos 2 *ℤ req.a }))

module _ (S : System) (G : Gtest S.World) (codec : Codec RequestT) where
  open S use {World}

  -- EXPECT_EQ(resp.a, 2*d.a)
  abbrev pub expect_answer : ℕ → Message → World → World
  expect_answer i rp = G.expect_eq (codec.unpack rp).a (pos 2 *ℤ pos i)

  -- In `req_thread_un`, EXPECT_EQ(rp.size(), sizeof(resp)) comes after it.
  abbrev pub expect_both : ℕ → Message → World → World
  expect_both i rp w = G.expect_eq (pos (length rp)) (pos codec.size) (expect_answer i rp w)

  -- The loop of the requesting threads: how a message is asked, the rounds that are left, and `i`.
  unfoldable pub ask_each :
      (ℕ → Message → World → World) → (Message → St World Message) → ℕ → ℕ → World → World
  unfolding msleep
  ask_each expect ask zero i w = w
  ask_each expect ask (suc rounds) i w =
      let (rp, w') = ask (codec.pack (record { a = pos i })) w in
      ask_each expect ask rounds (suc i) (msleep S (pos 1) (expect i rp w'))

  module _ {Addr : Type 0} (C : SocketClass World Addr) where
    -- `r.request(msg, addr)`, with a call of the other thread inside it.
    unfoldable pub asking :
        Request → (World → Outcome Bool × World) → Addr → Message → St World Message
    unfolding exchange
    asking q serve addr msg w = let (answer, w') = exchange C q serve msg addr w in (answer.1, w')

    -- The replying thread up to its loop.
    unfoldable pub start_reply : Addr → World → Reply World × World
    unfolding new_reply register_cb cb2
    start_reply addr w =
        let (r, w1) = new_reply C codec.size w in
        let (bound, w2) = C.bind r.socket addr w1 in (register_cb r (cb2 codec), w2)

    -- Both sockets when the threads are done.
    unfoldable pub finish : Request → Reply World → World → World
    unfolding close
    finish q r w = (close S r.socket (close S q.socket w).1).1

  abbrev pub udpaddr : InetAddr
  udpaddr = S.inet_sockaddr ("udp://127.0.0.1:" <> to_decimal port)

  -- Both threads up to their loops.
  unfoldable pub start_udp : World → (Request × Reply World) × World
  unfolding start_reply new_request msleep
  start_udp w =
      let (r, w1) = start_reply (socket_udp S) udpaddr w in
      let (q, w2) = new_request (socket_udp S) codec.size (msleep S (pos 1) w1) in ((q, r), w2)

  -- TEST(marko, req_rep_udp)
  unfoldable pub req_rep_udp : World → World
  unfolding start_udp ask_each asking finish once
  req_rep_udp w =
      let ((q, r), w1) = start_udp w in
      let ask = asking (socket_udp S) q (once (socket_udp S) r) udpaddr in
      finish (socket_udp S) q r (ask_each expect_answer ask loop 0 w1)

  -- With the addresses of `unix` and of `unix2`.
  unfoldable pub start_unix : UnixAddr → UnixAddr → World → (Request × Reply World) × World
  unfolding start_reply new_request msleep
  start_unix unix unix2 w =
      let (r, w1) = start_reply (socket_unix S) unix2 w in
      let (q, w2) = new_request (socket_unix S) codec.size (msleep S (pos 1) w1) in
      let (bound, w3) = (socket_unix S).bind q.socket unix w2 in ((q, r), w3)

  -- TEST(marko, req_rep_unix)
  unfoldable pub req_rep_unix : UnixAddr → UnixAddr → World → World
  unfolding start_unix ask_each asking finish once_to
  req_rep_unix unix unix2 w =
      let ((q, r), w1) = start_unix unix unix2 w in
      let ask = asking (socket_unix S) q (once_to (socket_unix S) r unix) unix2 in
      finish (socket_unix S) q r (ask_each expect_both ask loop 0 w1)
