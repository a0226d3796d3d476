-- ===== src/Examples/Rr/Answers.antt =====
-- A run of cpp/examples/rr.cpp: the loops of `request` and of `reply` on one network.
use marko.Base.{
  ℕ, zero, suc, ◌+◌, ◌<◌, ◌≤◌, ◌≡◌, refl, sym, ap, ◌∙◌, Bool, List, [], ◌∷◌, length, arith,
}
use marko.Base.Int.{ℤ, pos}
use marko.System.{Message, InetAddr, System}
use marko.Datagram.Udp.{socket_udp}
use marko.Datagram.Network.{Delivery}
use marko.RequestReply.{Outcome, Reply, Request, register_cb, once}
use marko.RequestReply.Answer.{Ready, left-Ready}
use marko.RequestReply.Exchange.{exchange, Computes, exchange-answers}
use marko.Examples.Console.{PrintsApart}
use marko.Examples.Structs.{Codec, Doubles}
use marko.Examples.Rr.{scaled, request_loop, loop, RequestT, ResponseT, question, show_answer, cb}

-- What `pack` and `unpack` promise of the program's structs, as long as the `int` is one.
pub record CodecLaws (F : Doubles) (asks : Codec (RequestT F.Double)) (answers : Codec ResponseT)
    : Type 0 where
  pub ask-read :
      (d : F.Double) (n : ℕ)
      → n < 0x8000_0000
      → (asks.unpack (asks.pack (record { a = d; b = pos n }))).b ≡ pos n
  pub answer-read :
      (n : ℕ) → n < 0x8000_0000 → (answers.unpack (answers.pack (record { a = pos n }))).a ≡ pos n
  pub ask-size : (m : RequestT F.Double) → length (asks.pack m) ≡ asks.size
  pub answer-size : (m : ResponseT) → length (answers.pack m) ≡ answers.size

-- The numbers from `i` on.
abbrev pub count : ℕ → ℕ → List ℤ
count zero i = []
count (suc rounds) i = pos i ∷ count rounds (suc i)

module _ (S : System) (F : Doubles) (asks : Codec (RequestT F.Double))
    (answers : Codec ResponseT) where
  -- `request_loop`, with a call of the other side between the two calls of each `request`: what
  -- `resp.a` is in each round.
  unfoldable pub converse :
      Request → (S.World → Outcome Bool × S.World) → InetAddr → ℕ → ℕ → S.World → List ℤ × S.World
  unfolding exchange
  converse r serve addr zero i w = ([], w)
  converse r serve addr (suc rounds) i w =
      let (answer, w') = exchange (socket_udp S) r serve (question S F asks answers i) addr w in
      let (later, w'') =
        converse r serve addr rounds (suc i) (show_answer S F asks answers answer.1 w') in
      ((answers.unpack answer.1).a ∷ later, w'')

  -- What the callback computes.
  abbrev reply_to : Message → Message
  reply_to m = answers.pack (record { a = (asks.unpack m).b })

  module _ (D : Delivery S.World InetAddr (socket_udp S)) (L : CodecLaws F asks answers)
      (P : PrintsApart S D) where
    cb-Computes : Computes (socket_udp S) D (cb S F asks answers) reply_to
    unfolding cb
    cb-Computes = record {
      answer = λ m w. refl;
      same_net = λ m w. P.same_net _ w;
      same_queue = λ m w d. P.same_queue _ w d;
    }

    module _ (q : Request) (r : Reply S.World) (addr to : InetAddr)
        (ask_sized : r.msg_size ≡ asks.size) (answer_sized : q.msg_size ≡ answers.size)
        (some_ask : 0 < asks.size) (some_answer : 0 < answers.size) where
      converse-loop :
          (rounds i : ℕ) (w : S.World)
          → i + rounds ≤ 0x8000_0000
          → Ready (socket_udp S) D q (register_cb r (cb S F asks answers)) addr to w
          → D.name w q.socket.socket_fd ≡ to
          → (converse q
              (once (socket_udp S) (register_cb r (cb S F asks answers)))
              addr
              rounds
              i
              w).0
            ≡ count rounds i
      unfolding converse register_cb
      converse-loop zero i w small v named = refl
      converse-loop (suc rounds) i w small v named =
          let (answer, (ready, named')) =
            exchange-answers (socket_udp S) D q (register_cb r (cb S F asks answers)) addr to
              (cb S F asks answers) reply_to refl cb-Computes (omega (arith, ask_sized, some_ask))
              (omega (arith, answer_sized, some_answer))
              (λ m sized. L.answer-size _ ∙ sym answer_sized) (question S F asks answers i) w
              (L.ask-size _ ∙ sym ask_sized) (v, named) in
          let in_range : i < 0x8000_0000 = omega arith in
          let (outcome, w') =
            exchange (socket_udp S) q (once (socket_udp S) (register_cb r (cb S F asks answers)))
              (question S F asks answers i) addr w in
          let read : (answers.unpack outcome.1).a ≡ pos i =
            ap (λ o. (answers.unpack o.1).a) answer
            ∙ ap (λ b. (answers.unpack (answers.pack (record { a = b }))).a)
                (L.ask-read (scaled F (pos i)) i in_range)
            ∙ L.answer-read i in_range in
          λ j.
            read j
            ∷ converse-loop rounds (suc i) (show_answer S F asks answers outcome.1 w') (omega arith)
                (left-Ready (socket_udp S) D q (register_cb r (cb S F asks answers)) addr to
                  (S.print _) w' (record { same_net = P.same_net _; same_queue = P.same_queue _ })
                  ready)
                ((P.same_net _ w').1 q.socket.socket_fd ∙ named') j

      -- A run of rr.cpp's `request` against its `reply`, each with its own size of messages, over a
      -- network that delivers, that names the requester's address to the replier and leads back to
      -- it: in its five rounds the requester reads the responses 0, 1, 2, 3 and 4, where `unpack`
      -- gives back what was packed and the structs have their sizes.
      pub converse-answers :
          (w : S.World)
          → Ready (socket_udp S) D q (register_cb r (cb S F asks answers)) addr to w
          → D.name w q.socket.socket_fd ≡ to
          → (converse q (once (socket_udp S) (register_cb r (cb S F asks answers))) addr loop 0 w).0
            ≡ pos 0 ∷ pos 1 ∷ pos 2 ∷ pos 3 ∷ pos 4 ∷ []
      converse-answers w v named = converse-loop loop 0 w (omega arith) v named

module _ (S : System) (F : Doubles) (asks : Codec (RequestT F.Double))
    (answers : Codec ResponseT) where
  -- The loop of `request` is a conversation in which the other side does nothing.
  request_loop-converse :
      (r : Request) (addr : InetAddr) (outcome : Outcome Bool) (rounds i : ℕ) (w : S.World)
      → request_loop S F asks answers r addr rounds i w
        ≡ (converse S F asks answers r (λ w1. (outcome, w1)) addr rounds i w).1
  unfolding request_loop converse
  request_loop-converse r addr outcome zero i w = refl
  request_loop-converse r addr outcome (suc rounds) i w =
      request_loop-converse r addr outcome rounds (suc i) _
