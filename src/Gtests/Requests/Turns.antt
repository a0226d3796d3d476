-- ===== src/Gtests/Requests/Turns.antt =====
-- The two threads of each test of cpp/gtests/test_rr.cpp take turns, in whatever order
-- the calls of their loops come.
use marko.Base.{ℕ, ◌<◌, ◌≡◌, refl, sym, ap, ◌∙◌, Bool, List, [], ◌∷◌, ◌++◌, length, arith}
use marko.Base.Int.{ℤ, pos}
use marko.System.{Message, System}
use marko.Time.{msleep}
use marko.Datagram.Class.{SocketClass}
use marko.Datagram.Network.{Datagram, Delivery}
use marko.RequestReply.{Outcome, Reply, Request, register_cb, once, once_to}
use marko.RequestReply.Answer.{Ready, LeavesNet, queue-sent, queue-unanswered}
use marko.RequestReply.Exchange.{exchange}
use marko.RequestReply.Exchange.Halfway.{once-IsAnswered, once_to-IsAnswered}
use marko.Examples.Structs.{Codec}
use marko.Gtests.{Gtest, GtestLaws, Untouched}
use marko.Gtests.Requests.{loop, RequestT, cb2, expect_answer, expect_both, asking}
use marko.Gtests.Requests.Rounds.{RequestLaws, all_pairs}
use marko.Gtests.Requests.Rounds as Rounds
use marko.Gtests.Requests.Loops as Loops
use marko.Gtests.Requests.AnyOrder.{Answers, posed}

module _ (S : System) (G : Gtest S.World) (L : GtestLaws S.World G) (codec : Codec RequestT)
    (R : RequestLaws codec) {Addr : Type 0} (C : SocketClass S.World Addr)
    (D : Delivery S.World Addr C) (X : Untouched S C L.expected)
    (expects_left : (a b : ℤ) → LeavesNet C D (G.expect_eq a b))
    (sleep_left : (t : ℤ) → LeavesNet C D (S.sleep_for t)) (q : Request) (r0 : Reply S.World)
    (addr to : Addr) (q_sized : q.msg_size ≡ codec.size) (r_sized : r0.msg_size ≡ codec.size) where
  open S use {World}

  abbrev r : Reply World
  r = register_cb r0 (cb2 codec)

  abbrev computed : Message → Message
  computed = Rounds.reply_to S G L codec R

  -- A round, for a way to serve a question.
  module _ (expect : ℕ → Message → World → World) (serve : World → Outcome Bool × World)
      (pairs : ℕ → List (ℤ × ℤ)) (IsKept : World → Type 0)
      (expects : (n : ℕ) (w : World)
        → n < 0x4000_0000
        → L.expected (expect n (computed (Rounds.asked_message S G L codec R n)) w)
          ≡ L.expected w ++ pairs n)
      (round : (m : Message) (w : World)
        → length m ≡ codec.size
        → IsKept w
        → ((asking S G codec C q serve addr m w).0 ≡ computed m)
          × IsKept (asking S G codec C q serve addr m w).1
          × (L.expected (asking S G codec C q serve addr m w).1 ≡ L.expected w))
      (expect-IsKept : (n : ℕ) (m : Message) (w : World) → IsKept w → IsKept (expect n m w))
      (msleep-IsKept : (w : World)
        → IsKept w
        → IsKept (msleep S (pos 1) w) × (L.expected (msleep S (pos 1) w) ≡ L.expected w)) where
    read-answer :
        (n : ℕ) (u : World)
        → n < loop
        → IsKept u
        → let sent =
            (C.sendto q.socket (posed S codec C D q r addr expect serve n) addr (pos 0) u).1 in
          let got = C.recv q.socket q.msg_size (pos 0) (serve sent).1 in
          let after = msleep S (pos 1) (expect n got.0 got.1) in
          IsKept after × (L.expected after ≡ L.expected (serve sent).1 ++ pairs n)
    unfolding asking exchange
    read-answer n u small kept =
        let m = Rounds.asked_message S G L codec R n in
        let (answer, kept', same) = round m u (R.sized _) kept in
        let got = asking S G codec C q serve addr m u in
        let (slept, unchanged) = msleep-IsKept _ (expect-IsKept n got.0 got.1 kept') in
        let in_range : n < 0x4000_0000 = omega arith in
        (
          slept,
          unchanged
              ∙ rw answer (expects n got.1 in_range)
              ∙ ap (λ es. es ++ pairs n) (X.of_recv q.socket q.msg_size _),
        )

  abbrev IsReady : World → Type 0
  IsReady = Ready C D q r addr to

  abbrev IsNamed : World → Type 0
  IsNamed w = IsReady w × (D.name w q.socket.socket_fd ≡ to)

  question_sent :
      (m : Message) (u : World)
      → IsReady u
      → let sent = (C.sendto q.socket m addr (pos 0) u).1 in
        (D.queue sent q.socket.socket_fd ≡ [])
        × (d : Datagram Addr) × (D.queue sent r.socket.socket_fd ≡ d ∷ [])
  question_sent m u kept = (
    queue-unanswered C D q r addr to m u kept,
    (m, D.name u q.socket.socket_fd),
    queue-sent C D q r addr to m u kept,
  )

  abbrev nth_question : ℕ → Message
  nth_question = posed S codec C D q r addr (expect_answer S G codec) (once C r)

  pub udp-Answers :
      Answers S codec C D q r addr
        (expect_answer S G codec)
        (once C r)
        L.expected
        (Rounds.answer_pairs S G L codec R)
        IsNamed
  unfolding register_cb
  udp-Answers = record {
    idle = λ u kept. (kept.0.answered, kept.0.asked);
    question_waits = λ n u kept. question_sent _ u kept.0;
    answer_waits = λ n u kept.
        let ((b, waits), none) =
          once-IsAnswered C D q r addr to (cb2 codec) computed refl
            (Loops.cb2-Computes S G L codec R C D X expects_left sleep_left)
            (omega (arith, r_sized, R.some_bytes)) (omega (arith, q_sized, R.some_bytes))
            (λ m s. R.sized _ ∙ sym q_sized) (nth_question n) u (R.sized _ ∙ sym r_sized) kept.0
            kept.1 in
        (none, (_, b), waits);
    is_read =
        read-answer (expect_answer S G codec) (once C r) (Rounds.answer_pairs S G L codec R) IsNamed
          (Rounds.expected-answer S G L codec R)
          (Loops.once-round S G L codec R C D X expects_left sleep_left q r0 addr to q_sized
            r_sized)
          (Loops.expect_answer-IsNamed S G L codec R C D X expects_left sleep_left q r0 addr to
            q_sized r_sized)
          (Loops.msleep-IsNamed S G L codec R C D X expects_left sleep_left q r0 addr to q_sized
            r_sized);
    same-sendto = λ m u. X.of_sendto q.socket m addr u;
    same-serve = Loops.expected-once S G L codec R C D X expects_left sleep_left r0;
  }

  pub unix-Answers :
      Answers S codec C D q r addr
        (expect_both S G codec)
        (once_to C r to)
        L.expected
        (Rounds.both_pairs S G L codec R)
        IsReady
  unfolding register_cb
  unix-Answers = record {
    idle = λ u kept. (kept.answered, kept.asked);
    question_waits = λ n u kept. question_sent _ u kept;
    answer_waits = λ n u kept.
        let ((b, waits), none) =
          once_to-IsAnswered C D q r addr to (cb2 codec) computed refl
            (Loops.cb2-Computes S G L codec R C D X expects_left sleep_left)
            (omega (arith, r_sized, R.some_bytes)) (omega (arith, q_sized, R.some_bytes))
            (λ m s. R.sized _ ∙ sym q_sized) (nth_question n) u (R.sized _ ∙ sym r_sized) kept in
        (none, (_, b), waits);
    is_read =
        read-answer (expect_both S G codec) (once_to C r to) (Rounds.both_pairs S G L codec R)
          IsReady (Rounds.expected-both S G L codec R)
          (Loops.once_to-round S G L codec R C D X expects_left sleep_left q r0 addr to q_sized
            r_sized)
          (Loops.expect_both-IsReady S G L codec R C D X expects_left sleep_left q r0 addr to
            q_sized r_sized)
          (Loops.msleep-IsReady S G L codec R C D X expects_left sleep_left q r0 addr to q_sized
            r_sized);
    same-sendto = λ m u. X.of_sendto q.socket m addr u;
    same-serve = Loops.expected-once_to S G L codec R C D X expects_left sleep_left r0 to;
  }
