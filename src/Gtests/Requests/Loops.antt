-- ===== src/Gtests/Requests/Loops.antt =====
-- The loops of the two tests of cpp/gtests/test_rr.cpp, on a network that delivers: what they expect.
use marko.Base.{ℕ, length, ◌≡◌, refl, sym, ap, ◌∙◌, Bool, inl, inr, Bool-cases, ◌++◌, some, arith}
use marko.Base.Int.{ℤ, pos, ◌*ℤ◌}
use marko.System.{Message, System}
use marko.Time.{msleep}
use marko.Datagram.Class.{SocketClass}
use marko.Datagram.Network.{Delivery}
use marko.RequestReply.{Outcome, Reply, Request, is_refused, new_reply, register_cb, once, once_to}
use marko.RequestReply.Answer.{Ready, LeavesNet, left-Ready}
use marko.RequestReply.Exchange.{exchange, Computes, exchange-answers, exchange-once_to-answers}
use marko.Examples.Structs.{Codec}
use marko.Gtests.{Gtest, GtestLaws, Untouched, see-close}
use marko.Gtests.Requests.{
  loop, RequestT, cb2, expect_answer, expect_both, ask_each, asking, start_reply, finish,
}
use marko.Gtests.Requests.Rounds.{RequestLaws, all_pairs}
use marko.Gtests.Requests.Rounds as Rounds

module _ (S : System) (G : Gtest S.World) (L : GtestLaws S.World G) (codec : Codec RequestT)
    (R : RequestLaws codec) where
  open S use {World}

  module _ {Addr : Type 0} (C : SocketClass World Addr) (D : Delivery World Addr C)
      (X : Untouched S C L.expected) (expects_left : (a b : ℤ) → LeavesNet C D (G.expect_eq a b))
      (sleep_left : (t : ℤ) → LeavesNet C D (S.sleep_for t)) where
    pub cb2-Computes : Computes C D (cb2 codec) (Rounds.reply_to S G L codec R)
    unfolding cb2
    cb2-Computes = record {
      answer = λ m w. refl;
      same_net = λ m w. (λ b. refl, λ d. refl);
      same_queue = λ m w d. refl;
    }

    pub expected-once :
        (r : Reply World) (w : World)
        → L.expected (once C (register_cb r (cb2 codec)) w).1 ≡ L.expected w
    unfolding once register_cb cb2
    expected-once r w =
        let (got, w') = C.recvfrom r.socket r.msg_size (some C.zero_addr) (pos 0) w in
        elim (Bool-cases (is_refused got.0 r.msg_size)) [
          | inl refused ↦ rw refused (X.of_recvfrom _ _ _ w)
          | inr accepted ↦ rw accepted (X.of_sendto _ _ _ w' ∙ X.of_recvfrom _ _ _ w)
        ]

    pub expected-once_to :
        (r : Reply World) (to : Addr) (w : World)
        → L.expected (once_to C (register_cb r (cb2 codec)) to w).1 ≡ L.expected w
    unfolding once_to register_cb cb2
    expected-once_to r to w =
        let (m, w') = C.recv r.socket r.msg_size (pos 0) w in
        elim (Bool-cases (is_refused m r.msg_size)) [
          | inl refused ↦ rw refused (X.of_recv _ _ w)
          | inr accepted ↦ rw accepted (X.of_sendto _ _ _ w' ∙ X.of_recv _ _ w)
        ]

    expected-asking :
        (q : Request) (serve : World → Outcome Bool × World) (addr : Addr) (m : Message) (w : World)
        → ((x : World) → L.expected (serve x).1 ≡ L.expected x)
        → L.expected (asking S G codec C q serve addr m w).1 ≡ L.expected w
    unfolding asking exchange
    expected-asking q serve addr m w same = X.of_recv _ _ _ ∙ same _ ∙ X.of_sendto _ _ _ w

    module _ (q : Request) (r0 : Reply World) (addr to : Addr) (q_sized : q.msg_size ≡ codec.size)
        (r_sized : r0.msg_size ≡ codec.size) where
      abbrev pub r : Reply World
      r = register_cb r0 (cb2 codec)

      abbrev pub IsReady : World → Type 0
      IsReady w = Ready C D q r addr to w

      expect_eq-IsReady : (a b : ℤ) (w : World) → IsReady w → IsReady (G.expect_eq a b w)
      expect_eq-IsReady a b w = left-Ready C D q r addr to (G.expect_eq a b) w (expects_left a b)

      pub msleep-IsReady :
          (w : World)
          → IsReady w
          → IsReady (msleep S (pos 1) w) × (L.expected (msleep S (pos 1) w) ≡ L.expected w)
      unfolding msleep
      msleep-IsReady w k = (
        left-Ready C D q r addr to (S.sleep_for (pos 1 *ℤ pos 1000)) w (sleep_left _) k,
        X.of_sleep_for _ w,
      )

      -- Ready, and the requester has the name that leads back to it.
      abbrev pub IsNamed : World → Type 0
      IsNamed w = IsReady w × (D.name w q.socket.socket_fd ≡ to)

      pub expect_answer-IsNamed :
          (i : ℕ) (m : Message) (w : World) → IsNamed w → IsNamed (expect_answer S G codec i m w)
      expect_answer-IsNamed i m w kept =
          (expect_eq-IsReady _ _ w kept.0, ((expects_left _ _).same_net w).1 _ ∙ kept.1)

      pub msleep-IsNamed :
          (w : World)
          → IsNamed w
          → IsNamed (msleep S (pos 1) w) × (L.expected (msleep S (pos 1) w) ≡ L.expected w)
      unfolding msleep
      msleep-IsNamed w kept =
          let (ready, same) = msleep-IsReady w kept.0 in
          ((ready, ((sleep_left _).same_net w).1 _ ∙ kept.1), same)

      pub expect_both-IsReady :
          (i : ℕ) (m : Message) (w : World) → IsReady w → IsReady (expect_both S G codec i m w)
      expect_both-IsReady i m w kept = expect_eq-IsReady _ _ _ (expect_eq-IsReady _ _ w kept)

      -- A question that `once` answers, and one that `once(to)` answers.
      pub once-round :
          (m : Message) (w : World)
          → length m ≡ codec.size
          → IsNamed w
          → ((asking S G codec C q (once C r) addr m w).0 ≡ Rounds.reply_to S G L codec R m)
            × IsNamed (asking S G codec C q (once C r) addr m w).1
            × (L.expected (asking S G codec C q (once C r) addr m w).1 ≡ L.expected w)
      unfolding register_cb asking
      once-round m w sized kept =
          let (answer, kept') =
            exchange-answers C D q r addr to (cb2 codec) (Rounds.reply_to S G L codec R) refl
              cb2-Computes (omega (arith, r_sized, R.some_bytes))
              (omega (arith, q_sized, R.some_bytes)) (λ m' s. R.sized _ ∙ sym q_sized) m w
              (sized ∙ sym r_sized) kept in
          (ap (λ o. o.1) answer, kept', expected-asking q (once C r) addr m w (expected-once r0))

      pub once_to-round :
          (m : Message) (w : World)
          → length m ≡ codec.size
          → IsReady w
          → ((asking S G codec C q (once_to C r to) addr m w).0 ≡ Rounds.reply_to S G L codec R m)
            × IsReady (asking S G codec C q (once_to C r to) addr m w).1
            × (L.expected (asking S G codec C q (once_to C r to) addr m w).1 ≡ L.expected w)
      unfolding register_cb asking
      once_to-round m w sized kept =
          let (answer, kept') =
            exchange-once_to-answers C D q r addr to (cb2 codec) (Rounds.reply_to S G L codec R)
              refl cb2-Computes (omega (arith, r_sized, R.some_bytes))
              (omega (arith, q_sized, R.some_bytes)) (λ m' s. R.sized _ ∙ sym q_sized) m w
              (sized ∙ sym r_sized) kept in
          (
            ap (λ o. o.1) answer,
            kept',
            expected-asking q (once_to C r to) addr m w (expected-once_to r0 to),
          )

      pub expected-udp_loop :
          (w : World)
          → IsReady w
          → D.name w q.socket.socket_fd ≡ to
          → L.expected (
              ask_each S G codec
                (expect_answer S G codec)
                (asking S G codec C q (once C r) addr)
                loop
                0
                w)
            ≡ L.expected w ++ all_pairs (Rounds.answer_pairs S G L codec R) loop 0
      expected-udp_loop w k named =
          Rounds.expected-ask_each S G L codec R (expect_answer S G codec)
            (Rounds.answer_pairs S G L codec R) (Rounds.expected-answer S G L codec R)
            (asking S G codec C q (once C r) addr) IsNamed once-round expect_answer-IsNamed
            msleep-IsNamed loop 0 w (omega arith) (k, named)

      pub expected-unix_loop :
          (w : World)
          → IsReady w
          → L.expected (
              ask_each S G codec
                (expect_both S G codec)
                (asking S G codec C q (once_to C r to) addr)
                loop
                0
                w)
            ≡ L.expected w ++ all_pairs (Rounds.both_pairs S G L codec R) loop 0
      expected-unix_loop w k =
          Rounds.expected-ask_each S G L codec R (expect_both S G codec)
            (Rounds.both_pairs S G L codec R) (Rounds.expected-both S G L codec R)
            (asking S G codec C q (once_to C r to) addr) IsReady once_to-round expect_both-IsReady
            msleep-IsReady loop 0 w (omega arith) k

    pub expected-finish :
        (q : Request) (r : Reply World) (w : World)
        → L.expected (finish S G codec C q r w) ≡ L.expected w
    unfolding finish
    expected-finish q r w = see-close S X _ _ ∙ see-close S X q.socket w

    pub expected-start_reply :
        (addr : Addr) (w : World) → L.expected (start_reply S G codec C addr w).1 ≡ L.expected w
    unfolding start_reply new_reply
    expected-start_reply addr w = X.of_bind _ addr _ ∙ X.of_make w
