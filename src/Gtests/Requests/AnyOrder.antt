-- ===== src/Gtests/Requests/AnyOrder.antt =====
-- The tests of cpp/gtests/test_rr.cpp with the calls of their two threads' loops in any order, from the
-- end of the set-up on. A call that waits for a datagram is made where one waits.
use native.Mathlib.Nat.{eq-or-lt_of_le}
use mathlib.Core.List.{append_assoc, append-nil}
use marko.Base.{
  ℕ, zero, suc, ◌+◌, ◌<◌, ◌≤◌, ◌≡◌, ◌⊎◌, inl, inr, refl, sym, ap, ◌∙◌, Bool, List, [], ◌∷◌, ◌++◌,
  arith,
}
use marko.Base.Int.{ℤ, pos}
use marko.System.{Message, System}
use marko.Time.{msleep}
use marko.Datagram.Class.{SocketClass}
use marko.Datagram.Network.{Datagram, Delivery}
use marko.RequestReply.{Outcome, Reply, Request}
use marko.Examples.Structs.{Codec}
use marko.Gtests.Requests.{loop, RequestT}
use marko.Gtests.Requests.Rounds.{all_pairs}

module _ (S : System) (codec : Codec RequestT) {Addr : Type 0} (C : SocketClass S.World Addr)
    (D : Delivery S.World Addr C) (q : Request) (r : Reply S.World) (addr : Addr)
    (expect : ℕ → Message → S.World → S.World) (serve : S.World → Outcome Bool × S.World) where
  open S use {World}

  abbrev pub posed : ℕ → Message
  posed n = codec.pack (record { a = pos n })

  -- How far the loops are: the questions that were sent, the answers that were read, and the calls of
  -- `once` that are done. A requesting thread sends the next question when it has read the answer to
  -- the one before.
  pub data Calls (w : World) : ℕ → ℕ → ℕ → World → Type 0 where
    begun : Calls w 0 0 0 w
    sends :
        {a n k : ℕ} {w' : World}
        → Calls w a n k w'
        → a ≡ n
        → n < loop
        → Calls w (suc n) n k (C.sendto q.socket (posed n) addr (pos 0) w').1
    serves :
        {a n k : ℕ} {w' : World} (d : Datagram Addr) (rest : List (Datagram Addr))
        → Calls w a n k w'
        → k < loop
        → D.queue w' r.socket.socket_fd ≡ d ∷ rest
        → Calls w a n (suc k) (serve w').1
    reads :
        {a n k : ℕ} {w' : World} (d : Datagram Addr) (rest : List (Datagram Addr))
        → Calls w a n k w'
        → a ≡ suc n
        → D.queue w' q.socket.socket_fd ≡ d ∷ rest
        → Calls w a (suc n) k (
            msleep S (pos 1) (
              expect n
                (C.recv q.socket q.msg_size (pos 0) w').0
                (C.recv q.socket q.msg_size (pos 0) w').1))

  -- The loops are over, or one of the threads can make its next call.
  abbrev pub EndsOrGoesOn : World → ℕ → ℕ → ℕ → World → Type 0
  EndsOrGoesOn w a n k w' =
      ((a ≡ loop) × (n ≡ loop) × (k ≡ loop))
      ⊎ ((a' n' k' : ℕ) × (w'' : World) × Calls w a' n' k' w'' × (a' + n' + k' ≡ suc (a + n + k)))

  module _ (IsKept : World → Type 0) where
    -- No question is open, one was sent, or it was answered and the answer waits.
    pub data Stage (a n k : ℕ) (w : World) : Type 0 where
      at_rest : a ≡ n → k ≡ n → n ≤ loop → IsKept w → Stage a n k w
      asked :
          (u : World)
          → a ≡ suc n
          → k ≡ n
          → n < loop
          → IsKept u
          → w ≡ (C.sendto q.socket (posed n) addr (pos 0) u).1
          → Stage a n k w
      answered :
          (u : World)
          → a ≡ suc n
          → k ≡ suc n
          → n < loop
          → IsKept u
          → w ≡ (serve (C.sendto q.socket (posed n) addr (pos 0) u).1).1
          → Stage a n k w

all_pairs-last :
    (pairs : ℕ → List (ℤ × ℤ)) (n i last : ℕ)
    → i + n ≡ last
    → all_pairs pairs n i ++ pairs last ≡ all_pairs pairs (suc n) i
all_pairs-last pairs zero i last e = ap pairs (sym e ∙ omega arith) ∙ sym (append-nil (pairs i))
all_pairs-last pairs (suc n) i last e =
    append_assoc (pairs i) (all_pairs pairs n (suc i)) (pairs last)
    ∙ ap (λ ps. pairs i ++ ps) (all_pairs-last pairs n (suc i) last (omega arith))

-- What the two threads rely on: what waits after each call, what is read, and what is expected of it.
pub record Answers (S : System) (codec : Codec RequestT) {Addr : Type 0}
    (C : SocketClass S.World Addr) (D : Delivery S.World Addr C) (q : Request) (r : Reply S.World)
    (addr : Addr) (expect : ℕ → Message → S.World → S.World)
    (serve : S.World → Outcome Bool × S.World) (expected : S.World → List (ℤ × ℤ))
    (pairs : ℕ → List (ℤ × ℤ)) (IsKept : S.World → Type 0) : Type 0 where
  pub idle :
      (u : S.World)
      → IsKept u
      → (D.queue u q.socket.socket_fd ≡ []) × (D.queue u r.socket.socket_fd ≡ [])
  pub question_waits :
      (n : ℕ) (u : S.World)
      → IsKept u
      → let sent =
          (C.sendto q.socket (posed S codec C D q r addr expect serve n) addr (pos 0) u).1 in
        (D.queue sent q.socket.socket_fd ≡ [])
        × (d : Datagram Addr) × (D.queue sent r.socket.socket_fd ≡ d ∷ [])
  pub answer_waits :
      (n : ℕ) (u : S.World)
      → IsKept u
      → let sent =
          (C.sendto q.socket (posed S codec C D q r addr expect serve n) addr (pos 0) u).1 in
        (D.queue (serve sent).1 r.socket.socket_fd ≡ [])
        × (d : Datagram Addr) × (D.queue (serve sent).1 q.socket.socket_fd ≡ d ∷ [])
  pub is_read :
      (n : ℕ) (u : S.World)
      → n < loop
      → IsKept u
      → let sent =
          (C.sendto q.socket (posed S codec C D q r addr expect serve n) addr (pos 0) u).1 in
        let got = C.recv q.socket q.msg_size (pos 0) (serve sent).1 in
        let after = msleep S (pos 1) (expect n got.0 got.1) in
        IsKept after × (expected after ≡ expected (serve sent).1 ++ pairs n)
  pub same-sendto :
      (m : Message) (u : S.World) → expected (C.sendto q.socket m addr (pos 0) u).1 ≡ expected u
  pub same-serve : (u : S.World) → expected (serve u).1 ≡ expected u

module _ (S : System) (codec : Codec RequestT) {Addr : Type 0} (C : SocketClass S.World Addr)
    (D : Delivery S.World Addr C) (q : Request) (r : Reply S.World) (addr : Addr)
    (expect : ℕ → Message → S.World → S.World) (serve : S.World → Outcome Bool × S.World)
    (expected : S.World → List (ℤ × ℤ)) (pairs : ℕ → List (ℤ × ℤ)) (IsKept : S.World → Type 0)
    (A : Answers S codec C D q r addr expect serve expected pairs IsKept) where
  open S use {World}

  abbrev At : ℕ → ℕ → ℕ → World → Type 0
  At = Stage S codec C D q r addr expect serve IsKept

  abbrev sent : ℕ → World → World
  sent n u = (C.sendto q.socket (posed S codec C D q r addr expect serve n) addr (pos 0) u).1

  abbrev after_read : ℕ → World → World
  after_read n u =
      let got = C.recv q.socket q.msg_size (pos 0) u in msleep S (pos 1) (expect n got.0 got.1)

  sends-Stage : (a n k : ℕ) (w : World) → a ≡ n → n < loop → At a n k w → At (suc n) n k (sent n w)
  sends-Stage a n k w e small (at_rest _ served _ kept) = asked w refl served small kept refl
  sends-Stage a n k w e small (asked u open_now _ _ _ _) = absurd (omega arith)
  sends-Stage a n k w e small (answered u open_now _ _ _ _) = absurd (omega arith)

  serves-Stage :
      (a n k : ℕ) (w : World) (d : Datagram Addr) (rest : List (Datagram Addr))
      → D.queue w r.socket.socket_fd ≡ d ∷ rest
      → At a n k w
      → At a n (suc k) (serve w).1
  serves-Stage a n k w d rest first (at_rest _ _ _ kept) =
      let none = (A.idle w kept).1 in absurd (cc)
  serves-Stage a n k w d rest first (asked u sent_now served small kept e) =
      answered u sent_now (ap suc served) small kept (ap (λ x. (serve x).1) e)
  serves-Stage a n k w d rest first (answered u _ _ _ kept e) =
      let none = (A.answer_waits n u kept).0 in let some_wait = rw e at first in absurd (cc)

  reads-Stage :
      (a n k : ℕ) (w : World) (d : Datagram Addr) (rest : List (Datagram Addr))
      → a ≡ suc n
      → D.queue w q.socket.socket_fd ≡ d ∷ rest
      → At a n k w
      → At a (suc n) k (after_read n w) × (expected (after_read n w) ≡ expected w ++ pairs n)
  reads-Stage a n k w d rest e first (at_rest same _ _ _) = absurd (omega arith)
  reads-Stage a n k w d rest e first (asked u _ _ _ kept there) =
      let none = (A.question_waits n u kept).0 in let some_wait = rw there at first in absurd (cc)
  reads-Stage a n k w d rest e first (answered u open_now served small kept there) =
      let (kept', made) = A.is_read n u small kept in
      rw there (at_rest open_now served small kept', made)

  made-Calls :
      {w w' : World} {a n k : ℕ}
      → Calls S codec C D q r addr expect serve w a n k w'
      → IsKept w
      → At a n k w' × (expected w' ≡ expected w ++ all_pairs pairs n 0)
  made-Calls {w = w} begun kept =
      (at_rest refl refl (omega arith) kept, sym (append-nil (expected w)))
  made-Calls (sends {a = a} {n = n} {k = k} {w' = w'} calls e small) kept =
      let (stage, made) = made-Calls calls kept in
      (sends-Stage a n k w' e small stage, A.same-sendto _ w' ∙ made)
  made-Calls (serves {a = a} {n = n} {k = k} {w' = w'} d rest calls small first) kept =
      let (stage, made) = made-Calls calls kept in
      (serves-Stage a n k w' d rest first stage, A.same-serve w' ∙ made)
  made-Calls {w = w} (reads {a = a} {n = n} {k = k} {w' = w'} d rest calls e first) kept =
      let (stage, made) = made-Calls calls kept in
      let (stage', more) = reads-Stage a n k w' d rest e first stage in
      (
        stage',
        more
            ∙ ap (λ es. es ++ pairs n) made
            ∙ append_assoc (expected w) (all_pairs pairs n 0) (pairs n)
            ∙ ap (λ ps. expected w ++ ps) (all_pairs-last pairs n 0 n (omega arith)),
      )

  goes_on :
      {w : World} (a n k : ℕ) (w' : World)
      → Calls S codec C D q r addr expect serve w a n k w'
      → At a n k w'
      → EndsOrGoesOn S codec C D q r addr expect serve w a n k w'
  goes_on a n k w' calls (at_rest same served small kept) = elim (eq-or-lt_of_le small) [
    | inr more ↦ inr (suc n, n, k, sent n w', sends calls same more, omega arith)
    | inl all ↦ inl (same ∙ all, all, served ∙ all)
  ]
  goes_on a n k w' calls (asked u sent_now served small kept there) =
      let (unanswered, d, waits) = A.question_waits n u kept in
      inr (a, n, suc k, (serve w').1, serves d [] calls (omega arith) (rw there waits), omega arith)
  goes_on a n k w' calls (answered u sent_now served small kept there) =
      let (all_served, d, waits) = A.answer_waits n u kept in
      inr (a, suc n, k, after_read n w', reads d [] calls sent_now (rw there waits), omega arith)

  -- However the calls come, so many expectations are made as answers were read, and the two threads go on
  -- until both loops are over.
  pub expected-Calls :
      {w w' : World} {a n k : ℕ}
      → Calls S codec C D q r addr expect serve w a n k w'
      → IsKept w
      → (expected w' ≡ expected w ++ all_pairs pairs n 0)
        × EndsOrGoesOn S codec C D q r addr expect serve w a n k w'
  expected-Calls {w' = w'} {a = a} {n = n} {k = k} calls kept =
      let (stage, made) = made-Calls calls kept in (made, goes_on a n k w' calls stage)
