-- ===== src/RequestReply/Threads.antt =====
-- The requesting and replying threads of cpp/gtests/test_rr.cpp and cpp/examples/rr.cpp, from the
-- constructor to the destructor. The packed messages are an argument, and so is the callback.
use marko.Base.{
  ℕ, zero, suc, ◌≡◌, refl, Bool, true, false, inl, inr, Bool-cases, List, [], ◌∷◌, some, St, pure,
  ◌>>=◌, if◌then◌else◌,
}
use marko.Base.Int.{ℤ, pos}
use marko.System.{Message, System}
use marko.Time.{msleep}
use marko.Socket.{close}
use marko.Datagram.Class.{SocketClass, stored_addr}
use marko.RequestReply.{
  Outcome, returned, bad_function_call, Reply, Request, new_reply, register_cb, once, once_to,
  new_request, request, is_refused, call,
}

-- `for (...) r.once();`, which an exception ends.
unfoldable pub serve_each :
    {World : Type 0} → (World → Outcome Bool × World) → ℕ → World → Outcome Unit × World
serve_each serve zero w = (returned tt, w)
serve_each serve (suc k) w = elim (serve w).0 [
  | returned answered ↦ serve_each serve k (serve w).1
  | bad_function_call ↦ (bad_function_call, (serve w).1)
]

module _ (S : System) {Addr : Type 0} (C : SocketClass S.World Addr) where
  -- `rep_thread`, and `reply` of the example. An exception ends the program before the destructor. Each
  -- receiving call returns with what the system answers, and the callback returns: how long a call
  -- waits is not modelled, nor a callback that throws.
  unfoldable pub rep_thread :
      ℕ → Addr → (Message → St S.World Message) → ℕ → S.World → Outcome Unit × S.World
  unfolding new_reply register_cb once serve_each close
  rep_thread size addr callback loop w =
      let (r, w1) = new_reply C size w in
      let (bound, w2) = C.bind r.socket addr w1 in
      let (outcome, w3) = serve_each (once C (register_cb r callback)) loop w2 in
      elim outcome [
        | returned u ↦ (returned u, (close S r.socket w3).1)
        | bad_function_call ↦ (bad_function_call, w3)
      ]

  -- `rep_thread_un`, which replies to a given address.
  unfoldable pub rep_thread_un :
      ℕ → Addr → Addr → (Message → St S.World Message) → ℕ → S.World → Outcome Unit × S.World
  unfolding new_reply register_cb once_to serve_each close
  rep_thread_un size addr to_request callback loop w =
      let (r, w1) = new_reply C size w in
      let (bound, w2) = C.bind r.socket addr w1 in
      let (outcome, w3) = serve_each (once_to C (register_cb r callback) to_request) loop w2 in
      elim outcome [
        | returned u ↦ (returned u, (close S r.socket w3).1)
        | bad_function_call ↦ (bad_function_call, w3)
      ]

  -- The loop of the requesting threads: the replies.
  unfoldable pub request_each : Request → List Message → Addr → St S.World (List Message)
  unfolding request msleep
  request_each q [] addr w = ([], w)
  request_each q (msg ∷ msgs) addr w =
      let (reply, w1) = request C q msg addr w in
      let (replies, w2) = request_each q msgs addr (msleep S (pos 1) w1) in (reply ∷ replies, w2)

  -- `req_thread`
  unfoldable pub req_thread : ℕ → Addr → List Message → St S.World (List Message)
  unfolding new_request request_each close
  req_thread size addr msgs w =
      let (q, w1) = new_request C size w in
      let (replies, w2) = request_each q msgs addr w1 in (replies, (close S q.socket w2).1)

  -- `req_thread_un`, which binds its socket first.
  unfoldable pub req_thread_un : ℕ → Addr → Addr → List Message → St S.World (List Message)
  unfolding new_request request_each close
  req_thread_un size addr to_reply msgs w =
      let (q, w1) = new_request C size w in
      let (bound, w2) = C.bind q.socket addr w1 in
      let (replies, w3) = request_each q msgs to_reply w2 in (replies, (close S q.socket w3).1)

  pub serve_each-returns :
      (serve : S.World → Outcome Bool × S.World)
      → ((w : S.World) → (b : Bool) × ((serve w).0 ≡ returned b))
      → (k : ℕ) (w : S.World) → (serve_each serve k w).0 ≡ returned tt
  unfolding serve_each
  serve_each-returns serve returns zero w = refl
  serve_each-returns serve returns (suc k) w =
      rw (serve_each, (returns w).1) (serve_each-returns serve returns k (serve w).1)

  call-returns :
      (f : Message → St S.World Message) (m : Message) (n : ℕ) (send : Message → St S.World ℤ)
      (w : S.World)
      → (b : Bool) × (((if is_refused m n
              then pure (returned false)
              else call (some f) m (λ reply. do sent ← send reply; pure true))
            w).0
          ≡ returned b)
  call-returns f m n send w = elim (Bool-cases (is_refused m n)) [
    | inl refused ↦ (false, rw refused)
    | inr accepted ↦ (true, rw accepted)
  ]

  pub once-returns :
      (r : Reply S.World) (f : Message → St S.World Message) (w : S.World)
      → (b : Bool) × ((once C (register_cb r f) w).0 ≡ returned b)
  unfolding once register_cb
  once-returns r f w =
      let (got, w') = C.recvfrom r.socket r.msg_size (some C.zero_addr) (pos 0) w in
      call-returns f got.0 r.msg_size
        (λ reply. C.sendto r.socket reply (stored_addr C.zero_addr got.1) (pos 0)) w'
