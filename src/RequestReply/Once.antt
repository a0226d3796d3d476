-- ===== src/RequestReply/Once.antt =====
-- What `Reply::once` of cpp/src/marko/request_reply.hpp accepts, and what it answers.
use marko.Base.{
  ℕ, ◌-◌, ◌≡◌, refl, ◌∙◌, ◌⊎◌, ◌↔◌, ◌≢◌, inl, inr, true, false, Bool-cases, List, ◌∷◌, ◌++◌, Option,
  none, some, length, length-append, length-replicate, length-take-le, take, ◌==◌, if◌then◌else◌,
  arith, St, pure, ◌>>=◌,
}
use marko.Base.Int.{ℤ, pos, beq_ℤ_refl}
use marko.System.{Message}
use marko.Datagram.Class.{SocketClass, zeros, stored_addr}
use marko.Datagram.Receive.{SizedClass}
use marko.Datagram.Network.{Datagram, Delivery, received}
use marko.RequestReply.{returned, bad_function_call, Reply, is_refused, call, once, once_to}

-- The guard's second test never decides.
is_refused-of_sized :
    (m : Message) (n : ℕ) → (length m ≡ 0) ⊎ (length m ≡ n) → is_refused m n ≡ (length m == 0)
is_refused-of_sized m n sized = ground arith

-- What `once` hands to the callback of a datagram: as many of its bytes as the buffer holds, and
-- zeros up to the buffer's size.
abbrev pub padded : ℕ → Message → Message
padded n m = take n m ++ zeros (n - length (take n m))

pub received-padded : (n : ℕ) (m : Message) → length (take n m) ≢ 0 → received n m ≡ padded n m
received-padded n m some_bytes = ground arith

pub padded-accepted :
    (n : ℕ) (m : Message) → length (take n m) ≢ 0 → is_refused (padded n m) n ≡ false
padded-accepted n m some_bytes =
    let whole : length (padded n m) ≡ n = omega (
      arith,
      length-append (take n m) (zeros (n - length (take n m))),
      length-replicate {A = ℕ} (n - length (take n m)) 0,
      length-take-le n m,
    ) in
    ground (arith, length-take-le n m)

-- A call that is made does not answer false.
call-ne-refusal :
    {World : Type 0} (callback : Option (Message → St World Message)) (m : Message)
    (send : Message → St World ℤ) (w : World)
    → (call callback m (λ reply. do sent ← send reply; pure true) w).0 ≢ returned false
call-ne-refusal none m send w e = cc
call-ne-refusal (some f) m send w e = cc

refused_iff :
    {World : Type 0} (m : Message) (n : ℕ) (callback : Option (Message → St World Message))
    (send : Message → St World ℤ) (w : World)
    → (length m ≡ 0) ⊎ (length m ≡ n)
    → (((if is_refused m n
            then pure (returned false)
            else call callback m (λ reply. do sent ← send reply; pure true))
          w).0
        ≡ returned false)
      ↔ (length m ≡ 0)
refused_iff m n callback send w sized =
    rw (is_refused-of_sized m n sized) (elim (Bool-cases (length m == 0)) [
      | inl empty ↦ rw empty (λ _. ground arith, λ _. refl)
      | inr full ↦
          rw full (λ e. absurd (call-ne-refusal callback m send w e), λ e. absurd (ground arith))
    ])

module _ {World Addr : Type 0} (C : SocketClass World Addr) (Z : SizedClass C) where
  -- Both `once` answer false exactly when the socket gave them no bytes: the test of the message's
  -- size against `msg_size` refuses nothing that the test for no bytes lets through.
  pub once-refuses_iff :
      (r : Reply World) (to : Addr) (w : World)
      → (((once C r w).0 ≡ returned false)
          ↔ (length (C.recvfrom r.socket r.msg_size (some C.zero_addr) (pos 0) w).0.0 ≡ 0))
        × (((once_to C r to w).0 ≡ returned false)
            ↔ (length (C.recv r.socket r.msg_size (pos 0) w).0 ≡ 0))
  unfolding once once_to
  once-refuses_iff r to w = (
    refused_iff _ r.msg_size r.callback
        (λ reply.
          C.sendto r.socket reply
            (stored_addr C.zero_addr
              (C.recvfrom r.socket r.msg_size (some C.zero_addr) (pos 0) w).0.1)
            (pos 0))
        _ (Z.length-recvfrom r.socket r.msg_size (some C.zero_addr) (pos 0) w),
    refused_iff _ r.msg_size r.callback (λ reply. C.sendto r.socket reply to (pos 0)) _
        (Z.length-recv r.socket r.msg_size (pos 0) w),
  )

module _ {World Addr : Type 0} (C : SocketClass World Addr) (D : Delivery World Addr C) where
  -- `once` takes the first datagram that waits, of whatever size but none, hands the callback its
  -- first `msg_size` bytes, filled up with zeros, and sends the result to the datagram's sender.
  pub once-answers :
      (r : Reply World) (f : Message → St World Message) (m : Message) (a : Addr)
      (rest : List (Datagram Addr)) (w : World)
      → r.callback ≡ some f
      → D.queue w r.socket.socket_fd ≡ (m, a) ∷ rest
      → length (take r.msg_size m) ≢ 0
      → let (reply, w') =
          f (padded r.msg_size m) (C.recvfrom r.socket r.msg_size (some C.zero_addr) (pos 0) w).1 in
        once C r w ≡ (returned true, (C.sendto r.socket reply a (pos 0) w').1)
  unfolding once
  once-answers r f m a rest w set waiting some_bytes = rw (
    D.recvfrom-first r.socket r.msg_size C.zero_addr w m a rest waiting,
    received-padded r.msg_size m some_bytes,
    padded-accepted r.msg_size m some_bytes,
    set,
  )

  -- `once(to)` takes the first datagram that waits, of whatever size but none, hands the callback
  -- its first `msg_size` bytes, filled up with zeros, and sends the result to `to`, whoever sent the
  -- datagram.
  pub once_to-answers :
      (r : Reply World) (to : Addr) (f : Message → St World Message) (m : Message) (a : Addr)
      (rest : List (Datagram Addr)) (w : World)
      → r.callback ≡ some f
      → D.queue w r.socket.socket_fd ≡ (m, a) ∷ rest
      → length (take r.msg_size m) ≢ 0
      → let (reply, w') = f (padded r.msg_size m) (C.recv r.socket r.msg_size (pos 0) w).1 in
        once_to C r to w ≡ (returned true, (C.sendto r.socket reply to (pos 0) w').1)
  unfolding once_to
  once_to-answers r to f m a rest w set waiting some_bytes = rw (
    D.recv-first r.socket r.msg_size w m a rest waiting,
    received-padded r.msg_size m some_bytes,
    padded-accepted r.msg_size m some_bytes,
    set,
  )

  -- A `Reply` on which no callback was registered throws on the first datagram with a byte in it,
  -- and that datagram is gone from its queue.
  pub once-unregistered :
      (r : Reply World) (m : Message) (a : Addr) (rest : List (Datagram Addr)) (w : World)
      → r.callback ≡ none
      → D.queue w r.socket.socket_fd ≡ (m, a) ∷ rest
      → length (take r.msg_size m) ≢ 0
      → ((once C r w).0 ≡ bad_function_call) × (D.queue (once C r w).1 r.socket.socket_fd ≡ rest)
  unfolding once
  once-unregistered r m a rest w unset waiting some_bytes =
      rw
        (
          D.recvfrom-first r.socket r.msg_size C.zero_addr w m a rest waiting,
          received-padded r.msg_size m some_bytes,
          padded-accepted r.msg_size m some_bytes,
          unset,
        )
        (
          refl,
          D.recvfrom-queue r.socket r.msg_size C.zero_addr w m a rest r.socket.socket_fd waiting
              ∙ rw (beq_ℤ_refl r.socket.socket_fd),
        )
