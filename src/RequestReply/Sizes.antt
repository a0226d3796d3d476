-- ===== src/RequestReply/Sizes.antt =====
-- The messages that a callback of cpp/src/marko/pub_sub.hpp or request_reply.hpp can be called on: those
-- of the size that its object was made for.
use marko.Base.{
  ℕ, ◌≡◌, refl, ◌∙◌, ap, inl, inr, Bool-cases, false, List, [], ◌∷◌, some, length, ◌==◌, St, arith,
}
use marko.Base.Int.{pos}
use marko.System.{Message}
use marko.Datagram.Class.{SocketClass}
use marko.Datagram.Receive.{SizedClass}
use marko.PubSub.{Subscriber, call_all}
use marko.PubSub
use marko.RequestReply.{Reply, register_cb, is_refused, once, once_to}

module _ {World : Type 0} (n : ℕ) where
  -- The callbacks of two lists do the same with messages of `n` bytes.
  abbrev pub AgreeAll : List (Message → World → World) → List (Message → World → World) → Type 0
  AgreeAll [] [] = Unit
  AgreeAll [] (f' ∷ fs') = ⊥
  AgreeAll (f ∷ fs) [] = ⊥
  AgreeAll (f ∷ fs) (f' ∷ fs') =
      ((m : Message) (w : World) → length m ≡ n → f m w ≡ f' m w) × AgreeAll fs fs'

  call_all-AgreeAll :
      (fs fs' : List (Message → World → World)) (m : Message) (w : World)
      → AgreeAll fs fs'
      → length m ≡ n
      → call_all fs m w ≡ call_all fs' m w
  unfolding call_all
  call_all-AgreeAll [] [] m w agree sized = refl
  call_all-AgreeAll [] (f' ∷ fs') m w agree sized = absurd agree
  call_all-AgreeAll (f ∷ fs) [] m w agree sized = absurd agree
  call_all-AgreeAll (f ∷ fs) (f' ∷ fs') m w (first, others) sized =
      ap (call_all fs m) (first m w sized) ∙ call_all-AgreeAll fs fs' m (f' m w) others sized

accepted_size : (m : Message) (n : ℕ) → is_refused m n ≡ false → length m ≡ n
accepted_size m n accepted = ground arith

module _ {World Addr : Type 0} (C : SocketClass World Addr) (Z : SizedClass C) where
  -- Callbacks that agree on the messages of the size that their object was made for cannot be told
  -- apart: `Subscriber::once`, `Reply::once()` and `Reply::once(to)` do the same with them, whatever
  -- the system answers. So no callback is ever called on a message of another size.
  pub callbacks-same_at_size :
      (s : Subscriber World) (fs fs' : List (Message → World → World)) (r : Reply World) (to : Addr)
      (f f' : Message → St World Message) (w : World)
      → AgreeAll s.data_size fs fs'
      → ((m : Message) (x : World) → length m ≡ r.msg_size → f m x ≡ f' m x)
      → (PubSub.once C (record s { callbacks = fs }) w
          ≡ PubSub.once C (record s { callbacks = fs' }) w)
        × (once C (register_cb r f) w ≡ once C (register_cb r f') w)
        × (once_to C (register_cb r f) to w ≡ once_to C (register_cb r f') to w)
  unfolding PubSub.once once once_to register_cb
  callbacks-same_at_size s fs fs' r to f f' w agree same = (
    elim (Bool-cases (length (C.recv s.socket s.data_size (pos 0) w).0 == 0)) [
      | inl none_came ↦ rw none_came
      | inr came ↦ rw came (
          call_all-AgreeAll s.data_size fs fs' _ _ agree
            (ground (arith, Z.length-recv s.socket s.data_size (pos 0) w)))
    ],
    elim (Bool-cases
        (is_refused (C.recvfrom r.socket r.msg_size (some C.zero_addr) (pos 0) w).0.0 r.msg_size)) [
          | inl refused ↦ rw refused
          | inr accepted ↦ rw (accepted, same _ _ (accepted_size _ r.msg_size accepted))
        ],
    elim (Bool-cases (is_refused (C.recv r.socket r.msg_size (pos 0) w).0 r.msg_size)) [
      | inl refused ↦ rw refused
      | inr accepted ↦ rw (accepted, same _ _ (accepted_size _ r.msg_size accepted))
    ],
  )
