-- ===== src/PubSub/Dispatch.antt =====
-- How `Subscriber::once` of cpp/src/marko/pub_sub.hpp hands a message to the callbacks.
use marko.Base.{◌≡◌, refl, inl, inr, Bool-cases, List, [], ◌∷◌, ◌++◌, length, ◌==◌, if◌then◌else◌}
use marko.Base.Int.{pos}
use marko.System.{Message}
use marko.Datagram.Class.{SocketClass}
use marko.PubSub.{Subscriber, register_cb, call_all, once}

pub call_all-append :
    {World : Type 0} (fs gs : List (Message → World → World)) (msg : Message) (w : World)
    → call_all (fs ++ gs) msg w ≡ call_all gs msg (call_all fs msg w)
unfolding call_all
call_all-append [] gs msg w = refl
call_all-append (f ∷ fs) gs msg w = call_all-append fs gs msg (f msg w)

module _ {World Addr : Type 0} (C : SocketClass World Addr) where
  -- With one callback more, `once` does what it did without it, and then calls this one on the
  -- message that the others were given; without a message it does not call it.
  pub once-register_cb :
      (s : Subscriber World) (f : Message → World → World) (w : World)
      → once C (register_cb s f) w ≡ (
          if length (C.recv s.socket s.data_size (pos 0) w).0 == 0
          then once C s w
          else f (C.recv s.socket s.data_size (pos 0) w).0 (once C s w))
  unfolding once register_cb
  once-register_cb s f w =
      elim (Bool-cases (length (C.recv s.socket s.data_size (pos 0) w).0 == 0)) [
        | inl none_came ↦ rw none_came
        | inr came ↦ rw came (call_all-append s.callbacks (f ∷ []) _ _)
      ]
