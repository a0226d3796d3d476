-- ===== src/PubSub/Threads.antt =====
-- The publishing and subscribing threads of cpp/gtests/test_ps.cpp and cpp/examples/ps.cpp, from the
-- constructor to the destructor. The packed messages are an argument, and so is the callback.
use mathlib.Core.Option
use marko.Base.{ℕ, ◌≡◌, refl, ap, ◌∙◌, String, Option, some, List, [], ◌∷◌, map, St}
use marko.Base.Int.{pos}
use marko.System.{Message, UnixAddr, System}
use marko.Socket.{Socket, close}
use marko.Datagram.Class.{SocketClass}
use marko.Datagram.Unix.{socket_unix}
use marko.Datagram.Lifetime.{connects, binds, sends, step, run, lifetime}
use marko.PubSub.{
  Publisher, new_publisher, bind, connect, register_addr, publish, send_all, new_subscriber,
  register_cb,
}
use marko.PubSub.Session.{publish_each, once_each}

module _ (S : System) {Addr : Type 0} (C : SocketClass S.World Addr) where
  -- `pub_thread`
  unfoldable pub pub_thread : Addr → List Message → S.World → S.World
  unfolding new_publisher connect publish_each close
  pub_thread addr msgs w =
      let (p, w1) = new_publisher C w in
      let (answer, w2) = connect C p addr w1 in
      (close S answer.1.socket (publish_each C answer.1 msgs w2)).1

  -- `pub` of the example, which binds.
  unfoldable pub pub_example : Addr → List Message → S.World → S.World
  unfolding new_publisher bind publish_each close
  pub_example addr msgs w =
      let (p, w1) = new_publisher C w in
      let (answer, w2) = bind C p addr w1 in
      (close S answer.1.socket (publish_each C answer.1 msgs w2)).1

  -- `sub_thread`
  unfoldable pub sub_thread : ℕ → Addr → (Message → S.World → S.World) → ℕ → S.World → S.World
  unfolding new_subscriber register_cb once_each close
  sub_thread size addr callback loop w =
      let (s, w1) = new_subscriber C size w in
      let (bound, w2) = C.bind s.socket addr w1 in
      (close S s.socket (once_each C loop (register_cb s callback) w2)).1

  -- `sub` of the example, which connects.
  unfoldable pub sub_example : ℕ → Addr → (Message → S.World → S.World) → ℕ → S.World → S.World
  unfolding new_subscriber register_cb once_each close
  sub_example size addr callback loop w =
      let (s, w1) = new_subscriber C size w in
      let (connected, w2) = C.connect s.socket addr w1 in
      (close S s.socket (once_each C loop (register_cb s callback) w2)).1

  one_address :
      (p : Publisher Addr) (addr : Addr) (m : Message) (w : S.World)
      → p.clientaddrs ≡ addr ∷ []
      → (C.sendto p.socket m addr (pos 0) w).1 ≡ publish C p m w
  unfolding publish
  one_address p addr m w one = rw (one, send_all)

module _ (S : System) {Addr : Type 0} (C : SocketClass S.World Addr)
    (getsockname : Option (Socket → St S.World String)) where
  run-sends :
      (p : Publisher Addr) (addr : Addr) (msgs : List Message) (w : S.World)
      → p.clientaddrs ≡ addr ∷ []
      → run S C getsockname (map (λ m. sends m addr (pos 0)) msgs) p.socket w
        ≡ some (p.socket, publish_each C p msgs w)
  unfolding run step publish_each Option.bind
  run-sends p addr [] w one = refl
  run-sends p addr (m ∷ msgs) w one =
      run-sends p addr msgs _ one
      ∙ ap (λ x. some (p.socket, publish_each C p msgs x)) (one_address S C p addr m w one)

  -- A publishing thread does with its socket what is seen here and no more: it makes it, connects or
  -- binds it to the address, whatever comes of that, sends each message there once, in order, and
  -- closes it.
  pub pub_thread-lifetime :
      (addr : Addr) (msgs : List Message) (w : S.World)
      → (lifetime S C getsockname (connects addr ∷ map (λ m. sends m addr (pos 0)) msgs) w
          ≡ some (pub_thread S C addr msgs w))
        × (lifetime S C getsockname (binds addr ∷ map (λ m. sends m addr (pos 0)) msgs) w
            ≡ some (pub_example S C addr msgs w))
  unfolding pub_thread pub_example lifetime run step new_publisher connect bind register_addr close
      Option.bind
  pub_thread-lifetime addr msgs w =
      let p : Publisher Addr = record { socket = (C.make w).0; clientaddrs = addr ∷ [] } in
      (
        ap (Option.map (λ r. (close S r.0 r.1).1))
            (run-sends p addr msgs (C.connect (C.make w).0 addr (C.make w).1).1 refl),
        ap (Option.map (λ r. (close S r.0 r.1).1))
            (run-sends p addr msgs (C.bind (C.make w).0 addr (C.make w).1).1 refl),
      )

module _ (S : System) where
  -- `pub_thread_un` and `sub_thread_un`, which differ in the class alone.
  abbrev pub pub_thread_un : UnixAddr → List Message → S.World → S.World
  pub_thread_un = pub_thread S (socket_unix S)

  abbrev pub sub_thread_un : ℕ → UnixAddr → (Message → S.World → S.World) → ℕ → S.World → S.World
  sub_thread_un = sub_thread S (socket_unix S)
