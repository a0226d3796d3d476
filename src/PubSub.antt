-- ===== src/PubSub.antt =====
-- cpp/src/marko/pub_sub.hpp: the class templates `Subscriber` and `Publisher`, over a socket class.
-- A callback is a non-empty function that returns; what it does is a change of the world.
pub mod Dispatch
pub mod Fanout
pub mod Subscribers
pub mod Session
pub mod Interleaving
pub mod Topic
pub mod Threads
use marko.Base.{ℕ, List, [], ◌∷◌, ◌++◌, Bool, length, ◌==◌, if◌then◌else◌, St, pure, ◌>>=◌}
use marko.Base.Int.{ℤ, pos}
use marko.System.{Message}
use marko.Socket.{Socket}
use marko.Datagram.Class.{SocketClass}

pub record Subscriber (World : Type 0) : Type 0 where
  pub socket : Socket
  pub callbacks : List (Message → World → World)
  pub data_size : ℕ

pub record Publisher (Addr : Type 0) : Type 0 where
  pub socket : Socket
  pub clientaddrs : List Addr

-- `Subscriber::register_cb`
unfoldable pub register_cb :
    {World : Type 0} → Subscriber World → (Message → World → World) → Subscriber World
register_cb s func = record s { callbacks = s.callbacks ++ func ∷ [] }

-- The loop over the callbacks.
unfoldable pub call_all :
    {World : Type 0} → List (Message → World → World) → Message → World → World
call_all [] msg w = w
call_all (callback ∷ rest) msg w = call_all rest msg (callback msg w)

-- `Publisher::register_addr`
unfoldable pub register_addr : {Addr : Type 0} → Publisher Addr → Addr → Publisher Addr
register_addr p c = record p { clientaddrs = p.clientaddrs ++ c ∷ [] }

module _ {World Addr : Type 0} (C : SocketClass World Addr) where
  -- `Subscriber(data_size)`
  unfoldable pub new_subscriber : ℕ → World → Subscriber World × World
  new_subscriber data_size = do
    s ← C.make
    pure (record { socket = s; callbacks = []; data_size = data_size })

  -- `Subscriber::once`
  unfoldable pub once : Subscriber World → World → World
  unfolding call_all
  once s w =
      let (msg, w') = C.recv s.socket s.data_size (pos 0) w in
      if length msg == 0 then w' else call_all s.callbacks msg w'

  -- `Publisher()`
  unfoldable pub new_publisher : World → Publisher Addr × World
  new_publisher = do s ← C.make; pure (record { socket = s; clientaddrs = [] })

  -- The loop of `publish` over the addresses.
  unfoldable pub send_all : Socket → Message → List Addr → World → World
  send_all s msg [] w = w
  send_all s msg (addr ∷ rest) w = send_all s msg rest (C.sendto s msg addr (pos 0) w).1

  unfoldable pub publish : Publisher Addr → Message → World → World
  unfolding send_all
  publish p msg = send_all p.socket msg p.clientaddrs

  unfoldable pub bind : Publisher Addr → Addr → World → (Bool × Publisher Addr) × World
  unfolding register_addr
  bind p addr w =
      let p' = register_addr p addr in
      let (bound, w') = C.bind p'.socket addr w in ((bound, p'), w')

  unfoldable pub connect : Publisher Addr → Addr → World → (Bool × Publisher Addr) × World
  unfolding register_addr
  connect p addr w =
      let p' = register_addr p addr in
      let (connected, w') = C.connect p'.socket addr w in ((connected, p'), w')
