-- ===== src/RequestReply.antt =====
-- cpp/src/marko/request_reply.hpp: the class templates `Reply` and `Request`, over a socket class.
-- A `Reply` starts with an empty `std::function`, whose call throws `std::bad_function_call`.
pub mod Once
pub mod Sizes
pub mod Answer
pub mod Exchange
pub mod Several
pub mod Threads
use marko.Base.{
  ℕ, Bool, true, false, not, ◌||◌, Option, none, some, length, ◌==◌, if◌then◌else◌, St, pure, ◌>>=◌,
}
use marko.Base.Int.{ℤ, pos}
use marko.System.{Message}
use marko.Socket.{Socket}
use marko.Datagram.Class.{SocketClass, stored_addr}

pub data Outcome (A : Type 0) : Type 0 where
  returned : A → Outcome A
  bad_function_call : Outcome A

pub record Reply (World : Type 0) : Type 0 where
  pub socket : Socket
  pub callback : Option (Message → St World Message)
  pub msg_size : ℕ

pub record Request : Type 0 where
  pub socket : Socket
  pub msg_size : ℕ

-- `Reply::register_cb`
unfoldable pub register_cb :
    {World : Type 0} → Reply World → (Message → St World Message) → Reply World
register_cb r func = record r { callback = some func }

-- The guard of both `once`.
abbrev pub is_refused : Message → ℕ → Bool
is_refused m msg_size = length m == 0 || not (length m == msg_size)

-- `callback(m)`, and what follows it.
abbrev pub call :
    {World A : Type 0}
    → Option (Message → St World Message)
    → Message
    → (Message → St World A)
    → St World (Outcome A)
call none m k = pure bad_function_call
call (some callback) m k = do r ← callback m; a ← k r; pure (returned a)

module _ {World Addr : Type 0} (C : SocketClass World Addr) where
  -- `Reply(size)`
  unfoldable pub new_reply : ℕ → World → Reply World × World
  new_reply size = do s ← C.make; pure (record { socket = s; callback = none; msg_size = size })

  -- `Reply::once()`
  unfoldable pub once : Reply World → St World (Outcome Bool)
  once r = do
    got ← C.recvfrom r.socket r.msg_size (some C.zero_addr) (pos 0)
    let from_addr = stored_addr C.zero_addr got.1
    if is_refused got.0 r.msg_size
        then pure (returned false)
        else call r.callback got.0
            λ reply. do sent ← C.sendto r.socket reply from_addr (pos 0); pure true

  -- `Reply::once(to)`
  unfoldable pub once_to : Reply World → Addr → St World (Outcome Bool)
  once_to r to = do
    m ← C.recv r.socket r.msg_size (pos 0)
    if is_refused m r.msg_size
        then pure (returned false)
        else call r.callback m λ reply. do sent ← C.sendto r.socket reply to (pos 0); pure true

  -- `Request(size)`
  unfoldable pub new_request : ℕ → World → Request × World
  new_request size = do s ← C.make; pure (record { socket = s; msg_size = size })

  unfoldable pub request : Request → Message → Addr → St World Message
  request q msg addr = do
    sent ← C.sendto q.socket msg addr (pos 0)
    C.recv q.socket q.msg_size (pos 0)
