-- ===== src/Datagram/Network.antt =====
-- A network that delivers: every datagram to an address at which a socket is bound is put at the
-- end of that socket's queue, and a receiving call takes the first. The client theorems (PubSub/
-- Session, RequestReply/Exchange) take it as the laws of a socket class; SocketUDP and SocketUnix
-- meet them on a system whose calls deliver so.
use marko.Base.{
  ℕ, ◌-◌, ◌≡◌, Bool, true, false, List, [], ◌∷◌, ◌++◌, Option, none, some, length, take, ◌==◌,
  if◌then◌else◌, arith, length-take-le, overwrite-replicate, ap,
}
use marko.Base.Int.{ℤ, pos, negsuc, beq_ℤ}
use marko.System.{Message, InetAddr, UnixAddr, AddressCalls, System}
use marko.Socket.{Socket}
use marko.Datagram.Class.{SocketClass, zeros, filled}
use marko.Datagram.Udp
use marko.Datagram.Udp.{socket_udp}
use marko.Datagram.Unix
use marko.Datagram.Unix.{socket_unix}

-- A datagram: its bytes, and the address of the socket that sent it.
abbrev pub Datagram : Type 0 → Type 0
Datagram Addr = Message × Addr

-- The message that a buffer of `n` bytes makes of a datagram.
abbrev pub received : ℕ → Message → Message
received n m = if length (take n m) == 0 then [] else take n m ++ zeros (n - length (take n m))

-- The calls of a system at flags 0.
pub record DeliveryLaws (World Addr : Type 0) (c : AddressCalls World Addr) : Type 0 where
  -- The descriptor that is bound to an address, the address of a descriptor, and its queue.
  pub route : World → Addr → Option ℤ
  pub name : World → ℤ → Addr
  pub queue : World → ℤ → List (Datagram Addr)
  pub sendto-queue :
      (fd to : ℤ) (m : Message) (a : Addr) (w : World) (d : ℤ)
      → route w a ≡ some to
      → queue (c.sendto fd m (pos 0) a w).1 d
        ≡ (if beq_ℤ d to then queue w d ++ (m, name w fd) ∷ [] else queue w d)
  pub sendto-route :
      (fd : ℤ) (m : Message) (a : Addr) (w : World)
      → ((b : Addr) → route (c.sendto fd m (pos 0) a w).1 b ≡ route w b)
        × ((d : ℤ) → name (c.sendto fd m (pos 0) a w).1 d ≡ name w d)
  pub recvfrom-first :
      (fd : ℤ) (n : ℕ) (wanted : Bool) (w : World) (m : Message) (a : Addr)
      (rest : List (Datagram Addr))
      → queue w fd ≡ (m, a) ∷ rest
      → (c.recvfrom fd n (pos 0) wanted w).0 ≡ record {
        num = pos (length (take n m));
        stored = take n m;
        source = if wanted then some a else none;
      }
  pub recvfrom-queue :
      (fd : ℤ) (n : ℕ) (wanted : Bool) (w : World) (m : Message) (a : Addr)
      (rest : List (Datagram Addr)) (d : ℤ)
      → queue w fd ≡ (m, a) ∷ rest
      → queue (c.recvfrom fd n (pos 0) wanted w).1 d ≡ (if beq_ℤ d fd then rest else queue w d)
  pub recvfrom-route :
      (fd : ℤ) (n : ℕ) (wanted : Bool) (w : World)
      → ((b : Addr) → route (c.recvfrom fd n (pos 0) wanted w).1 b ≡ route w b)
        × ((d : ℤ) → name (c.recvfrom fd n (pos 0) wanted w).1 d ≡ name w d)

-- What the clients of a socket class rely on.
pub record Delivery (World Addr : Type 0) (C : SocketClass World Addr) : Type 0 where
  pub route : World → Addr → Option ℤ
  pub name : World → ℤ → Addr
  pub queue : World → ℤ → List (Datagram Addr)
  pub sendto-queue :
      (s : Socket) (to : ℤ) (m : Message) (a : Addr) (w : World) (d : ℤ)
      → route w a ≡ some to
      → queue (C.sendto s m a (pos 0) w).1 d
        ≡ (if beq_ℤ d to then queue w d ++ (m, name w s.socket_fd) ∷ [] else queue w d)
  pub sendto-route :
      (s : Socket) (m : Message) (a : Addr) (w : World)
      → ((b : Addr) → route (C.sendto s m a (pos 0) w).1 b ≡ route w b)
        × ((d : ℤ) → name (C.sendto s m a (pos 0) w).1 d ≡ name w d)
  pub recv-first :
      (s : Socket) (n : ℕ) (w : World) (m : Message) (a : Addr) (rest : List (Datagram Addr))
      → queue w s.socket_fd ≡ (m, a) ∷ rest
      → (C.recv s n (pos 0) w).0 ≡ received n m
  pub recv-queue :
      (s : Socket) (n : ℕ) (w : World) (m : Message) (a : Addr) (rest : List (Datagram Addr))
      (d : ℤ)
      → queue w s.socket_fd ≡ (m, a) ∷ rest
      → queue (C.recv s n (pos 0) w).1 d ≡ (if beq_ℤ d s.socket_fd then rest else queue w d)
  pub recv-route :
      (s : Socket) (n : ℕ) (w : World)
      → ((b : Addr) → route (C.recv s n (pos 0) w).1 b ≡ route w b)
        × ((d : ℤ) → name (C.recv s n (pos 0) w).1 d ≡ name w d)
  pub recvfrom-first :
      (s : Socket) (n : ℕ) (before : Addr) (w : World) (m : Message) (a : Addr)
      (rest : List (Datagram Addr))
      → queue w s.socket_fd ≡ (m, a) ∷ rest
      → (C.recvfrom s n (some before) (pos 0) w).0 ≡ (received n m, some a)
  pub recvfrom-queue :
      (s : Socket) (n : ℕ) (before : Addr) (w : World) (m : Message) (a : Addr)
      (rest : List (Datagram Addr)) (d : ℤ)
      → queue w s.socket_fd ≡ (m, a) ∷ rest
      → queue (C.recvfrom s n (some before) (pos 0) w).1 d
        ≡ (if beq_ℤ d s.socket_fd then rest else queue w d)
  pub recvfrom-route :
      (s : Socket) (n : ℕ) (before : Addr) (w : World)
      → ((b : Addr) → route (C.recvfrom s n (some before) (pos 0) w).1 b ≡ route w b)
        × ((d : ℤ) → name (C.recvfrom s n (some before) (pos 0) w).1 d ≡ name w d)

module _ (S : System) (timeout : S.socket_timeout ≡ negsuc 0) where
  pub filled-received :
      (n : ℕ) (m : Message) → filled S n (pos (length (take n m))) (take n m) ≡ received n m
  unfolding filled
  filled-received n m =
      rw timeout (ground (arith, overwrite-replicate n 0 (take n m) (length-take-le n m)))

  -- `SocketUDP` delivers on a system that does.
  unfoldable pub udp-Delivery :
      DeliveryLaws S.World InetAddr S.inet → Delivery S.World InetAddr (socket_udp S)
  unfolding Udp.recv Udp.sendto filled
  udp-Delivery L = record {
    route = L.route;
    name = L.name;
    queue = L.queue;
    sendto-queue = λ s to m a w d r. L.sendto-queue s.socket_fd to m a w d r;
    sendto-route = λ s m a w. L.sendto-route s.socket_fd m a w;
    recv-first = λ s n w m a rest q.
        rw (L.recvfrom-first s.socket_fd n false w m a rest q) (filled-received n m);
    recv-queue = λ s n w m a rest d q. L.recvfrom-queue s.socket_fd n false w m a rest d q;
    recv-route = λ s n w. L.recvfrom-route s.socket_fd n false w;
    recvfrom-first = λ s n before w m a rest q.
        rw (L.recvfrom-first s.socket_fd n true w m a rest q)
          (ap (λ r. (r, some a)) (filled-received n m));
    recvfrom-queue =
        λ s n before w m a rest d q. L.recvfrom-queue s.socket_fd n true w m a rest d q;
    recvfrom-route = λ s n before w. L.recvfrom-route s.socket_fd n true w;
  }

-- `recv` is `recvfrom` without a place for the address.
abbrev pub RecvIsRecvfrom : System → Type 0
RecvIsRecvfrom S =
    (fd : ℤ) (n : ℕ) (w : S.World)
    → S.recv fd n (pos 0) w ≡ (
      (
        (S.unix.recvfrom fd n (pos 0) false w).0.num,
        (S.unix.recvfrom fd n (pos 0) false w).0.stored,
      ),
      (S.unix.recvfrom fd n (pos 0) false w).1,
    )

module _ (S : System) (timeout : S.socket_timeout ≡ negsuc 0) where
  -- `SocketUnix` delivers on a system that does.
  unfoldable pub unix-Delivery :
      DeliveryLaws S.World UnixAddr S.unix
      → RecvIsRecvfrom S
      → Delivery S.World UnixAddr (socket_unix S)
  unfolding Unix.recv Unix.recvfrom Unix.sendto filled
  unix-Delivery L recvs = record {
    route = L.route;
    name = L.name;
    queue = L.queue;
    sendto-queue = λ s to m a w d r. L.sendto-queue s.socket_fd to m a w d r;
    sendto-route = λ s m a w. L.sendto-route s.socket_fd m a w;
    recv-first = λ s n w m a rest q.
        rw (recvs s.socket_fd n w, L.recvfrom-first s.socket_fd n false w m a rest q)
          (filled-received S timeout n m);
    recv-queue = λ s n w m a rest d q.
        rw (recvs s.socket_fd n w) (L.recvfrom-queue s.socket_fd n false w m a rest d q);
    recv-route = λ s n w. rw (recvs s.socket_fd n w) (L.recvfrom-route s.socket_fd n false w);
    recvfrom-first = λ s n before w m a rest q.
        rw (L.recvfrom-first s.socket_fd n true w m a rest q)
          (ap (λ r. (r, some a)) (filled-received S timeout n m));
    recvfrom-queue =
        λ s n before w m a rest d q. L.recvfrom-queue s.socket_fd n true w m a rest d q;
    recvfrom-route = λ s n before w. L.recvfrom-route s.socket_fd n true w;
  }
