-- ===== src/Examples/Console.antt =====
-- The console and the network of a program of cpp/examples have nothing to do with each other.
use marko.Base.{ℕ, ◌≡◌, String}
use marko.Base.Int.{ℤ, pos}
use marko.System.{Message, InetAddr, System}
use marko.System.Laws.{PrintLaws}
use marko.Socket.{Socket}
use marko.Datagram.Udp.{socket_udp, recv, sendto}
use marko.Datagram.Network.{Delivery}
use marko.RequestReply.Answer.{IsSameNet}

-- Printing leaves the network alone.
pub record PrintsApart (S : System) (D : Delivery S.World InetAddr (socket_udp S)) : Type 0 where
  pub same_net : (t : String) (w : S.World) → IsSameNet (socket_udp S) D w (S.print t w)
  pub same_queue : (t : String) (w : S.World) (d : ℤ) → D.queue (S.print t w) d ≡ D.queue w d

-- Receiving and sending print nothing.
pub record PrintsNothing (S : System) (P : PrintLaws S) : Type 0 where
  pub printed-recv :
      (s : Socket) (n : ℕ) (w : S.World) → P.printed (recv S s n (pos 0) w).1 ≡ P.printed w
  pub printed-sendto :
      (s : Socket) (m : Message) (a : InetAddr) (w : S.World)
      → P.printed (sendto S s m a (pos 0) w).1 ≡ P.printed w
