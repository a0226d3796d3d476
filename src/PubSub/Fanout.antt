-- ===== src/PubSub/Fanout.antt =====
-- What `Publisher::publish` of cpp/src/marko/pub_sub.hpp sends, and to whom.
use mathlib.Core.List.{append_assoc, append-nil, map-append}
use marko.Base.{◌≡◌, ◌∙◌, sym, List, [], ◌∷◌, ◌++◌, map}
use marko.Base.Int.{pos}
use marko.System.{Message, InetAddr, UnixAddr, System}
use marko.System.Trace.{Call, sendto_call, inet_address, unix_address, traced}
use marko.Socket.{Socket}
use marko.Datagram.Udp
use marko.Datagram.Unix
use marko.Datagram.Udp.{socket_udp}
use marko.Datagram.Unix.{socket_unix}
use marko.PubSub.{Publisher, send_all, publish, connect, register_addr}

module _ (S : System) where
  send_all-journal :
      (s : Socket) (msg : Message) (addrs : List InetAddr) (w : S.World) (journal : List Call)
      → (send_all (socket_udp (traced S)) s msg addrs (w, journal)).1
        ≡ journal ++ map (λ a. sendto_call s.socket_fd msg (pos 0) (inet_address a)) addrs
  unfolding send_all Udp.sendto
  send_all-journal s msg [] w journal = sym (append-nil journal)
  send_all-journal s msg (a ∷ addrs) w journal =
      send_all-journal s msg addrs _ _ ∙ append_assoc journal _ _

  unix_send_all-journal :
      (s : Socket) (msg : Message) (addrs : List UnixAddr) (w : S.World) (journal : List Call)
      → (send_all (socket_unix (traced S)) s msg addrs (w, journal)).1
        ≡ journal ++ map (λ a. sendto_call s.socket_fd msg (pos 0) (unix_address a)) addrs
  unfolding send_all Unix.sendto
  unix_send_all-journal s msg [] w journal = sym (append-nil journal)
  unix_send_all-journal s msg (a ∷ addrs) w journal =
      unix_send_all-journal s msg addrs _ _ ∙ append_assoc journal _ _

  -- `PublisherUDP::publish` sends the message once to each address that was registered, in the
  -- order of registration, and makes no other call; no failed `sendto` stops it.
  pub publish-journal :
      (p : Publisher InetAddr) (msg : Message) (w : S.World) (journal : List Call)
      → (publish (socket_udp (traced S)) p msg (w, journal)).1
        ≡ journal
          ++ map (λ a. sendto_call p.socket.socket_fd msg (pos 0) (inet_address a)) p.clientaddrs
  unfolding publish
  publish-journal p msg w journal = send_all-journal p.socket msg p.clientaddrs w journal

  -- `PublisherUnix::publish` sends the message once to each address that was registered, in the
  -- order of registration, and makes no other call; no failed `sendto` stops it.
  pub unix_publish-journal :
      (p : Publisher UnixAddr) (msg : Message) (w : S.World) (journal : List Call)
      → (publish (socket_unix (traced S)) p msg (w, journal)).1
        ≡ journal
          ++ map (λ a. sendto_call p.socket.socket_fd msg (pos 0) (unix_address a)) p.clientaddrs
  unfolding publish
  unix_publish-journal p msg w journal = unix_send_all-journal p.socket msg p.clientaddrs w journal

  -- After `PublisherUDP::connect` a message goes where it went before, and then to the new address,
  -- whether or not `connect` answered true.
  pub publish-connect-journal :
      (p : Publisher InetAddr) (addr : InetAddr) (msg : Message) (w : S.World) (journal : List Call)
      → let (answer, (w', journal')) = connect (socket_udp (traced S)) p addr (w, journal) in
        (publish (socket_udp (traced S)) answer.1 msg (w', journal')).1
        ≡ journal'
          ++ map (λ a. sendto_call p.socket.socket_fd msg (pos 0) (inet_address a)) p.clientaddrs
          ++ sendto_call p.socket.socket_fd msg (pos 0) (inet_address addr) ∷ []
  unfolding publish connect
  publish-connect-journal p addr msg w journal =
      publish-journal (register_addr p addr) msg _ _ ∙ simp (map-append, append_assoc)
