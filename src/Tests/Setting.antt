-- ===== src/Tests/Setting.antt =====
-- The machine and the objects of the tests.
use marko.Base.{
  String, ◌*◌, ◌%◌, ◌==◌, refl, true, false, none, some, [], ◌∷◌, ◌++◌, map, if◌then◌else◌,
}
use marko.Base.Int.{pos, beq_ℤ}
use text.Mathlib.Text.{◌==◌ as str_eq}
use marko.System.{Message, InetAddr, UnixAddr, System}
use marko.System.Loopback.{Machine, loopback, localhost}
use marko.System.Loopback.Meets.{
  loopback-DeliveryLaws, loopback-UnixDeliveryLaws, mail-DeliveryLaws,
}
use marko.Socket.{Socket}
use marko.Datagram.Class.{SocketClass}
use marko.Datagram.Udp.{socket_udp, recv, sendto}
use marko.Datagram.Unix.{socket_unix}
use marko.Datagram.Network.{Delivery, udp-Delivery, unix-Delivery}
use marko.PubSub.{Publisher, Subscriber, call_all}
use marko.PubSub.Session.{Watcher}
use marko.RequestReply.{Reply, Request}

-- A host named "ab".
abbrev pub S : System
S = loopback (97 ∷ 98 ∷ [])

-- Where the asking socket is bound.
abbrev pub asker : InetAddr
asker = record { sin_family = pos 2; sin_port = 1000; s_addr = 0x0100_007f }

abbrev pub path_address : String → UnixAddr
path_address path = record { sun_family = pos 1; sun_path = path }

-- Descriptor 3 is bound to the asker's address and to the path "a", and 4 to every other. To unix
-- sockets no name is given.
abbrev pub machine : Machine
machine = record {
  next = 5;
  opened = λ d. if beq_ℤ d (pos 3) then true else beq_ℤ d (pos 4);
  inet = record {
    route = λ a. if a.sin_port == 1000 then some (pos 3) else some (pos 4);
    name = λ d. if beq_ℤ d (pos 3) then asker else localhost;
    queue = λ d. [];
  };
  unix = record {
    route = λ a. if str_eq a.sun_path "a" then some (pos 3) else some (pos 4);
    name = λ d. path_address "";
    queue = λ d. [];
  };
  waits = λ d. pos 0;
  printed = [];
  seen = [];
  expectations = [];
  counter = pos 0;
}

-- Nothing is open or bound. The socket that comes fourth has the asker's name, which leads to it.
abbrev pub fresh : Machine
fresh = record machine {
  next = 3;
  opened = λ d. false;
  inet = record machine.inet {
    route = λ a. if a.sin_port == 1000 then some (pos 4) else none;
    name = λ d. if beq_ℤ d (pos 4) then asker else localhost;
  };
  unix = record machine.unix { route = λ a. none };
}

abbrev pub third : Socket
third = record { socket_fd = pos 3 }

abbrev pub fourth : Socket
fourth = record { socket_fd = pos 4 }

abbrev pub udp : SocketClass Machine InetAddr
udp = socket_udp S

abbrev pub network : Delivery Machine InetAddr udp
network = udp-Delivery S refl (loopback-DeliveryLaws (97 ∷ 98 ∷ []))

abbrev pub unix : SocketClass Machine UnixAddr
unix = socket_unix S

abbrev pub unix_network : Delivery Machine UnixAddr unix
unix_network = unix-Delivery S refl (loopback-UnixDeliveryLaws (97 ∷ 98 ∷ [])) (λ fd n w. refl)

-- The callback of cpp/gtests/test_rr.cpp, byte by byte.
abbrev pub double : Message → Message
double = map (λ b. 2 * b % 256)

abbrev pub requester : Request
requester = record { socket = third; msg_size = 4 }

abbrev pub replier : Reply Machine
replier = record { socket = fourth; callback = some (λ m w. (double m, w)); msg_size = 4 }

abbrev pub publisher : Publisher InetAddr
publisher = record { socket = third; clientaddrs = localhost ∷ [] }

abbrev pub notes : Message → Machine → Machine
notes m w = record w { seen = w.seen ++ m ∷ [] }

abbrev pub subscriber : Subscriber Machine
subscriber = record { socket = fourth; callbacks = notes ∷ []; data_size = 2 }

unfoldable pub watcher : Watcher Machine InetAddr udp network (notes ∷ []) Message (λ m. m)
unfolding call_all recv sendto udp-Delivery loopback-DeliveryLaws mail-DeliveryLaws
watcher = record {
  seen = λ w. w.seen;
  seen-call_all = λ m w. refl;
  queue-call_all = λ m w d. refl;
  route-call_all = λ m w a. refl;
  seen-recv = λ s n w. refl;
  seen-sendto = λ s m a w. refl;
}
