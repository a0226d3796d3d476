-- ===== src/System/Loopback.antt =====
-- A machine on which every assumption of Laws and of Datagram/Network holds: descriptors, options
-- and datagrams that stay on the host. The tests run on it; nothing here models the library.
pub mod Meets
pub mod Binds
use Prim.Native.Nat.{◌/◌, ◌%◌}
use text.Mathlib.Text.{◌==◌ as str_eq}
use mathlib.Core.Option
use marko.Base.{
  ℕ, suc, ◌+◌, ◌*◌, Bool, true, false, ◌&&◌, ◌||◌, not, Option, none, some, String, List, [], ◌∷◌,
  ◌++◌, length, take, ltb, ◌==◌, if◌then◌else◌,
}
use marko.Base.Int.{ℤ, pos, negsuc, beq_ℤ, is_negative}
use marko.Base.{◌<>◌}
use marko.Base.Decimal.{to_decimal}
use marko.System.{
  Message, Timeval, InetAddr, UnixAddr, Constants, SocketDefs, OptionValue, int_value,
  timeval_value, Received, Fetched, Selected, AddressCalls, System,
}
use marko.Time.Timeout.{duration_usec}

-- The sockets of a family: what is bound where, and what waits.
pub record Mail (Addr : Type 0) : Type 0 where
  pub route : Addr → Option ℤ
  pub name : ℤ → Addr
  pub queue : ℤ → List (Message × Addr)

pub record Machine : Type 0 where
  pub next : ℕ
  pub opened : ℤ → Bool
  pub inet : Mail InetAddr
  pub unix : Mail UnixAddr
  pub waits : ℤ → ℤ
  pub printed : List String
  pub seen : List Message
  -- Of a test: the pairs expected to be equal, and a counter.
  pub expectations : List (ℤ × ℤ)
  pub counter : ℤ

abbrev pub update {ℓ} : {A : Type ℓ} → (ℤ → A) → ℤ → A → ℤ → A
update f fd v d = if beq_ℤ d fd then v else f d

abbrev pub beq_addr : InetAddr → InetAddr → Bool
beq_addr a b = beq_ℤ a.sin_family b.sin_family && a.sin_port == b.sin_port && a.s_addr == b.s_addr

abbrev pub keep_if : (ℤ → Bool) → List ℤ → List ℤ
keep_if p [] = []
keep_if p (d ∷ ds) = if p d then d ∷ keep_if p ds else keep_if p ds

abbrev pub all_of : (ℤ → Bool) → List ℤ → Bool
all_of p [] = true
all_of p (d ∷ ds) = p d && all_of p ds

abbrev pub members : Option (List ℤ) → List ℤ
members none = []
members (some ds) = ds

abbrev pub waits_there : Machine → ℤ → Bool
waits_there w d = not (length (w.inet.queue d) + length (w.unix.queue d) == 0)

-- Nothing waits there any more.
abbrev pub cleared : {Addr : Type 0} → ℤ → Mail Addr → Mail Addr
cleared fd mail = record mail { queue = update mail.queue fd [] }

abbrev pub open_socket : Machine → ℤ × Machine
open_socket w = if w.opened (pos w.next) then (negsuc 0, w) else (
  pos w.next,
  record w {
    next = suc w.next;
    opened = update w.opened (pos w.next) true;
    inet = cleared (pos w.next) w.inet;
    unix = cleared (pos w.next) w.unix;
  },
)

-- An open descriptor is bound there.
abbrev pub in_use : Option ℤ → Machine → Bool
in_use none w = false
in_use (some d) w = w.opened d

abbrev pub set_option : ℤ → OptionValue → Machine → ℤ × Machine
set_option fd (int_value n) w = (pos 0, w)
set_option fd (timeval_value tv) w =
    (pos 0, record w { waits = update w.waits fd (duration_usec tv) })

abbrev pub selected : (ℤ → Bool) → (ℤ → Bool) → Bool → Option (List ℤ) → Option (List ℤ) → Selected
selected readable writable true r v = record {
  count = pos (length (keep_if readable (members r)) + length (keep_if writable (members v)));
  readfds = Option.map (keep_if readable) r;
  writefds = Option.map (keep_if writable) v;
}
selected readable writable false r v = record { count = negsuc 0; readfds = r; writefds = v }

module _ {Addr : Type 0} where
  abbrev pub deliver : Option ℤ → Message → Addr → Mail Addr → Mail Addr
  deliver none m from mail = mail
  deliver (some to) m from mail = record mail {
    queue = update mail.queue to (mail.queue to ++ (m, from) ∷ []);
  }

  abbrev pub take_first :
      List (Message × Addr) → ℤ → ℕ → Bool → Mail Addr → Received Addr × Mail Addr
  take_first [] fd n wanted mail = (record { num = negsuc 0; stored = []; source = none }, mail)
  take_first ((m, a) ∷ rest) fd n wanted mail = (
    record {
      num = pos (length (take n m));
      stored = take n m;
      source = if wanted then some a else none;
    },
    record mail { queue = update mail.queue fd rest },
  )

  -- The calls of a family, of which the machine has the sockets at a place.
  abbrev pub mail_calls :
      Addr
      → (Addr → Addr → Bool)
      → (Machine → Mail Addr)
      → (Mail Addr → Machine → Machine)
      → AddressCalls Machine Addr
  mail_calls zero_addr beq mail put = record {
    zero_addr = zero_addr;
    bind = λ fd a w. if in_use ((mail w).route a) w then (negsuc 0, w) else (
      pos 0,
      put
          (record (mail w) {
            route = λ b. if beq b a then some fd else (mail w).route b;
            name = update (mail w).name fd a;
          })
          w,
    );
    connect = λ fd a w. (pos 0, w);
    recvfrom = λ fd n flags wanted w.
        let taken = take_first ((mail w).queue fd) fd n wanted (mail w) in (taken.0, put taken.1 w);
    sendto = λ fd m flags a w.
        (pos (length m), put (deliver ((mail w).route a) m ((mail w).name fd) (mail w)) w);
    getsockname = λ fd a w. ((if w.opened fd then pos 0 else negsuc 0, (mail w).name fd), w);
  }

abbrev pub le_bytes : ℕ → Message
le_bytes v = v % 256 ∷ v / 256 % 256 ∷ v / 65536 % 256 ∷ v / 16777216 % 256 ∷ []

abbrev pub of_le_bytes : Message → ℕ
of_le_bytes [] = 0
of_le_bytes (b ∷ bytes) = b + 256 * of_le_bytes bytes

-- Linux's numbers.
abbrev pub linux : Constants
linux = record {
  af_inet = pos 2;
  af_unix = pos 1;
  sock_dgram = pos 2;
  sock_stream = pos 1;
  sock_raw = pos 3;
  sol_socket = pos 1;
  ipproto_ip = pos 0;
  so_type = pos 3;
  so_acceptconn = pos 30;
  so_broadcast = pos 6;
  so_dontroute = pos 5;
  so_error = pos 4;
  so_oobinline = pos 10;
  so_reuseaddr = pos 2;
  so_reuseport = pos 15;
  so_rcvbuf = pos 8;
  so_rcvlowat = pos 18;
  so_sndbuf = pos 7;
  so_sndlowat = pos 19;
  so_rcvtimeo = pos 20;
  ip_multicast_if = pos 32;
  ip_multicast_loop = pos 34;
  ip_multicast_ttl = pos 33;
  ip_ttl = pos 2;
  fionbio = pos 0x5421;
  inaddr_any = 0;
  fd_setsize = 1024;
}

abbrev pub broadcast : InetAddr
broadcast = record { sin_family = pos 2; sin_port = 0x0f27; s_addr = 0xffff_ffff }

abbrev pub localhost : InetAddr
localhost = record { sin_family = pos 2; sin_port = 0x0f27; s_addr = 0x0100_007f }

-- The values of the options, the receive buffer's being larger than a byte.
abbrev pub option_value : ℤ → ℕ
option_value n =
    if beq_ℤ n (pos 8)
    then 212992
    else if beq_ℤ n (pos 3)
    then 2
    else if beq_ℤ n (pos 2)
    then 64
    else if beq_ℤ n (pos 18) || beq_ℤ n (pos 34)
    then 1
    else 0

abbrev pub no_inet : InetAddr
no_inet = record { sin_family = pos 0; sin_port = 0; s_addr = 0 }

abbrev pub no_unix : UnixAddr
no_unix = record { sun_family = pos 0; sun_path = "" }

abbrev pub same_path : UnixAddr → UnixAddr → Bool
same_path a b = beq_ℤ a.sun_family b.sun_family && str_eq a.sun_path b.sun_path

abbrev pub put_inet : Mail InetAddr → Machine → Machine
put_inet mail w = record w { inet = mail }

abbrev pub put_unix : Mail UnixAddr → Machine → Machine
put_unix mail w = record w { unix = mail }

-- Bytes as numbers.
abbrev pub numbers : Message → String
numbers [] = ""
numbers (b ∷ bytes) = to_decimal b <> (" " <> numbers bytes)

-- The host's name is an argument.
abbrev pub loopback : Message → System
loopback host = record {
  constants = linux;
  defs = record {
    socket_err = negsuc 0;
    socket_timeout = negsuc 0;
    inet_sockaddr = λ text. if str_eq text "udp://bc:9999" then broadcast else localhost;
    to_string = λ a. "127.0.0.1:9999";
  };
  World = Machine;
  inet = mail_calls no_inet beq_addr (λ w. w.inet) put_inet;
  unix = mail_calls no_unix same_path (λ w. w.unix) put_unix;
  socket = λ f t p w. open_socket w;
  close_fd = λ fd w. (pos 0, record w { opened = update w.opened fd false });
  setsockopt = λ fd l n v w. set_option fd v w;
  getsockopt =
      λ fd l n k w. (record { err = pos 0; bytes = take k (le_bytes (option_value n)) }, w);
  ioctl = λ fd r v w. (pos 0, w);
  select = λ n r v tv w.
      (selected (waits_there w) w.opened (all_of w.opened (members r ++ members v)) r v, w);
  recv = λ fd n flags w.
      let taken = take_first (w.unix.queue fd) fd n false w.unix in
      ((taken.0.num, taken.0.stored), record w { unix = taken.1 });
  getnameinfo = λ a k flags w.
      let fits = ltb (length host) k in
      ((if fits then pos 0 else negsuc 11, if fits then host ++ 0 ∷ [] else []), w);
  inet_ntoa = λ a. "127.0.0.1";
  inet_ntop = λ family a k. some (if a == 0x0100_007f then "127.0.0.1" else "0.0.0.0");
  int_of_bytes = λ bytes. pos (of_le_bytes bytes);
  addr_of_bytes = of_le_bytes;
  errno = λ w. pos 0;
  strerror = λ e. "Success";
  sleep_for = λ d w. w;
  print = λ text w. record w { printed = w.printed ++ text ∷ [] };
  print_err = λ text w. w;
  inet_addr = λ text. 0x0100_007f;
  text_of_bytes = numbers;
}
