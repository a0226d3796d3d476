-- ===== src/System/Trace.antt =====
-- A machine that keeps a journal: `traced S` answers as `S` does and notes every call that can
-- change the machine or wait on it. What a function asks of the machine is the journal's growth.
use marko.Base.{ℕ, Bool, Option, List, [], ◌∷◌, ◌++◌, St}
use marko.Base.Int.{ℤ}
use marko.System.{Message, Timeval, InetAddr, UnixAddr, OptionValue, AddressCalls, System}

pub data Address : Type 0 where
  inet_address : InetAddr → Address
  unix_address : UnixAddr → Address

pub data Call : Type 0 where
  socket_call : ℤ → ℤ → ℤ → Call
  close_call : ℤ → Call
  setsockopt_call : ℤ → ℤ → ℤ → OptionValue → Call
  getsockopt_call : ℤ → ℤ → ℤ → ℕ → Call
  ioctl_call : ℤ → ℤ → ℤ → Call
  select_call : ℤ → Option (List ℤ) → Option (List ℤ) → Timeval → Call
  bind_call : ℤ → Address → Call
  connect_call : ℤ → Address → Call
  sendto_call : ℤ → Message → ℤ → Address → Call
  recvfrom_call : ℤ → ℕ → ℤ → Bool → Call
  getsockname_call : ℤ → Call
  recv_call : ℤ → ℕ → ℤ → Call
  getnameinfo_call : ℕ → ℤ → Call

abbrev pub Traced : Type 0 → Type 0
Traced W = W × List Call

-- `m`, noted as the call `c`.
abbrev pub noting : {W A : Type 0} → Call → St W A → St (Traced W) A
noting c m (w, journal) = ((m w).0, ((m w).1, journal ++ c ∷ []))

abbrev pub traced_calls :
    {W Addr : Type 0} → (Addr → Address) → AddressCalls W Addr → AddressCalls (Traced W) Addr
traced_calls wrap c = record {
  zero_addr = c.zero_addr;
  bind = λ fd addr. noting (bind_call fd (wrap addr)) (c.bind fd addr);
  connect = λ fd addr. noting (connect_call fd (wrap addr)) (c.connect fd addr);
  recvfrom = λ fd size flags wanted.
      noting (recvfrom_call fd size flags wanted) (c.recvfrom fd size flags wanted);
  sendto = λ fd msg flags addr.
      noting (sendto_call fd msg flags (wrap addr)) (c.sendto fd msg flags addr);
  getsockname = λ fd addr. noting (getsockname_call fd) (c.getsockname fd addr);
}

abbrev pub traced : System → System
traced S = record {
  constants = S.constants;
  defs = S.defs;
  World = Traced S.World;
  inet = traced_calls inet_address S.inet;
  unix = traced_calls unix_address S.unix;
  socket = λ f t p. noting (socket_call f t p) (S.socket f t p);
  close_fd = λ fd. noting (close_call fd) (S.close_fd fd);
  setsockopt = λ fd l n v. noting (setsockopt_call fd l n v) (S.setsockopt fd l n v);
  getsockopt = λ fd l n k. noting (getsockopt_call fd l n k) (S.getsockopt fd l n k);
  ioctl = λ fd r v. noting (ioctl_call fd r v) (S.ioctl fd r v);
  select = λ n r w tv. noting (select_call n r w tv) (S.select n r w tv);
  recv = λ fd k flags. noting (recv_call fd k flags) (S.recv fd k flags);
  getnameinfo = λ a k flags. noting (getnameinfo_call k flags) (S.getnameinfo a k flags);
  inet_ntoa = S.inet_ntoa;
  inet_ntop = S.inet_ntop;
  int_of_bytes = S.int_of_bytes;
  addr_of_bytes = S.addr_of_bytes;
  errno = λ w. S.errno w.0;
  strerror = S.strerror;
  sleep_for = λ d w. (S.sleep_for d w.0, w.1);
  print = λ text w. (S.print text w.0, w.1);
  print_err = λ text w. (S.print_err text w.0, w.1);
  inet_addr = S.inet_addr;
  text_of_bytes = S.text_of_bytes;
}
