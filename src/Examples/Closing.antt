-- ===== src/Examples/Closing.antt =====
-- The descriptors that the programs cpp/examples/ps.cpp and cpp/examples/rr.cpp leave open.
use text.Mathlib.Text.{◌==◌ as str_eq}
use marko.Base.{
  ℕ, zero, suc, ◌≡◌, refl, ◌∙◌, Bool, true, not, ◌&&◌, inl, inr, Bool-cases, String, ◌<>◌, some,
  List, [], ◌∷◌, length, ◌==◌, if◌then◌else◌, St, none,
}
use marko.Base.Int.{ℤ, pos, is_negative, beq_ℤ}
use marko.System.{Message, InetAddr, System}
use marko.System.Laws.{Descriptors}
use marko.Base.Decimal.{to_decimal}
use marko.Socket.{newline, close}
use marko.Socket.Lifecycle.{Keeps, Owns-Keeps, is_open-close}
use marko.Datagram.Class.{SocketClass}
use marko.Datagram.Udp.{socket_udp}
use marko.Datagram.Tidy.{TidyClass, udp-TidyClass, is_open-lifetime}
use marko.Info.Host.{get_host_ip}
use marko.Info.Safety.{opened, naming, is_open-get_host_ip}
use marko.PubSub.{Subscriber, register_cb, new_subscriber, once, call_all}
use marko.PubSub.Session.{once_each}
use marko.PubSub.Threads.{sub_example, pub_thread-lifetime}
use marko.RequestReply.{
  Outcome, returned, Reply, Request, request, is_refused, new_request, new_reply,
}
use marko.RequestReply
use marko.RequestReply.Threads.{serve_each, rep_thread, serve_each-returns, once-returns}
use marko.Examples.Structs.{Codec, Doubles}
use marko.Examples.Ps
use marko.Examples.Rr

module _ (S : System) (D : Descriptors S) (invalid : is_negative S.socket_err ≡ true)
    {Addr : Type 0} (C : SocketClass S.World Addr) (T : TidyClass S D C) where
  -- What is made, used by methods that keep the descriptors, and destroyed.
  is_open-used :
      (w used : S.World) (d : ℤ)
      → Keeps S D (C.make w).1 used
      → D.is_open (close S (C.make w).0 used).1 d ≡ D.is_open w d
  is_open-used w used d kept =
      is_open-close S D invalid (D.is_open w) (C.make w).0 used d
        (Owns-Keeps S D invalid (D.is_open w) _ _ _ kept (T.make-Owns w))

  once_each-Keeps :
      (cb : Message → S.World → S.World) (s : Subscriber S.World)
      → s.callbacks ≡ cb ∷ []
      → ((m : Message) (w : S.World) → Keeps S D w (cb m w))
      → (k : ℕ) (w : S.World) → Keeps S D w (once_each C k s w)
  unfolding once_each once call_all
  once_each-Keeps cb s one kept zero w d = refl
  once_each-Keeps cb s one kept (suc k) w d =
      once_each-Keeps cb s one kept k _ d
      ∙ elim (Bool-cases (length (C.recv s.socket s.data_size (pos 0) w).0 == 0)) [
        | inl none_came ↦ rw none_came (T.recv-Keeps _ _ _ w d)
        | inr came ↦ rw (came, one) (kept _ _ d ∙ T.recv-Keeps _ _ _ w d)
      ]

  pub is_open-sub_example :
      (size : ℕ) (addr : Addr) (cb : Message → S.World → S.World) (loop : ℕ) (w : S.World) (d : ℤ)
      → ((m : Message) (w : S.World) → Keeps S D w (cb m w))
      → D.is_open (sub_example S C size addr cb loop w) d ≡ D.is_open w d
  unfolding sub_example new_subscriber register_cb
  is_open-sub_example size addr cb loop w d kept =
      is_open-used w _ d λ e. once_each-Keeps cb _ refl kept loop _ e ∙ T.connect-Keeps _ addr _ e

  serve_each-Keeps :
      (serve : S.World → Outcome Bool × S.World)
      → ((w : S.World) → (b : Bool) × ((serve w).0 ≡ returned b))
      → ((w : S.World) → Keeps S D w (serve w).1)
      → (k : ℕ) (w : S.World) → Keeps S D w (serve_each serve k w).1
  unfolding serve_each
  serve_each-Keeps serve returns kept zero w d = refl
  serve_each-Keeps serve returns kept (suc k) w d =
      rw (serve_each, (returns w).1) (serve_each-Keeps serve returns kept k _ d ∙ kept w d)

  once-Keeps :
      (r : Reply S.World) (f : Message → St S.World Message)
      → ((m : Message) (w : S.World) → Keeps S D w (f m w).1)
      → (w : S.World) → Keeps S D w (RequestReply.once C (RequestReply.register_cb r f) w).1
  unfolding RequestReply.once RequestReply.register_cb
  once-Keeps r f kept w d =
      let (got, w') = C.recvfrom r.socket r.msg_size (some C.zero_addr) (pos 0) w in
      elim (Bool-cases (is_refused got.0 r.msg_size)) [
        | inl refused ↦ rw refused (T.recvfrom-Keeps _ _ _ _ w d)
        | inr accepted ↦
            rw accepted (T.sendto-Keeps _ _ _ _ _ d ∙ kept _ w' d ∙ T.recvfrom-Keeps _ _ _ _ w d)
      ]

  pub is_open-rep_thread :
      (size : ℕ) (addr : Addr) (f : Message → St S.World Message) (loop : ℕ) (w : S.World) (d : ℤ)
      → ((m : Message) (w : S.World) → Keeps S D w (f m w).1)
      → D.is_open (rep_thread S C size addr f loop w).1 d ≡ D.is_open w d
  unfolding rep_thread new_reply
  is_open-rep_thread size addr f loop w d kept =
      let r : Reply S.World = (new_reply C size w).0 in
      let bound : S.World = (C.bind r.socket addr (new_reply C size w).1).1 in
      let serve : S.World → Outcome Bool × S.World =
        RequestReply.once C (RequestReply.register_cb r f) in
      let returns = once-returns S C r f in
      let served : Keeps S D (C.make w).1 (serve_each serve loop bound).1 = λ e.
        serve_each-Keeps serve returns (once-Keeps r f kept) loop bound e
        ∙ T.bind-Keeps _ addr _ e in
      rw (rep_thread, serve_each-returns S C serve returns loop bound) (is_open-used w _ d served)

  request-Keeps :
      (q : Request) (m : Message) (addr : Addr) (w : S.World) → Keeps S D w (request C q m addr w).1
  unfolding request
  request-Keeps q m addr w d = T.recv-Keeps _ _ _ _ d ∙ T.sendto-Keeps _ _ _ _ w d

module _ (S : System) (D : Descriptors S) (invalid : is_negative S.socket_err ≡ true)
    (print-Keeps : (t : String) (w : S.World) → Keeps S D w (S.print t w)) (F : Doubles)
    (codec : Codec (Ps.DataT F.Double)) (asks : Codec (Rr.RequestT F.Double))
    (answers : Codec Rr.ResponseT) where
  tidy : TidyClass S D (socket_udp S)
  tidy = udp-TidyClass S D invalid

  abbrev ps_addr : String → InetAddr
  ps_addr host = S.inet_sockaddr ("udp://" <> (host <> (":" <> to_decimal Ps.port)))

  abbrev rr_addr : String → InetAddr
  rr_addr host = S.inet_sockaddr ("udp://" <> (host <> (":" <> to_decimal Rr.port)))

  is_open-ps_pub :
      (host : String) (w : S.World) (d : ℤ)
      → D.is_open (Ps.run_pub S F codec host w) d ≡ D.is_open w d
  unfolding Ps.run_pub
  is_open-ps_pub host w d =
      let sent : List Message = Ps.packed S F codec Ps.max_loop 0 in
      is_open-lifetime S D invalid (socket_udp S) tidy none tt _ w _ d
        (pub_thread-lifetime S (socket_udp S) none (ps_addr host) sent w).1

  is_open-ps_sub : (w : S.World) (d : ℤ) → D.is_open (Ps.run_sub S F codec w) d ≡ D.is_open w d
  unfolding Ps.run_sub Ps.cb
  is_open-ps_sub w d =
      is_open-sub_example S D invalid (socket_udp S) tidy codec.size
        (S.inet_sockaddr ("udp://*:" <> to_decimal Ps.port)) (Ps.cb S F codec) Ps.max_loop w d
        λ m w'. print-Keeps (Ps.data_line F codec (codec.unpack m)) w'

  is_open-rr_reply :
      (w : S.World) (d : ℤ) → D.is_open (Rr.run_reply S F asks answers w).1 d ≡ D.is_open w d
  unfolding Rr.run_reply Rr.cb
  is_open-rr_reply w d =
      is_open-rep_thread S D invalid (socket_udp S) tidy asks.size
        (S.inet_sockaddr ("udp://*:" <> to_decimal Rr.port)) (Rr.cb S F asks answers) Rr.loop w d
        λ m w'. print-Keeps _ w'

  request_loop-Keeps :
      (q : Request) (addr : InetAddr) (rounds i : ℕ) (w : S.World)
      → Keeps S D w (Rr.request_loop S F asks answers q addr rounds i w)
  unfolding Rr.request_loop
  request_loop-Keeps q addr zero i w d = refl
  request_loop-Keeps q addr (suc rounds) i w d =
      request_loop-Keeps q addr rounds (suc i) _ d
      ∙ print-Keeps _ _ d
      ∙ request-Keeps S D invalid (socket_udp S) tidy q _ addr w d

  is_open-rr_request :
      (host : String) (w : S.World) (d : ℤ)
      → D.is_open (Rr.run_request S F asks answers host w) d ≡ D.is_open w d
  unfolding Rr.run_request new_request
  is_open-rr_request host w d =
      let told : S.World =
        S.print ("Request connecting to: " <> (S.to_string (rr_addr host) <> newline)) w in
      let (q, made) = new_request (socket_udp S) answers.size told in
      is_open-used S D invalid (socket_udp S) tidy told _ d
        (request_loop-Keeps q (rr_addr host) Rr.loop 0 made)
      ∙ print-Keeps _ w d

  is_open-ps_main :
      (args : List String) (w : S.World) (d : ℤ)
      → D.is_open (Ps.main S F codec args w).1 d ≡ D.is_open (get_host_ip S w).1 d
  unfolding Ps.main
  is_open-ps_main [] w d = print-Keeps _ _ d
  is_open-ps_main (name ∷ []) w d = print-Keeps _ _ d
  is_open-ps_main (name ∷ arg ∷ x ∷ more) w d = print-Keeps _ _ d
  is_open-ps_main (name ∷ arg ∷ []) w d = elim (Bool-cases (str_eq arg "p")) [
    | inl p ↦ rw p (is_open-ps_pub _ _ d)
    | inr other ↦ elim (Bool-cases (str_eq arg "s")) [
      | inl s ↦ rw (other, s) (is_open-ps_sub _ d)
      | inr neither ↦ rw (other, neither) (print-Keeps _ _ d)
    ]
  ]

  is_open-rr_main :
      (args : List String) (w : S.World) (d : ℤ)
      → D.is_open (Rr.main S F asks answers args w).1 d ≡ D.is_open (get_host_ip S w).1 d
  unfolding Rr.main
  is_open-rr_main [] w d = print-Keeps _ _ d
  is_open-rr_main (name ∷ []) w d = print-Keeps _ _ d
  is_open-rr_main (name ∷ arg ∷ x ∷ more) w d = print-Keeps _ _ d
  is_open-rr_main (name ∷ arg ∷ []) w d = elim (Bool-cases (str_eq arg "reply")) [
    | inl reply ↦ rw reply (is_open-rr_reply _ d)
    | inr other ↦ elim (Bool-cases (str_eq arg "request")) [
      | inl request ↦ rw (other, request) (is_open-rr_request _ _ d)
      | inr neither ↦ rw (other, neither) (print-Keeps _ _ d)
    ]
  ]

  -- Whatever the arguments of ps.cpp and of rr.cpp, and whatever the system answers: when `main` is
  -- done, the open descriptors are those of its start, but for the one that `get_host_ip` leaves
  -- open, where its socket was made and `getsockname` failed. Printing opens and closes nothing.
  pub is_open-mains :
      (ps_args rr_args : List String) (w : S.World) (d : ℤ)
      → let left =
          if beq_ℤ d (opened S D w).0
            && (not (is_negative (opened S D w).0) && is_negative (naming S D w))
          then true
          else D.is_open w d in
        (D.is_open (Ps.main S F codec ps_args w).1 d ≡ left)
        × (D.is_open (Rr.main S F asks answers rr_args w).1 d ≡ left)
  is_open-mains ps_args rr_args w d = (
    is_open-ps_main ps_args w d ∙ is_open-get_host_ip S D w d,
    is_open-rr_main rr_args w d ∙ is_open-get_host_ip S D w d,
  )
