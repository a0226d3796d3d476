-- ===== src/Examples/Simple/Subscriber.antt =====
-- The receiving loop of `sub` of cpp/examples/simple.cpp.
use mathlib.Core.List.{append-nil, append_assoc}
use marko.Base.{
  ℕ, suc, ◌-◌, ◌≤◌, ◌<◌, ◌≡◌, refl, sym, ap, ◌∙◌, String, ◌<>◌, true, zero, none, some, List, [],
  ◌∷◌, ◌++◌, map, length, replicate, take, length-take, take_of_le, overwrite, overwrite-replicate,
  arith,
}
use marko.Base.Int.{ℤ, pos, beq_ℤ_refl}
use marko.System.{Message, InetAddr, Received, System}
use marko.System.Laws.{PrintLaws}
use marko.Socket.{newline}
use marko.Datagram.Network.{Datagram, DeliveryLaws}
use marko.Info.Host.{c_string}
use marko.Info.Safety.{IsText, c_string-text}
use marko.Examples.Simple.{
  returned, undefined, get_ip_port, received_line, prints, overruns, round, sub_loop,
}

-- A text that is shorter than the buffer.
abbrev pub IsShort : Datagram InetAddr → Type 0
IsShort (m, a) = IsText m × (length m < 32)

abbrev pub AllShort : List (Datagram InetAddr) → Type 0
AllShort [] = Unit
AllShort (d ∷ ds) = IsShort d × AllShort ds

-- Receiving prints nothing, and printing leaves what waits alone.
pub record Apart (S : System) (P : PrintLaws S) (L : DeliveryLaws S.World InetAddr S.inet)
    : Type 0 where
  pub printed-recvfrom :
      (fd : ℤ) (n : ℕ) (w : S.World)
      → P.printed (S.inet.recvfrom fd n (pos 0) true w).1 ≡ P.printed w
  pub queue-print : (t : String) (w : S.World) (d : ℤ) → L.queue (S.print t w) d ≡ L.queue w d
  pub route-print :
      (t : String) (w : S.World) (a : InetAddr) → L.route (S.print t w) a ≡ L.route w a
  pub name-print : (t : String) (w : S.World) (d : ℤ) → L.name (S.print t w) d ≡ L.name w d

c_string-none : (text : Message) → IsText text → c_string text ≡ none
unfolding c_string
c_string-none [] t = refl
c_string-none (zero ∷ text) (h, t) = absurd (omega arith)
c_string-none (suc b ∷ text) (h, t) = rw (c_string-none text t)

-- A buffer of `n` zeros after a datagram was received into it.
abbrev filled_buffer : ℕ → Message → Message
filled_buffer n m = overwrite (replicate n 0) (take n m)

c_string-short :
    (n : ℕ) (m : Message) → IsText m → length m < n → c_string (filled_buffer n m) ≡ some m
c_string-short n m t fits =
    let room : n - length m ≡ suc (n - length m - 1) = omega arith in
    rw (take_of_le n m (omega arith), overwrite-replicate n 0 m (omega arith), room)
      (c_string-text m _ t)

c_string-long :
    (n : ℕ) (m : Message) → IsText (take n m) → n ≤ length m → c_string (filled_buffer n m) ≡ none
c_string-long n m t long =
    let full : length (take n m) ≡ n = length-take n m long in
    let no_room : n - length (take n m) ≡ 0 = omega (arith, full) in
    rw (overwrite-replicate n 0 (take n m) (omega (arith, full)), no_room, append-nil)
      (c_string-none (take n m) t)

module _ (S : System) where
  -- What is printed of a datagram.
  abbrev pub line : Datagram InetAddr → String
  line (m, a) = "Received " <> (S.text_of_bytes m <> (" from " <> (get_ip_port S a <> newline)))

  -- What `recvfrom` answers for a datagram.
  abbrev taken : Message → InetAddr → Received InetAddr
  taken m a = record { num = pos (length (take 32 m)); stored = take 32 m; source = some a }

  round-short :
      (m : Message) (a : InetAddr)
      → IsText m
      → length m < 32
      → round S (taken m a) ≡ prints (line (m, a))
  unfolding round
  round-short m a t fits = rw (round, received_line, c_string-short 32 m t fits)

  round-long :
      (m : Message) (a : InetAddr)
      → IsText (take 32 m)
      → 32 ≤ length m
      → round S (taken m a) ≡ overruns
  unfolding round
  round-long m a t long = rw (round, received_line, c_string-long 32 m t long)

module _ (S : System) (P : PrintLaws S) (L : DeliveryLaws S.World InetAddr S.inet)
    (A : Apart S P L) where
  -- Where short texts wait, as many rounds of `sub` as there are of them return, and print for each,
  -- in order, its text and its sender.
  pub printed-sub_loop :
      (fd : ℤ) (q : List (Datagram InetAddr)) (w : S.World)
      → L.queue w fd ≡ q
      → AllShort q
      → ((sub_loop S (length q) fd w).0 ≡ returned)
        × (P.printed (sub_loop S (length q) fd w).1 ≡ P.printed w ++ map (line S) q)
  unfolding sub_loop
  printed-sub_loop fd [] w waiting all = (refl, sym (append-nil (P.printed w)))
  printed-sub_loop fd ((m, a) ∷ q) w waiting ((text, fits), all) =
      let w' = (S.inet.recvfrom fd 32 (pos 0) true w).1 in
      let left : L.queue (S.print (line S (m, a)) w') fd ≡ q =
        A.queue-print _ w' fd
        ∙ L.recvfrom-queue fd 32 true w m a q fd waiting
        ∙ rw (beq_ℤ_refl fd) in
      let (ends, so_far) = printed-sub_loop fd q (S.print (line S (m, a)) w') left all in
      rw
        (
          sub_loop,
          ap (round S) (L.recvfrom-first fd 32 true w m a q waiting) ∙ round-short S m a text fits,
        )
        (
          ends,
          so_far
              ∙ rw (P.printed-print, A.printed-recvfrom fd 32 w) (append_assoc (P.printed w) _ _),
        )

  -- A datagram whose first 32 bytes are there and not zero makes `sub` read past its buffer.
  pub sub_loop-overruns :
      (fd : ℤ) (rounds : ℕ) (m : Message) (a : InetAddr) (q : List (Datagram InetAddr))
      (w : S.World)
      → L.queue w fd ≡ (m, a) ∷ q
      → IsText (take 32 m)
      → 32 ≤ length m
      → (sub_loop S (suc rounds) fd w).0 ≡ undefined
  unfolding sub_loop
  sub_loop-overruns fd rounds m a q w waiting text long = rw (
    sub_loop,
    ap (round S) (L.recvfrom-first fd 32 true w m a q waiting) ∙ round-long S m a text long,
  )
