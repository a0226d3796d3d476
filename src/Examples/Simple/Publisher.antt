-- ===== src/Examples/Simple/Publisher.antt =====
-- The calls of `pub` of cpp/examples/simple.cpp.
use mathlib.Core.List.{append-nil, append_assoc}
use marko.Base.{
  ℕ, zero, suc, ◌<◌, Bool, ◌≡◌, refl, sym, ap, ◌∙◌, ◌⊎◌, inl, inr, Bool-cases, List, [], ◌∷◌, ◌++◌,
  replicate, ◌<>◌, arith, true, false,
}
use marko.Base.Int.{ℤ, pos, is_negative}
use marko.System.{InetAddr, System}
use marko.System.Trace.{Call, close_call, sendto_call, socket_call, inet_address, traced}
use marko.Socket.{newline}
use marko.Examples.Simple.{
  close_up, Ending, returned, exited, undefined, hello, host, port, get_udp_addr, info, pub_loop,
  run_pub,
}

-- How `pub` closes.
abbrev pub closing : ℤ → Ending → List Call
closing fd returned = close_call fd ∷ []
closing fd exited = []
closing fd undefined = []

module _ (S : System) where
  abbrev pub send_call : ℤ → InetAddr → Call
  send_call fd addr = sendto_call fd hello (pos 0) (inet_address addr)

  -- Whether the next send of a hello fails, and the world after one that does not.
  abbrev pub fails : ℤ → InetAddr → S.World → Bool
  fails fd addr w = is_negative (S.inet.sendto fd hello (pos 0) addr w).0

  abbrev pub after_send : ℤ → InetAddr → S.World → S.World
  after_send fd addr w =
      S.print ("Reply sent to client " <> newline) (S.inet.sendto fd hello (pos 0) addr w).1

  -- The next so many sends succeed.
  abbrev pub AllSucceed : ℕ → ℤ → InetAddr → S.World → Type 0
  AllSucceed zero fd addr w = Unit
  AllSucceed (suc n) fd addr w =
      (fails fd addr w ≡ false) × AllSucceed n fd addr (after_send fd addr w)

  -- So many sends succeed, and the one after them fails.
  abbrev pub FailsAfter : ℕ → ℤ → InetAddr → S.World → Type 0
  FailsAfter zero fd addr w = fails fd addr w ≡ true
  FailsAfter (suc n) fd addr w =
      (fails fd addr w ≡ false) × FailsAfter n fd addr (after_send fd addr w)

  -- How `rounds` rounds end after `n` sends: all of them succeed, or the last of the `n` is the first
  -- that fails.
  abbrev pub IsCount : ℕ → ℕ → ℤ → InetAddr → S.World → Ending → Type 0
  IsCount rounds n fd addr w ending =
      ((ending ≡ returned) × (n ≡ rounds) × AllSucceed rounds fd addr w)
      ⊎ ((ending ≡ exited)
          × ((before : ℕ) × (n ≡ suc before) × (before < rounds) × FailsAfter before fd addr w))

  pub_loop-journal :
      (rounds : ℕ) (fd : ℤ) (addr : InetAddr) (w : S.World) (journal : List Call)
      → (n : ℕ) × IsCount rounds n fd addr w (pub_loop (traced S) rounds fd addr (w, journal)).0
        × ((pub_loop (traced S) rounds fd addr (w, journal)).1.1
            ≡ journal ++ replicate n (send_call fd addr))
  unfolding pub_loop
  pub_loop-journal zero fd addr w journal = (0, inl (refl, refl, tt), sym (append-nil journal))
  pub_loop-journal (suc rounds) fd addr w journal = elim (Bool-cases (fails fd addr w)) [
    | inl failed ↦ rw (pub_loop, failed) (1, inr (refl, (0, refl, omega arith, failed)), refl)
    | inr sent ↦
        let (n, ends, grown) =
          pub_loop-journal rounds fd addr (after_send fd addr w)
            (journal ++ send_call fd addr ∷ []) in
        rw (pub_loop, sent)
          (
            suc n,
            elim ends [
              | inl (done, all, succeed) ↦ inl (done, ap suc all, (refl, succeed))
              | inr (failed, (before, count, fewer, fail)) ↦
                  inr (failed, (suc before, ap suc count, omega arith, (sent, fail)))
            ],
            grown ∙ append_assoc journal _ _,
          )
  ]

  close_up-journal :
      (fd : ℤ) (ending : Ending) (w : S.World) (journal : List Call)
      → ((close_up (traced S) fd (ending, (w, journal))).0 ≡ ending)
        × ((close_up (traced S) fd (ending, (w, journal))).1.1 ≡ journal ++ closing fd ending)
  close_up-journal fd returned w journal = (refl, refl)
  close_up-journal fd exited w journal = (refl, sym (append-nil journal))
  close_up-journal fd undefined w journal = (refl, sym (append-nil journal))

  -- If no socket is made, simple.cpp's pub makes no other call and exits. Otherwise, once it has
  -- shown the information on its socket, it sends "hello" to 127.0.0.1:6666: five times if each of
  -- these sends succeeds, and then it closes the socket and returns; or, if one of the five fails,
  -- up to the first that fails, which is the last call that it makes before it exits.
  pub run_pub-journal :
      (val : ℕ) (w : S.World) (journal : List Call)
      → let (fd, w') = S.socket S.af_inet S.sock_dgram (pos 0) w in
        let made = journal ++ socket_call S.af_inet S.sock_dgram (pos 0) ∷ [] in
        let (ending, (w'', journal')) = run_pub (traced S) val (w, journal) in
        ((is_negative fd ≡ true) × (ending ≡ exited) × (journal' ≡ made))
        ⊎ ((is_negative fd ≡ false)
            × ((n : ℕ) × IsCount 5 n fd
                  (get_udp_addr S host port)
                  (info (traced S) val fd (w', made)).0
                  ending
                × (journal'
                    ≡ (info (traced S) val fd (w', made)).1
                      ++ replicate n (send_call fd (get_udp_addr S host port))
                      ++ closing fd ending)))
  unfolding run_pub pub_loop-journal pub_loop get_udp_addr info
  run_pub-journal val w journal =
      elim (Bool-cases (is_negative (S.socket S.af_inet S.sock_dgram (pos 0) w).0)) [
        | inl failed ↦ inl (failed, rw (run_pub, failed), rw (run_pub, failed))
        | inr made ↦
            let (fd, w') = S.socket S.af_inet S.sock_dgram (pos 0) w in
            let shown =
              info (traced S) val fd
                (w', journal ++ socket_call S.af_inet S.sock_dgram (pos 0) ∷ []) in
            let sent = pub_loop (traced S) 5 fd (get_udp_addr S host port) shown in
            let (n, counted, grown) =
              pub_loop-journal 5 fd (get_udp_addr S host port) shown.0 shown.1 in
            let (ends, closed) = close_up-journal fd sent.0 sent.1.0 sent.1.1 in
            rw (run_pub, made) (inr (refl, (n, rw ends counted, rw ends (closed ∙ rw grown))))
      ]
