-- ===== src/RequestReply/Several/Remote.antt =====
-- What a `Reply` promises to a requester, apart from sockets and from other requesters: a function whose
-- results come later, in the order of the calls. The calls of all of them, in any order, implement it.
use mathlib.Core.List.{append-nil}
use marko.Base.{ℕ, ◌≡◌, ◌↔◌, refl, sym, ap, ◌∙◌, Option, List, [], ◌∷◌, ◌++◌, map, length, St}
use marko.Base.Int.{ℤ, pos}
use marko.System.{Message}
use marko.Datagram.Class.{SocketClass}
use marko.Datagram.Network.{Datagram, Delivery}
use marko.RequestReply.{Reply, Request, once}
use marko.RequestReply.Threads.{serve_each}
use marko.RequestReply.Several.{
  Step, asks, receives, other_asks, other_receives, serves, Run, idle, then_step, IsServed,
  outstanding, Setup,
}
use marko.RequestReply.Several.Calls.{Good, owed, outstanding-of}
use marko.RequestReply.Several.Replies.{Step-outstanding, Run-outstanding}
use marko.RequestReply.Several.Settled.{Run-append, served-waiting}

-- The results that are owed; `g` is called on a message of a size, or the first result comes.
pub data RemoteStep (size : ℕ) (g : Message → Message)
    : List Message → List Message → List Message → List Message → Type 0 where
  calls :
      {results : List Message} (m : Message)
      → length m ≡ size
      → RemoteStep size g results (m ∷ []) [] (results ++ g m ∷ [])
  comes :
      (result : Message) (results : List Message)
      → RemoteStep size g (result ∷ results) [] (result ∷ []) results

pub data RemoteRun (size : ℕ) (g : Message → Message) (results : List Message)
    : List Message → List Message → List Message → Type 0 where
  at_rest : RemoteRun size g results [] [] results
  then_does :
      {asked got ms ks results' results'' : List Message}
      → RemoteRun size g results asked got results'
      → RemoteStep size g results' ms ks results''
      → RemoteRun size g results (asked ++ ms) (got ++ ks) results''

module _ {size : ℕ} {g : Message → Message} {results asked got owes owes' : List Message}
    (run : RemoteRun size g results asked got owes) where
  -- Nothing happens.
  rests : owes' ≡ owes ++ [] → RemoteRun size g results (asked ++ []) (got ++ []) owes'
  rests same = rw (append-nil asked, append-nil got, same, append-nil owes) run

  -- The first result comes.
  then_comes :
      (result : Message)
      → result ∷ owes' ≡ owes ++ []
      → RemoteRun size g results (asked ++ []) (got ++ result ∷ []) owes'
  then_comes result first = then_does (rw (first ∙ append-nil owes) run) (comes result owes')

module _ {World Addr : Type 0} {C : SocketClass World Addr} {D : Delivery World Addr C}
    {q : Request} {r : Reply World} {addr : Addr} {route : Addr → Option ℤ} {name : ℤ → Addr}
    {f : Message → St World Message} {g : Message → Message}
    (E : Setup C D q r addr route name f g) where
  -- A call of the requester is a step of the function, and a call of another is none.
  Step-RemoteRun :
      {w w' : World} {asked got ms ks results : List Message}
      → Step C D q r addr route name w ms ks w'
      → Good E w
      → RemoteRun r.msg_size g results asked got (owed E w)
      → RemoteRun r.msg_size g results (asked ++ ms) (got ++ ks) (owed E w')
  Step-RemoteRun (asks m sized) v run =
      rw (Step-outstanding E (asks m sized) v).1 (then_does run (calls m sized))
  Step-RemoteRun (receives m b rest first) v run =
      then_comes run _ (Step-outstanding E (receives m b rest first) v).1
  Step-RemoteRun (other_asks s d m leads not_hers not_his sized) v run =
      rests run (Step-outstanding E (other_asks s d m leads not_hers not_his sized) v).1
  Step-RemoteRun (other_receives s n m b rest not_hers not_his first) v run =
      rests run (Step-outstanding E (other_receives s n m b rest not_hers not_his first) v).1
  Step-RemoteRun (serves m b rest first) v run =
      rests run (Step-outstanding E (serves m b rest first) v).1

  Run-RemoteRun :
      {w w' : World} {asked got : List Message}
      → Run C D q r addr route name w asked got w'
      → Good E w
      → RemoteRun r.msg_size g (owed E w) asked got (owed E w')
  Run-RemoteRun idle v = at_rest
  Run-RemoteRun (then_step run step) v =
      Step-RemoteRun step (Run-outstanding E run v).0 (Run-RemoteRun run v)

  first_answer :
      (answers : List (Datagram Addr)) (result : Message) (results : List Message)
      → map (λ d. d.0) answers ≡ result ∷ results
      → (b : Addr) × (rest : List (Datagram Addr)) × (answers ≡ (result, b) ∷ rest)
  first_answer [] result results e = absurd cc
  first_answer ((m, b) ∷ rest) result results e = (b, rest, cc)

  -- What the function can do, the calls can: before a result comes the replier serves all that waits.
  RemoteStep-Run :
      {w : World} {owes owes' ms ks : List Message}
      → RemoteStep r.msg_size g owes ms ks owes'
      → owed E w ≡ owes
      → Good E w
      → (w' : World) × (Run C D q r addr route name w ms ks w') × (owed E w' ≡ owes')
  RemoteStep-Run {w = w} (calls m sized) e v = (
    (C.sendto q.socket m addr (pos 0) w).1,
    then_step idle (asks m sized),
    (Step-outstanding E (asks {w = w} m sized) v).1 ∙ ap (λ o. o ++ g m ∷ []) e,
  )
  RemoteStep-Run {w = w} (comes result results) e v =
      let w1 : World = (serve_each (once C r) (length (D.queue w r.socket.socket_fd)) w).1 in
      let (ended, good, none_left, same, served) =
        served-waiting E (D.queue w r.socket.socket_fd) w refl v in
      let waits : map (λ d. d.0) (D.queue w1 q.socket.socket_fd) ≡ result ∷ results =
        sym (append-nil _) ∙ sym (outstanding-of E w1 _ _ refl none_left) ∙ same ∙ e in
      let (b, rest, first) = first_answer (D.queue w1 q.socket.socket_fd) result results waits in
      let step : Step C D q r addr route name w1 [] ((C.recv q.socket q.msg_size (pos 0) w1).0 ∷ [])
          (C.recv q.socket q.msg_size (pos 0) w1).1 =
        receives result b rest first in
      let (got, w2) = C.recv q.socket q.msg_size (pos 0) w1 in
      let taken : got ∷ owed E w2 ≡ result ∷ results =
        (Step-outstanding E step good).1 ∙ append-nil _ ∙ same ∙ e in
      let received : got ≡ result = cc taken in
      (w2, rw (← received) (Run-append E served (then_step idle step)), cc taken)

  RemoteRun-Run :
      {w : World} {owes asked got : List Message}
      → RemoteRun r.msg_size g (owed E w) asked got owes
      → Good E w
      → (w' : World) × (Run C D q r addr route name w asked got w') × (owed E w' ≡ owes)
  RemoteRun-Run {w = w} at_rest v = (w, idle, refl)
  RemoteRun-Run (then_does run step) v =
      let (w', made, there) = RemoteRun-Run run v in
      let (w'', next, reached) = RemoteStep-Run step there (Run-outstanding E made v).0 in
      (w'', Run-append E made next, reached)

  -- Where the network delivers, the address leads to the Reply and each reply back to its
  -- requester, each on a socket of its own; every request, of whichever requester and also one that
  -- waits at the start, has the size that the Reply was made for, every answer, also one that waits
  -- at the start, has the size that the Request was made for, neither size is 0; and the callback's
  -- answers depend on the message alone, and it leaves the network alone: the calls of a requester,
  -- of other requesters and of once, in any order, implement for the requester a function whose
  -- results come later: it can send some messages, receive some and be owed the rest exactly if the
  -- function, called on those messages, can give those results and owe that rest.
  pub RemoteRun-Run_iff :
      (w : World) (asked got owes : List Message)
      → IsServed C D q r addr route name w
      → RemoteRun r.msg_size g (outstanding C D q r addr route name g w) asked got owes ↔ (
          (w' : World) × (Run C D q r addr route name w asked got w')
          × (outstanding C D q r addr route name g w' ≡ owes))
  RemoteRun-Run_iff w asked got owes v =
      (λ run. RemoteRun-Run run v, λ (w', made, there). rw (sym there) (Run-RemoteRun made v))
