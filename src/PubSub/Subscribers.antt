-- ===== src/PubSub/Subscribers.antt =====
-- A publisher with any number of addresses, of cpp/src/marko/pub_sub.hpp: what each subscriber gets. An
-- address that was registered more than once is sent each message as often.
use mathlib.Core.List.{append_assoc, append-nil}
use marko.Base.{
  ℕ, suc, ◌≡◌, refl, sym, ◌∙◌, Bool-cases, inl, inr, List, [], ◌∷◌, ◌++◌, map, replicate, some,
  if◌then◌else◌,
}
use marko.Base.Int.{ℤ, pos, beq_ℤ}
use marko.System.{Message}
use marko.Socket.{Socket}
use marko.Datagram.Class.{SocketClass}
use marko.Datagram.Network.{Datagram, Delivery}
use marko.PubSub.{Publisher, publish, send_all}
use marko.PubSub.Session.{publish_each}

-- How often a descriptor is in a list.
abbrev pub count : ℤ → List ℤ → ℕ
count d [] = 0
count d (to ∷ tos) = if beq_ℤ d to then suc (count d tos) else count d tos

-- Each element so many times, in order.
abbrev pub copies {ℓ} : {A : Type ℓ} → ℕ → List A → List A
copies c [] = []
copies c (x ∷ xs) = replicate c x ++ copies c xs

module _ {World Addr : Type 0} (C : SocketClass World Addr) (D : Delivery World Addr C) where
  -- The addresses lead to the descriptors, one to each.
  abbrev pub AllLead : World → List Addr → List ℤ → Type 0
  AllLead w [] [] = Unit
  AllLead w [] (to ∷ tos) = ⊥
  AllLead w (a ∷ addrs) [] = ⊥
  AllLead w (a ∷ addrs) (to ∷ tos) = (D.route w a ≡ some to) × AllLead w addrs tos

  same-AllLead :
      (w w' : World) (addrs : List Addr) (tos : List ℤ)
      → ((b : Addr) → D.route w' b ≡ D.route w b)
      → AllLead w addrs tos
      → AllLead w' addrs tos
  same-AllLead w w' [] [] same lead = tt
  same-AllLead w w' [] (to ∷ tos) same lead = lead
  same-AllLead w w' (a ∷ addrs) [] same lead = lead
  same-AllLead w w' (a ∷ addrs) (to ∷ tos) same (leads, lead) =
      (same a ∙ leads, same-AllLead w w' addrs tos same lead)

  module _ (s : Socket) (m : Message) where
    net-send_all :
        (addrs : List Addr) (w : World)
        → ((b : Addr) → D.route (send_all C s m addrs w) b ≡ D.route w b)
          × ((d : ℤ) → D.name (send_all C s m addrs w) d ≡ D.name w d)
    unfolding send_all
    net-send_all [] w = (λ b. refl, λ d. refl)
    net-send_all (a ∷ addrs) w =
        let (routes, names) = D.sendto-route s m a w in
        let (routes', names') = net-send_all addrs (C.sendto s m a (pos 0) w).1 in
        (λ b. routes' b ∙ routes b, λ d. names' d ∙ names d)

    queue-send_all :
        (addrs : List Addr) (tos : List ℤ) (w : World) (d : ℤ)
        → AllLead w addrs tos
        → D.queue (send_all C s m addrs w) d
          ≡ D.queue w d ++ replicate (count d tos) (m, D.name w s.socket_fd)
    unfolding send_all
    queue-send_all [] [] w d lead = sym (append-nil (D.queue w d))
    queue-send_all [] (to ∷ tos) w d lead = absurd lead
    queue-send_all (a ∷ addrs) [] w d lead = absurd lead
    queue-send_all (a ∷ addrs) (to ∷ tos) w d (leads, lead) =
        let w' = (C.sendto s m a (pos 0) w).1 in
        let (routes, names) = D.sendto-route s m a w in
        queue-send_all addrs tos w' d (same-AllLead w w' addrs tos routes lead)
        ∙ rw (D.sendto-queue s to m a w d leads, names)
            (elim (Bool-cases (beq_ℤ d to)) [
              | inl here ↦ rw here (append_assoc (D.queue w d) _ _)
              | inr there ↦ rw there
            ])

  -- Publishing puts each message, in order, at the end of each queue, as often as an address leads there.
  pub queue-publish_all :
      (p : Publisher Addr) (tos : List ℤ) (msgs : List Message) (w : World) (d : ℤ)
      → AllLead w p.clientaddrs tos
      → D.queue (publish_each C p msgs w) d
        ≡ D.queue w d ++ copies (count d tos) (map (λ m. (m, D.name w p.socket.socket_fd)) msgs)
  unfolding publish_each publish
  queue-publish_all p tos [] w d lead = sym (append-nil (D.queue w d))
  queue-publish_all p tos (m ∷ msgs) w d lead =
      let w' = publish C p m w in
      let (routes, names) = net-send_all p.socket m p.clientaddrs w in
      queue-publish_all p tos msgs w' d (same-AllLead w w' p.clientaddrs tos routes lead)
      ∙ rw (queue-send_all p.socket m p.clientaddrs tos w d lead, names)
          (append_assoc (D.queue w d) _ _)
