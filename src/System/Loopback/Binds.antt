-- ===== src/System/Loopback/Binds.antt =====
-- The machine makes and binds sockets as Datagram/SetUp assumes.
use text.Mathlib.Text.{◌==◌ as str_eq}
use text.Mathlib.TextEquality
use marko.Base.{
  ◌↔◌, ◌∙◌, [], ◌≡◌, ◌≢◌, refl, ap, Bool, true, false, Bool-cases, inl, inr, ◌&&◌, some, arith,
  if◌then◌else◌, ◌==◌,
}
use marko.Base.Int.{ℤ, pos, beq_ℤ, beq_ℤ_refl, beq_ℤ_iff, is_negative}
use marko.System.{Message, InetAddr, UnixAddr, OptionValue, int_value, timeval_value}
use marko.System.Loopback.{
  Mail, Machine, loopback, beq_addr, same_path, cleared, in_use, open_socket, set_option,
  mail_calls, put_inet, put_unix, no_inet, no_unix,
}
use marko.System.Loopback.Meets.{
  loopback-DeliveryLaws, loopback-UnixDeliveryLaws, mail-DeliveryLaws,
}
use marko.Datagram.SetUp.{BindLaws}

both : (p q : Bool) → (p && q) ≡ true → (p ≡ true) × (q ≡ true)
both p q h = ground arith

beq_addr_iff : (a b : InetAddr) → (beq_addr a b ≡ true) ↔ (a ≡ b)
beq_addr_iff a b = (
  λ h.
      let (first, hosts) = both _ (a.s_addr == b.s_addr) h in
      let (families, ports) =
        both (beq_ℤ a.sin_family b.sin_family) (a.sin_port == b.sin_port) first in
      let same_port : a.sin_port ≡ b.sin_port = ground (arith, ports) in
      let same_host : a.s_addr ≡ b.s_addr = ground (arith, hosts) in
      λ i. record {
        sin_family = (beq_ℤ_iff a.sin_family b.sin_family).0 families i;
        sin_port = same_port i;
        s_addr = same_host i;
      },
  λ e. rw (e, beq_ℤ_refl b.sin_family) (ground arith),
)

same_path_iff : (a b : UnixAddr) → (same_path a b ≡ true) ↔ (a ≡ b)
same_path_iff a b = (
  λ h.
      let (families, paths) =
        both (beq_ℤ a.sun_family b.sun_family) (str_eq a.sun_path b.sun_path) h in
      λ i. record {
        sun_family = (beq_ℤ_iff a.sun_family b.sun_family).0 families i;
        sun_path = (TextEquality.eq_iff a.sun_path b.sun_path).0 paths i;
      },
  λ e. rw (e, beq_ℤ_refl b.sun_family) ((TextEquality.eq_iff b.sun_path b.sun_path).1 refl),
)

-- The sockets of a family, which the machine has at a place of their own.
module _ {Addr : Type 0} (zero_addr : Addr) (beq : Addr → Addr → Bool)
    (beq_iff : (a b : Addr) → (beq a b ≡ true) ↔ (a ≡ b)) (mail : Machine → Mail Addr)
    (put : Mail Addr → Machine → Machine)
    (placed : (x : Mail Addr) (w : Machine) → mail (put x w) ≡ x) where
  abbrev bind : ℤ → Addr → Machine → ℤ × Machine
  bind = (mail_calls zero_addr beq mail put).bind

  queue-bind :
      (fd : ℤ) (a : Addr) (w : Machine) (d : ℤ) → (mail (bind fd a w).1).queue d ≡ (mail w).queue d
  queue-bind fd a w d = elim (Bool-cases (in_use ((mail w).route a) w)) [
    | inl taken ↦ rw taken
    | inr free ↦ rw (free, placed)
  ]

  route-bind :
      (fd : ℤ) (a : Addr) (w : Machine)
      → (bind fd a w).0 ≡ pos 0
      → (mail (bind fd a w).1).route a ≡ some fd
  route-bind fd a w bound = elim (Bool-cases (in_use ((mail w).route a) w)) [
    | inl taken ↦ cc (rw taken at bound)
    | inr free ↦ rw (free, placed, (beq_iff a a).1 refl)
  ]

  other_route-bind :
      (fd : ℤ) (a b : Addr) (w : Machine)
      → b ≢ a
      → (mail (bind fd a w).1).route b ≡ (mail w).route b
  other_route-bind fd a b w other = elim (Bool-cases (in_use ((mail w).route a) w)) [
    | inl taken ↦ rw taken
    | inr free ↦
        rw (free, placed)
          (elim (Bool-cases (beq b a)) [
            | inl same ↦ elim (other ((beq_iff b a).0 same)) [ ]
            | inr apart ↦ rw apart
          ])
  ]

  refused_route-bind :
      (fd : ℤ) (a b : Addr) (w : Machine)
      → beq_ℤ (bind fd a w).0 (pos 0) ≡ false
      → (mail (bind fd a w).1).route b ≡ (mail w).route b
  refused_route-bind fd a b w refused = elim (Bool-cases (in_use ((mail w).route a) w)) [
    | inl taken ↦ rw taken
    | inr free ↦ cc (rw free at refused)
  ]

  -- An option is no mail, and `socket` clears the mail at the descriptor.
  module _
      (option_apart : (waits : ℤ → ℤ) (w : Machine) → mail (record w { waits = waits }) ≡ mail w)
      (clears : (w : Machine)
        → w.opened (pos w.next) ≡ false
        → mail (open_socket w).1 ≡ cleared (pos w.next) (mail w)) where
    mail-set_option : (fd : ℤ) (v : OptionValue) (w : Machine) → mail (set_option fd v w).1 ≡ mail w
    mail-set_option fd (int_value n) w = refl
    mail-set_option fd (timeval_value tv) w = option_apart _ w

    queue-open_socket :
        (w : Machine) (d : ℤ)
        → is_negative (open_socket w).0 ≡ false
        → (mail (open_socket w).1).queue d
          ≡ (if beq_ℤ d (open_socket w).0 then [] else (mail w).queue d)
    queue-open_socket w d made = elim (Bool-cases (w.opened (pos w.next))) [
      | inl taken ↦ cc (rw taken at made)
      | inr free ↦ ap (λ m. m.queue d) (clears w free) ∙ rw free
    ]

    route-open_socket :
        (w : Machine) (b : Addr) → (mail (open_socket w).1).route b ≡ (mail w).route b
    route-open_socket w b = elim (Bool-cases (w.opened (pos w.next))) [
      | inl taken ↦ rw taken
      | inr free ↦ ap (λ m. m.route b) (clears w free)
    ]

    pub mail-BindLaws :
        (host : Message)
        → BindLaws
            (loopback host)
            (mail_calls zero_addr beq mail put)
            (mail-DeliveryLaws zero_addr beq mail put placed)
    unfolding mail-DeliveryLaws
    mail-BindLaws host = record {
      socket-queue = λ f t p w d. queue-open_socket w d;
      socket-route = λ f t p w. route-open_socket w;
      bind-queue = queue-bind;
      bind-route = route-bind;
      bind-other_route = other_route-bind;
      bind-refused_route = refused_route-bind;
      setsockopt-queue = λ fd l n v w d. ap (λ m. m.queue d) (mail-set_option fd v w);
      setsockopt-route = λ fd l n v w b. ap (λ m. m.route b) (mail-set_option fd v w);
    }

module _ (host : Message) where
  pub loopback-BindLaws : BindLaws (loopback host) (loopback host).inet (loopback-DeliveryLaws host)
  unfolding loopback-DeliveryLaws
  loopback-BindLaws =
      mail-BindLaws no_inet beq_addr beq_addr_iff (λ w. w.inet) put_inet (λ x w. refl) (λ x w. refl)
        (λ w free. rw free) host

  pub loopback-UnixBindLaws :
      BindLaws (loopback host) (loopback host).unix (loopback-UnixDeliveryLaws host)
  unfolding loopback-UnixDeliveryLaws
  loopback-UnixBindLaws =
      mail-BindLaws no_unix same_path same_path_iff (λ w. w.unix) put_unix (λ x w. refl)
        (λ x w. refl) (λ w free. rw free) host
