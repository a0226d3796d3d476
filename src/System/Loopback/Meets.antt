-- ===== src/System/Loopback/Meets.antt =====
-- The machine meets each set of assumptions.
use mathlib.Core.Option
use marko.Base.{
  ℕ, ◌≡◌, refl, ap, Bool, true, false, not, ◌&&◌, Bool-cases, inl, inr, Option, none, some, List,
  [], ◌∷◌, ◌++◌, length, if◌then◌else◌, arith,
}
use marko.Base.Int.{ℤ, pos, negsuc, beq_ℤ, beq_ℤ_refl, beq_ℤ_iff, is_negative}
use marko.System.{Message, InetAddr, UnixAddr, timeval_value, int_value, OptionValue}
use marko.System.Laws.{SelectLaws, TimeoutLaws, KeepsOpen, Descriptors, PrintLaws, ByteLaws}
use marko.System.Loopback.{
  Mail, mail_calls, no_inet, no_unix, beq_addr, same_path, put_inet, put_unix, Machine, loopback,
  keep_if, selected, in_use, open_socket, set_option, deliver, take_first, update, option_value,
}
use marko.Datagram.Network.{Datagram, DeliveryLaws}

pub keep_if-none : (p : ℤ → Bool) (ds : List ℤ) → length (keep_if p ds) ≡ 0 → keep_if p ds ≡ []
keep_if-none p [] h = refl
keep_if-none p (d ∷ ds) h = ground (arith, keep_if-none p ds)

module _ (readable writable : ℤ → Bool) where
  pub selected-timeout :
      (fits : Bool) (r v : Option (List ℤ))
      → (selected readable writable fits r v).count ≡ pos 0
      → ((selected readable writable fits r v).readfds ≡ Option.map (λ _. []) r)
        × ((selected readable writable fits r v).writefds ≡ Option.map (λ _. []) v)
  selected-timeout true none none h = (refl, refl)
  selected-timeout true none (some b) h = (refl, ap some (keep_if-none writable b (ground arith)))
  selected-timeout true (some a) none h = (ap some (keep_if-none readable a (ground arith)), refl)
  selected-timeout true (some a) (some b) h = (
    ap some (keep_if-none readable a (ground arith)),
    ap some (keep_if-none writable b (ground arith)),
  )
  selected-timeout false r v h = cc

  pub selected-error :
      (fits : Bool) (r v : Option (List ℤ))
      → is_negative (selected readable writable fits r v).count ≡ true
      → ((selected readable writable fits r v).readfds ≡ r)
        × ((selected readable writable fits r v).writefds ≡ v)
  selected-error true r v h = cc
  selected-error false r v h = (refl, refl)

-- A descriptor is open if the machine says so and it is not negative.
abbrev pub is_open : Machine → ℤ → Bool
is_open w d = not (is_negative d) && w.opened d

pub is_open-set_option :
    (fd : ℤ) (v : OptionValue) (w : Machine) (d : ℤ) → is_open (set_option fd v w).1 d ≡ is_open w d
is_open-set_option fd (int_value n) w d = refl
is_open-set_option fd (timeval_value tv) w d = refl

pub open_socket-fresh :
    (w : Machine) → is_negative (open_socket w).0 ≡ false → is_open w (open_socket w).0 ≡ false
open_socket-fresh w made = elim (Bool-cases (w.opened (pos w.next))) [
  | inl taken ↦ cc (rw taken at made)
  | inr free ↦ rw (free, free)
]

pub is_open-open_socket :
    (w : Machine) (d : ℤ)
    → is_open (open_socket w).1 d ≡ (
        if is_negative (open_socket w).0
        then is_open w d
        else if beq_ℤ d (open_socket w).0
        then true
        else is_open w d)
is_open-open_socket w d = elim (Bool-cases (w.opened (pos w.next))) [
  | inl taken ↦ rw taken
  | inr free ↦ rw free (opened_at w.next d)
]
  where
    opened_at :
        (n : ℕ) (d : ℤ)
        → (not (is_negative d) && (if beq_ℤ d (pos n) then true else w.opened d))
          ≡ (if beq_ℤ d (pos n) then true else not (is_negative d) && w.opened d)
    opened_at n (pos m) = ground arith
    opened_at n (negsuc m) = refl

pub is_open-closed :
    (fd : ℤ) (w : Machine) (d : ℤ)
    → is_open (record w { opened = update w.opened fd false }) d
      ≡ (if beq_ℤ d fd then false else is_open w d)
is_open-closed fd w d = ground arith

module _ {Addr : Type 0} where
  pub routes-deliver :
      (to : Option ℤ) (m : Message) (from : Addr) (mail : Mail Addr)
      → ((b : Addr) → (deliver to m from mail).route b ≡ mail.route b)
        × ((d : ℤ) → (deliver to m from mail).name d ≡ mail.name d)
  routes-deliver none m from mail = (λ b. refl, λ d. refl)
  routes-deliver (some to) m from mail = (λ b. refl, λ d. refl)

  pub routes-take_first :
      (q : List (Datagram Addr)) (fd : ℤ) (n : ℕ) (wanted : Bool) (mail : Mail Addr)
      → ((b : Addr) → (take_first q fd n wanted mail).1.route b ≡ mail.route b)
        × ((d : ℤ) → (take_first q fd n wanted mail).1.name d ≡ mail.name d)
  routes-take_first [] fd n wanted mail = (λ b. refl, λ d. refl)
  routes-take_first ((m, a) ∷ rest) fd n wanted mail = (λ b. refl, λ d. refl)

  pub queue-update :
      (q : ℤ → List (Datagram Addr)) (to : ℤ) (x : Datagram Addr) (d : ℤ)
      → update q to (q to ++ x ∷ []) d ≡ (if beq_ℤ d to then q d ++ x ∷ [] else q d)
  queue-update q to x d = elim (Bool-cases (beq_ℤ d to)) [
    | inl same ↦ rw (same, (beq_ℤ_iff d to).0 same)
    | inr other ↦ rw other
  ]

  module _ (zero_addr : Addr) (beq : Addr → Addr → Bool) (mail : Machine → Mail Addr)
      (put : Mail Addr → Machine → Machine) where
    unfoldable pub mail_keeps :
        ((x : Mail Addr) (w : Machine) (d : ℤ) → is_open (put x w) d ≡ is_open w d)
        → KeepsOpen Machine Addr is_open (mail_calls zero_addr beq mail put)
    mail_keeps kept = record {
      bind-keeps = λ fd a w d. elim (Bool-cases (in_use ((mail w).route a) w)) [
        | inl taken ↦ rw taken
        | inr free ↦ rw free (kept _ w d)
      ];
      connect-keeps = λ fd a w d. refl;
      recvfrom-keeps = λ fd n flags b w d. kept _ w d;
      sendto-keeps = λ fd m flags a w d. kept _ w d;
      getsockname-keeps = λ fd a w d. refl;
    }

    unfoldable pub mail-DeliveryLaws :
        ((x : Mail Addr) (w : Machine) → mail (put x w) ≡ x)
        → DeliveryLaws Machine Addr (mail_calls zero_addr beq mail put)
    mail-DeliveryLaws placed = record {
      route = λ w. (mail w).route;
      name = λ w. (mail w).name;
      queue = λ w. (mail w).queue;
      sendto-queue = λ fd to m a w d h.
          rw (placed _ w, h) (queue-update (mail w).queue to (m, (mail w).name fd) d);
      sendto-route = λ fd m a w.
          rw (placed _ w) (routes-deliver ((mail w).route a) m ((mail w).name fd) (mail w));
      recvfrom-first = λ fd n wanted w m a rest h. rw h;
      recvfrom-queue = λ fd n wanted w m a rest d h. rw (placed _ w, h);
      recvfrom-route = λ fd n wanted w.
          rw (placed _ w) (routes-take_first ((mail w).queue fd) fd n wanted (mail w));
    }

module _ (host : Message) where
  unfoldable pub loopback-SelectLaws : SelectLaws (loopback host)
  loopback-SelectLaws = record {
    select-timeout = λ n r v tv w h. selected-timeout _ _ _ r v h;
    select-error = λ n r v tv w h. selected-error _ _ _ r v h;
  }

  unfoldable pub loopback-TimeoutLaws : TimeoutLaws (loopback host)
  loopback-TimeoutLaws = record {
    receive_timeout = λ w. w.waits;
    receive_timeout-setsockopt = λ fd tv w h. rw (beq_ℤ_refl fd);
  }

  unfoldable pub loopback-Descriptors : Descriptors (loopback host)
  loopback-Descriptors = record {
    is_open = is_open;
    open-negative = λ w d h. rw h;
    socket-fresh = λ f t p w made. open_socket-fresh w made;
    socket-opens = λ f t p w d. is_open-open_socket w d;
    close-closes = is_open-closed;
    inet_keeps = mail_keeps no_inet beq_addr (λ w. w.inet) put_inet (λ x w d. refl);
    unix_keeps = mail_keeps no_unix same_path (λ w. w.unix) put_unix (λ x w d. refl);
    setsockopt-keeps = λ fd l n v w d. is_open-set_option fd v w d;
    ioctl-keeps = λ fd r v w d. refl;
    select-keeps = λ n r v tv w d. refl;
    recv-keeps = λ fd n flags w d. refl;
    sleep_for-keeps = λ t w d. refl;
  }

  unfoldable pub loopback-PrintLaws : PrintLaws (loopback host)
  loopback-PrintLaws = record {
    printed = λ w. w.printed;
    printed-print = λ t w. refl;
    printed-getsockopt = λ fd l n k w. refl;
    printed-getsockname = λ fd a w. refl;
  }

  unfoldable pub loopback-ByteLaws : (fd : ℤ) → ByteLaws (loopback host) fd
  loopback-ByteLaws fd = record { value = option_value; getsockopt-byte = λ n w. refl }

  unfoldable pub loopback-DeliveryLaws : DeliveryLaws Machine InetAddr (loopback host).inet
  loopback-DeliveryLaws = mail-DeliveryLaws no_inet beq_addr (λ w. w.inet) put_inet (λ x w. refl)

  unfoldable pub loopback-UnixDeliveryLaws : DeliveryLaws Machine UnixAddr (loopback host).unix
  loopback-UnixDeliveryLaws =
      mail-DeliveryLaws no_unix same_path (λ w. w.unix) put_unix (λ x w. refl)
