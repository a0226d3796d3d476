-- ===== src/Examples/Regex/Addresses.antt =====
-- What `filter` makes of the addresses of cpp/readme.md.
use mathlib.Core.List.{append-nil}
use marko.Base.{
  ℕ, ◌%◌, ◌<◌, ◌≡◌, refl, sym, ap, ◌∙◌, ◌<>◌, Bool, true, false, some, [], ◌∷◌, ◌++◌, ◌==◌, arith,
}
use marko.Base.Decimal.{to_decimal}
use marko.System.{System}
use marko.Socket.{newline}
use marko.Examples.Regex.{
  is_digit, in_host, in_path, in_port, stoi, invalid_argument, inet, unix_path, throws, filter_inet,
  filter_groups, filter, with_port, ipport,
}
use marko.Examples.Regex.Matching.{regex_search, Text, codes, AllIn, Stops, Lacks}
use marko.Examples.Regex.Found.{
  Protocol, udp, tcp, unix, protocol_text, regex_search-proto, regex_search-ipport,
  regex_search-Lacks,
}
use marko.Examples.Regex.Numbers.{digits, stoi-digits}

-- A protocol, and what stands behind the "://".
abbrev pub with_protocol : Protocol → Text → Text
with_protocol p body = protocol_text p ++ (codes "://" ++ body)

abbrev pub IsInet : Protocol → Type 0
IsInet udp = Unit
IsInet tcp = Unit
IsInet unix = ⊥

AllIn-append : (p : ℕ → Bool) (s t : Text) → AllIn p s → AllIn p t → AllIn p (s ++ t)
AllIn-append p [] t all all' = all'
AllIn-append p (c ∷ s) t (one, all) all' = (one, AllIn-append p s t all all')

AllIn-weaken :
    (p q : ℕ → Bool) (s : Text) → ((c : ℕ) → p c ≡ true → q c ≡ true) → AllIn p s → AllIn q s
AllIn-weaken p q [] weaker all = tt
AllIn-weaken p q (c ∷ s) weaker (one, all) = (weaker c one, AllIn-weaken p q s weaker all)

in_path-host : (c : ℕ) → in_host c ≡ true → in_path c ≡ true
in_path-host c inside = rw inside

in_path-digit : (c : ℕ) → is_digit c ≡ true → in_path c ≡ true
in_path-digit c inside = ground arith

in_path-port : (c : ℕ) → in_port c ≡ true → in_path c ≡ true
in_path-port c inside = ground arith

in_host-no_colon : (c : ℕ) → in_host c ≡ true → b':' == c ≡ false
in_host-no_colon c inside = ground arith

in_port-digit : (c : ℕ) → is_digit c ≡ true → in_port c ≡ true
in_port-digit c inside = ground arith

Lacks-host : (s : Text) → AllIn in_host s → Lacks b':' s
Lacks-host [] all = tt
Lacks-host (c ∷ s) (one, all) = (in_host-no_colon c one, Lacks-host s all)

stoi-star : (t : Text) → stoi (b'*' ∷ t) ≡ invalid_argument
unfolding stoi
stoi-star t = refl

module _ (S : System) where
  -- `filter` on a protocol before characters of the class, up to what is in it no more.
  filter-groups :
      (p : Protocol) (c : ℕ) (s rest : Text) (w : S.World)
      → AllIn in_path (c ∷ s)
      → Stops in_path rest
      → filter S (with_protocol p ((c ∷ s) ++ rest)) w ≡ filter_groups S (protocol_text p) (c ∷ s) w
  unfolding filter
  filter-groups p c s rest w all stops = rw (filter, regex_search-proto p c s rest all stops)

  filter_groups-inet :
      (p : Protocol) (body : Text) (w : S.World)
      → IsInet p
      → filter_groups S (protocol_text p) body w ≡ filter_inet S body w
  unfolding filter_groups
  filter_groups-inet udp body w one = refl
  filter_groups-inet tcp body w one = refl
  filter_groups-inet unix body w one = elim one [ ]

  filter-inet :
      (p : Protocol) (c : ℕ) (s : Text) (w : S.World)
      → IsInet p
      → AllIn in_path (c ∷ s)
      → filter S (with_protocol p (c ∷ s)) w ≡ filter_inet S (c ∷ s) w
  filter-inet p c s w one all =
      ap (λ body. filter S (with_protocol p body) w) (sym (append-nil (c ∷ s)))
      ∙ filter-groups p c s [] w all tt
      ∙ filter_groups-inet p (c ∷ s) w one

  filter_inet-found :
      (body whole ip port : Text) (w : S.World)
      → regex_search ipport body ≡ some (whole ∷ ip ∷ port ∷ [])
      → filter_inet S body w ≡ (with_port ip (stoi port), w)
  unfolding filter_inet
  filter_inet-found body whole ip port w found = rw (filter_inet, found)

  filter_inet-Lacks :
      (body : Text) (w : S.World)
      → Lacks b':' body
      → filter_inet S body w ≡ (throws invalid_argument, S.print ("error 0" <> newline) w)
  unfolding filter_inet stoi to_decimal
  filter_inet-Lacks body w lacks = rw (filter_inet, regex_search-Lacks body lacks)

  -- `filter` finds the host and the port of an address that is made of "udp" or "tcp", a host of
  -- characters of its class, at least one, and a port of 16 bits in decimal digits; and prints
  -- nothing.
  pub filter-with_protocol :
      (p : Protocol) (c : ℕ) (s : Text) (port : ℕ) (w : S.World)
      → IsInet p
      → AllIn in_host (c ∷ s)
      → port < 65536
      → filter S (with_protocol p ((c ∷ s) ++ b':' ∷ digits port)) w ≡ (inet (c ∷ s) port, w)
  filter-with_protocol p c s port w one host small =
      let (d, t, e, all, value) = stoi-digits port (omega arith) in
      let fits : port % 65536 ≡ port = omega arith in
      let (whole, found) =
        regex_search-ipport c s d t host
          (AllIn-weaken is_digit in_port (d ∷ t) in_port-digit all) in
      let inside =
        AllIn-append in_path (c ∷ s) (b':' ∷ d ∷ t)
          (AllIn-weaken in_host in_path (c ∷ s) in_path-host host)
          (refl, AllIn-weaken is_digit in_path (d ∷ t) in_path-digit all) in
      rw (e, filter-inet p c (s ++ b':' ∷ d ∷ t) w one inside)
        (filter_inet-found ((c ∷ s) ++ b':' ∷ d ∷ t) whole (c ∷ s) (d ∷ t) w found
          ∙ rw value (ap (λ n. (inet (c ∷ s) n, w)) fits))

  -- Behind "udp" or "tcp" and "://", `filter` throws `invalid_argument` on a host alone, after it
  -- has printed "error 0", and, without printing, on a host, a colon and a port that starts with `*`.
  pub filter-throws :
      (p : Protocol) (c : ℕ) (s t : Text) (w : S.World)
      → IsInet p
      → AllIn in_host (c ∷ s)
      → AllIn in_port t
      → (filter S (with_protocol p (c ∷ s)) w
          ≡ (throws invalid_argument, S.print ("error 0" <> newline) w))
        × (filter S (with_protocol p ((c ∷ s) ++ b':' ∷ b'*' ∷ t)) w ≡ (throws invalid_argument, w))
  filter-throws p c s t w one host port =
      let inside = AllIn-weaken in_host in_path (c ∷ s) in_path-host host in
      let (whole, found) = regex_search-ipport c s b'*' t host (refl, port) in
      (
        filter-inet p c s w one inside ∙ filter_inet-Lacks (c ∷ s) w (Lacks-host (c ∷ s) host),
        filter-inet p c (s ++ b':' ∷ b'*' ∷ t) w one (
              AllIn-append in_path (c ∷ s) (b':' ∷ b'*' ∷ t) inside
                (refl, (refl, AllIn-weaken in_port in_path t in_path-port port)))
            ∙ filter_inet-found ((c ∷ s) ++ b':' ∷ b'*' ∷ t) whole (c ∷ s) (b'*' ∷ t) w found
            ∙ ap (λ e. (with_port (c ∷ s) e, w)) (stoi-star t),
      )

  -- Behind "unix" `filter` finds, and prints, the path up to the first character that is not in the
  -- address's class.
  pub filter-unix :
      (c : ℕ) (s rest : Text) (w : S.World)
      → AllIn in_path (c ∷ s)
      → Stops in_path rest
      → filter S (with_protocol unix ((c ∷ s) ++ rest)) w
        ≡ (unix_path (c ∷ s), S.print ("unix path: " <> (S.text_of_bytes (c ∷ s) <> newline)) w)
  unfolding filter_groups
  filter-unix c s rest w all stops = filter-groups unix c s rest w all stops
