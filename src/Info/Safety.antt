-- ===== src/Info/Safety.antt =====
-- `get_hostname` and the size of its buffer; `get_host_ip` and the descriptor that it opens.
use mathlib.Core.Option
use mathlib.Core.List.{append_assoc}
use marko.Base.{
  ℕ, zero, suc, ◌+◌, ◌-◌, ◌≤◌, ◌<◌, ◌≡◌, refl, ◌∙◌, true, false, not, ◌&&◌, Bool-cases, inl, inr,
  none, some, [], ◌∷◌, ◌++◌, length, length-append, length-replicate, replicate,
  overwrite-replicate, ltb, arith, if◌then◌else◌,
}
use marko.Base.Int.{ℤ, pos, beq_ℤ, beq_ℤ_iff, is_negative}
use marko.System.{Message, System}
use marko.System.Laws.{Descriptors}
use marko.Info.Host.{c_string, write_buffer, get_hostname, get_host_ip, any_address}

-- The bytes of a text: none is zero.
abbrev pub IsText : Message → Type 0
IsText [] = Unit
IsText (b ∷ bytes) = (0 < b) × IsText bytes

pub c_string-text : (text rest : Message) → IsText text → c_string (text ++ 0 ∷ rest) ≡ some text
unfolding c_string
c_string-text [] rest t = refl
c_string-text (zero ∷ text) rest (h, t) = absurd (omega arith)
c_string-text (suc b ∷ text) rest (h, t) = rw (c_string-text text rest t)

write_buffer-fits :
    (n : ℕ) (stored : Message)
    → length stored ≤ n
    → write_buffer (replicate n 0) stored ≡ some (stored ++ replicate (n - length stored) 0)
unfolding write_buffer
write_buffer-fits n stored fits =
    rw (length-replicate n (zero), overwrite-replicate n 0 stored fits) (ground arith)

write_buffer-overflows :
    (n : ℕ) (stored : Message) → n < length stored → write_buffer (replicate n 0) stored ≡ none
unfolding write_buffer
write_buffer-overflows n stored over = rw (length-replicate n zero) (ground arith)

length-terminated : (text : Message) → length (text ++ 0 ∷ []) ≡ length text + 1
length-terminated text = length-append text (0 ∷ [])

c_string-write_buffer :
    (n : ℕ) (text : Message)
    → IsText text
    → Option.bind (write_buffer (replicate n 0) (text ++ 0 ∷ [])) c_string
      ≡ (if ltb (length text) n then some text else none)
unfolding Option.bind
c_string-write_buffer n text t = elim (Bool-cases (ltb (length text) n)) [
  | inl fits ↦
      let room : length (text ++ 0 ∷ []) ≤ n = ground (arith, length-terminated text) in
      rw (fits, write_buffer-fits n (text ++ 0 ∷ []) room, append_assoc text (0 ∷ []))
        (c_string-text text _ t)
  | inr over ↦
      let beyond : n < length (text ++ 0 ∷ []) = ground (arith, length-terminated text) in
      rw (over, write_buffer-overflows n (text ++ 0 ∷ []) beyond)
]

-- A buffer of zeros in which nothing was stored holds the empty text.
c_string-untouched : Option.bind (write_buffer (replicate 256 0) []) c_string ≡ some []
unfolding Option.bind c_string write_buffer
c_string-untouched = refl

module _ (S : System) where
  -- What `getnameinfo` stores for 127.0.0.1:9000 in a buffer that it is told has `size` bytes.
  abbrev pub stored_name : ℕ → S.World → Message
  stored_name size w = (S.getnameinfo (S.inet_sockaddr "udp://127.0.0.1:9000") size (pos 0) w).0.1

  -- Where getnameinfo stores the host's name, no byte of which is 0, and a zero if both fit in the
  -- size that it is told, and nothing if they do not: get_hostname returns a name of fewer than 256
  -- bytes unchanged; one of 256 to 264 bytes is written past the end of the buffer; of a longer one
  -- nothing is stored, and the empty text is returned.
  pub get_hostname-text :
      (text : Message) (w : S.World)
      → IsText text
      → ((size : ℕ) → stored_name size w ≡ (if ltb (length text) size then text ++ 0 ∷ [] else []))
      → (get_hostname S w).0 ≡ (
          if ltb (length text) 256
          then some text
          else if ltb (length text) 265
          then none
          else some [])
  unfolding get_hostname
  get_hostname-text text w t stores = elim (Bool-cases (ltb (length text) 265)) [
    | inl fits ↦ rw (stores 265, fits) (c_string-write_buffer 256 text t)
    | inr over ↦
        let longer : ltb (length text) 256 ≡ false = ground arith in
        rw (stores 265, over, longer) c_string-untouched
  ]

module _ (S : System) (D : Descriptors S) where
  -- The descriptor that `get_host_ip` opens, and whether the name of the socket was found.
  abbrev pub opened : S.World → ℤ × S.World
  opened = S.socket S.af_inet S.sock_dgram (pos 0)

  abbrev pub naming : S.World → ℤ
  naming w =
      (S.inet.getsockname (opened w).0 (any_address S)
        (S.inet.connect (opened w).0 (S.inet_sockaddr "udp://9.9.9.9:9999") (opened w).1).1).0.0

  is_open-naming :
      (w : S.World) (d : ℤ)
      → is_negative (opened w).0 ≡ false
      → D.is_open
          (S.inet.getsockname
            (opened w).0
            (any_address S)
            (S.inet.connect (opened w).0 (S.inet_sockaddr "udp://9.9.9.9:9999") (opened w).1).1).1
          d
        ≡ (if beq_ℤ d (opened w).0 then true else D.is_open w d)
  is_open-naming w d made =
      D.inet_keeps.getsockname-keeps _ _ _ d
      ∙ D.inet_keeps.connect-keeps _ _ _ d
      ∙ D.socket-opens _ _ _ w d
      ∙ rw made

  -- `get_host_ip` leaves its socket open exactly when the socket was made and `getsockname` failed;
  -- on every other path it leaves open what was open before.
  pub is_open-get_host_ip :
      (w : S.World) (d : ℤ)
      → D.is_open (get_host_ip S w).1 d ≡ (
          if beq_ℤ d (opened w).0 && (not (is_negative (opened w).0) && is_negative (naming w))
          then true
          else D.is_open w d)
  unfolding get_host_ip
  is_open-get_host_ip w d = elim (Bool-cases (is_negative (opened w).0)) [
    | inl failed ↦ rw failed (D.socket-opens _ _ _ w d ∙ rw failed (ground arith))
    | inr made ↦ elim (Bool-cases (is_negative (naming w))) [
      | inl unnamed ↦ rw (made, unnamed) (is_open-naming w d made ∙ ground arith)
      | inr named ↦
          rw (made, named)
            (D.close-closes _ _ d
              ∙ rw (is_open-naming w d made)
                  (ground (arith, D.socket-fresh _ _ _ w made, beq_ℤ_iff d (opened w).0)))
    ]
  ]
