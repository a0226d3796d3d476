-- ===== src/Info/Values.antt =====
-- The values that `SocketInfo` of cpp/src/marko/info.hpp prints, and its `getsockname`.
use mathlib.Core.List.{append_assoc, append-nil}
use marko.Base.{
  ℕ, ◌%◌, ◌≡◌, refl, sym, ◌∙◌, ◌⊎◌, inl, inr, String, ◌<>◌, true, false, Option, none, some, List,
  [], ◌∷◌, ◌++◌,
}
use marko.Base.Int.{ℤ, pos, negsuc, is_negative, beq_ℤ}
use marko.System.{System}
use marko.System.Laws.{PrintLaws, ByteLaws}
use marko.Socket.{Socket, newline}
use marko.Datagram.Udp
use marko.Info.Options.{SoOpts}
use marko.Info.Report.{Locals, fetch_byte, describe, print_line, info_so_loop, getsockname}

abbrev pub shown : Option String → List String
shown none = []
shown (some line) = ("  " <> (line <> newline)) ∷ []

-- What is printed for a list of options whose bytes are given.
abbrev pub report : (S : System) → List (ℤ × String) → List SoOpts → (ℤ → ℕ) → List String
report S types [] byte = []
report S types (m ∷ opts) byte =
    shown (describe S types m (byte m.val)).0
    ++ report S (describe S types m (byte m.val)).1 opts byte

module _ (S : System) (P : PrintLaws S) where
  pub printed-print_line :
      (line : Option String) (w : S.World)
      → P.printed (print_line S line w) ≡ P.printed w ++ shown line
  unfolding print_line
  printed-print_line none w = sym (append-nil (P.printed w))
  printed-print_line (some line) w = P.printed-print _ w

  -- The loop prints what its bytes are, where each call of `getsockopt` leaves the byte `byte n`
  -- and keeps the locals in a set of which it starts.
  printed-info_so_loop :
      (fd : ℤ) (byte : ℤ → ℕ) (IsKept : Locals → Type 0)
      → ((v : Locals) (n : ℤ) (w : S.World)
          → IsKept v
          → IsKept (fetch_byte S fd S.sol_socket n v w).0
            × ((fetch_byte S fd S.sol_socket n v w).0.val ≡ byte n))
      → (opts : List SoOpts) (types : List (ℤ × String)) (v : Locals) (w : S.World) → IsKept v
      → P.printed (info_so_loop S fd types opts v w).1 ≡ P.printed w ++ report S types opts byte
  unfolding info_so_loop
  printed-info_so_loop fd byte IsKept keep [] types v w k = sym (append-nil (P.printed w))
  printed-info_so_loop fd byte IsKept keep (m ∷ opts) types v w k =
      let (kept, same) = keep v m.val w k in
      printed-info_so_loop fd byte IsKept keep opts _ _ _ kept
      ∙ rw (printed-print_line, P.printed-getsockopt, same) (append_assoc (P.printed w) _ _)

  -- On a descriptor whose options have these values, `info_so`'s loop prints each option by the low
  -- byte of its value: an option of 256 or more is not printed as it is.
  pub printed-info_so_loop-low_byte :
      (fd : ℤ) (B : ByteLaws S fd) (types : List (ℤ × String)) (opts : List SoOpts) (val : ℕ)
      (w : S.World)
      → P.printed (info_so_loop S fd types opts (record { val = val; size = 1 }) w).1
        ≡ P.printed w ++ report S types opts (λ n. B.value n % 256)
  unfolding fetch_byte
  printed-info_so_loop-low_byte fd B types opts val w =
      printed-info_so_loop fd (λ n. B.value n % 256) (λ v. v.size ≡ 1)
        (λ v n w' one. rw (one, B.getsockopt-byte n w') (refl, refl)) opts types _ w refl

  -- On a descriptor of which no option can be read, `info_so`'s loop prints each option as if its
  -- value were what the local variable `val` held before it was ever set.
  pub printed-info_so_loop-unset :
      (fd : ℤ) (types : List (ℤ × String)) (opts : List SoOpts) (val : ℕ) (w : S.World)
      → ((n : ℤ) (k : ℕ) (w' : S.World)
          → (S.getsockopt fd S.sol_socket n k w').0 ≡ record { err = negsuc 0; bytes = [] })
      → P.printed (info_so_loop S fd types opts (record { val = val; size = 1 }) w).1
        ≡ P.printed w ++ report S types opts (λ _. val)
  unfolding fetch_byte
  printed-info_so_loop-unset fd types opts val w refused =
      printed-info_so_loop fd (λ _. val) (λ v. v.val ≡ val)
        (λ v n w' same. rw (refused n v.size w') (same, same)) opts types _ w refl

negative-ne-zero : (c : ℤ) → is_negative c ≡ true → beq_ℤ c (pos 0) ≡ false
negative-ne-zero (pos n) e = cc
negative-ne-zero (negsuc n) e = refl

module _ (S : System) where
  -- `SocketInfo::getsockname` and `SocketUDP::getsockname` test the returned number in two ways, and
  -- agree where the call returns 0 or a negative number.
  pub getsockname-getsockname :
      (types : List (ℤ × String)) (s : Socket) (w : S.World)
      → ((S.inet.getsockname s.socket_fd S.inet.zero_addr w).0.0 ≡ pos 0)
        ⊎ (is_negative (S.inet.getsockname s.socket_fd S.inet.zero_addr w).0.0 ≡ true)
      → getsockname S (record { socket_fd = s.socket_fd; socket_types = types }) w
        ≡ Udp.getsockname S s w
  unfolding getsockname Udp.getsockname
  getsockname-getsockname types s w (inl e) = rw e
  getsockname-getsockname types s w (inr e) = rw (e, negative-ne-zero _ e, Udp.getsockname)
