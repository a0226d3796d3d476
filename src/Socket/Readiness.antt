-- ===== src/Socket/Readiness.antt =====
-- `available` and `availableForWrite` against what `select` reports.
use mathlib.Core.Option.{some-injective}
use marko.Base.{
  zero, suc, ◌≡◌, refl, ap, ◌↔◌, Bool, true, false, Option, some, List, [], ◌∷◌, arith,
  if◌then◌else◌,
}
use marko.Base.Int.{ℤ, pos, negsuc, is_negative, is_positive, beq_ℤ_refl}
use marko.System.{System}
use marko.System.Laws.{SelectLaws}
use marko.Socket.{
  Socket, fd_isset, left_in, is_selectable, poll_read, poll_write, available, available_for_write,
}

some_iff : {b : Bool} {P : Type 0} → (b ≡ true) ↔ P → (some b ≡ some true) ↔ P
some_iff (there, back) = (λ h. there (some-injective _ _ h), λ p. ap some (back p))

verdict_iff :
    (fd c : ℤ) (fds : Option (List ℤ))
    → (c ≡ pos 0 → fds ≡ some [])
    → (is_negative c ≡ true → fds ≡ some (fd ∷ []))
    → ((if is_positive c then false else fd_isset fd (left_in fds)) ≡ true) ↔ (is_negative c ≡ true)
verdict_iff fd (pos zero) fds t e = rw (t refl) (λ h. cc, λ h. cc)
verdict_iff fd (pos (suc n)) fds t e = ground arith
verdict_iff fd (negsuc n) fds t e = rw (e refl, beq_ℤ_refl fd) (λ h. refl, λ h. refl)

module _ (S : System) (L : SelectLaws S) where
  available_iff :
      (s : Socket) (w : S.World)
      → is_selectable S s.socket_fd ≡ true
      → ((available S s w).0 ≡ some true) ↔ (is_negative (poll_read S s w).0.count ≡ true)
  unfolding available
  available_iff s w fits = rw fits (
      some_iff (
        verdict_iff s.socket_fd _ _ (λ h. (L.select-timeout _ _ _ _ w h).0)
          (λ h. (L.select-error _ _ _ _ w h).0)))

  available_for_write_iff :
      (s : Socket) (w : S.World)
      → is_selectable S s.socket_fd ≡ true
      → ((available_for_write S s w).0 ≡ some true)
        ↔ (is_negative (poll_write S s w).0.count ≡ true)
  unfolding available_for_write
  available_for_write_iff s w fits = rw fits (
      some_iff (
        verdict_iff s.socket_fd _ _ (λ h. (L.select-timeout _ _ _ _ w h).1)
          (λ h. (L.select-error _ _ _ _ w h).1)))

  -- On a descriptor that fits in a set, `available` and `availableForWrite` answer true exactly when
  -- their `select` fails: they are false when the descriptor is ready to read, or to write, and
  -- false when the time is over.
  pub polls_iff :
      (s : Socket) (w : S.World)
      → is_selectable S s.socket_fd ≡ true
      → (((available S s w).0 ≡ some true) ↔ (is_negative (poll_read S s w).0.count ≡ true))
        × (((available_for_write S s w).0 ≡ some true)
            ↔ (is_negative (poll_write S s w).0.count ≡ true))
  polls_iff s w fits = (available_iff s w fits, available_for_write_iff s w fits)
