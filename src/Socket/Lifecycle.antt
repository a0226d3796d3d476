-- ===== src/Socket/Lifecycle.antt =====
-- The life of a socket object: made by the constructor, used, closed by the destructor.
use mathlib.Core.List.{append-nil}
use marko.Base.{
  ◌≡◌, refl, ◌∙◌, sym, Bool, true, false, ◌&&◌, not, Bool-cases, inl, inr, List, [], ◌∷◌, ◌++◌,
  arith, if◌then◌else◌,
}
use marko.Base.Int.{ℤ, beq_ℤ, beq_ℤ_iff, beq_ℤ_refl, is_negative}
use marko.System.{System}
use marko.System.Laws.{Descriptors}
use marko.System.Trace.{Call, close_call, traced}
use marko.Socket.{Socket, new, close, make_socket}

module _ (S : System) where
  -- `close` makes the one call that closes the descriptor, and none if it has no descriptor; a
  -- second `close`, such as the destructor's, changes nothing and makes no call.
  close-journal :
      (s : Socket) (w : S.World) (journal : List Call)
      → let once = close (traced S) s (w, journal) in
        (once.0.socket_fd ≡ S.socket_err)
        × (once.1.1
            ≡ journal
              ++ (if beq_ℤ s.socket_fd S.socket_err then [] else close_call s.socket_fd ∷ []))
        × (close (traced S) once.0 once.1 ≡ once)
  unfolding close
  close-journal s w journal = elim (Bool-cases (beq_ℤ s.socket_fd S.socket_err)) [
    | inl closed ↦ rw closed ((beq_ℤ_iff _ _).0 closed, sym (append-nil journal), rw closed)
    | inr opened ↦ rw (opened, beq_ℤ_refl S.socket_err) (refl, refl, refl)
  ]

-- The open descriptors while the object `s` lives: those that were open before it, and its own.
abbrev pub Owns : (S : System) → Descriptors S → (ℤ → Bool) → Socket → S.World → Type 0
Owns S D before s w =
    (before s.socket_fd ≡ false)
    × ((d : ℤ)
        → D.is_open w d ≡ (
            if beq_ℤ d s.socket_fd && not (beq_ℤ s.socket_fd S.socket_err) then true else before d))

-- The descriptors are open after `m` that are open before it.
abbrev pub Keeps : (S : System) → Descriptors S → S.World → S.World → Type 0
Keeps S D w w' = (d : ℤ) → D.is_open w' d ≡ D.is_open w d

module _ (S : System) (D : Descriptors S) (invalid : is_negative S.socket_err ≡ true) where
  pub Owns-Keeps :
      (before : ℤ → Bool) (s : Socket) (w w' : S.World)
      → Keeps S D w w'
      → Owns S D before s w
      → Owns S D before s w'
  Owns-Keeps before s w w' k (fresh, own) = (fresh, λ d. k d ∙ own d)

  -- The destructor leaves open what was open before the object was made.
  pub is_open-close :
      (before : ℤ → Bool) (s : Socket) (w : S.World) (d : ℤ)
      → Owns S D before s w
      → D.is_open (close S s w).1 d ≡ before d
  unfolding close
  is_open-close before s w d (fresh, own) =
      ground (arith, own d, D.close-closes s.socket_fd w d, beq_ℤ_iff d s.socket_fd)

  socket_fd-close : (s : Socket) (w : S.World) → (close S s w).0.socket_fd ≡ S.socket_err
  unfolding close
  socket_fd-close s w = ground (arith, beq_ℤ_iff s.socket_fd S.socket_err)

  -- `close` on a failed descriptor opens and closes nothing.
  close-negative :
      (s : Socket) (w : S.World) (d : ℤ)
      → is_negative s.socket_fd ≡ true
      → D.is_open (close S s w).1 d ≡ D.is_open w d
  unfolding close
  close-negative s w d failed = ground (
    arith,
    D.close-closes s.socket_fd w d,
    D.open-negative w s.socket_fd,
    beq_ℤ_iff d s.socket_fd,
  )

  closed-Owns :
      (before : ℤ → Bool) (s : Socket) (w : S.World)
      → before S.socket_err ≡ false
      → s.socket_fd ≡ S.socket_err
      → ((d : ℤ) → D.is_open w d ≡ before d)
      → Owns S D before s w
  closed-Owns before s w none_open e same =
      (rw e none_open, λ d. rw e (ground (arith, same d, beq_ℤ_refl S.socket_err)))

  pub close-Owns :
      (before : ℤ → Bool) (s : Socket) (w : S.World)
      → before S.socket_err ≡ false
      → Owns S D before s w
      → Owns S D before (close S s w).0 (close S s w).1
  close-Owns before s w none_open own =
      closed-Owns before _ _ none_open (socket_fd-close s w) λ d. is_open-close before s w d own

  -- A constructor's object owns what `socket` opened, or nothing.
  pub make_socket-Owns :
      (f t p : ℤ) (w : S.World)
      → Owns S D (D.is_open w) (make_socket S (new S) f t p w).0.1 (make_socket S (new S) f t p w).1
  unfolding make_socket
  make_socket-Owns f t p w = elim (Bool-cases (is_negative (S.socket f t p w).0)) [
    | inl failed ↦ rw failed (
        closed-Owns (D.is_open w) _ _ (D.open-negative w _ invalid) (socket_fd-close _ _)
          λ d. close-negative _ _ d failed ∙ D.socket-opens f t p w d ∙ rw failed)
    | inr made ↦ rw made (
      D.socket-fresh f t p w made,
      λ d.
          D.socket-opens f t p w d
          ∙ rw made (ground (arith, beq_ℤ_iff (S.socket f t p w).0 S.socket_err)),
    )
  ]
