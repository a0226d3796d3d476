-- ===== src/Gtests/Requests/Rounds.antt =====
-- The rounds of the requesting threads of cpp/gtests/test_rr.cpp: what they expect.
use mathlib.Core.List.{append_assoc, append-nil}
use marko.Base.{
  ℕ, zero, suc, ◌+◌, ◌*◌, ◌≤◌, ◌<◌, ◌≡◌, sym, ap, ◌∙◌, List, [], ◌∷◌, ◌++◌, length, St, arith,
}
use marko.Base.Int.{ℤ, pos, ◌*ℤ◌}
use marko.System.{Message, System}
use marko.Time.{msleep}
use marko.Examples.Structs.{Codec}
use marko.Gtests.{Gtest, GtestLaws}
use marko.Gtests.Requests.{RequestT, expect_answer, expect_both, ask_each}

-- What `pack` and `unpack` promise of the struct, as long as its `int` is one.
pub record RequestLaws (codec : Codec RequestT) : Type 0 where
  pub read :
      (n : ℕ)
      → n < 0x8000_0000
      → codec.unpack (codec.pack (record { a = pos n })) ≡ record { a = pos n }
  pub sized : (d : RequestT) → length (codec.pack d) ≡ codec.size
  pub some_bytes : 0 < codec.size

-- The two sides of the expectations of the rounds that are left.
abbrev pub all_pairs : (ℕ → List (ℤ × ℤ)) → ℕ → ℕ → List (ℤ × ℤ)
all_pairs pairs zero i = []
all_pairs pairs (suc rounds) i = pairs i ++ all_pairs pairs rounds (suc i)

twice : (i : ℕ) → pos 2 *ℤ pos i ≡ pos (2 * i)
unfolding ◌*ℤ◌
twice i = ground arith

module _ (S : System) (G : Gtest S.World) (L : GtestLaws S.World G) (codec : Codec RequestT)
    (R : RequestLaws codec) where
  open S use {World}

  abbrev pub answer_pairs : ℕ → List (ℤ × ℤ)
  answer_pairs i = (pos (2 * i), pos (2 * i)) ∷ []

  abbrev pub both_pairs : ℕ → List (ℤ × ℤ)
  both_pairs i = (pos (2 * i), pos (2 * i)) ∷ (pos codec.size, pos codec.size) ∷ []

  abbrev pub asked_message : ℕ → Message
  asked_message i = codec.pack (record { a = pos i })

  -- What the callback computes.
  abbrev pub reply_to : Message → Message
  reply_to m = codec.pack (record { a = pos 2 *ℤ (codec.unpack m).a })

  read-reply :
      (i : ℕ) → i < 0x4000_0000 → (codec.unpack (reply_to (asked_message i))).a ≡ pos (2 * i)
  read-reply i small =
      let reread = λ (a : ℤ). (codec.unpack (codec.pack (record { a = a }))).a in
      ap (λ d. reread (pos 2 *ℤ d.a)) (R.read i (omega arith))
      ∙ ap reread (twice i)
      ∙ ap (λ d. d.a) (R.read (2 * i) (omega arith))

  pub expected-answer :
      (i : ℕ) (w : World)
      → i < 0x4000_0000
      → L.expected (expect_answer S G codec i (reply_to (asked_message i)) w)
        ≡ L.expected w ++ answer_pairs i
  expected-answer i w small =
      ap (λ a. L.expected (G.expect_eq a (pos 2 *ℤ pos i) w)) (read-reply i small)
      ∙ ap (λ b. L.expected (G.expect_eq (pos (2 * i)) b w)) (twice i)
      ∙ L.expected-expect_eq _ _ w

  pub expected-both :
      (i : ℕ) (w : World)
      → i < 0x4000_0000
      → L.expected (expect_both S G codec i (reply_to (asked_message i)) w)
        ≡ L.expected w ++ both_pairs i
  expected-both i w small =
      L.expected-expect_eq _ _ _
      ∙ rw (expected-answer i w small, R.sized) (append_assoc (L.expected w) (answer_pairs i) _)

  -- The loop, where what is asked is answered and nothing that the test does disturbs this.
  module _ (expect : ℕ → Message → World → World) (pairs : ℕ → List (ℤ × ℤ))
      (expects : (i : ℕ) (w : World)
        → i < 0x4000_0000
        → L.expected (expect i (reply_to (asked_message i)) w) ≡ L.expected w ++ pairs i)
      (ask : Message → St World Message) (IsKept : World → Type 0)
      (answers : (m : Message) (w : World)
        → length m ≡ codec.size
        → IsKept w
        → ((ask m w).0 ≡ reply_to m) × IsKept (ask m w).1 × (L.expected (ask m w).1 ≡ L.expected w))
      (expect-IsKept : (i : ℕ) (m : Message) (w : World) → IsKept w → IsKept (expect i m w))
      (msleep-IsKept : (w : World)
        → IsKept w
        → IsKept (msleep S (pos 1) w) × (L.expected (msleep S (pos 1) w) ≡ L.expected w)) where
    pub expected-ask_each :
        (rounds i : ℕ) (w : World)
        → i + rounds ≤ 0x4000_0000
        → IsKept w
        → L.expected (ask_each S G codec expect ask rounds i w)
          ≡ L.expected w ++ all_pairs pairs rounds i
    unfolding ask_each
    expected-ask_each zero i w small k = sym (append-nil (L.expected w))
    expected-ask_each (suc rounds) i w small k =
        let (answer, asked, same) = answers (asked_message i) w (R.sized _) k in
        let (slept, same') = msleep-IsKept _ (expect-IsKept i _ _ asked) in
        expected-ask_each rounds (suc i) _ (omega arith) slept
        ∙ rw (same', answer, expects i _ (omega arith), same) (append_assoc (L.expected w) _ _)
