-- ===== src/Info/Words.antt =====
-- The words for values that the report of cpp/src/marko/info.hpp is expected to use.
use marko.Base.{arith, ℕ, zero, suc, ◌==◌, ◌≡◌, refl, inl, inr, String, Bool-cases, if◌then◌else◌}
use marko.Base.Int.{pos, beq_ℤ}
use marko.System.{System}
use marko.Info.Options.{index, socket_types}
use marko.Info.Report.{enabled}

-- How a number is shown: as a truth value, and as a switch.
abbrev pub truth : ℕ → String
truth zero = "false"
truth (suc n) = "true"

abbrev pub switch : ℕ → String
switch zero = "disabled"
switch (suc n) = "enabled"

pub truth_if : (n : ℕ) → (if n == 0 then "false" else "true") ≡ truth n
truth_if zero = refl
truth_if (suc n) = ground arith

module _ (S : System) where
  pub switch-enabled : (n : ℕ) → enabled S n ≡ switch n
  switch-enabled zero = refl
  switch-enabled (suc n) = ground arith

  -- The name of a type of socket, which is empty for one that is not among three.
  abbrev pub type_name : ℕ → String
  type_name n =
      if beq_ℤ (pos n) S.sock_dgram
      then "DGRAM"
      else if beq_ℤ (pos n) S.sock_raw
      then "RAW"
      else if beq_ℤ (pos n) S.sock_stream
      then "STREAM"
      else ""

  pub type_name-index : (n : ℕ) → (index (socket_types S) (pos n)).0 ≡ type_name n
  unfolding index
  type_name-index n = elim (Bool-cases (beq_ℤ (pos n) S.sock_dgram)) [
    | inl dgram ↦ rw (index, dgram)
    | inr other ↦ elim (Bool-cases (beq_ℤ (pos n) S.sock_raw)) [
      | inl raw ↦ rw (index, other, raw)
      | inr neither ↦ elim (Bool-cases (beq_ℤ (pos n) S.sock_stream)) [
        | inl stream ↦ rw (index, other, neither, stream)
        | inr none_of_them ↦ rw (index, other, neither, none_of_them)
      ]
    ]
  ]
