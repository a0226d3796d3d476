-- ===== src/Examples/Regex/Numbers.antt =====
-- Decimal texts and `stoi`.
use marko.Base.{
  ℕ, zero, suc, ◌+◌, ◌-◌, ◌*◌, ◌/◌, ◌%◌, ◌<◌, ◌≡◌, refl, ap, ◌∙◌, Bool, true, [], ◌∷◌, ◌++◌, ltb,
  if◌then◌else◌, Bool-cases, inl, inr, arith,
}
use marko.Examples.Regex.{is_digit, read_digits, stoi, int_of, invalid_argument, out_of_range}
use marko.Examples.Regex.Matching.{Text, AllIn}

-- The decimal digits of a number; it has no more than the number and one.
digits_within : ℕ → ℕ → Text
digits_within zero n = []
digits_within (suc fuel) n =
    let rest = digits_within fuel (n / 10) in
    if ltb n 10 then (b'0' + n) ∷ [] else rest ++ (b'0' + n % 10) ∷ []

unfoldable pub digits : ℕ → Text
unfolding digits_within
digits n = digits_within (suc n) n

is_digit-low : (n : ℕ) → n < 10 → is_digit (b'0' + n) ≡ true
is_digit-low n low = ground arith

read_digits-last :
    (so_far : ℕ) (s : Text) (d : ℕ)
    → AllIn is_digit s
    → d < 10
    → read_digits so_far (s ++ (b'0' + d) ∷ []) ≡ read_digits so_far s * 10 + d
read_digits-last so_far [] d all low = rw (is_digit-low d low) (omega arith)
read_digits-last so_far (c ∷ s) d (one, all) low =
    rw one (read_digits-last (so_far * 10 + (c - b'0')) s d all low)

AllIn-last : (p : ℕ → Bool) (s : Text) (c : ℕ) → AllIn p s → p c ≡ true → AllIn p (s ++ c ∷ [])
AllIn-last p [] c all last = (last, tt)
AllIn-last p (d ∷ s) c (one, all) last = (one, AllIn-last p s c all last)

digits_within-lem :
    (fuel n : ℕ)
    → n < fuel
    → AllIn is_digit (digits_within fuel n) × (read_digits 0 (digits_within fuel n) ≡ n)
unfolding digits_within
digits_within-lem zero n enough = absurd (omega arith)
digits_within-lem (suc fuel) n enough = elim (Bool-cases (ltb n 10)) [
  | inl low ↦ rw (digits_within, low, is_digit-low n (ground arith)) ((refl, tt), omega arith)
  | inr high ↦
      let (all, read) = digits_within-lem fuel (n / 10) (ground arith) in
      rw (digits_within, high)
        (
          AllIn-last is_digit (digits_within fuel (n / 10)) (b'0' + n % 10) all
              (is_digit-low (n % 10) (omega arith)),
          read_digits-last 0 (digits_within fuel (n / 10)) (n % 10) all (omega arith)
              ∙ omega (arith, read),
        )
]

last_one : (s : Text) (c : ℕ) → (d : ℕ) × (t : Text) × (s ++ c ∷ [] ≡ d ∷ t)
last_one [] c = (c, [], refl)
last_one (d ∷ s) c = (d, s ++ c ∷ [], refl)

digits-first : (n : ℕ) → (d : ℕ) × (t : Text) × (digits n ≡ d ∷ t)
unfolding digits
digits-first n = elim (Bool-cases (ltb n 10)) [
  | inl low ↦ (b'0' + n, [], rw (digits_within, low))
  | inr high ↦
      let (d, t, e) = last_one (digits_within n (n / 10)) (b'0' + n % 10) in
      (d, t, rw (digits_within, high) e)
]

stoi-value :
    (d : ℕ) (t : Text) (n : ℕ)
    → is_digit d ≡ true
    → read_digits 0 (d ∷ t) ≡ n
    → n < 0x8000_0000
    → stoi (d ∷ t) ≡ int_of n
unfolding stoi
stoi-value d t n one read small =
    let fits : ltb n 0x8000_0000 ≡ true = ground arith in
    ap
      (λ v.
        if is_digit d
        then (if ltb v 0x8000_0000 then int_of v else out_of_range)
        else invalid_argument)
      read
    ∙ rw (one, fits)

-- `stoi` reads digits whose number an `int` holds.
pub stoi-digits :
    (n : ℕ)
    → n < 0x8000_0000
    → (d : ℕ) × (t : Text) × (digits n ≡ d ∷ t) × AllIn is_digit (d ∷ t) × (stoi (d ∷ t) ≡ int_of n)
unfolding digits
stoi-digits n small =
    let (d, t, e) = digits-first n in
    let (all, read) = digits_within-lem (suc n) n (omega arith) in
    let all' : AllIn is_digit (d ∷ t) = rw e at all in
    let read' : read_digits 0 (d ∷ t) ≡ n = rw e at read in
    (d, t, e, all', stoi-value d t n all'.0 read' small)
