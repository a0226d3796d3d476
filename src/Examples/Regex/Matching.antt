-- ===== src/Examples/Regex/Matching.antt =====
-- What cpp/examples/regex.cpp uses of `std::regex`: `regex_search` under the ECMAScript grammar, for
-- patterns of words, of character classes under `+`, of `|` and of groups. No group stands in
-- another, in an alternative or under `+`, so that they close in the order of their numbers.
use Prim.Native.Char.{code}
use Prim.Native.String as Str
use marko.Base.{
  ℕ, ◌-◌, ◌≡◌, refl, ap, String, Bool, true, false, Option, none, some, List, [], ◌∷◌, ◌++◌, length,
  length-append, take, Bool-cases, inl, inr, ◌==◌, if◌then◌else◌, arith,
}

-- A text by its characters' codes.
abbrev pub Text : Type 0
Text = List ℕ

abbrev pub codes : String → Text
codes Str.String.[] = []
codes (Str.String.◌∷◌ c s) = code c ∷ codes s

pub data Regex : Type 0 where
  word : Text → Regex
  -- A class under `+`.
  some_of : (ℕ → Bool) → Regex
  either before : Regex → Regex → Regex
  group : Regex → Regex

-- What is to be matched after: it is given the groups so far and the text that is left.
abbrev pub Next : Type 0
Next = List Text → Text → Option (List Text)

abbrev pub first_of : Option (List Text) → Option (List Text) → Option (List Text)
first_of none other = other
first_of (some m) other = some m

-- The text before `rest`, which is an end of `s`.
abbrev pub consumed : Text → Text → Text
consumed s rest = take (length s - length rest) s

-- `some` with what is left behind the word.
abbrev pub after_word : Text → Text → Option Text
after_word [] s = some s
after_word (c ∷ t) [] = none
after_word (c ∷ t) (x ∷ s) = if c == x then after_word t s else none

-- As many characters as possible first.
unfoldable pub match_class : (ℕ → Bool) → List Text → Text → Next → Option (List Text)
match_class p groups [] next = none
match_class p groups (x ∷ s) next =
    let more = match_class p groups s next in if p x then first_of more (next groups s) else none

-- A match of the pattern from the start of the text on.
unfoldable pub match_at : Regex → List Text → Text → Next → Option (List Text)
unfolding match_class
match_at (word t) groups s next = elim (after_word t s) [
  | none ↦ none
  | some rest ↦ next groups rest
]
match_at (some_of p) groups s next = match_class p groups s next
match_at (either a b) groups s next = first_of (match_at a groups s next) (match_at b groups s next)
match_at (before a b) groups s next =
    match_at a groups s (λ groups' rest. match_at b groups' rest next)
match_at (group a) groups s next =
    match_at a groups s (λ groups' rest. next (groups' ++ consumed s rest ∷ []) rest)

-- `regex_search`: the first match, as the whole of it before its groups.
unfoldable pub regex_search : Regex → Text → Option (List Text)
unfolding match_at
regex_search r [] = match_at r [] [] (λ groups rest. some ([] ∷ groups))
regex_search r (x ∷ s) =
    let later = regex_search r s in
    first_of (match_at r [] (x ∷ s) (λ groups rest. some (consumed (x ∷ s) rest ∷ groups))) later

pub consumed-append : (s rest : Text) → consumed (s ++ rest) rest ≡ s
consumed-append s rest =
    let size : length (s ++ rest) - length rest ≡ length s = omega (arith, length-append s rest) in
    rw size (take_append s rest)
  where
    take_append : (s rest : Text) → take (length s) (s ++ rest) ≡ s
    take_append [] rest = refl
    take_append (x ∷ s) rest = ap (◌∷◌ x) (take_append s rest)

-- Every character is in the class.
abbrev pub AllIn : (ℕ → Bool) → Text → Type 0
AllIn p [] = Unit
AllIn p (c ∷ s) = (p c ≡ true) × AllIn p s

-- The text does not go on with a character of the class.
abbrev pub Stops : (ℕ → Bool) → Text → Type 0
Stops p [] = Unit
Stops p (c ∷ s) = p c ≡ false

pub match_class-Stops :
    (p : ℕ → Bool) (groups : List Text) (rest : Text) (next : Next)
    → Stops p rest
    → match_class p groups rest next ≡ none
unfolding match_class
match_class-Stops p groups [] next stops = refl
match_class-Stops p groups (c ∷ rest) next stops = rw stops

-- A class takes all that is in it, if what comes after then succeeds.
pub match_class-all :
    (p : ℕ → Bool) (groups : List Text) (c : ℕ) (s rest : Text) (next : Next) (m : List Text)
    → AllIn p (c ∷ s)
    → Stops p rest
    → next groups rest ≡ some m
    → match_class p groups ((c ∷ s) ++ rest) next ≡ some m
unfolding match_class
match_class-all p groups c [] rest next m (inside, all) stops after =
    rw (match_class, inside, match_class-Stops p groups rest next stops) after
match_class-all p groups c (d ∷ s) rest next m (inside, all) stops after =
    rw (match_class, inside, match_class-all p groups d s rest next m all stops after)

-- A text without the character.
abbrev pub Lacks : ℕ → Text → Type 0
Lacks b [] = Unit
Lacks b (c ∷ s) = (b == c ≡ false) × Lacks b s

-- What comes after a class fails, if it does so on all texts without the character.
pub match_class-none :
    (p : ℕ → Bool) (groups : List Text) (b : ℕ) (s : Text) (next : Next)
    → ((rest : Text) → Lacks b rest → next groups rest ≡ none)
    → Lacks b s
    → match_class p groups s next ≡ none
unfolding match_class
match_class-none p groups b [] next fails lacks = refl
match_class-none p groups b (c ∷ s) next fails (other, lacks) = elim (Bool-cases (p c)) [
  | inl inside ↦
      rw (match_class, inside, match_class-none p groups b s next fails lacks) (fails s lacks)
  | inr outside ↦ rw (match_class, outside)
]
