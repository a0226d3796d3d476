-- ===== src/Examples/Regex.antt =====
-- cpp/examples/regex.cpp: the parts of an address by regular expressions. Texts are those of their
-- characters' codes.
pub mod Matching
pub mod Found
pub mod Numbers
pub mod Addresses
use marko.Base.{
  ℕ, zero, suc, ◌+◌, ◌-◌, ◌*◌, ◌%◌, String, ◌<>◌, Bool, true, false, ◌&&◌, ◌||◌, Option, none, some,
  List, [], ◌∷◌, ◌++◌, length, ltb, leb, ◌==◌, if◌then◌else◌,
}
use marko.Base.Decimal.{to_decimal}
use marko.System.{System}
use marko.Socket.{newline}
use marko.Examples.Regex.Matching.{
  Text, codes, Regex, word, some_of, either, before, group, regex_search,
}

abbrev pub is_between : ℕ → ℕ → ℕ → Bool
is_between low high c = leb low c && leb c high

-- `\d`, and `a-z`, `A-Z`
abbrev pub is_digit : ℕ → Bool
is_digit c = is_between b'0' b'9' c

abbrev pub is_letter : ℕ → Bool
is_letter c = is_between b'a' b'z' c || is_between b'A' b'Z' c

-- `[a-z,A-Z,\d,\/,.,*]`
abbrev pub in_host : ℕ → Bool
in_host c = is_letter c || (is_digit c || (c == b'/' || (c == b'.' || (c == b'*' || c == b','))))

-- `[a-z,A-Z,\d,\/,.,*,_,-,:]`, where `,-,` is a range.
abbrev pub in_path : ℕ → Bool
in_path c = in_host c || (c == b'_' || (is_between b',' b',' c || c == b':'))

-- `[*,\d]`
abbrev pub in_port : ℕ → Bool
in_port c = c == b'*' || (c == b',' || is_digit c)

-- `proto` and `ipport`
abbrev pub proto : Regex
proto =
    before (group (either (word (codes "udp")) (either (word (codes "tcp")) (word (codes "unix")))))
      (before (word (codes "://")) (group (some_of in_path)))

abbrev pub ipport : Regex
ipport = before (group (some_of in_host)) (before (word (codes ":")) (group (some_of in_port)))

-- `m.size()`, and `m[i]` as a text, which is empty where there is no such group.
abbrev pub size : Option (List Text) → ℕ
size none = 0
size (some m) = length m

abbrev pub element : List Text → ℕ → Text
element [] i = []
element (x ∷ m) zero = x
element (x ∷ m) (suc i) = element m i

abbrev pub sub_match : Option (List Text) → ℕ → Text
sub_match none i = []
sub_match (some m) i = element m i

abbrev pub same_text : Text → Text → Bool
same_text [] [] = true
same_text [] (y ∷ t) = false
same_text (x ∷ s) [] = false
same_text (x ∷ s) (y ∷ t) = x == y && same_text s t

-- What `stoi` makes of a text: an `int`, or one of its two exceptions.
pub data Stoi : Type 0 where
  int_of : ℕ → Stoi
  invalid_argument out_of_range : Stoi

-- The number that the digits at the start of a text are, after those that were read.
abbrev pub read_digits : ℕ → Text → ℕ
read_digits n [] = n
read_digits n (c ∷ s) =
    let all = read_digits (n * 10 + (c - b'0')) s in if is_digit c then all else n

-- On a text without blanks and signs, as those of `[*,\d]+` are, and the empty one.
unfoldable pub stoi : Text → Stoi
stoi [] = invalid_argument
stoi (c ∷ s) =
    let n = read_digits 0 (c ∷ s) in
    if is_digit c then if ltb n 0x8000_0000 then int_of n else out_of_range else invalid_argument

-- What `filter` found: the locals that it sets, or the exception that ends it.
pub data Filtered : Type 0 where
  no_match no_branch : Filtered
  unix_path : Text → Filtered
  inet : Text → ℕ → Filtered
  throws : Stoi → Filtered

-- `uint16_t port = stoi(sport)`
abbrev pub with_port : Text → Stoi → Filtered
with_port ip (int_of n) = inet ip (n % 65536)
with_port ip invalid_argument = throws invalid_argument
with_port ip out_of_range = throws out_of_range

module _ (S : System) where
  open S use {World}

  -- The branch for "tcp" and "udp".
  unfoldable pub filter_inet : Text → World → Filtered × World
  unfolding regex_search stoi
  filter_inet ss w =
      let mm = regex_search ipport ss in
      let found = with_port (sub_match mm 1) (stoi (sub_match mm 2)) in
      (found, if size mm == 3 then w else S.print ("error " <> (to_decimal (size mm) <> newline)) w)

  -- `filter` on `m[1]` and `m[2]`.
  unfoldable pub filter_groups : Text → Text → World → Filtered × World
  unfolding filter_inet
  filter_groups kind body w =
      if same_text kind (codes "unix")
      then (unix_path body, S.print ("unix path: " <> (S.text_of_bytes body <> newline)) w)
      else if same_text kind (codes "tcp") || same_text kind (codes "udp")
      then filter_inet body w
      else (no_branch, w)

  unfoldable pub filter : Text → World → Filtered × World
  unfolding regex_search filter_groups
  filter addr w = elim (regex_search proto addr) [
    | none ↦ (no_match, S.print ("No matches!!" <> newline) w)
    | some m ↦ filter_groups (element m 1) (element m 2) w
  ]

  -- Calls of `filter` one after the other; the first exception ends the program.
  unfoldable pub filter_each : List Text → World → List Filtered × World
  unfolding filter
  filter_each [] w = ([], w)
  filter_each (addr ∷ addrs) w =
      let (found, w') = filter addr w in
      let (rest, w'') = filter_each addrs w' in
      elim found [
        | throws e ↦ (throws e ∷ [], w')
        | inet ip port ↦ (inet ip port ∷ rest, w'')
        | unix_path path ↦ (unix_path path ∷ rest, w'')
        | no_match ↦ (no_match ∷ rest, w'')
        | no_branch ↦ (no_branch ∷ rest, w'')
      ]

  unfoldable pub main : World → List Filtered × World
  unfolding filter_each
  main w =
      filter_each
        (codes "udp://*:3000" ∷ codes "tcp://1.2.3.4:5000" ∷ codes "unix:///bob/here" ∷ []) w
