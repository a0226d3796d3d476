-- ===== src/Examples/Regex/Found.antt =====
-- What the two patterns of cpp/examples/regex.cpp find in an address.
use mathlib.Core.List.{append-nil}
use marko.Base.{ℕ, ◌≡◌, refl, sym, ap, ◌∙◌, Bool, Option, none, some, List, [], ◌∷◌, ◌++◌}
use marko.Examples.Regex.{proto, ipport, in_host, in_path, in_port}
use marko.Examples.Regex.Matching.{
  Text, codes, Regex, word, some_of, before, group, Next, match_at, regex_search, first_of,
  consumed, consumed-append, AllIn, Stops, Lacks, match_class, after_word, match_class-all,
  match_class-none,
}

pub data Protocol : Type 0 where
  udp tcp unix : Protocol

abbrev pub protocol_text : Protocol → Text
protocol_text udp = codes "udp"
protocol_text tcp = codes "tcp"
protocol_text unix = codes "unix"

regex_search-first :
    (r : Regex) (x : ℕ) (s : Text) (m : List Text)
    → match_at r [] (x ∷ s) (λ groups rest. some (consumed (x ∷ s) rest ∷ groups)) ≡ some m
    → regex_search r (x ∷ s) ≡ some m
unfolding regex_search
regex_search-first r x s m found = rw (regex_search, found)

abbrev tail : Regex
tail = before (word (codes "://")) (group (some_of in_path))

match_at-tail :
    (groups : List Text) (c : ℕ) (s rest : Text) (next : Next) (m : List Text)
    → AllIn in_path (c ∷ s)
    → Stops in_path rest
    → next (groups ++ (c ∷ s) ∷ []) rest ≡ some m
    → match_at tail groups (codes "://" ++ ((c ∷ s) ++ rest)) next ≡ some m
unfolding match_at
match_at-tail groups c s rest next m all stops after =
    match_class-all in_path groups c s rest
      (λ groups' rest'. next (groups' ++ consumed ((c ∷ s) ++ rest) rest' ∷ []) rest') m all stops
      (rw (consumed-append (c ∷ s) rest) after)

-- What the pattern finds if its first group, which comes first, matches a text.
module _ (x : ℕ) (t : Text) (c : ℕ) (s rest : Text) (all : AllIn in_path (c ∷ s))
    (stops : Stops in_path rest) where
  abbrev behind : Text
  behind = codes "://" ++ ((c ∷ s) ++ rest)

  abbrev whole : Text
  whole = (x ∷ t) ++ behind

  abbrev first_group : List Text
  first_group = consumed whole behind ∷ []

  abbrev at_end : Next
  at_end groups left = some (consumed whole left ∷ groups)

  abbrev LeadsOn : Type 0
  LeadsOn =
      (m : List Text)
      → match_at tail first_group behind at_end ≡ some m
      → match_at proto [] whole at_end ≡ some m

  regex_search-groups :
      LeadsOn → regex_search proto whole ≡ some (consumed whole rest ∷ (x ∷ t) ∷ (c ∷ s) ∷ [])
  regex_search-groups leads =
      regex_search-first proto x (t ++ behind) _
        (leads _ (match_at-tail first_group c s rest at_end _ all stops refl))
      ∙ ap (λ kind. some (consumed whole rest ∷ kind ∷ (c ∷ s) ∷ []))
          (consumed-append (x ∷ t) behind)

pub regex_search-proto :
    (p : Protocol) (c : ℕ) (s rest : Text)
    → AllIn in_path (c ∷ s)
    → Stops in_path rest
    → let addr = protocol_text p ++ (codes "://" ++ ((c ∷ s) ++ rest)) in
      regex_search proto addr ≡ some (consumed addr rest ∷ protocol_text p ∷ (c ∷ s) ∷ [])
unfolding match_at
regex_search-proto udp c s rest all stops =
    regex_search-groups b'u' (codes "dp") c s rest all stops (λ m e. rw e)
regex_search-proto tcp c s rest all stops =
    regex_search-groups b't' (codes "cp") c s rest all stops (λ m e. rw e)
regex_search-proto unix c s rest all stops =
    regex_search-groups b'u' (codes "nix") c s rest all stops (λ m e. rw e)

-- A class takes a whole text that is in it.
match_class-whole :
    (p : ℕ → Bool) (groups : List Text) (c : ℕ) (s : Text) (next : Next) (m : List Text)
    → AllIn p (c ∷ s)
    → next groups [] ≡ some m
    → match_class p groups (c ∷ s) next ≡ some m
match_class-whole p groups c s next m all after =
    ap (λ t. match_class p groups t next) (sym (append-nil (c ∷ s)))
    ∙ match_class-all p groups c s [] next m all tt after

consumed-whole : (s : Text) → consumed s [] ≡ s
consumed-whole s = ap (λ t. consumed t []) (sym (append-nil s)) ∙ consumed-append s []

-- Host and port, around the one colon.
pub regex_search-ipport :
    (c : ℕ) (s : Text) (d : ℕ) (t : Text)
    → AllIn in_host (c ∷ s)
    → AllIn in_port (d ∷ t)
    → (whole : Text) × (regex_search ipport ((c ∷ s) ++ b':' ∷ d ∷ t)
        ≡ some (whole ∷ (c ∷ s) ∷ (d ∷ t) ∷ []))
unfolding match_at
regex_search-ipport c s d t host port =
    let address = (c ∷ s) ++ b':' ∷ d ∷ t in
    let groups = consumed address (b':' ∷ d ∷ t) ∷ [] in
    let found = consumed address [] ∷ (groups ++ consumed (d ∷ t) [] ∷ []) in
    let port_found =
      match_class-whole in_port groups d t
        (λ groups' rest. some (consumed address rest ∷ (groups' ++ consumed (d ∷ t) rest ∷ [])))
        found port refl in
    (
      consumed address [],
      regex_search-first ipport c (s ++ b':' ∷ d ∷ t) found
            (match_class-all in_host [] c s (b':' ∷ d ∷ t) _ found host refl port_found)
          ∙ ap (λ ip. some (consumed address [] ∷ ip ∷ consumed (d ∷ t) [] ∷ []))
              (consumed-append (c ∷ s) (b':' ∷ d ∷ t))
          ∙ ap (λ port'. some (consumed address [] ∷ (c ∷ s) ∷ port' ∷ []))
              (consumed-whole (d ∷ t)),
    )

colon-Lacks :
    (s : Text) (k : Text → Option (List Text))
    → Lacks b':' s
    → ◌≡◌ {A = Option (List Text)}
        (elim (after_word (codes ":") s) [ none ↦ none | some rest ↦ k rest ])
        none
colon-Lacks [] k lacks = refl
colon-Lacks (c ∷ s) k (other, lacks) = rw other

ipport-Lacks : (s : Text) (next : Next) → Lacks b':' s → match_at ipport [] s next ≡ none
unfolding match_at
ipport-Lacks s next lacks =
    match_class-none in_host [] b':' s _ (λ rest none_there. colon-Lacks rest _ none_there) lacks

-- Nothing is found where there is no colon.
pub regex_search-Lacks : (s : Text) → Lacks b':' s → regex_search ipport s ≡ none
unfolding regex_search
regex_search-Lacks [] lacks = refl
regex_search-Lacks (c ∷ s) (other, lacks) =
    rw (regex_search, regex_search-Lacks s lacks)
      (ap (λ m. first_of m none)
        (ipport-Lacks (c ∷ s) (λ groups rest. some (consumed (c ∷ s) rest ∷ groups))
          (other, lacks)))
