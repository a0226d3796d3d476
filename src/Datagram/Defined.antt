-- ===== src/Datagram/Defined.antt =====
-- What holds of the result of a run of methods, if the run is defined; for Lifetime and Tidy.
use mathlib.Core.Option
use marko.Base.{◌≡◌, sym, ap, Option, none, some}

-- What a run that is defined ends in has a property.
abbrev pub Holds {ℓ} : {A : Type ℓ} → (A → Type 0) → Option A → Type 0
Holds P none = Unit
Holds P (some a) = P a

pub Holds-map {ℓ} :
    {A B : Type ℓ} (P : B → Type 0) (b : B) (o : Option A) → P b → Holds P (Option.map (λ _. b) o)
Holds-map P b none p = tt
Holds-map P b (some a) p = p

pub Holds-bind {ℓ} :
    {A B : Type ℓ} (P : A → Type 0) (Q : B → Type 0) (f : A → Option B) (o : Option A)
    → Holds P o
    → ((a : A) → P a → Holds Q (f a))
    → Holds Q (Option.bind o f)
unfolding Option.bind
Holds-bind P Q f none p keeps = tt
Holds-bind P Q f (some a) p keeps = keeps a p

pub Holds-map_some {ℓ} :
    {A B : Type ℓ} (P : A → Type 0) (Q : B → Type 0) (f : A → B) (o : Option A) (b : B)
    → Holds P o
    → ((a : A) → P a → Q (f a))
    → Option.map f o ≡ some b
    → Q b
Holds-map_some P Q f none b p keeps e = absurd cc
Holds-map_some P Q f (some a) b p keeps e = rw (sym (ap (λ o. Option.get_or o b) e)) (keeps a p)
