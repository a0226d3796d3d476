-- ===== src/Base/State.antt =====
-- Stateful code: a function from the state before to a result and the state after.

abbrev pub St : Type 0 → Type 0 → Type 0
St W A = W → A × W

abbrev pub pure : {W A : Type 0} → A → St W A
pure a w = (a, w)

infixl 5 ◌>>=◌ ◌>>◌
abbrev pub ◌>>=◌ : {W A B : Type 0} → St W A → (A → St W B) → St W B
◌>>=◌ m f w = f (m w).0 (m w).1

abbrev pub ◌>>◌ : {W A B : Type 0} → St W A → St W B → St W B
◌>>◌ m k w = k (m w).1
