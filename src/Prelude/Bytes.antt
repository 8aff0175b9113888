-- ===== src/Prelude/Bytes.antt =====
-- Go strings as lists of bytes: equality, the order of a BINARY collation, and ASCII literals.
use Prim.Native.Nat.{ℕ, suc}
use Prim.Native.Char.{code}
use Prim.Native.String.{String}
use mathlib.Core.Path.{◌≡◌, refl}
use mathlib.Core.Bool.{Bool, true, false, ◌&&◌, ◌||◌}
use mathlib.Core.Option.{Option, none, some}
use mathlib.Core.List.{List, [], ◌∷◌}
use native.Mathlib.Omega.{arith}
use harness_security_gateway.Prelude.Tests.{◌==◌, ltb}

abbrev pub Bytes : Type 0
Bytes = List ℕ

-- The bytes of an ASCII literal.
abbrev pub codes : String → Bytes
codes String.[] = []
codes (String.◌∷◌ c s) = code c ∷ codes s

abbrev pub length {ℓ} : {A : Type ℓ} → List A → ℕ
length [] = 0
length (_ ∷ xs) = suc (length xs)

-- `==` on strings.
unfoldable pub beq : Bytes → Bytes → Bool
beq [] [] = true
beq [] (_ ∷ _) = false
beq (_ ∷ _) [] = false
beq (a ∷ as') (b ∷ bs) = a == b && beq as' bs

pub beq_refl : (s : Bytes) → beq s s ≡ true
unfolding beq
beq_refl [] = refl
beq_refl (a ∷ s) = ground (arith, beq_refl s)

pub beq→≡ : (s t : Bytes) → beq s t ≡ true → s ≡ t
unfolding beq
beq→≡ [] [] h = refl
beq→≡ [] (b ∷ t) h = cc
beq→≡ (a ∷ s) [] h = cc
beq→≡ (a ∷ s) (b ∷ t) h = ground (arith, beq→≡ s t)

pub beq_comm : (s t : Bytes) → beq s t ≡ beq t s
unfolding beq
beq_comm [] [] = refl
beq_comm [] (b ∷ t) = refl
beq_comm (a ∷ s) [] = refl
beq_comm (a ∷ s) (b ∷ t) = ground (arith, beq_comm s t)

-- A NULL column compared with a string: never equal, as in SQL.
abbrev pub opt_beq : Option Bytes → Bytes → Bool
opt_beq none t = false
opt_beq (some s) t = beq s t

-- COALESCE(column, '').
abbrev pub coalesce : Option Bytes → Bytes
coalesce none = []
coalesce (some s) = s

-- memcmp order: the BINARY collation of the schema's TEXT columns.
unfoldable pub bytes_lt : Bytes → Bytes → Bool
bytes_lt [] [] = false
bytes_lt [] (_ ∷ _) = true
bytes_lt (_ ∷ _) [] = false
bytes_lt (a ∷ as') (b ∷ bs) = ltb a b || (a == b && bytes_lt as' bs)
