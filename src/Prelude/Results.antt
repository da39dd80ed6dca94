-- ===== src/Prelude/Results.antt =====
-- A Go pair of a value and an error, of which exactly one is set; an error is its message.
use Prim.Native.String.{String}

pub data Result {ℓ} (A : Type ℓ) : Type ℓ where
  ok : A → Result A
  err : String → Result A

-- `if err != nil { return …, fmt.Errorf("…: %w", err) }`
abbrev pub wrap {ℓ κ} :
    {A : Type ℓ} {B : Type κ} → (String → String) → Result A → (A → Result B) → Result B
wrap message (err e) next = err (message e)
wrap message (ok a) next = next a
