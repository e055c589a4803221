-- ===== src/Base/Texts.antt =====
-- Texts compared and searched. Go compares strings by bytes, which is the order of code points.
use Prim.Native.Char.{code}
use Prim.Native.Nat.{ℕ, ◌+◌, ◌/◌, ◌%◌}
use Prim.Native.String.{String, compare}
use runner_loom.Base.Tests.{ltb, if◌then◌else◌}
use runner_loom.Base.Lists.{length}
use mathlib.Core.Path.{◌≡◌}
use mathlib.Core.Bool.{Bool, true, false, ◌||◌}
use mathlib.Core.Logic.{◌↔◌}
use mathlib.Core.List.{List, [], ◌∷◌, ◌++◌}
use text.Mathlib.Text
use text.Mathlib.Text.{is_lt}
use text.Mathlib.TextEquality

abbrev pub str_eq : String → String → Bool
str_eq s t = Text.◌==◌ s t

abbrev pub str_lt : String → String → Bool
str_lt s t = is_lt (compare s t)

pub eq_iff : (s t : String) → (str_eq s t ≡ true) ↔ (s ≡ t)
eq_iff s t = TextEquality.eq_iff s t

-- `Contains`, and a lookup in a `map[string]bool` that is only ever added to.
abbrev pub contains : List String → String → Bool
contains [] s = false
contains (v ∷ vs) s = str_eq v s || contains vs s

-- One code point in UTF-8.
abbrev pub encode : ℕ → List ℕ
encode c =
    if ltb c 128
    then c ∷ []
    else if ltb c 2048
    then (192 + c / 64) ∷ (128 + c % 64) ∷ []
    else if ltb c 65536
    then (224 + c / 4096) ∷ (128 + c / 64 % 64) ∷ (128 + c % 64) ∷ []
    else (240 + c / 262144) ∷ (128 + c / 4096 % 64) ∷ (128 + c / 64 % 64) ∷ (128 + c % 64) ∷ []

-- The bytes of a text, and `len`, which counts them.
abbrev pub bytes : String → List ℕ
bytes String.[] = []
bytes (String.◌∷◌ c s) = encode (code c) ++ bytes s

abbrev pub len : String → ℕ
len s = length (bytes s)
