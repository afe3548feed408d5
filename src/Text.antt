-- ===== src/Text.antt =====
-- The functions on strings that the program takes from Go's `strings` package.
pub mod Hex
pub mod Split
use Prim.Native.Char.{code}
use Prim.Native.String.{String}
use simple_twitter.Common.{ℕ, ◌==◌, List, [], ◌∷◌, if◌then◌else◌}
use simple_twitter.Common.Order.{Bytes}

-- The bytes of an ASCII literal.
abbrev pub codes : String → Bytes
codes String.[] = []
codes (String.◌∷◌ c s) = code c ∷ codes s

abbrev pub push : ℕ → List Bytes → List Bytes
push c [] = (c ∷ []) ∷ []
push c (p ∷ ps) = (c ∷ p) ∷ ps

-- `strings.Split(s, sep)` at a separator of one byte.
unfoldable pub split : ℕ → Bytes → List Bytes
split sep [] = [] ∷ []
split sep (c ∷ s) = let rest = split sep s in if c == sep then [] ∷ rest else push c rest
