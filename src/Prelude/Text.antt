-- ===== src/Prelude/Text.antt =====
-- Texts as lists of character codes, and the string functions of the kernel that the code uses.
use Prim.Native.Nat.{ℕ, ◌+◌, ◌-◌}
use Prim.Native.Char.{code}
use Prim.Native.String.{String}
use mathlib.Core.Path.{◌≡◌}
use mathlib.Core.Bool.{Bool, true, false, ◌&&◌}
use mathlib.Core.Option.{Option, none, some}
use mathlib.Core.List.{List, [], ◌∷◌}
use native.Mathlib.Omega.{arith}
use canon_r.Prelude.Tests.{leb, ◌==◌, if◌then◌else◌}

abbrev pub codes : String → List ℕ
codes String.[] = []
codes (String.◌∷◌ c s) = code c ∷ codes s

unfoldable pub to_lower : ℕ → ℕ
to_lower c = if leb b'A' c && leb c b'Z' then c + 32 else c

unfoldable pub to_upper : ℕ → ℕ
to_upper c = if leb b'a' c && leb c b'z' then c - 32 else c

-- The test `strcasecmp(s, t) == 0`, as far as one of the texts is ASCII.
abbrev pub same_caseless : List ℕ → List ℕ → Bool
same_caseless [] [] = true
same_caseless [] (d ∷ t) = false
same_caseless (c ∷ s) [] = false
same_caseless (c ∷ s) (d ∷ t) = to_lower c == to_lower d && same_caseless s t

-- The match found further on, or else one here.
unfoldable pub last_match : ℕ → List ℕ → ℕ → Option (List ℕ) → Option (List ℕ)
last_match x s c (some t) = some t
last_match x s c none = if x == c then some (x ∷ s) else none

-- What follows the last `c`, which it begins with.
unfoldable pub strrchr : List ℕ → ℕ → Option (List ℕ)
strrchr [] c = none
strrchr (x ∷ s) c = last_match x s c (strrchr s c)

pub to_lower-to_upper : (c : ℕ) → to_lower (to_upper c) ≡ to_lower c
unfolding to_lower to_upper
to_lower-to_upper c = ground arith

-- A change of case makes no dot and takes none away.
pub to_upper-dot : (c : ℕ) → (to_upper c == b'.') ≡ (c == b'.')
unfolding to_upper
to_upper-dot c = ground arith
