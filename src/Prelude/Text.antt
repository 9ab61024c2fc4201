-- ===== src/Prelude/Text.antt =====
-- Texts as Python slices and tests them.
use text.Mathlib.Text.{starts_with}
use Prim.Native.Nat.{ℕ, zero, suc}
use Prim.Native.String.{String}
use mathlib.Core.Bool.{Bool, ◌||◌}
use mathlib.Core.Option.{Option, none, some}

-- `text[:n]`
unfoldable pub slice : ℕ → String → String
slice zero s = ""
slice (suc n) String.[] = ""
slice (suc n) (String.◌∷◌ c s) = String.◌∷◌ c (slice n s)

-- `text[n:]`
unfoldable pub slice_from : ℕ → String → String
slice_from zero s = s
slice_from (suc n) String.[] = ""
slice_from (suc n) (String.◌∷◌ c s) = slice_from n s

-- `if not text`: None and the empty text are falsy
abbrev pub truthy : Option String → Option String
truthy none = none
truthy (some String.[]) = none
truthy (some (String.◌∷◌ c s)) = some (String.◌∷◌ c s)

-- `phrase in text`
unfoldable pub occurs : String → String → Bool
occurs phrase String.[] = starts_with "" phrase
occurs phrase (String.◌∷◌ c s) = starts_with (String.◌∷◌ c s) phrase || occurs phrase s
