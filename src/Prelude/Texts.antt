-- ===== src/Prelude/Texts.antt =====
-- Texts the way Python treats them: the empty one counts as absent under `or`, and characters are
-- picked from the front or the back.
use Prim.Native.Char.{Char, code}
use Prim.Native.String.{String, count}
use mathlib.Core.Bool.{Bool, true, false}
use mathlib.Core.Option.{Option, none, some}
use ai_revenue_recovery_agen.Prelude.Tests.{leb, ◌==◌, if◌then◌else◌}

-- Whether the text is there and not empty.
abbrev pub is_text : Option String → Bool
is_text none = false
is_text (some String.[]) = false
is_text (some (String.◌∷◌ c s)) = true

-- `a or b`
abbrev pub or_option : Option String → Option String → Option String
or_option a b = if is_text a then a else b

abbrev pub text_or : Option String → String → String
text_or none d = d
text_or (some String.[]) d = d
text_or (some (String.◌∷◌ c s)) d = String.◌∷◌ c s

-- `s[-4:]`
unfoldable pub last_four : String → String
last_four String.[] = String.[]
last_four (String.◌∷◌ c s) =
    let rest = last_four s in if leb (count s) 3 then String.◌∷◌ c s else rest

-- The last character of the text that begins with `c`.
unfoldable pub last_of : Char → String → Char
last_of c String.[] = c
last_of c (String.◌∷◌ d s) = last_of d s

-- `s.partition("@")` where there is such a character: what stands before the first and after it.
abbrev add_front : Char → Option (String × String) → Option (String × String)
add_front c none = none
add_front c (some (a, b)) = some (String.◌∷◌ c a, b)

unfoldable pub partition_at : String → Option (String × String)
partition_at String.[] = none
partition_at (String.◌∷◌ c s) =
    let rest = partition_at s in if code c == b'@' then some (String.[], s) else add_front c rest
