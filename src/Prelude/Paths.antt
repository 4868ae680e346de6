-- ===== src/Prelude/Paths.antt =====
-- `pathlib.PurePosixPath`: the last component of a path, and its suffix.
use Prim.Native.Nat.{ℕ, ◌-◌}
use Prim.Native.Char.{Char, code}
use Prim.Native.String.{String, slice, ◌++◌ as append}
use mathlib.Core.Path.{◌≡◌, refl}
use mathlib.Core.Bool.{Bool, false, not, ◌&&◌, ◌||◌}
use mathlib.Core.Option.{Option, none, some}
use mathlib.Core.List.{List, [], ◌∷◌}
use native.Mathlib.Omega.{arith}
use text.Mathlib.Text.{◌==◌ as str_eq}
use dropsort.Prelude.Tests.{if◌then◌else◌, ◌==◌, leb}
use dropsort.Prelude.Lists.{select}

-- `c in s`, for the character of a code point.
unfoldable pub contains : ℕ → String → Bool
contains c String.[] = false
contains c (String.◌∷◌ d s) = (code d == c) || contains c s

abbrev push_char : Char → List String → List String
push_char c [] = []
push_char c (s ∷ parts) = String.◌∷◌ c s ∷ parts

-- `s.split(sep)` for a separator of one character.
unfoldable pub split : ℕ → String → List String
split c String.[] = "" ∷ []
split c (String.◌∷◌ d s) =
    let rest = split c s in if code d == c then "" ∷ rest else push_char d rest

abbrev last_or : String → List String → String
last_or d [] = d
last_or d (s ∷ parts) = last_or s parts

abbrev is_component : String → Bool
is_component s = not (str_eq s "") && not (str_eq s ".")

-- `PurePath(s).name`: empty components and single dots are dropped.
unfoldable pub path_name : String → String
unfolding split
path_name s = last_or "" (select is_component (split 47 s))

-- From the last dot on, if one is there.
unfoldable pub from_dot : String → Option String
from_dot String.[] = none
from_dot (String.◌∷◌ c s) = elim (from_dot s) [
  | some rest ↦ some rest
  | none ↦ if code c == 46 then some (String.◌∷◌ c s) else none
]

-- A name that begins or ends with its last dot has no suffix.
abbrev suffix_in : Option String → String
suffix_in none = ""
suffix_in (some s) = if str_eq s "." then "" else s

abbrev name_suffix : String → String
name_suffix String.[] = ""
name_suffix (String.◌∷◌ c s) = suffix_in (from_dot s)

-- `PurePath(s).suffix`
abbrev pub path_suffix : String → String
path_suffix s = name_suffix (path_name s)

-- `s.lower()` on the ASCII letters. No other character has `t`, `i` or `f` in its lower case.
unfoldable pub lower : String → String
lower String.[] = ""
lower (String.◌∷◌ c s) =
    let rest = lower s in
    if leb 65 (code c) && leb (code c) 90
    then append (slice "abcdefghijklmnopqrstuvwxyz" (code c - 65) (code c - 64)) rest
    else String.◌∷◌ c rest

split_whole : (s : String) → contains 47 s ≡ false → split 47 s ≡ s ∷ []
unfolding contains split
split_whole String.[] h = refl
split_whole (String.◌∷◌ c s) h = ground (arith, split_whole s)

-- A name without a slash is its own last component, except the empty name and the dot.
pub path_name_whole :
    (s : String)
    → contains 47 s ≡ false
    → path_name s ≡ (if not (str_eq s "") && not (str_eq s ".") then s else "")
unfolding path_name
path_name_whole s h = rw (split_whole s h) (ground arith)
