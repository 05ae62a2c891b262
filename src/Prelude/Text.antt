-- ===== src/Prelude/Text.antt =====
-- Texts by their characters, as far as the strings package of Go reads them so.
use Prim.Native.Char.{code}
use Prim.Native.String
use Prim.Native.String.{String}
use mathlib.Core.Option.{Option, none, some}
use mathlib.Core.List.{List, [], ◌∷◌}
use Prim.Native.Nat.{ℕ, ◌+◌}
use mathlib.Core.Bool.{Bool, true, false, ◌||◌, ◌&&◌}
use kubeturbo.Prelude.Tests.{leb, nat_beq, if◌then◌else◌}

-- The text before and after the last character of that code: `s[:i]` and `s[i+1:]`, where `i` is
-- `strings.LastIndex(s, sep)` with a text of one character.
unfoldable pub cut_last : ℕ → String → Option (String × String)
cut_last sep String.[] = none
cut_last sep (String.◌∷◌ c s) = elim (cut_last sep s) [
  | some (before, after) ↦ some (String.◌∷◌ c before, after)
  | none ↦ if nat_beq (code c) sep then some (String.[], s) else none
]

unfoldable pub before_first : String → List String → List String
before_first c [] = c ∷ []
before_first c (part ∷ parts) = String.◌++◌ c part ∷ parts

-- `strings.Split` by the character of that code.
unfoldable pub split : ℕ → String → List String
split sep String.[] = String.[] ∷ []
split sep (String.◌∷◌ c s) =
    let rest = split sep s in
    if nat_beq (code c) sep then String.[] ∷ rest else before_first (String.◌∷◌ c String.[]) rest

-- `unicode.IsSpace`, by the code of the character.
unfoldable pub is_space : ℕ → Bool
is_space c =
    (leb 9 c && leb c 13)
    || nat_beq c 32
    || nat_beq c 133
    || nat_beq c 160
    || nat_beq c 5760
    || (leb 8192 c && leb c 8202)
    || nat_beq c 8232
    || nat_beq c 8233
    || nat_beq c 8239
    || nat_beq c 8287
    || nat_beq c 12288

unfoldable pub trim_left : String → String
trim_left String.[] = String.[]
trim_left (String.◌∷◌ c s) =
    let rest = trim_left s in if is_space (code c) then rest else String.◌∷◌ c s

unfoldable pub trim_right : String → String
trim_right String.[] = String.[]
trim_right (String.◌∷◌ c s) = elim (trim_right s) [
  | String.[] ↦ if is_space (code c) then String.[] else String.◌∷◌ c String.[]
  | String.◌∷◌ d t ↦ String.◌∷◌ c (String.◌∷◌ d t)
]

-- `strings.TrimSpace`
abbrev pub trim_space : String → String
trim_space s = trim_left (trim_right s)

-- The code of a letter under simple case folding, on the characters that fold to an ASCII letter:
-- 383 is the long s and 8490 the Kelvin sign.
unfoldable pub fold_code : ℕ → ℕ
fold_code c =
    if leb 65 c && leb c 90
    then c + 32
    else if nat_beq c 383
    then 115
    else if nat_beq c 8490
    then 107
    else c

-- `strings.EqualFold`, exact where one of the texts is of ASCII characters.
unfoldable pub equal_fold : String → String → Bool
unfolding fold_code
equal_fold String.[] String.[] = true
equal_fold String.[] (String.◌∷◌ d t) = false
equal_fold (String.◌∷◌ c s) String.[] = false
equal_fold (String.◌∷◌ c s) (String.◌∷◌ d t) =
    let rest = equal_fold s t in
    if nat_beq (fold_code (code c)) (fold_code (code d)) then rest else false
