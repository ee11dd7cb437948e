-- ===== src/Prelude/Texts.antt =====
-- The parts of Go's `strings` that the program calls.
use Prim.Native.Char.{Char, code}
use Prim.Native.Nat.{ℕ, zero, suc, Ordering}
use Prim.Native.String.{String, ◌++◌, compare}
use text.Mathlib.Text.{◌==◌}
use mathlib.Core.Bool.{Bool, true, false, ◌&&◌, ◌||◌}
use mathlib.Core.Option.{Option, none, some}
use mathlib.Core.List.{List, [], ◌∷◌}
use aelora.Prelude.Tests.{eqb, leb, if◌then◌else◌, is_some, or_else}

-- `unicode.IsSpace`
pub is_space : Char → Bool
is_space ch =
    let c = code ch in
    (leb 9 c && leb c 13)
    || eqb c 32
    || eqb c 0x85
    || eqb c 0xa0
    || eqb c 0x1680
    || (leb 0x2000 c && leb c 0x200a)
    || eqb c 0x2028
    || eqb c 0x2029
    || eqb c 0x202f
    || eqb c 0x205f
    || eqb c 0x3000

trim_left : String → String
trim_left String.[] = String.[]
trim_left (String.◌∷◌ c s) = let rest = trim_left s in if is_space c then rest else String.◌∷◌ c s

trim_right : String → String
trim_right String.[] = String.[]
trim_right (String.◌∷◌ c s) =
    let rest = trim_right s in if (rest == "") && is_space c then String.[] else String.◌∷◌ c rest

-- `strings.TrimSpace`
unfoldable pub trim_space : String → String
unfolding trim_left trim_right is_space
trim_space s = trim_left (trim_right s)

-- Go's `+` on strings.
abbrev pub concat : String → String → String
concat s t = s ++ t

-- What stands behind a prefix.
abbrev pub cut_prefix : String → String → Option String
cut_prefix String.[] s = some s
cut_prefix (String.◌∷◌ c p) String.[] = none
cut_prefix (String.◌∷◌ c p) (String.◌∷◌ d s) =
    let rest = cut_prefix p s in if eqb (code c) (code d) then rest else none

-- `strings.HasPrefix(s, prefix)`
abbrev pub has_prefix : String → String → Bool
has_prefix s prefix = is_some (cut_prefix prefix s)

-- `strings.TrimPrefix(s, prefix)`
abbrev pub trim_prefix : String → String → String
trim_prefix s prefix = or_else (cut_prefix prefix s) s

-- A character put before the first text of a list.
abbrev onto_first : Char → List String → List String
onto_first c [] = String.◌∷◌ c String.[] ∷ []
onto_first c (first ∷ rest) = String.◌∷◌ c first ∷ rest

-- `strings.Split(s, sep)` at a one-character separator.
abbrev pub split : Char → String → List String
split sep String.[] = String.[] ∷ []
split sep (String.◌∷◌ c s) =
    let rest = split sep s in
    if eqb (code c) (code sep) then String.[] ∷ rest else onto_first c rest

-- `strings.Join(texts, sep)`
abbrev pub join : String → List String → String
join sep [] = ""
join sep (first ∷ []) = first
join sep (first ∷ second ∷ rest) = let later = join sep (second ∷ rest) in first ++ (sep ++ later)

-- Go's order of strings, and `sort.Strings`.
abbrev pub text_leb : String → String → Bool
text_leb s t = elim (compare s t) [ Ordering.gt ↦ false | _ ↦ true ]

abbrev insert_text : String → List String → List String
insert_text s [] = s ∷ []
insert_text s (t ∷ rest) =
    let later = insert_text s rest in if text_leb s t then s ∷ t ∷ rest else t ∷ later

abbrev pub sort_texts : List String → List String
sort_texts [] = []
sort_texts (s ∷ rest) = insert_text s (sort_texts rest)

-- `s[i]` of a text of one-byte characters; a zero where it has no such character.
abbrev pub char_at : String → ℕ → Char
char_at String.[] i = "0"
char_at (String.◌∷◌ c s) zero = c
char_at (String.◌∷◌ c s) (suc i) = char_at s i
