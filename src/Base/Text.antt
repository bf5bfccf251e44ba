-- ===== src/Base/Text.antt =====
-- Python's string methods that the program uses, on native strings.
use Prim.Native.Nat.{ℕ}
use Prim.Native.Char.{code}
use Prim.Native.String.{String, [], ◌∷◌, ◌++◌}
use mathlib.Core.Path.{◌≡◌, refl}
use mathlib.Core.Bool.{Bool, true, false, ◌&&◌, ◌||◌}
use mathlib.Core.List.{List}
use ciwarden.Base.Tests.{ltb, eqb, if◌then◌else◌}

-- str.isspace of one character.
abbrev pub is_space : ℕ → Bool
is_space c =
    eqb c 32
    || ltb 8 c && ltb c 14
    || ltb 27 c && ltb c 32
    || eqb c 133
    || eqb c 160
    || eqb c 5760
    || ltb 8191 c && ltb c 8203
    || eqb c 8232
    || eqb c 8233
    || eqb c 8239
    || eqb c 8287
    || eqb c 12288

-- not s.strip()
abbrev pub is_blank : String → Bool
is_blank [] = true
is_blank (c ∷ s) = is_space (code c) && is_blank s

-- chr(n) in s
abbrev pub has_code : ℕ → String → Bool
has_code n [] = false
has_code n (c ∷ s) = eqb (code c) n || has_code n s

abbrev pub is_empty : String → Bool
is_empty [] = true
is_empty (c ∷ s) = false

abbrev pub lstrip : String → String
lstrip [] = []
lstrip (c ∷ s) = let rest = lstrip s in if is_space (code c) then rest else c ∷ s

abbrev pub rstrip : String → String
rstrip [] = []
rstrip (c ∷ s) = let rest = rstrip s in if is_empty rest && is_space (code c) then [] else c ∷ rest

unfoldable pub strip : String → String
strip s = rstrip (lstrip s)

-- The separators of str.splitlines; a carriage return before a line feed makes one with it.
abbrev is_break : ℕ → Bool
is_break c = ltb 9 c && ltb c 14 || ltb 27 c && ltb c 31 || eqb c 133 || eqb c 8232 || eqb c 8233

-- The line being read is `line`; `after_cr` says that the last character was a carriage return.
abbrev split_from : String → Bool → String → List String
split_from line after_cr [] = if is_empty line then List.[] else List.◌∷◌ line List.[]
split_from line after_cr (c ∷ s) =
    let go_on = split_from line false s in
    let closed = List.◌∷◌ line (split_from [] (eqb (code c) 13) s) in
    let longer = split_from (line ++ c ∷ []) false s in
    if after_cr && eqb (code c) 10 then go_on else if is_break (code c) then closed else longer

unfoldable pub splitlines : String → List String
splitlines s = split_from [] false s

-- s.split(); `word` is the word being read.
abbrev pub words_from : String → String → List String
words_from word [] = if is_empty word then List.[] else List.◌∷◌ word List.[]
words_from word (c ∷ s) =
    let longer = words_from (word ++ c ∷ []) s in
    let next = words_from [] s in
    if is_space (code c) then (if is_empty word then next else List.◌∷◌ word next) else longer

-- sep.join(parts)
unfoldable pub join : String → List String → String
join sep List.[] = []
join sep (List.◌∷◌ x List.[]) = x
join sep (List.◌∷◌ x (List.◌∷◌ y ys)) = x ++ sep ++ join sep (List.◌∷◌ y ys)

splitlines_two : splitlines "ab\r\ncd\n" ≡ List.◌∷◌ "ab" (List.◌∷◌ "cd" List.[])
unfolding splitlines
splitlines_two = refl

strip_both : strip "  a b\n" ≡ "a b"
unfolding strip
strip_both = refl

-- s.startswith(prefix)
abbrev pub starts_with : String → String → Bool
starts_with [] s = true
starts_with (c ∷ prefix) [] = false
starts_with (c ∷ prefix) (d ∷ s) = eqb (code c) (code d) && starts_with prefix s

-- part in s
abbrev pub contains : String → String → Bool
contains part [] = starts_with part []
contains part (c ∷ s) = starts_with part (c ∷ s) || contains part s

-- s.split(chr(n)); `word` is the piece being read.
abbrev pieces_from : ℕ → String → String → List String
pieces_from n word [] = List.◌∷◌ word List.[]
pieces_from n word (c ∷ s) =
    let next = List.◌∷◌ word (pieces_from n [] s) in
    let longer = pieces_from n (word ++ c ∷ []) s in if eqb (code c) n then next else longer

unfoldable pub split : ℕ → String → List String
split n s = pieces_from n [] s

-- The third part of s.partition(chr(n)).
abbrev pub after_first : ℕ → String → String
after_first n [] = []
after_first n (c ∷ s) = if eqb (code c) n then s else after_first n s

-- len(s) >= 3
abbrev pub is_long : String → Bool
is_long (a ∷ b ∷ c ∷ s) = true
is_long s = false

-- s[3:]
abbrev pub drop_three : String → String
drop_three (a ∷ b ∷ c ∷ s) = s
drop_three s = []

split_both : split 44 "a,,b" ≡ List.◌∷◌ "a" (List.◌∷◌ "" (List.◌∷◌ "b" List.[]))
unfolding split
split_both = refl
