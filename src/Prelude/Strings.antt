-- ===== src/Prelude/Strings.antt =====
-- What the program uses of package strings, over bytes. Case mapping and white space are those of
-- ASCII, where the program's own keywords lie.
use Prim.Native.Nat.{ℕ, suc, ◌+◌, ◌-◌}
use mathlib.Core.Bool.{Bool, ◌&&◌, ◌||◌}
use mathlib.Core.Option
use mathlib.Core.Option.{Option, none, some}
use mathlib.Core.List.{List, [], ◌∷◌, ◌++◌}
use soju.Prelude.Tests.{◌==◌, leb, if◌then◌else◌}
use soju.Prelude.Text.{Str, str_eq}

-- `strings.IndexByte`; `none` is -1.
unfoldable pub index_byte : Str → ℕ → Option ℕ
index_byte [] c = none
index_byte (x ∷ s) c = if x == c then some 0 else Option.map (λ (i : ℕ). suc i) (index_byte s c)

cons_head : ℕ → List Str → List Str
cons_head c [] = (c ∷ []) ∷ []
cons_head c (w ∷ ws) = (c ∷ w) ∷ ws

-- The pieces of a text between the bytes that pass a test; always one at least.
unfoldable pub split_at : (ℕ → Bool) → Str → List Str
unfolding cons_head
split_at sep [] = [] ∷ []
split_at sep (c ∷ s) = let rest = split_at sep s in if sep c then [] ∷ rest else cons_head c rest

-- `strings.Split` at a separator of one byte.
abbrev pub split : Str → ℕ → List Str
split s sep = split_at (λ c. c == sep) s

abbrev pub is_space : ℕ → Bool
is_space c = c == 32 || leb 9 c && leb c 13

unfoldable pub drop_empty : List Str → List Str
drop_empty [] = []
drop_empty ([] ∷ ws) = drop_empty ws
drop_empty ((c ∷ w) ∷ ws) = (c ∷ w) ∷ drop_empty ws

-- `strings.Fields`
unfoldable pub fields : Str → List Str
unfolding split_at drop_empty
fields s = drop_empty (split_at is_space s)

unfoldable pub to_upper : Str → Str
to_upper [] = []
to_upper (c ∷ s) = (if leb b'a' c && leb c b'z' then c - 32 else c) ∷ to_upper s

unfoldable pub to_lower : Str → Str
to_lower [] = []
to_lower (c ∷ s) = (if leb b'A' c && leb c b'Z' then c + 32 else c) ∷ to_lower s

-- `strings.EqualFold`
unfoldable pub equal_fold : Str → Str → Bool
unfolding to_lower str_eq
equal_fold s t = str_eq (to_lower s) (to_lower t)

-- `strings.SplitN(s, sep, 2)`: what stands before the first separator, and what stands behind it.
unfoldable pub split_first : Str → ℕ → Str × Option Str
split_first [] sep = ([], none)
split_first (c ∷ s) sep =
    let (before, behind) = split_first s sep in
    if c == sep then ([], some s) else (c ∷ before, behind)

-- `strings.Join` with a space.
unfoldable pub join : List Str → Str
join [] = []
join (w ∷ []) = w
join (w ∷ v ∷ ws) = w ++ (32 ∷ join (v ∷ ws))
