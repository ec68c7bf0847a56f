-- ===== src/Irc/Modes.antt =====
-- `modeSet` of irc.go: a string without repeated bytes.
pub mod Set
use mathlib.Core.Option
use soju.Prelude.{
  ℕ, zero, suc, ◌+◌, ◌/◌, ◌%◌, ltb, ◌≡◌, refl, Bool, true, false, ◌||◌, Option, none, some, List,
  [], ◌∷◌, ◌++◌, arith, ◌==◌, if◌then◌else◌, contains, Bool-cases, take, drop,
}
use soju.Prelude.Text.{Str}
use soju.Prelude.Strings.{index_byte}
use soju.Irc.Result.{Result, ok, err, malformed_modes, Step}

unfoldable pub has : Str → ℕ → Bool
unfolding index_byte
has ms c = elim (index_byte ms c) [ none ↦ false | some _ ↦ true ]

-- `modeSet(c)` on a byte: the UTF-8 of that code point.
abbrev pub of_byte : ℕ → Str
of_byte c = if ltb c 128 then c ∷ [] else (192 + c / 64) ∷ (128 + c % 64) ∷ []

unfoldable pub add : Str → ℕ → Str
unfolding has
add ms c = if has ms c then ms else ms ++ of_byte c

-- `(*ms)[:i] + (*ms)[i+1:]`
unfoldable pub del : Str → ℕ → Str
unfolding index_byte
del ms c = elim (index_byte ms c) [ none ↦ ms | some i ↦ take i ms ++ drop (suc i) ms ]

-- The sign in force; `none` is the zero byte before the first sign.
pub data Sign : Type 0 where
  plus minus : Sign

-- The loop of `Apply`: the modes so far are kept also where it fails. `whole` is the text that the
-- error names.
unfoldable pub apply_from : Str → Option Sign → Str → Str → Step Str (Unit {0})
unfolding add del
apply_from whole sign ms [] = (ok tt, ms)
apply_from whole sign ms (c ∷ s) =
    let next : Option Sign =
      if c == b'+' then some plus else if c == b'-' then some minus else sign in
    let signed = c == b'+' || c == b'-' in
    let ms' : Str =
      if signed
      then ms
      else elim sign [ none ↦ ms | some plus ↦ add ms c | some minus ↦ del ms c ] in
    let rest = apply_from whole next ms' s in
    if signed then rest else elim sign [ none ↦ (err (malformed_modes whole), ms) | some _ ↦ rest ]

unfoldable pub apply : Str → Str → Step Str (Unit {0})
apply ms s = apply_from s none ms s
