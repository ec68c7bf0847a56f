-- ===== src/Prelude/Int.antt =====
-- int64 values, and their decimal notation.
use Prim.Native.Nat.{ℕ, zero, suc, ◌+◌, ◌-◌, ◌*◌, ◌^◌}
use mathlib.Core.Bool.{◌&&◌}
use mathlib.Core.Option
use mathlib.Core.Option.{Option, none, some}
use mathlib.Core.List.{[], ◌∷◌}
use soju.Prelude.Tests.{◌==◌, leb, ltb, if◌then◌else◌}
use soju.Prelude.Text.{Str}

-- `negsuc n` is -(n + 1).
pub data ℤ : Type 0 where
  pos : ℕ → ℤ
  negsuc : ℕ → ℤ

-- The digits are read up to the first overflow of uint64.
digits : ℕ → Str → Option ℕ
digits n [] = some n
digits n (c ∷ s) =
    let m = n * 10 + (c - 48) in
    let rest = digits m s in
    let read = if leb (2 ^ 64) m then some m else rest in
    if leb 48 c && leb c 57 then read else none

unsigned : Str → Option ℕ
unsigned [] = none
unsigned (c ∷ s) = digits 0 (c ∷ s)

positive : ℕ → Option ℤ
positive n = if ltb n (2 ^ 63) then some (pos n) else none

negative : ℕ → Option ℤ
negative zero = some (pos 0)
negative (suc n) = if ltb n (2 ^ 63) then some (negsuc n) else none

-- `strconv.ParseInt(s, 10, 64)`; `none` is an error.
unfoldable pub parse_int : Str → Option ℤ
unfolding digits unsigned positive negative
parse_int [] = none
parse_int (c ∷ s) =
    if c == b'-'
    then Option.bind (unsigned s) negative
    else if c == b'+'
    then Option.bind (unsigned s) positive
    else Option.bind (unsigned (c ∷ s)) positive

largest : Option ℕ → ℤ
largest none = pos 0
largest (some n) = if ltb n (2 ^ 63) then pos n else pos (2 ^ 63 - 1)

smallest : Option ℕ → ℤ
smallest none = pos 0
smallest (some zero) = pos 0
smallest (some (suc n)) = if ltb n (2 ^ 63) then negsuc n else negsuc (2 ^ 63 - 1)

-- The number that `strconv.Atoi` returns, with an error or without one: 0 for a text that is no number,
-- and the nearest int64 for a number out of range.
unfoldable pub nearest_int : Str → ℤ
unfolding digits unsigned largest smallest
nearest_int [] = pos 0
nearest_int (c ∷ s) =
    if c == b'-'
    then smallest (unsigned s)
    else if c == b'+'
    then largest (unsigned s)
    else largest (unsigned (c ∷ s))
