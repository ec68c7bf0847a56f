-- ===== src/Irc/Modes/Set.antt =====
-- A mode string stands for the set of its bytes.
use soju.Prelude.{
  ℕ, ◌<◌, ◌≡◌, ◌≢◌, refl, ap, Bool, true, false, not, ◌||◌, ◌&&◌, Option, none, some, [], ◌∷◌, ◌++◌,
  arith, ◌==◌, if◌then◌else◌, contains, contains-concat, IsDistinct, IsDistinct-concat, Bool-cases,
  All, ==_iff, inl, inr,
}
use soju.Prelude.Text.{Str}
use soju.Irc.Result.{ok, panic}
use soju.Irc.Modes.{has, add, del, Sign, plus, minus, apply_from, apply}

pub has-eq-contains : (ms : Str) (c : ℕ) → has ms c ≡ contains ms c
unfolding has
has-eq-contains [] c = refl
has-eq-contains (x ∷ ms) c = ground (arith, has-eq-contains ms c)

del-cons : (x : ℕ) (ms : Str) (c : ℕ) → del (x ∷ ms) c ≡ (if x == c then ms else x ∷ del ms c)
unfolding del
del-cons x ms c = ground arith

pub contains-add :
    (ms : Str) (c d : ℕ) → c < 128 → contains (add ms c) d ≡ (contains ms d || c == d)
unfolding add
contains-add ms c d small =
    ground (arith, has-eq-contains ms c, contains-concat ms c d, λ (e : c ≡ d). ap (contains ms) e)

pub add-IsDistinct : (ms : Str) (c : ℕ) → c < 128 → IsDistinct ms → IsDistinct (add ms c)
unfolding add
add-IsDistinct ms c small h = elim (Bool-cases (has ms c)) [
  | inl old ↦ rw old h
  | inr new ↦
      let e : add ms c ≡ ms ++ c ∷ [] = ground arith in
      rw e (IsDistinct-concat ms c h (ground (arith, has-eq-contains ms c)))
]

pub contains-del :
    (ms : Str) (c d : ℕ) → IsDistinct ms → contains (del ms c) d ≡ (contains ms d && not (c == d))
unfolding del
contains-del [] c d h = refl
contains-del (x ∷ ms) c d h = elim (Bool-cases (x == c)) [
  | inl here ↦
      let p : x ≡ c = (==_iff x c).0 here in
      ground (arith, del-cons x ms c, λ (e : x ≡ d). ap (contains ms) e, h.0)
  | inr there ↦ ground (arith, del-cons x ms c, contains-del ms c d h.1)
]

pub del-IsDistinct : (ms : Str) (c : ℕ) → IsDistinct ms → IsDistinct (del ms c)
unfolding del
del-IsDistinct [] c h = tt
del-IsDistinct (x ∷ ms) c h = elim (Bool-cases (x == c)) [
  | inl here ↦ rw (del-cons x ms c) (rw here h.1)
  | inr there ↦
      rw (del-cons x ms c)
        (rw there (ground (arith, contains-del ms c x h.1, h.0), del-IsDistinct ms c h.1))
]

-- The sign under which `Apply` last meets the mode `d`, if it meets it at all.
abbrev pub verdict : ℕ → Option Sign → Str → Option Sign
verdict d sign [] = none
verdict d sign (c ∷ s) =
    let next : Option Sign =
      if c == b'+' then some plus else if c == b'-' then some minus else sign in
    let here : Option Sign =
      if c == b'+' || c == b'-' then none else if c == d then sign else none in
    elim (verdict d next s) [ some v ↦ some v | none ↦ here ]

-- Whether a mode is set after a verdict.
abbrev pub settle : Bool → Option Sign → Bool
settle before none = before
settle before (some plus) = true
settle before (some minus) = false

-- The bytes of a text are ASCII.
abbrev pub IsAscii : Str → Type 0
IsAscii s = All (λ c. c < 128) s

-- What the loop does under a sign.
abbrev Applies : Str → Str → Str → Sign → Type 0
Applies whole s ms sign =
    (ms' : Str) × (apply_from whole (some sign) ms s ≡ (ok tt, ms'))
    × IsDistinct ms'
    × ((d : ℕ) → contains ms' d ≡ settle (contains ms d) (verdict d (some sign) s))

apply_from-Set :
    (whole s ms : Str) (sign : Sign) → IsAscii s → IsDistinct ms → Applies whole s ms sign
unfolding apply_from
apply_from-Set whole [] ms sign a h = (ms, refl, h, λ d. refl)
apply_from-Set whole (c ∷ s) ms sign a h = elim (Bool-cases (c == b'+')) [
  | inl p ↦
      let (ms', runs, d', sets) = apply_from-Set whole s ms plus a.1 h in
      (ms', ground (arith, runs), d', λ d. ground (arith, sets d))
  | inr np ↦ elim (Bool-cases (c == b'-')) [
    | inl m ↦
        let (ms', runs, d', sets) = apply_from-Set whole s ms minus a.1 h in
        (ms', ground (arith, runs), d', λ d. ground (arith, sets d))
    | inr nm ↦ elim sign as (λ sg. Applies whole (c ∷ s) ms sg) [
      | plus ↦
          let (ms', runs, d', sets) =
            apply_from-Set whole s (add ms c) plus a.1 (add-IsDistinct ms c a.0 h) in
          (ms', ground (arith, runs), d', λ d. ground (arith, sets d, contains-add ms c d a.0))
      | minus ↦
          let (ms', runs, d', sets) =
            apply_from-Set whole s (del ms c) minus a.1 (del-IsDistinct ms c h) in
          (ms', ground (arith, runs), d', λ d. ground (arith, sets d, contains-del ms c d h))
    ]
  ]
]

-- Whether a mode string begins with a sign.
abbrev pub is_signed : Str → Bool
is_signed [] = true
is_signed (c ∷ s) = c == b'+' || c == b'-'

-- `Apply` of an ASCII mode string that begins with a sign, or is empty, to modes of which none is stored
-- twice succeeds, and stores none twice: a mode is then set exactly if the last sign under which the
-- string names it is a plus, or if the string does not name it and it was set before.
pub apply-Set :
    (ms s : Str)
    → IsAscii s
    → is_signed s ≡ true
    → IsDistinct ms
    → (ms' : Str) × (apply ms s ≡ (ok tt, ms'))
      × IsDistinct ms'
      × ((d : ℕ) → contains ms' d ≡ settle (contains ms d) (verdict d none s))
unfolding apply apply_from
apply-Set ms [] a g h = (ms, refl, h, λ d. refl)
apply-Set ms (c ∷ s) a g h = elim (Bool-cases (c == b'+')) [
  | inl p ↦
      let (ms', runs, d', sets) = apply_from-Set (c ∷ s) s ms plus a.1 h in
      (ms', ground (arith, runs), d', λ d. ground (arith, sets d))
  | inr np ↦
      let (ms', runs, d', sets) = apply_from-Set (c ∷ s) s ms minus a.1 h in
      (ms', ground (arith, runs), d', λ d. ground (arith, sets d))
]

apply_from-safe : (whole s ms : Str) (sign : Option Sign) → (apply_from whole sign ms s).0 ≢ panic
unfolding apply_from
apply_from-safe whole [] ms sign e = cc
apply_from-safe whole (c ∷ s) ms none e =
    ground (arith, apply_from-safe whole s ms (some plus), apply_from-safe whole s ms (some minus))
apply_from-safe whole (c ∷ s) ms (some plus) e = ground (
  arith,
  apply_from-safe whole s ms (some plus),
  apply_from-safe whole s ms (some minus),
  apply_from-safe whole s (add ms c) (some plus),
)
apply_from-safe whole (c ∷ s) ms (some minus) e = ground (
  arith,
  apply_from-safe whole s ms (some plus),
  apply_from-safe whole s ms (some minus),
  apply_from-safe whole s (del ms c) (some minus),
)

pub apply-safe : (ms s : Str) → (apply ms s).0 ≢ panic
unfolding apply
apply-safe ms s = apply_from-safe s s ms none
