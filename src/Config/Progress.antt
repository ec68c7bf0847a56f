-- ===== src/Config/Progress.antt =====
-- The fuel of the parser is enough: each step of its loops reads a rune.
use soju.Prelude.{
  ℕ, zero, suc, ◌+◌, ◌≤◌, ◌<◌, ◌≡◌, ◌≢◌, refl, Bool, true, false, List, [], ◌∷◌, ◌++◌, arith,
  length, Bool-cases, inl, inr, ◌==◌, if◌then◌else◌, not, ◌||◌,
}
use soju.Prelude.Text.{Str}
use soju.Config.{
  End, eof, broken, at_end, out_of_fuel, Result, ok, err, ◌>>=◌, Directive, skip_space, atom,
  atom_end, read_params, next_param, with_name, directive, file, next_directive, is_space,
}

-- A parser that reads `least` runes at least of the `n` that there are, and does not run out of fuel.
abbrev Reads : {A : Type 0} → ℕ → ℕ → Result (A × Str) → Type 0
Reads least n (ok (a, rest)) = length rest + least ≤ n
Reads least n (err e) = e ≢ out_of_fuel

abbrev Leaves : ℕ → Result Str → Type 0
Leaves n (ok rest) = length rest ≤ n
Leaves n (err e) = e ≢ out_of_fuel

Leaves-weaken : (m n : ℕ) (r : Result Str) → m ≤ n → Leaves m r → Leaves n r
Leaves-weaken m n (ok rest) b h = omega arith
Leaves-weaken m n (err e) b h = h

Reads-weaken : {A : Type 0} (m n : ℕ) (r : Result (A × Str)) → m ≤ n → Reads 0 m r → Reads 0 n r
Reads-weaken m n (ok (a, rest)) b h = omega arith
Reads-weaken m n (err e) b h = h

skip_space_lem : (e : End) (s : Str) → Leaves (length s) (skip_space e s)
unfolding skip_space
skip_space_lem eof [] = omega arith
skip_space_lem broken [] = λ h. cc
skip_space_lem e (c ∷ s) = go (skip_space_lem e s) (not (is_space c) || c == b'\n')
  where
    go :
        Leaves (length s) (skip_space e s)
        → (b : Bool) → Leaves (suc (length s)) (if b then ok (c ∷ s) else skip_space e s)
    go h true = omega arith
    go h false = Leaves-weaken (length s) (suc (length s)) (skip_space e s) (omega arith) h

-- After a space that is no newline, a rune has been skipped.
skip_space_blank :
    (e : End) (c : ℕ) (s : Str)
    → is_space c ≡ true
    → (c == b'\n') ≡ false
    → skip_space e (c ∷ s) ≡ skip_space e s
unfolding skip_space
skip_space_blank e c s h k = rw h (rw k refl)

atom_end_lem : (e : End) (sb : Str) → Reads 0 0 (atom_end e sb)
atom_end_lem e [] = λ h. cc
atom_end_lem eof (c ∷ sb) = omega arith
atom_end_lem broken (c ∷ sb) = λ h. cc

skipped : (n : ℕ) (sb : Str) (r : Result Str) → Leaves n r → Reads 0 n (do s ← r; ok (sb, s))
skipped n sb (ok s) h = omega arith
skipped n sb (err e) h = h

atom_lem : (e : End) (sb s : Str) → Reads 0 (length s) (atom e sb s)
unfolding atom
atom_lem e sb [] = atom_end_lem e sb
atom_lem e sb (c ∷ s) = go (atom_lem e (sb ++ c ∷ []) s) (is_space c)
  where
    go :
        Reads 0 (length s) (atom e (sb ++ c ∷ []) s)
        → (b : Bool)
        → Reads 0
            (suc (length s))
            (if b then (do s' ← skip_space e (c ∷ s); ok (sb, s')) else atom e (sb ++ c ∷ []) s)
    go h true = skipped (suc (length s)) sb (skip_space e (c ∷ s)) (skip_space_lem e (c ∷ s))
    go h false = Reads-weaken (length s) (suc (length s)) (atom e (sb ++ c ∷ []) s) (omega arith) h

suc-Reads : {A : Type 0} (n : ℕ) (r : Result (A × Str)) → Reads 0 n r → Reads 1 (suc n) r
suc-Reads n (ok (a, rest)) h = omega arith
suc-Reads n (err e) h = h

suc-skipped :
    (n : ℕ) (sb : Str) (r : Result Str) → Leaves n r → Reads 1 (suc n) (do s ← r; ok (sb, s))
suc-skipped n sb (ok s) h = omega arith
suc-skipped n sb (err e) h = h

-- An atom that does not begin at a newline reads one rune at least.
atom-Reads :
    (e : End) (sb : Str) (c : ℕ) (s : Str)
    → (c == b'\n') ≡ false
    → Reads 1 (suc (length s)) (atom e sb (c ∷ s))
unfolding atom
atom-Reads e sb c s k = elim (Bool-cases (is_space c)) [
  | inl blank ↦ rw blank (
      rw (skip_space_blank e c s blank k)
        (suc-skipped (length s) sb (skip_space e s) (skip_space_lem e s)))
  | inr other ↦
      rw other (suc-Reads (length s) (atom e (sb ++ c ∷ []) s) (atom_lem e (sb ++ c ∷ []) s))
]

next_param_lem :
    (n : ℕ) (r : Result (Str × Str)) (rest : Str → Result (List Str × Str))
    → Reads 1 (suc n) r
    → ((s : Str) → length s ≤ n → Reads 0 (length s) (rest s))
    → Reads 0 (suc n) (next_param r rest)
next_param_lem n (ok (p, s)) rest h k = go (rest s) (k s (omega arith))
  where
    go :
        (q : Result (List Str × Str))
        → Reads 0 (length s) q
        → Reads 0 (suc n) (do (ps, s') ← q; ok (p ∷ ps, s'))
    go (ok (ps, s')) l = omega arith
    go (err e) l = l
next_param_lem n (err (at_end eof)) rest h k = omega arith
next_param_lem n (err (at_end broken)) rest h k = λ e. cc
next_param_lem n (err _) rest h k = λ e. cc

read_params_lem :
    (fuel : ℕ) (e : End) (s : Str) → length s < fuel → Reads 0 (length s) (read_params fuel e s)
unfolding read_params
read_params_lem zero e s h = absurd (omega arith)
read_params_lem (suc fuel) eof [] h = omega arith
read_params_lem (suc fuel) broken [] h = λ x. cc
read_params_lem (suc fuel) e (c ∷ s) h = elim (Bool-cases (c == b'\n')) [
  | inl line ↦ rw line (omega arith)
  | inr other ↦ rw other (
      next_param_lem (length s) (atom e [] (c ∷ s)) (λ s'. read_params fuel e s')
        (atom-Reads e [] c s other) (λ s' b. read_params_lem fuel e s' (omega arith)))
]

with_name_lem :
    (n : ℕ) (r : Result (Str × Str)) (rest : Str → Result (List Str × Str))
    → Reads 1 n r
    → ((s : Str) → length s < n → Reads 0 (length s) (rest s))
    → Reads 1 n (with_name r rest)
with_name_lem n (ok (name, s)) rest h k = go (rest s) (k s (omega arith))
  where
    go :
        (q : Result (List Str × Str))
        → Reads 0 (length s) q
        → Reads {A = Directive} 1 n (do (ps, s') ← q; ok (record { name = name; params = ps }, s'))
    go (ok (ps, s')) l = omega arith
    go (err e) l = l
with_name_lem n (err (at_end eof)) rest h k = λ e. cc
with_name_lem n (err (at_end broken)) rest h k = λ e. cc
with_name_lem n (err _) rest h k = λ e. cc

-- A line that is empty is a directive without a name and without parameters.
pub directive-newline :
    (fuel : ℕ) (e : End) (c : ℕ) (s : Str)
    → (c == b'\n') ≡ true
    → directive (suc fuel) e (c ∷ s) ≡ ok (record { name = []; params = [] }, s)
unfolding atom skip_space read_params
directive-newline fuel e c s h = ground arith

directive_lem :
    (fuel : ℕ) (e : End) (c : ℕ) (s : Str)
    → length s < fuel
    → Reads 1 (suc (length s)) (directive (suc fuel) e (c ∷ s))
directive_lem fuel e c s h = elim (Bool-cases (c == b'\n')) [
  | inl line ↦ rw (directive-newline fuel e c s line) (omega arith)
  | inr other ↦
      with_name_lem (suc (length s)) (atom e [] (c ∷ s)) (λ s'. read_params (suc fuel) e s')
        (atom-Reads e [] c s other) (λ s' b. read_params_lem (suc fuel) e s' (omega arith))
]

next_directive_lem :
    (n : ℕ) (r : Result (Directive × Str)) (rest : Str → Result (List Directive))
    → Reads 1 n r
    → ((s : Str) → length s < n → rest s ≢ err out_of_fuel)
    → next_directive r rest ≢ err out_of_fuel
next_directive_lem n (ok (d, s)) rest h k e = go (rest s) (k s (omega arith)) e
  where
    go :
        (q : Result (List Directive))
        → q ≢ err out_of_fuel
        → (do ds ← q; ok (d ∷ ds)) ≢ err out_of_fuel
    go (ok ds) l x = cc
    go (err y) l x = l x
next_directive_lem n (err (at_end eof)) rest h k e = cc
next_directive_lem n (err (at_end broken)) rest h k e = cc
next_directive_lem n (err out_of_fuel) rest h k e = h refl
next_directive_lem n (err _) rest h k e = cc

file-nil : (fuel : ℕ) (e : End) → file (suc fuel) e [] ≢ err out_of_fuel
unfolding file atom
file-nil fuel eof x = cc
file-nil fuel broken x = cc

-- With fuel for one step more than there are runes, the parser of a file ends by itself on every text,
-- whether it is well formed or not and however the reader ends.
pub file-ends : (fuel : ℕ) (e : End) (s : Str) → length s < fuel → file fuel e s ≢ err out_of_fuel
unfolding file
file-ends zero e s h = absurd (omega arith)
file-ends (suc fuel) e [] h = file-nil fuel e
file-ends (suc fuel) e (c ∷ s) h =
    next_directive_lem (suc (length s)) (directive (suc fuel) e (c ∷ s)) (λ s'. file fuel e s')
      (directive_lem fuel e c s (omega arith)) (λ s' b. file-ends fuel e s' (omega arith))
