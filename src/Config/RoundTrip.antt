-- ===== src/Config/RoundTrip.antt =====
-- The configuration parser reads what has been printed, and what it makes of an empty line.
use soju.Prelude.{
  ℕ, zero, suc, ◌+◌, ◌<◌, ◌≡◌, ◌≢◌, refl, sym, ap, ◌∙◌, false, Option, none, some, List, [], ◌∷◌,
  ◌++◌, append_assoc, append-nil, arith, length, length-append, All, ◌==◌,
}
use soju.Prelude.Text.{Str, codes, str_eq}
use soju.Config.{
  End, eof, Result, ok, err, ◌>>=◌, Directive, Server, Tls, skip_space, atom, read_params, defaults,
  directives_of, directive, file, is_space, set_directive, set_all, parse,
}
use soju.Config.Progress.{directive-newline}
use soju.Config.Print.{
  IsWord, IsPrintable, print_params, after_space, print, directives, IsTlsPrintable,
  IsServerPrintable,
}

module _ (e : End) where
  -- What stands behind a word begins with a space or a newline, and the space is skipped.
  skip_space-print_params :
      (ps : List Str) (more : Str)
      → All IsWord ps
      → skip_space e (print_params ps ++ more) ≡ ok (after_space ps ++ more)
  unfolding skip_space print_params
  skip_space-print_params [] more h = refl
  skip_space-print_params ([] ∷ ps) more h = absurd h.0
  skip_space-print_params ((c ∷ p) ∷ ps) more h = ground (arith, h.0.0)

  atom-print_params :
      (sb : Str) (ps : List Str) (more : Str)
      → All IsWord ps
      → atom e sb (print_params ps ++ more) ≡ ok (sb, after_space ps ++ more)
  unfolding atom print_params
  atom-print_params sb [] more h = rw (skip_space-print_params [] more h) refl
  atom-print_params sb (p ∷ ps) more h = rw (skip_space-print_params (p ∷ ps) more h) refl

  atom-append :
      (sb w : Str) (ps : List Str) (more : Str)
      → All (λ c. is_space c ≡ false) w
      → All IsWord ps
      → atom e sb (w ++ (print_params ps ++ more)) ≡ ok (sb ++ w, after_space ps ++ more)
  unfolding atom
  atom-append sb [] ps more h k = rw append-nil (atom-print_params sb ps more k)
  atom-append sb (c ∷ w) ps more h k = rw h.0 (
      atom-append (sb ++ c ∷ []) w ps more h.1 k
      ∙ ap (λ (x : Str). ok (x, after_space ps ++ more)) (append_assoc sb (c ∷ []) w))

  IsWord-plain : (w : Str) → IsWord w → All (λ c. is_space c ≡ false) w
  IsWord-plain [] h = absurd h
  IsWord-plain (c ∷ w) h = h

  read_params-after_space :
      (fuel : ℕ) (ps : List Str) (more : Str)
      → All IsWord ps
      → length ps < fuel
      → read_params fuel e (after_space ps ++ more) ≡ ok (ps, more)
  unfolding read_params
  read_params-after_space zero ps more h b = absurd (omega arith)
  read_params-after_space (suc fuel) [] more h b = refl
  read_params-after_space (suc fuel) ([] ∷ ps) more h b = absurd h.0
  read_params-after_space (suc fuel) ((c ∷ p) ∷ ps) more h b =
      let line : (c == b'\n') ≡ false = ground (arith, h.0.0) in
      rw line (
        rw (append_assoc (c ∷ p) (print_params ps) more) (
          rw (atom-append [] (c ∷ p) ps more h.0 h.1)
            (rw (read_params-after_space fuel ps more h.1 (omega arith)) refl)))

  length-print_params : (ps : List Str) → length ps < length (print_params ps)
  unfolding print_params
  length-print_params [] = omega arith
  length-print_params (p ∷ ps) =
      omega (arith, length-print_params ps, length-append p (print_params ps))

  directive-print :
      (fuel : ℕ) (d : Directive) (more : Str)
      → IsPrintable d
      → length d.params < fuel
      → directive fuel e (d.name ++ (print_params d.params ++ more)) ≡ ok (d, more)
  directive-print fuel d more h b =
      rw (atom-append [] d.name d.params more (IsWord-plain d.name h.0) h.1)
        (rw (read_params-after_space fuel d.params more h.1 b) refl)

  -- Directives that have been printed are read first, and the rest of the text then.
  file-print :
      (fuel : ℕ) (ds : List Directive) (more : Str)
      → All IsPrintable ds
      → length (print ds ++ more) < fuel
      → (fuel' : ℕ) × (length more < fuel')
        × (file fuel e (print ds ++ more) ≡ (do rest ← file fuel' e more; ok (ds ++ rest)))
  unfolding print file
  file-print fuel [] more h b = (fuel, b, go (file fuel e more))
    where
      go : (r : Result (List Directive)) → r ≡ (do rest ← r; ok rest)
      go (ok ds) = refl
      go (err x) = refl
  file-print zero (d ∷ ds) more h b = absurd (omega arith)
  file-print (suc fuel) (d ∷ ds) more h b =
      let rest : Str = print ds ++ more in
      let split : print (d ∷ ds) ++ more ≡ d.name ++ (print_params d.params ++ rest) =
        append_assoc d.name (print_params d.params ++ print ds) more
        ∙ ap (λ (x : Str). d.name ++ x) (append_assoc (print_params d.params) (print ds) more) in
      let size : length d.name + (length (print_params d.params) + length rest) < suc fuel = omega (
        arith,
        b,
        ap (λ (x : Str). length x) split,
        length-append d.name (print_params d.params ++ rest),
        length-append (print_params d.params) rest,
      ) in
      let (fuel', enough, later) =
        file-print fuel ds more h.1 (omega (arith, length-print_params d.params)) in
      (fuel', enough, ap (λ (x : Str). file (suc fuel) e x) split ∙ first fuel' rest size later)
    where
      push :
          (r : Result (List Directive))
          → (do x ← (do y ← r; ok (ds ++ y)); ok (d ∷ x)) ≡ (do y ← r; ok (d ∷ (ds ++ y)))
      push (ok y) = refl
      push (err x) = refl

      first :
          (fuel' : ℕ) (rest : Str)
          → length d.name + (length (print_params d.params) + length rest) < suc fuel
          → file fuel e rest ≡ (do r ← file fuel' e more; ok (ds ++ r))
          → file (suc fuel) e (d.name ++ (print_params d.params ++ rest))
            ≡ (do r ← file fuel' e more; ok (d ∷ (ds ++ r)))
      first fuel' rest size later =
          rw
            (directive-print (suc fuel) d rest h.0
              (omega (arith, size, length-print_params d.params)))
            (rw later (push (file fuel' e more)))

file-nothing : (n : ℕ) → 0 < n → file n eof [] ≡ ok []
unfolding file atom
file-nothing zero b = absurd (omega arith)
file-nothing (suc n) b = refl

-- Printed directives are read back, each with its name and parameters.
pub file_lem :
    (fuel : ℕ) (ds : List Directive)
    → All IsPrintable ds
    → length (print ds) < fuel
    → file fuel eof (print ds) ≡ ok ds
file_lem fuel ds h b =
    let (fuel', enough, run) =
      file-print eof fuel ds [] h (omega (arith, b, length-append (print ds) [])) in
    ap (λ (x : Str). file fuel eof x) (sym (append-nil (print ds)))
    ∙ run
    ∙ rw (file-nothing fuel' enough) (ap (λ (x : List Directive). ok x) (append-nil ds))

set_all-directives : (base srv : Server) → base.tls ≡ none → set_all base (directives srv) ≡ ok srv
unfolding set_all set_directive str_eq
set_all-directives base srv e = go srv.tls
  where
    go :
        (t : Option Tls)
        → set_all base (directives (record srv { tls = t })) ≡ ok (record srv { tls = t })
    go none = ap (λ (t : Option Tls). ok (record srv { tls = t })) e
    go (some t) = refl

listen-IsWord : IsWord (codes "listen")
listen-IsWord = (refl, (refl, (refl, (refl, (refl, (refl, tt))))))

hostname-IsWord : IsWord (codes "hostname")
hostname-IsWord = (refl, (refl, (refl, (refl, (refl, (refl, (refl, (refl, tt))))))))

IsPrintable-directives : (srv : Server) → IsServerPrintable srv → All IsPrintable (directives srv)
IsPrintable-directives srv h = (
  (listen-IsWord, (h.addr, tt)),
  (
    (hostname-IsWord, (h.hostname, tt)),
    (((refl, (refl, (refl, tt))), (h.sql_driver, (h.sql_source, tt))), with_tls srv.tls h.tls),
  ),
)
  where
    with_tls :
        (t : Option Tls)
        → IsTlsPrintable t
        → All IsPrintable (elim t [
          | none ↦ []
          | some x ↦ record { name = codes "tls"; params = x.cert_path ∷ x.key_path ∷ [] } ∷ []
        ])
    with_tls none p = tt
    with_tls (some x) p = (((refl, (refl, (refl, tt))), (p.0, (p.1, tt))), tt)

-- A configuration is read back from its printed directives, whatever the system says the hostname is, if
-- each of its texts is a word.
pub parse-print :
    (hostname : Option Str) (srv : Server)
    → IsServerPrintable srv
    → parse hostname eof (print (directives srv)) ≡ ok srv
unfolding parse
parse-print hostname srv h =
    rw
      (file_lem (suc (length (print (directives srv)))) (directives srv)
        (IsPrintable-directives srv h) (omega arith))
      (set_all-directives (defaults hostname) srv refl)

set_all-unnamed :
    (srv srv' : Server) (ds rest : List Directive)
    → set_all srv (ds ++ record { name = []; params = [] } ∷ rest) ≢ ok srv'
unfolding set_all set_directive str_eq
set_all-unnamed srv srv' [] rest e = cc
set_all-unnamed srv srv' (d ∷ ds) rest e =
    go (λ v. set_all-unnamed v srv' ds rest) (set_directive srv d) e
  where
    remaining : List Directive
    remaining = ds ++ record { name = []; params = [] } ∷ rest

    go :
        ((v : Server) → set_all v remaining ≢ ok srv')
        → (r : Result Server) → (do v ← r; set_all v remaining) ≢ ok srv'
    go ih (ok v) x = ih v x
    go ih (err y) x = cc

file-newline :
    (n : ℕ) (e : End) (more : Str)
    → file (suc n) e (b'\n' ∷ more)
      ≡ (do ds ← file n e more; ok (record { name = []; params = [] } ∷ ds))
unfolding file
file-newline n e more = rw (directive-newline n e b'\n' more refl) refl

unnamed-refused :
    (base srv : Server) (ds : List Directive) (r : Result (List Directive))
    → (do
      all ←
          directives_of
            (do y ← (do rest ← r; ok (record { name = []; params = [] } ∷ rest)); ok (ds ++ y))
      set_all base all)
      ≢ ok srv
unnamed-refused base srv ds (ok rest) x = set_all-unnamed base srv ds rest x
unnamed-refused base srv ds (err e) x = cc

-- A file with an empty line, after any number of good lines, is never accepted.
pub parse-empty_line :
    (hostname : Option Str) (e : End) (ds : List Directive) (more : Str) (srv : Server)
    → All IsPrintable ds
    → parse hostname e (print ds ++ b'\n' ∷ more) ≢ ok srv
unfolding parse
parse-empty_line hostname e ds more srv h x =
    let (fuel', enough, run) =
      file-print e (suc (length (print ds ++ b'\n' ∷ more))) ds (b'\n' ∷ more) h (omega arith) in
    go fuel' enough run
  where
    go :
        (n : ℕ)
        → suc (length more) < n
        → file (suc (length (print ds ++ b'\n' ∷ more))) e (print ds ++ b'\n' ∷ more)
          ≡ (do rest ← file n e (b'\n' ∷ more); ok (ds ++ rest))
        → ⊥
    go zero b run = omega arith
    go (suc n) b run = unnamed-refused (defaults hostname) srv ds (file n e more) (
        rw
          (run
            ∙ ap (λ (r : Result (List Directive)). do rest ← r; ok (ds ++ rest))
                (file-newline n e more))
          at x)
