-- ===== src/Config.antt =====
-- config/config.go: the configuration file. The text is a list of runes, and `End` is what the reader
-- says behind the last of them; what stands before a read that failed has been read.
pub mod Progress
pub mod Print
pub mod RoundTrip
mod Tests
use soju.Prelude.{
  ℕ, zero, suc, Bool, true, false, not, ◌&&◌, ◌||◌, Option, none, some, List, [], ◌∷◌, ◌++◌, ◌==◌,
  leb, length, if◌then◌else◌,
}
use soju.Prelude.Text.{Str, codes, str_eq}

-- `io.EOF`, or another error of the reader.
pub data End : Type 0 where
  eof broken : End

-- `out_of_fuel` is of the model alone.
pub data Error : Type 0 where
  at_end : End → Error
  name_failed param_failed parse_failed : Error → Error
  wrong_params : Str → ℕ → ℕ → Error
  unknown_directive : Str → Error
  out_of_fuel : Error

pub data Result (A : Type 0) : Type 0 where
  ok : A → Result A
  err : Error → Result A

infixl 5 ◌>>=◌
abbrev pub ◌>>=◌ : {A B : Type 0} → Result A → (A → Result B) → Result B
err why >>= f = err why
ok a >>= f = f a

pub record Tls : Type 0 where
  pub cert_path : Str
  pub key_path : Str

pub record Server : Type 0 where
  pub addr : Str
  pub hostname : Str
  pub tls : Option Tls
  pub sql_driver : Str
  pub sql_source : Str

pub record Directive : Type 0 where
  pub name : Str
  pub params : List Str

-- `unicode.IsSpace`: the runes with the property White_Space.
abbrev pub is_space : ℕ → Bool
is_space c =
    leb 9 c && leb c 13
    || c == 32
    || c == 133
    || c == 160
    || c == 5760
    || leb 8192 c && leb c 8202
    || c == 8232
    || c == 8233
    || c == 8239
    || c == 8287
    || c == 12288

-- `skipSpace`, which does not pass a newline.
unfoldable pub skip_space : End → Str → Result Str
skip_space eof [] = ok []
skip_space broken [] = err (at_end broken)
skip_space e (c ∷ s) =
    let rest = skip_space e s in if not (is_space c) || c == b'\n' then ok (c ∷ s) else rest

-- The end of the text within an atom: EOF ends an atom that is not empty.
abbrev pub atom_end : End → Str → Result (Str × Str)
atom_end e [] = err (at_end e)
atom_end eof (c ∷ sb) = ok (c ∷ sb, [])
atom_end broken (c ∷ sb) = err (at_end broken)

-- `atom`, with what the builder holds already.
unfoldable pub atom : End → Str → Str → Result (Str × Str)
atom e sb [] = atom_end e sb
atom e sb (c ∷ s) =
    let rest = atom e (sb ++ c ∷ []) s in
    if is_space c then (do s' ← skip_space e (c ∷ s); ok (sb, s')) else rest

-- What the loop of `directive` does with the result of `atom`.
abbrev pub next_param :
    Result (Str × Str) → (Str → Result (List Str × Str)) → Result (List Str × Str)
next_param (ok (param, s)) rest = do (ps, s') ← rest s; ok (param ∷ ps, s')
next_param (err (at_end eof)) rest = ok ([], [])
next_param (err e) rest = err (param_failed e)

-- The loop of `directive` over the parameters.
unfoldable pub read_params : ℕ → End → Str → Result (List Str × Str)
read_params zero e s = err out_of_fuel
read_params (suc fuel) eof [] = ok ([], [])
read_params (suc fuel) broken [] = err (at_end broken)
read_params (suc fuel) e (c ∷ s) =
    let rest = next_param (atom e [] (c ∷ s)) (λ s'. read_params fuel e s') in
    if c == b'\n' then ok ([], s) else rest

abbrev pub with_name :
    Result (Str × Str) → (Str → Result (List Str × Str)) → Result (Directive × Str)
with_name (ok (name, s)) rest = do (ps, s') ← rest s; ok (record { name = name; params = ps }, s')
with_name (err (at_end eof)) rest = err (at_end eof)
with_name (err e) rest = err (name_failed e)

-- `directive`
abbrev pub directive : ℕ → End → Str → Result (Directive × Str)
directive fuel e s = with_name (atom e [] s) (λ s'. read_params fuel e s')

abbrev pub next_directive :
    Result (Directive × Str) → (Str → Result (List Directive)) → Result (List Directive)
next_directive (ok (d, s)) rest = do ds ← rest s; ok (d ∷ ds)
next_directive (err (at_end eof)) rest = ok []
next_directive (err e) rest = err e

-- `file`
unfoldable pub file : ℕ → End → Str → Result (List Directive)
file zero e s = err out_of_fuel
file (suc fuel) e s = next_directive (directive (suc fuel) e s) (λ s'. file fuel e s')

-- `Defaults`; the hostname is the system's answer, or none where it is an error.
abbrev pub defaults : Option Str → Server
defaults hostname = record {
  addr = codes ":6667";
  hostname = elim hostname [ none ↦ codes "localhost" | some h ↦ h ];
  tls = none;
  sql_driver = codes "sqlite3";
  sql_source = codes "soju.db";
}

-- `parseParams` with one pointer, and with two.
abbrev pub parse_param : Directive → Result Str
parse_param d = elim d.params [ a ∷ [] ↦ ok a | _ ↦ err (wrong_params d.name 1 (length d.params)) ]

abbrev pub parse_params : Directive → Result (Str × Str)
parse_params d = elim d.params [
  | a ∷ b ∷ [] ↦ ok (a, b)
  | _ ↦ err (wrong_params d.name 2 (length d.params))
]

-- The switch of `Parse`.
unfoldable pub set_directive : Server → Directive → Result Server
set_directive srv d =
    if str_eq d.name (codes "listen")
    then (do a ← parse_param d; ok (record srv { addr = a }))
    else if str_eq d.name (codes "hostname")
    then (do h ← parse_param d; ok (record srv { hostname = h }))
    else if str_eq d.name (codes "tls")
    then (do
      (c, k) ← parse_params d
      ok (record srv { tls = some (record { cert_path = c; key_path = k }) }))
    else if str_eq d.name (codes "sql")
    then (do (v, s) ← parse_params d; ok (record srv { sql_driver = v; sql_source = s }))
    else err (unknown_directive d.name)

unfoldable pub set_all : Server → List Directive → Result Server
set_all srv [] = ok srv
set_all srv (d ∷ ds) = do srv' ← set_directive srv d; set_all srv' ds

-- The directives of the text, with the error that `Parse` makes of a failure.
abbrev pub directives_of : Result (List Directive) → Result (List Directive)
directives_of (ok ds) = ok ds
directives_of (err e) = err (parse_failed e)

-- `Parse`, with fuel for the whole text.
unfoldable pub parse : Option Str → End → Str → Result Server
parse hostname e s = do
  ds ← directives_of (file (suc (length s)) e s)
  set_all (defaults hostname) ds
