-- ===== src/Config/Tests.antt =====
-- Runs of the configuration parser, and the theorems at concrete inputs.
use soju.Prelude.{◌≡◌, ◌≢◌, refl, none, some, [], ◌∷◌, ◌++◌, arith}
use soju.Prelude.Text.{codes, str_eq}
use soju.Config.{
  End, eof, broken, Error, at_end, out_of_fuel, unknown_directive, parse_failed, Result, ok, err,
  Directive, Server, Tls, skip_space, atom, read_params, file, set_directive, set_all, parse,
}
use soju.Config.Progress.{file-ends}
use soju.Config.Print.{print, directives}
use soju.Config.RoundTrip.{parse-print, parse-empty_line}

abbrev server : Server
server = record {
  addr = codes ":6697";
  hostname = codes "irc";
  tls = some (record { cert_path = codes "c.pem"; key_path = codes "k.pem" });
  sql_driver = codes "sqlite3";
  sql_source = codes "db";
}

-- Spaces before a parameter and at the end of a line are skipped, and the last line need not end.
run_parse :
    parse (some (codes "irc")) eof (codes "listen \t :6697 \ntls c.pem k.pem\nsql sqlite3 db")
    ≡ ok server
unfolding parse file atom skip_space read_params set_all set_directive str_eq
run_parse = refl

-- A line that begins with a space has a directive without a name.
run_indented : parse none eof (codes " listen :6697\n") ≡ err (unknown_directive [])
unfolding parse file atom skip_space read_params set_all set_directive str_eq
run_indented = refl

run_broken :
    parse none broken (codes "listen")
    ≡ err (parse_failed (soju.Config.name_failed (at_end broken)))
unfolding parse file atom skip_space read_params set_all set_directive str_eq
run_broken = refl

file-ends_example : file 8 eof (codes "a b\n\nc") ≢ err out_of_fuel
file-ends_example = file-ends 8 eof (codes "a b\n\nc") (omega arith)

parse-print_example : parse none eof (print (directives server)) ≡ ok server
parse-print_example = parse-print none server (record {
  addr = (refl, (refl, (refl, (refl, (refl, tt)))));
  hostname = (refl, (refl, (refl, tt)));
  tls = ((refl, (refl, (refl, (refl, (refl, tt))))), (refl, (refl, (refl, (refl, (refl, tt))))));
  sql_driver = (refl, (refl, (refl, (refl, (refl, (refl, (refl, tt)))))));
  sql_source = (refl, (refl, tt));
})

abbrev listen : Directive
listen = record { name = codes "listen"; params = codes "x" ∷ [] }

parse-empty_line_example :
    parse none eof (print (listen ∷ []) ++ b'\n' ∷ codes "hostname irc\n") ≢ ok server
parse-empty_line_example =
    parse-empty_line none eof (listen ∷ []) (codes "hostname irc\n") server
      (((refl, (refl, (refl, (refl, (refl, (refl, tt)))))), ((refl, tt), tt)), tt)
