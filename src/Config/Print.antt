-- ===== src/Config/Print.antt =====
-- The text of a configuration: one directive a line, its words apart by one space.
use soju.Prelude.{◌≡◌, false, Option, none, some, List, [], ◌∷◌, ◌++◌, All}
use soju.Prelude.Text.{Str, codes}
use soju.Config.{Directive, Server, Tls, is_space}

-- A word is not empty, and has no white space.
abbrev pub IsWord : Str → Type 0
IsWord [] = ⊥
IsWord (c ∷ s) = (is_space c ≡ false) × All (λ d. is_space d ≡ false) s

abbrev pub IsPrintable : Directive → Type 0
IsPrintable d = IsWord d.name × All IsWord d.params

-- The parameters with what ends the line, and what stands behind the space of the first.
unfoldable pub print_params : List Str → Str
print_params [] = b'\n' ∷ []
print_params (p ∷ ps) = b' ' ∷ (p ++ print_params ps)

abbrev pub after_space : List Str → Str
after_space [] = b'\n' ∷ []
after_space (p ∷ ps) = p ++ print_params ps

unfoldable pub print : List Directive → Str
print [] = []
print (d ∷ ds) = d.name ++ (print_params d.params ++ print ds)

-- The directives that say what a server's configuration is.
abbrev pub directives : Server → List Directive
directives srv =
    record { name = codes "listen"; params = srv.addr ∷ [] }
    ∷ record { name = codes "hostname"; params = srv.hostname ∷ [] }
    ∷ record { name = codes "sql"; params = srv.sql_driver ∷ srv.sql_source ∷ [] }
    ∷ (elim srv.tls [
      | none ↦ []
      | some t ↦ record { name = codes "tls"; params = t.cert_path ∷ t.key_path ∷ [] } ∷ []
    ])

abbrev pub IsTlsPrintable : Option Tls → Type 0
IsTlsPrintable none = Unit {0}
IsTlsPrintable (some t) = IsWord t.cert_path × IsWord t.key_path

pub record IsServerPrintable (srv : Server) : Type 0 where
  pub addr : IsWord srv.addr
  pub hostname : IsWord srv.hostname
  pub tls : IsTlsPrintable srv.tls
  pub sql_driver : IsWord srv.sql_driver
  pub sql_source : IsWord srv.sql_source
