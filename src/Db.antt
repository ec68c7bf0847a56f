-- ===== src/Db.antt =====
-- db.go: how a network is written into a row of the table Network and read back. The SQL itself is not
-- modelled.
pub mod Store
pub mod Stored
mod Table
mod Tests
use soju.Prelude.{
  ◌≡◌, refl, ap, ◌∙◌, Bool, true, false, Option, none, some, [], ◌∷◌, if◌then◌else◌, arith, ℕ,
  Bool-cases, inl, inr,
}
use soju.Prelude.Text.{Str, codes, str_eq, str_eq_iff}
use soju.Conn.{Sasl, Network}

-- The columns of a row that a program writes; those that may be NULL are options.
pub record Columns : Type 0 where
  pub addr : Str
  pub nick : Str
  pub username : Option Str
  pub realname : Option Str
  pub pass : Option Str
  pub sasl_mechanism : Option Str
  pub sasl_plain_username : Option Str
  pub sasl_plain_password : Option Str

-- A row, with the number that the database has given it.
pub record Row : Type 0 where
  pub id : ℕ
  pub columns : Columns

unfoldable pub from_string_ptr : Option Str → Str
from_string_ptr none = []
from_string_ptr (some s) = s

unfoldable pub to_string_ptr : Str → Option Str
to_string_ptr s = if str_eq s [] then none else some s

-- A column of the PLAIN mechanism, which is NULL under any other.
unfoldable pub plain_column : Str → Str → Option Str
unfolding to_string_ptr
plain_column mechanism s = if str_eq mechanism (codes "PLAIN") then to_string_ptr s else none

-- What `StoreNetwork` passes to the database; UPDATE has the number besides.
unfoldable pub write_row : Network → Columns
unfolding to_string_ptr plain_column
write_row n = record {
  addr = n.addr;
  nick = n.nick;
  username = to_string_ptr n.username;
  realname = to_string_ptr n.realname;
  pass = to_string_ptr n.pass;
  sasl_mechanism = to_string_ptr n.sasl.mechanism;
  sasl_plain_username = plain_column n.sasl.mechanism n.sasl.plain_username;
  sasl_plain_password = plain_column n.sasl.mechanism n.sasl.plain_password;
}

-- What `ListNetworks` makes of a row.
unfoldable pub read_row : Row → Network
unfolding from_string_ptr
read_row r = record {
  id = r.id;
  addr = r.columns.addr;
  nick = r.columns.nick;
  username = from_string_ptr r.columns.username;
  realname = from_string_ptr r.columns.realname;
  pass = from_string_ptr r.columns.pass;
  sasl = record {
    mechanism = from_string_ptr r.columns.sasl_mechanism;
    plain_username = from_string_ptr r.columns.sasl_plain_username;
    plain_password = from_string_ptr r.columns.sasl_plain_password;
  };
}

from_string_ptr-to_string_ptr : (s : Str) → from_string_ptr (to_string_ptr s) ≡ s
unfolding from_string_ptr to_string_ptr str_eq
from_string_ptr-to_string_ptr [] = refl
from_string_ptr-to_string_ptr (c ∷ s) = refl

from_string_ptr-plain_column :
    (mechanism s : Str)
    → from_string_ptr (plain_column mechanism s)
      ≡ (if str_eq mechanism (codes "PLAIN") then s else [])
unfolding from_string_ptr plain_column
from_string_ptr-plain_column mechanism s = elim (Bool-cases (str_eq mechanism (codes "PLAIN"))) [
  | inl plain ↦ rw plain (from_string_ptr-to_string_ptr s)
  | inr other ↦ rw other refl
]

-- A network that has been written is read back as it was, under the number of its row, but that its PLAIN user name and password are
-- lost if its SASL mechanism is not PLAIN.
pub read_row-write_row :
    (n : Network) (id : ℕ)
    → read_row (record { id = id; columns = write_row n }) ≡ record n {
      id = id;
      sasl = record {
        mechanism = n.sasl.mechanism;
        plain_username =
            if str_eq n.sasl.mechanism (codes "PLAIN") then n.sasl.plain_username else [];
        plain_password =
            if str_eq n.sasl.mechanism (codes "PLAIN") then n.sasl.plain_password else [];
      };
    }
unfolding read_row write_row
read_row-write_row n id = rw (from_string_ptr-to_string_ptr n.username) (
    rw (from_string_ptr-to_string_ptr n.realname) (
      rw (from_string_ptr-to_string_ptr n.pass) (
        rw (from_string_ptr-to_string_ptr n.sasl.mechanism) (
          rw (from_string_ptr-plain_column n.sasl.mechanism n.sasl.plain_username)
            (rw (from_string_ptr-plain_column n.sasl.mechanism n.sasl.plain_password) refl)))))
