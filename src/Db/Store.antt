-- ===== src/Db/Store.antt =====
-- The operations of db.go over a database of which nothing is assumed: it answers by any functions of the
-- statements that it has been given.
use soju.Prelude.{ℕ, not, Option, none, some, List, [], ◌∷◌, ◌++◌, ◌==◌, if◌then◌else◌, map}
use soju.Prelude.Text.{Str}
use soju.Irc.Result.{Result, ok, err, panic, store_failed, Step}
use soju.Conn.{Network}
use soju.Db.{Row, Columns, from_string_ptr, to_string_ptr, write_row, read_row}

-- What `Exec` is called with.
pub data Statement : Type 0 where
  insert_user : Str → Option Str → Statement
  update_network : ℕ → Columns → Statement
  insert_network : Str → Columns → Statement
  replace_channel : ℕ → Str → Statement
  delete_channel : ℕ → Str → Statement

-- The statements so far, in order.
abbrev pub Journal : Type 0
Journal = List Statement

-- Package database/sql with its driver. `exec` answers the last statement: an error, or a result, whose
-- `LastInsertId` may be an error too. The queries return rows, or an error of `Query`, `Scan` or `Err`.
pub record Sql : Type 0 where
  pub exec : Journal → Option (Option ℕ)
  pub query_users : Journal → Option (List (Str × Option Str))
  pub query_networks : Journal → Str → Option (List Row)
  pub query_channels : Journal → ℕ → Option (List (ℕ × Str))

-- `User` and `Channel` of db.go.
pub record UserRecord : Type 0 where
  pub username : Str
  pub password : Str

pub record Channel : Type 0 where
  pub id : ℕ
  pub name : Str

module _ (sql : Sql) where
  abbrev pub run : Statement → Journal → Step Journal (Option ℕ)
  run statement journal =
      let journal' = journal ++ statement ∷ [] in
      elim (sql.exec journal') [ none ↦ (err store_failed, journal') | some id ↦ (ok id, journal') ]

  abbrev pub run_only : Statement → Journal → Step Journal (Unit {0})
  run_only statement journal =
      let journal' = journal ++ statement ∷ [] in
      elim (sql.exec journal') [ none ↦ (err store_failed, journal') | some id ↦ (ok tt, journal') ]

  unfoldable pub list_users : Journal → Result (List UserRecord)
  unfolding from_string_ptr
  list_users journal = elim (sql.query_users journal) [
    | none ↦ err store_failed
    | some rows ↦ ok (
        map (λ (r : Str × Option Str). record { username = r.0; password = from_string_ptr r.1 })
          rows)
  ]

  unfoldable pub create_user : UserRecord → Journal → Step Journal (Unit {0})
  unfolding to_string_ptr
  create_user u journal = run_only (insert_user u.username (to_string_ptr u.password)) journal

  unfoldable pub list_networks : Str → Journal → Result (List Network)
  unfolding read_row
  list_networks username journal = elim (sql.query_networks journal username) [
    | none ↦ err store_failed
    | some rows ↦ ok (map read_row rows)
  ]

  -- What INSERT leaves of the network that the caller points to.
  abbrev pub inserted : Network → Step Journal (Option ℕ) → Result (Unit {0}) × Network × Journal
  inserted n (ok (some id), journal) = (ok tt, record n { id = id }, journal)
  inserted n (ok none, journal) = (err store_failed, n, journal)
  inserted n (err e, journal) = (err e, n, journal)
  inserted n (panic, journal) = (panic, n, journal)

  -- The result comes with the network, whose ID an INSERT sets.
  unfoldable pub store_network : Str → Network → Journal → Result (Unit {0}) × Network × Journal
  unfolding write_row
  store_network username n journal =
      if not (n.id == 0)
      then (let (r, journal') = run_only (update_network n.id (write_row n)) journal in
          (r, n, journal'))
      else inserted n (run (insert_network username (write_row n)) journal)

  unfoldable pub list_channels : ℕ → Journal → Result (List Channel)
  list_channels network_id journal = elim (sql.query_channels journal network_id) [
    | none ↦ err store_failed
    | some rows ↦ ok (map (λ (r : ℕ × Str). record { id = r.0; name = r.1 }) rows)
  ]

  unfoldable pub store_channel : ℕ → Str → Journal → Step Journal (Unit {0})
  store_channel network_id name journal = run_only (replace_channel network_id name) journal

  abbrev pub remove_channel : ℕ → Str → Journal → Step Journal (Unit {0})
  remove_channel network_id name journal = run_only (delete_channel network_id name) journal
