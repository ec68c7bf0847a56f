-- ===== src/Db/Table.antt =====
-- A database of one table that fails at nothing and lists the newest network first, on which the specification is tried.
use mathlib.Core.Option
use mathlib.Core.List.Perm
use soju.Prelude.{
  ℕ, ◌+◌, ◌≡◌, refl, sym, ap, ◌∙◌, Bool, Option, some, List, [], ◌∷◌, ◌++◌, ◌==◌, if◌then◌else◌,
  map, arith,
}
use soju.Prelude.Text.{Str, codes, str_eq, str_eq_refl}
use soju.Irc.Result.{ok}
use soju.Conn.{Network}
use soju.Samples.{world}
use soju.Db.{Row, Columns, write_row}
use soju.Db.Store.{Statement, update_network, insert_network, Journal, Sql, store_network}
use soju.Db.Stored.{IsTable, Lists, kept, store_network-stored}

-- The statements so far, and the rows with their users.
record Table : Type 0 where
  count : ℕ
  rows : List (Str × Row)

abbrev add : Str → Columns → Table → Table
add user columns t = record {
  count = t.count + 1;
  rows = (user, record { id = t.count + 1; columns = columns }) ∷ t.rows;
}

abbrev replace : ℕ → Columns → Str × Row → Str × Row
replace id columns (user, r) = (user, if r.id == id then record r { columns = columns } else r)

abbrev step : Statement → Table → Table
step (insert_network user columns) t = add user columns t
step (update_network id columns) t = record {
  count = t.count + 1;
  rows = map (replace id columns) t.rows;
}
step _ t = record t { count = t.count + 1 }

abbrev table : Journal → Table → Table
table [] t = t
table (s ∷ journal) t = table journal (step s t)

abbrev rows_of : Str → List (Str × Row) → List Row
rows_of user [] = []
rows_of user ((owner, r) ∷ rows) =
    if str_eq owner user then r ∷ rows_of user rows else rows_of user rows

abbrev empty : Table
empty = record { count = 0; rows = [] }

abbrev sql : Sql
sql = record {
  exec = λ journal. some (some (table journal empty).count);
  query_users = λ journal. some [];
  query_networks = λ journal user. some (rows_of user (table journal empty).rows);
  query_channels = λ journal id. some [];
}

table-append :
    (journal : Journal) (s : Statement) (t : Table)
    → table (journal ++ s ∷ []) t ≡ step s (table journal t)
table-append [] s t = refl
table-append (x ∷ journal) s t = table-append journal s (step x t)

rows_of-replace :
    (user : Str) (id : ℕ) (columns : Columns) (rows : List (Str × Row))
    → rows_of user (map (replace id columns) rows)
      ≡ map (λ r. if r.id == id then record r { columns = columns } else r) (rows_of user rows)
rows_of-replace user id columns [] = refl
rows_of-replace user id columns ((owner, x) ∷ rows) =
    ground (arith, rows_of-replace user id columns rows)

sql-IsTable : IsTable sql
sql-IsTable = record {
  inserts = λ journal user columns rows id listed answered.
      let now : Table = table journal empty in
      let after : table (journal ++ insert_network user columns ∷ []) empty ≡ add user columns now =
        table-append journal (insert_network user columns) empty in
      let number : now.count + 1 ≡ id =
        same_number (sym (ap (λ (t : Table). some (some t.count)) after) ∙ answered) in
      (
        record { id = id; columns = columns } ∷ rows,
        ap (λ (t : Table). some (rows_of user t.rows)) after
            ∙ ap
                (λ (b : Bool). some (
                  if b
                  then record { id = now.count + 1; columns = columns } ∷ rows_of user now.rows
                  else rows_of user now.rows))
                (str_eq_refl user)
            ∙ ap (λ (i : ℕ). some (record { id = i; columns = columns } ∷ rows_of user now.rows))
                number
            ∙ ap (λ (rs : List Row). some (record { id = id; columns = columns } ∷ rs))
                (same_rows listed),
        Perm.refl _,
      );
  updates = λ journal user id columns rows result listed answered.
      let now : Table = table journal empty in
      (
        map (λ r. if r.id == id then record r { columns = columns } else r) rows,
        ap (λ (t : Table). some (rows_of user t.rows))
              (table-append journal (update_network id columns) empty)
            ∙ ap some (rows_of-replace user id columns now.rows)
            ∙ ap
                (λ (rs : List Row).
                  some (map (λ r. if r.id == id then record r { columns = columns } else r) rs))
                (same_rows listed),
        Perm.refl _,
      );
  fails = λ journal user statement rows listed failed. absurd (Option.none-ne-some _ (sym failed));
}
  where
    same_number : {m n : ℕ} → ◌≡◌ {A = Option (Option ℕ)} (some (some m)) (some (some n)) → m ≡ n
    same_number e = cc

    same_rows : {xs ys : List Row} → ◌≡◌ {A = Option (List Row)} (some xs) (some ys) → xs ≡ ys
    same_rows {xs} {ys} e = Option.some-injective xs ys e

abbrev fresh : Network
fresh = record world.network { id = 0 }

-- The first network of bob, and the number that it gets.
store_network-stored_example :
    (store_network sql (codes "bob") fresh []
      ≡ (ok tt, record fresh { id = 1 }, insert_network (codes "bob") (write_row fresh) ∷ []))
    × Lists sql
        (codes "bob")
        (insert_network (codes "bob") (write_row fresh) ∷ [])
        (kept (record fresh { id = 1 }) ∷ [])
store_network-stored_example =
    store_network-stored sql sql-IsTable (codes "bob") fresh [] [] (some 1) refl refl
