-- ===== src/Db/Stored.antt =====
-- What the operations on networks promise, over a database that keeps its tables: the list of a user's networks.
use mathlib.Core.Option
use mathlib.Core.List.{Perm}
use mathlib.Core.List.Perm
use soju.Prelude.{
  ℕ, subst, ◌≡◌, refl, sym, ap, ◌∙◌, Bool, true, false, Option, none, some, List, [], ◌∷◌, ◌++◌,
  ◌==◌, if◌then◌else◌, map, arith, Bool-cases, inl, inr, ==_iff,
}
use soju.Prelude.Text.{Str, codes, str_eq}
use soju.Irc.Result.{Result, ok, err, store_failed}
use soju.Conn.{Network}
use soju.Db.{Row, Columns, write_row, read_row, read_row-write_row}
use soju.Db.Store.{
  Statement, update_network, insert_network, Journal, Sql, list_networks, store_network,
}

-- What SQL says of the table of networks, where the query of a user's networks has succeeded: INSERT adds a row with the
-- number that it returns, UPDATE changes the columns of the row of that number, and a statement that fails changes nothing. The query
-- has no ORDER BY, so its rows come in any order.
pub record IsTable (sql : Sql) : Type 0 where
  pub inserts :
      (journal : Journal) (user : Str) (columns : Columns) (rows : List Row) (id : ℕ)
      → sql.query_networks journal user ≡ some rows
      → sql.exec (journal ++ insert_network user columns ∷ []) ≡ some (some id)
      → (rows' : List Row) × (sql.query_networks (journal ++ insert_network user columns ∷ []) user
          ≡ some rows')
        × Perm rows' (record { id = id; columns = columns } ∷ rows)
  pub updates :
      (journal : Journal) (user : Str) (id : ℕ) (columns : Columns) (rows : List Row)
      (result : Option ℕ)
      → sql.query_networks journal user ≡ some rows
      → sql.exec (journal ++ update_network id columns ∷ []) ≡ some result
      → (rows' : List Row) × (sql.query_networks (journal ++ update_network id columns ∷ []) user
          ≡ some rows')
        × Perm rows' (map (λ r. if r.id == id then record r { columns = columns } else r) rows)
  pub fails :
      (journal : Journal) (user : Str) (statement : Statement) (rows : List Row)
      → sql.query_networks journal user ≡ some rows
      → sql.exec (journal ++ statement ∷ []) ≡ none
      → (rows' : List Row) × (sql.query_networks (journal ++ statement ∷ []) user ≡ some rows')
        × Perm rows' rows

-- The network as the database keeps it.
abbrev pub kept : Network → Network
kept n = record n {
  sasl = record {
    mechanism = n.sasl.mechanism;
    plain_username = if str_eq n.sasl.mechanism (codes "PLAIN") then n.sasl.plain_username else [];
    plain_password = if str_eq n.sasl.mechanism (codes "PLAIN") then n.sasl.plain_password else [];
  };
}

abbrev pub statement_of : Str → Network → Statement
statement_of username n =
    if n.id == 0 then insert_network username (write_row n) else update_network n.id (write_row n)

-- The specification: what storing does to the network that the caller points to, and to the list; `answer` is the number that the
-- database gives, or an error.
abbrev pub numbered : Option ℕ → Network → Network
numbered none n = n
numbered (some id) n = if n.id == 0 then record n { id = id } else n

abbrev pub stored : Option ℕ → Network → List Network → List Network
stored none n nets = nets
stored (some id) n nets =
    if n.id == 0
    then kept (record n { id = id }) ∷ nets
    else map (λ m. if m.id == n.id then kept n else m) nets

abbrev pub outcome : Option ℕ → Result (Unit {0})
outcome none = err store_failed
outcome (some id) = ok tt

-- One row under UPDATE.
read_row-update :
    (n : Network) (r : Row)
    → read_row (if r.id == n.id then record r { columns = write_row n } else r)
      ≡ (if (read_row r).id == n.id then kept n else read_row r)
unfolding read_row
read_row-update n r = elim (Bool-cases (r.id == n.id)) [
  | inl same ↦
      ap (λ (b : Bool). read_row (if b then record r { columns = write_row n } else r)) same
      ∙ read_row-write_row n r.id
      ∙ ap (λ (id : ℕ). kept (record n { id = id })) ((==_iff r.id n.id).0 same)
      ∙ sym (ap (λ (b : Bool). if b then kept n else read_row r) same)
  | inr other ↦
      ap (λ (b : Bool). read_row (if b then record r { columns = write_row n } else r)) other
      ∙ sym (ap (λ (b : Bool). if b then kept n else read_row r) other)
]

map-update :
    (n : Network) (rows : List Row)
    → map read_row (map (λ r. if r.id == n.id then record r { columns = write_row n } else r) rows)
      ≡ map (λ m. if m.id == n.id then kept n else m) (map read_row rows)
map-update n [] = refl
map-update n (r ∷ rows) =
    ap
      (λ (m : Network).
        m
        ∷ map read_row
            (map (λ q. if q.id == n.id then record q { columns = write_row n } else q) rows))
      (read_row-update n r)
    ∙ ap (◌∷◌ (if (read_row r).id == n.id then kept n else read_row r)) (map-update n rows)

list_networks-eq :
    (sql : Sql) (user : Str) (journal : Journal) (rows : List Row)
    → sql.query_networks journal user ≡ some rows
    → list_networks sql user journal ≡ ok (map read_row rows)
unfolding list_networks
list_networks-eq sql user journal rows e =
    ap
      (λ (o : Option (List Row)). elim o as (λ _. Result (List Network)) [
        | none ↦ err store_failed
        | some rs ↦ ok (map read_row rs)
      ])
      e

-- The networks that the query lists are those of the rows, in any order.
abbrev pub Lists : Sql → Str → Journal → List Network → Type 0
Lists sql user journal expected =
    (nets : List Network) × (list_networks sql user journal ≡ ok nets) × Perm nets expected

Lists-rows :
    (sql : Sql) (user : Str) (journal : Journal) (rows' rows : List Row) (expected : List Network)
    → sql.query_networks journal user ≡ some rows'
    → Perm rows' rows
    → map read_row rows ≡ expected
    → Lists sql user journal expected
Lists-rows sql user journal rows' rows expected e p is = (
  map read_row rows',
  list_networks-eq sql user journal rows' e,
  subst (Perm (map read_row rows')) is (Perm.map read_row p),
)

module _ (sql : Sql) (username : Str) (n : Network) (journal : Journal) where
  insert_runs :
      (answer : Option ℕ)
      → (n.id == 0) ≡ true
      → sql.exec (journal ++ insert_network username (write_row n) ∷ []) ≡ Option.map some answer
      → store_network sql username n journal
        ≡ (outcome answer, numbered answer n, journal ++ insert_network username (write_row n) ∷ [])
  unfolding store_network
  insert_runs none new e = ground arith
  insert_runs (some id) new e = ground arith

  update_runs :
      (answer : Option ℕ)
      → (n.id == 0) ≡ false
      → sql.exec (journal ++ update_network n.id (write_row n) ∷ []) ≡ Option.map some answer
      → store_network sql username n journal
        ≡ (outcome answer, numbered answer n, journal ++ update_network n.id (write_row n) ∷ [])
  unfolding store_network
  update_runs none old e = ground arith
  update_runs (some id) old e = ground arith

-- `StoreNetwork` does what it promises over a database that keeps its tables and has listed the networks of the user: a network without a number is added to those
-- that `ListNetworks` returns, under the number that the database gives it, which the caller's network has from then on; a network with
-- a number is put in the place of the one that had it; and where the database fails, it returns an error and the networks are those that
-- there were. The order in which `ListNetworks` returns them is left open, as the query leaves it.
pub store_network-stored :
    (sql : Sql) (table : IsTable sql) (username : Str) (n : Network) (journal : Journal)
    (rows : List Row) (answer : Option ℕ)
    → sql.query_networks journal username ≡ some rows
    → sql.exec (journal ++ statement_of username n ∷ []) ≡ Option.map some answer
    → (store_network sql username n journal
        ≡ (outcome answer, numbered answer n, journal ++ statement_of username n ∷ []))
      × Lists sql username
          (journal ++ statement_of username n ∷ [])
          (stored answer n (map read_row rows))
store_network-stored sql table username n journal rows answer listed answered =
    elim (Bool-cases (n.id == 0)) [
      | inl new ↦
          moved (chosen_statement true new)
            (inserted_case new answer (subst Answered (chosen_statement true new) answered))
      | inr old ↦
          moved (chosen_statement false old)
            (updated_case old answer (subst Answered (chosen_statement false old) answered))
    ]
  where
    Answered : Statement → Type 0
    Answered st = sql.exec (journal ++ st ∷ []) ≡ Option.map some answer

    Goal : Option ℕ → Statement → Type 0
    Goal a st =
        (store_network sql username n journal ≡ (outcome a, numbered a n, journal ++ st ∷ []))
        × Lists sql username (journal ++ st ∷ []) (stored a n (map read_row rows))

    moved :
        {st : Statement}
        → statement_of username n ≡ st
        → Goal answer st
        → Goal answer (statement_of username n)
    moved e goal = subst (Goal answer) (sym e) goal

    chosen_statement :
        (b : Bool)
        → (n.id == 0) ≡ b
        → statement_of username n
          ≡ (if b then insert_network username (write_row n) else update_network n.id (write_row n))
    chosen_statement b e =
        ap
          (λ (c : Bool).
            if c then insert_network username (write_row n) else update_network n.id (write_row n))
          e

    chosen :
        (id : ℕ) (b : Bool)
        → (n.id == 0) ≡ b
        → stored (some id) n (map read_row rows) ≡ (
            if b
            then kept (record n { id = id }) ∷ map read_row rows
            else map (λ m. if m.id == n.id then kept n else m) (map read_row rows))
    chosen id b e =
        ap
          (λ (c : Bool).
            if c
            then kept (record n { id = id }) ∷ map read_row rows
            else map (λ m. if m.id == n.id then kept n else m) (map read_row rows))
          e

    unchanged :
        (st : Statement)
        → sql.exec (journal ++ st ∷ []) ≡ none
        → Lists sql username (journal ++ st ∷ []) (map read_row rows)
    unchanged st e =
        let (rows', now, same) = table.fails journal username st rows listed e in
        Lists-rows sql username (journal ++ st ∷ []) rows' rows _ now same refl

    inserted_case :
        (n.id == 0) ≡ true
        → (a : Option ℕ)
        → sql.exec (journal ++ insert_network username (write_row n) ∷ []) ≡ Option.map some a
        → Goal a (insert_network username (write_row n))
    inserted_case new none e = (insert_runs sql username n journal none new e, unchanged _ e)
    inserted_case new (some id) e =
        let (rows', now, same) = table.inserts journal username (write_row n) rows id listed e in
        (
          insert_runs sql username n journal (some id) new e,
          Lists-rows sql username _ rows' _ _ now same (
              ap (λ (m : Network). m ∷ map read_row rows) (read_row-write_row n id)
              ∙ sym (chosen id true new)),
        )

    updated_case :
        (n.id == 0) ≡ false
        → (a : Option ℕ)
        → sql.exec (journal ++ update_network n.id (write_row n) ∷ []) ≡ Option.map some a
        → Goal a (update_network n.id (write_row n))
    updated_case old none e = (update_runs sql username n journal none old e, unchanged _ e)
    updated_case old (some id) e =
        let (rows', now, same) =
          table.updates journal username n.id (write_row n) rows (some id) listed e in
        (
          update_runs sql username n journal (some id) old e,
          Lists-rows sql username _ rows' _ _ now same
              (map-update n rows ∙ sym (chosen id false old)),
        )
