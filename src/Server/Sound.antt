-- ===== src/Server/Sound.antt =====
-- What holds of every connection of a server, whatever happens to its networks.
use mathlib.Core.Option
use mathlib.Core.Bool.{true≢false}
use soju.Prelude.{
  ℕ, ◌+◌, length, ◌≡◌, refl, sym, ap, ◌∙◌, subst, Bool, true, false, not, Option, none, some, List,
  [], ◌∷◌, ◌==◌, if◌then◌else◌, arith, get_elem?, inl, inr, Bool-cases, Outcome,
}
use soju.Prelude
use soju.Prelude.Text.{Str, str_eq}
use soju.Prelude.Dict.{Dict, lookup, insert, lookup-insert}
use soju.Irc.{Message}
use soju.Irc.Result.{Result, ok, err, panic, Step, dial_failed}
use soju.Ring.{Memory}
use soju.Ring
use soju.Conn.{UpstreamChannel, Network, UpstreamConn, DownstreamConn}
use soju.User.{Net, User, change_at}
use soju.Upstream.{Env, World, send_message, ◌>>=◌}
use soju.Upstream.Registration.{register}
use soju.Upstream.Handle.{handle_message}
use soju.Upstream.Keeps.{IsConsistent}
use soju.Upstream.Invariant.{handle_message-IsConsistent, handle_message-place}
use soju.Downstream.Session.{conn_of, conn_at}
use soju.Downstream.Frame.Networks.{conn_at-change_at}
use soju.Server.{Server}
use soju.Server.Networks.{
  new_conn, introduced, connect, disconnect, put_clients, world_of, hear, left_history, leave,
  put_at, Event, connects, hears, disconnects, leaves, happen,
}

-- A connection that points to place `i`, and whose channels and SASL exchange are in order.
abbrev pub IsGood : ℕ → UpstreamConn → Type 0
IsGood i uc = (uc.network_ref ≡ i) × IsConsistent uc

-- Each connection is good at its place.
abbrev pub IsSound : Server → Type 0
IsSound srv =
    (name : Str) (u : User)
    → lookup name srv.users ≡ some u
    → (j : ℕ) (uc : UpstreamConn) → conn_at j u.networks ≡ some uc
    → IsGood j uc

changed-IsSound :
    (name : Str) (i : ℕ) (u : User) (srv : Server) (f : Net → Net) (clients : List DownstreamConn)
    (serials : ℕ)
    → IsSound srv
    → lookup name srv.users ≡ some u
    → ((net : Net) (uc : UpstreamConn) → (f net).conn ≡ some uc → IsGood i uc)
    → IsSound (record srv {
      users = insert name (record u { networks = change_at i f u.networks }) srv.users;
      clients = clients;
      serials = serials;
    })
changed-IsSound name i u srv f clients serials sound here good other v found =
    either (str_eq name other) (sym (lookup-insert name other _ srv.users) ∙ found)
  where
    either :
        (b : Bool)
        → (if b
            then some (record u { networks = change_at i f u.networks })
            else lookup other srv.users)
          ≡ some v
        → (j : ℕ) (uc : UpstreamConn) → conn_at j v.networks ≡ some uc
        → IsGood j uc
    either true e j uc at =
        let is : conn_at j (change_at i f u.networks) ≡ some uc =
          ap (λ (x : User). conn_at j x.networks) (Option.some-injective _ v e) ∙ at in
        elim (conn_at-change_at i j f u.networks uc is) [
          | inl before ↦ sound name u here j uc before
          | inr (net, place, there, now) ↦ subst (λ (k : ℕ). IsGood k uc) place (good net uc now)
        ]
    either false e j uc at = sound other v e j uc at

-- A case on an option, which may use what it is.
case_at :
    {A X : Type 0} (Q : X → Type 0) (o : Option A) (d : X) (f : A → X)
    → Q d
    → ((a : A) → o ≡ some a → Q (f a))
    → Q (elim o as (λ _. X) [ none ↦ d | some b ↦ f b ])
case_at Q none d f hd hf = hd
case_at Q (some a) d f hd hf = hf a refl

branch_at : {X : Type 0} (Q : X → Type 0) (b : Bool) (x y : X) → Q x → Q y → Q (if b then x else y)
branch_at Q true x y hx hy = hx
branch_at Q false x y hx hy = hy

-- `register` leaves the place, the channels and the exchange of a new connection alone.
introduced_lem :
    (ring_cap serial i : ℕ) (config : Network)
    → ((introduced (new_conn ring_cap serial i) config).network_ref ≡ i)
      × ((introduced (new_conn ring_cap serial i) config).channels ≡ [])
      × ((introduced (new_conn ring_cap serial i) config).sasl_started ≡ false)
unfolding register send_message ◌>>=◌
introduced_lem ring_cap serial i config = elim (Bool-cases (not (str_eq config.pass []))) [
  | inl given ↦ (ground arith, ground arith, ground arith)
  | inr missing ↦ (ground arith, ground arith, ground arith)
]

introduced-IsGood :
    (ring_cap serial i : ℕ) (config : Network)
    → IsGood i (introduced (new_conn ring_cap serial i) config)
unfolding lookup
introduced-IsGood ring_cap serial i config =
    let (place, none_yet, fresh) = introduced_lem ring_cap serial i config in
    (
      place,
      record {
        named = λ k ch e. absurd (
            Option.none-ne-some ch
              (sym (ap (λ (m : Dict UpstreamChannel). lookup k m) none_yet) ∙ e));
        started = λ e. absurd (true≢false (sym e ∙ fresh));
      },
    )

some_of : {a b : UpstreamConn} → some a ≡ some b → a ≡ b
some_of {a} {b} e = Option.some-injective a b e

module _ (env : Env) (dial : Str → Bool) (ring_cap : ℕ) (name : Str) (i : ℕ) where
  connect-IsSound : (srv : Server) → IsSound srv → IsSound (connect dial ring_cap name i srv)
  unfolding connect
  connect-IsSound srv sound = case_at IsSound (lookup name srv.users) _ _ sound (λ u here.
      case_at IsSound (get_elem? u.networks i) _ _ sound (λ net there. dialed u here net (dial _)))
    where
      dialed :
          (u : User)
          → lookup name srv.users ≡ some u
          → (net : Net) (b : Bool)
          → IsSound
              (elim (if b then ok (new_conn ring_cap srv.serials i) else err dial_failed)
                as (λ _. Server) [
                  | ok uc ↦ record srv {
                    users =
                        insert name
                          (record u { networks = put_at i (introduced uc net.config) u.networks })
                          srv.users;
                    serials = srv.serials + 1;
                  }
                  | _ ↦ srv
                ])
      dialed u here net true =
          changed-IsSound name i u srv _ srv.clients (srv.serials + 1) sound here (λ n uc e.
            subst (IsGood i) (some_of e) (introduced-IsGood ring_cap srv.serials i net.config))
      dialed u here net false = sound

  hear-IsSound : (msg : Message) (srv : Server) → IsSound srv → IsSound (hear env name i msg srv).1
  unfolding hear
  hear-IsSound msg srv sound =
      let Q : Step Server (Unit {0}) → Type 0 = λ x. IsSound x.1 in
      case_at Q (lookup name srv.users) _ _ sound (λ u here.
        case_at Q (get_elem? u.networks i) _ _ sound (λ net there.
          case_at Q net.conn _ _ sound (λ uc found.
            let (place, consistent) = sound name u here i uc (ap conn_of there ∙ found) in
            let w : World = world_of uc net u srv in
            let w' : World = (handle_message env msg w).1 in
            changed-IsSound name i u srv (λ n. record n { conn = some w'.conn })
              (put_clients u.attached w'.downstreams srv.clients) srv.serials sound here
              (λ n uc' e. subst (IsGood i) (some_of e) (
                handle_message-place env msg w consistent ∙ place,
                handle_message-IsConsistent env msg w consistent,
              )))))

  disconnect-IsSound : (srv : Server) → IsSound srv → IsSound (disconnect name i srv)
  unfolding disconnect
  disconnect-IsSound srv sound = case_at IsSound (lookup name srv.users) _ _ sound (λ u here.
      changed-IsSound name i u srv (λ net. record net { conn = none }) srv.clients srv.serials sound
        here (λ n uc e. absurd (Option.none-ne-some uc e)))

  abbrev after_leaving : Server → Result Server → Server
  after_leaving srv r = elim r [ ok srv' ↦ srv' | _ ↦ srv ]

  left-IsGood :
      (last : Bool) (seq : ℕ) (ring : Memory Message) (uc : UpstreamConn)
      → IsGood i uc
      → IsGood i (left_history last name seq (record uc { ring = ring }))
  left-IsGood true seq ring uc (place, c) = (place, record { named = c.named; started = c.started })
  left-IsGood false seq ring uc (place, c) =
      (place, record { named = c.named; started = c.started })

  leave-IsSound :
      (serial consumer : ℕ) (srv : Server)
      → IsSound srv
      → IsSound (
          after_leaving srv
            (leave name (record { serial = serial; network_ref = i; consumer = consumer }) srv))
  unfolding leave
  leave-IsSound serial consumer srv sound =
      let Q : Result Server → Type 0 = λ r. IsSound (after_leaving srv r) in
      case_at Q (lookup name srv.users) _ _ sound (λ u here.
        case_at Q (conn_at i u.networks) _ _ sound (λ uc there.
          branch_at Q (not (uc.serial == serial)) (ok srv) _ sound
            (closed u here uc (sound name u here i uc there) (Ring.close consumer uc.ring))))
    where
      closed :
          (u : User)
          → lookup name srv.users ≡ some u
          → (uc : UpstreamConn) → IsGood i uc
          → (o : Prelude.Outcome (ℕ × Memory Message))
          → IsSound (
              after_leaving srv (elim o as (λ _. Result Server) [
                | Prelude.panic ↦ panic
                | Prelude.ok x ↦ ok (record srv {
                  users =
                      insert name
                        (record u {
                          networks =
                              put_at i
                                (left_history
                                  (length u.attached == 0)
                                  name
                                  x.0
                                  (record uc { ring = x.1 }))
                                u.networks;
                        })
                        srv.users;
                })
              ]))
      closed u here uc good (Prelude.ok (seq, ring)) =
          changed-IsSound name i u srv _ srv.clients srv.serials sound here (λ n uc' e.
            subst (IsGood i) (some_of e) (left-IsGood (length u.attached == 0) seq ring uc good))
      closed u here uc good Prelude.panic = sound

  happen-IsSound :
      (event : Event) (srv : Server)
      → IsSound srv
      → IsSound (happen env dial ring_cap name i event srv)
  unfolding happen
  happen-IsSound connects srv sound = connect-IsSound srv sound
  happen-IsSound (hears msg) srv sound = hear-IsSound msg srv sound
  happen-IsSound disconnects srv sound = disconnect-IsSound srv sound
  happen-IsSound (leaves serial consumer) srv sound = leave-IsSound serial consumer srv sound

-- Events of any networks of any users, in the order in which they happen.
unfoldable pub run : Env → (Str → Bool) → ℕ → List (Str × ℕ × Event) → Server → Server
unfolding happen
run env dial ring_cap [] srv = srv
run env dial ring_cap ((name, i, event) ∷ events) srv =
    run env dial ring_cap events (happen env dial ring_cap name i event srv)

-- If every connection of a server points to the network that has it, holds each channel under its own name, and has a SASL client
-- where an exchange has started, then that is so again whatever happens to the networks of the users, in any order: connections made and
-- ended, messages of theirs handled, whether with an error or not, and readers leaving.
pub run-IsSound :
    (env : Env) (dial : Str → Bool) (ring_cap : ℕ) (events : List (Str × ℕ × Event)) (srv : Server)
    → IsSound srv
    → IsSound (run env dial ring_cap events srv)
unfolding run
run-IsSound env dial ring_cap [] srv sound = sound
run-IsSound env dial ring_cap ((name, i, event) ∷ events) srv sound =
    run-IsSound env dial ring_cap events (happen env dial ring_cap name i event srv)
      (happen-IsSound env dial ring_cap name i event srv sound)
