-- ===== src/Downstream/Admission.antt =====
-- `runUntilRegistered` against the loop of `run`.
use soju.Prelude.{
  ◌≡◌, refl, sym, ap, ◌∙◌, Bool, true, false, Option, none, some, List, [], ◌∷◌, ◌++◌,
  if◌then◌else◌,
}
use soju.Irc.{Message}
use soju.Irc.Result.{Error, Result, ok, err, panic, irc_error}
use soju.Conn.{server_prefix}
use soju.Downstream.Session.{Outside, Session, send}
use soju.Downstream.Handle.{handle_message, settle, serve, serve_all, until_registered}

abbrev Outcome : Type 0
Outcome = Option (Result (List Message)) × Session

-- `handled` were handled one by one, as the loop of `run` does, and made the client registered.
abbrev Admitted : Outside → List Message → Session → List Message → Session → Type 0
Admitted out msgs s left s' =
    (handled : List Message) × (msgs ≡ handled ++ left)
    × (serve_all out handled s ≡ s')
    × (s'.client.registered ≡ true)

same_outcome :
    {a b : List Message} {s t : Session}
    → ◌≡◌ {A = Outcome} (some (ok a), s) (some (ok b), t)
    → (a ≡ b) × (s ≡ t)
same_outcome e = (cc, cc)

-- A registered client is given what is left.
now :
    (out : Outside) (msgs left : List Message) (s s' : Session)
    → s.client.registered ≡ true
    → ◌≡◌ {A = Outcome} (some (ok msgs), s) (some (ok left), s')
    → Admitted out msgs s left s'
unfolding serve_all
now out msgs left s s' registered e =
    let (rest, state) = same_outcome e in
    ([], rest, state, ap (λ (t : Session). t.client.registered) (sym state) ∙ registered)

serve_all-cons :
    (out : Outside) (msg : Message) (handled : List Message) (s t : Session)
    → serve out msg s ≡ (ok tt, t)
    → serve_all out (msg ∷ handled) s ≡ serve_all out handled t
unfolding serve_all
serve_all-cons out msg handled s t e =
    ap
      (λ (o : Result (Unit {0}) × Session). elim o.0 as (λ _. Session) [
        | panic ↦ o.1
        | _ ↦ serve_all out handled o.1
      ])
      e

module _ (out : Outside) (msg : Message) (msgs left : List Message) (s s' : Session) where
  -- A message that the loop of `run` has handled, and the messages after it.
  one_more :
      (t : Session)
      → serve out msg s ≡ (ok tt, t)
      → Admitted out msgs t left s'
      → Admitted out (msg ∷ msgs) s left s'
  one_more t e (handled, split, state, registered) =
      (msg ∷ handled, ap (◌∷◌ msg) split, serve_all-cons out msg handled s t e ∙ state, registered)

  abbrev answer : Message → Session → Session
  answer m t = (send (record m { prefix = some (server_prefix out.hostname) }) t).1

  abbrev next : Result (Unit {0}) → Session → Outcome
  next r t = elim r [
    | ok a ↦ until_registered out msgs t
    | err (irc_error m) ↦ until_registered out msgs (answer m t)
    | err e ↦ (some (err e), t)
    | panic ↦ (some panic, t)
  ]

  serve-eq :
      (r : Result (Unit {0})) (t : Session)
      → handle_message out msg s ≡ (r, t)
      → serve out msg s ≡ settle out r t
  unfolding serve
  serve-eq r t e = ap (λ (o : Result (Unit {0}) × Session). settle out o.0 o.1) e

  module _
      (rest : (t : Session)
        → until_registered out msgs t ≡ (some (ok left), s')
        → Admitted out msgs t left s') where
    after_error :
        (e : Error) (t : Session)
        → handle_message out msg s ≡ (err e, t)
        → next (err e) t ≡ (some (ok left), s')
        → Admitted out (msg ∷ msgs) s left s'
    after_error e t =
        elim e
          as (λ x.
            handle_message out msg s ≡ (err x, t)
            → next (err x) t ≡ (some (ok left), s')
            → Admitted out (msg ∷ msgs) s left s') [
              | irc_error m ↦ λ h n.
                  one_more (answer m t) (serve-eq (err (irc_error m)) t h) (rest (answer m t) n)
              | _ ↦ λ h n. absurd (ap_stuck n)
            ]
      where
        ap_stuck :
            {x : Error} {u v : Session} {l : List Message}
            → ◌≡◌ {A = Outcome} (some (err x), u) (some (ok l), v)
            → ⊥
        ap_stuck n = cc

    after_message :
        (r : Result (Unit {0})) (t : Session)
        → handle_message out msg s ≡ (r, t)
        → next r t ≡ (some (ok left), s')
        → Admitted out (msg ∷ msgs) s left s'
    after_message (ok a) t h n = one_more t (serve-eq (ok a) t h) (rest t n)
    after_message (err e) t h n = after_error e t h n
    after_message panic t h n = cc

-- What `runUntilRegistered` does to the messages that it takes is what the loop of `run` would do: if it returns with a registered
-- client and messages left, the session is the one after the loop over the messages before those.
pub until_registered-serve_all :
    (out : Outside) (msgs left : List Message) (s s' : Session)
    → until_registered out msgs s ≡ (some (ok left), s')
    → (handled : List Message) × (msgs ≡ handled ++ left)
      × (serve_all out handled s ≡ s')
      × (s'.client.registered ≡ true)
unfolding until_registered
until_registered-serve_all out [] left s s' e = at_end s.client.registered refl e
  where
    at_end :
        (b : Bool)
        → s.client.registered ≡ b
        → ◌≡◌ {A = Outcome} (if b then some (ok []) else none, s) (some (ok left), s')
        → Admitted out [] s left s'
    at_end true registered h = now out [] left s s' registered h
    at_end false registered h = cc
until_registered-serve_all out (msg ∷ msgs) left s s' e =
    choose s.client.registered refl e (until_registered-serve_all out msgs left)
  where
    choose :
        (b : Bool)
        → s.client.registered ≡ b
        → ◌≡◌ {A = Outcome}
            (if b
              then (some (ok (msg ∷ msgs)), s)
              else next out msg msgs left s s'
                  (handle_message out msg s).0
                  (handle_message out msg s).1)
            (some (ok left), s')
        → ((t u : Session)
            → until_registered out msgs t ≡ (some (ok left), u)
            → Admitted out msgs t left u)
        → Admitted out (msg ∷ msgs) s left s'
    choose true registered h rest = now out (msg ∷ msgs) left s s' registered h
    choose false registered h rest =
        after_message out msg msgs left s s' (λ t. rest t s') (handle_message out msg s).0
          (handle_message out msg s).1 refl h
