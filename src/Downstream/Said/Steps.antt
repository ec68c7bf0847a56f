-- ===== src/Downstream/Said/Steps.antt =====
-- The steps of a PRIVMSG, one by one, where the user and the connection are known.
use mathlib.Core.Option
use soju.Prelude.{
  if_false, ℕ, ◌+◌, ◌<◌, ◌^◌, ◌≡◌, refl, sym, ap, ◌∙◌, Bool, true, false, Option, none, some, List,
  [], ◌∷◌, ◌++◌, ◌==◌, if◌then◌else◌, arith, length, get_elem?, ==_iff, Option-cases, inl, inr,
}
use soju.Prelude
use soju.Prelude.Text.{Str, str_eq_refl}
use soju.Prelude.Dict.{lookup, insert, lookup-insert}
use soju.Irc.{Message}
use soju.Irc.Result.{Result, ok, panic}
use soju.Irc.Action.{lift, continue, ◌>>=◌}
use soju.Ring.{Memory, produce}
use soju.Conn.{UpstreamConn}
use soju.User.{Net, User}
use soju.Downstream.Routing.{unmarshal_channel}
use soju.Downstream.Session.{
  Session, Handler, modify_client, user_of, the_user, modify_networks, conns, conn_of, conn_at,
  the_conn, put_conn, sent, send_upstream, not_nil,
}
use soju.Downstream.Registered.{resolve, produce_echo}
use soju.Downstream.Frame.Networks.{get_elem?-change_at}
use soju.Downstream.Isolation.{user_of-eq, user_of-some}

pub bind-ok :
    {A B : Type 0} (m : Handler A) (f : A → Handler B) (s s' : Session) (a : A)
    → m s ≡ (ok a, s')
    → (m >>= f) s ≡ f a s'
unfolding ◌>>=◌
bind-ok {A = A} m f s s' a e = ap (λ (o : Result A × Session). continue o.0 f o.1) e

the_user-eq :
    (s : Session) (name : Str) (u : User)
    → user_of s ≡ some (name, u)
    → the_user s ≡ (ok (name, u), s)
the_user-eq s name u e = ap (λ (o : Option (Str × User)). (not_nil o, s)) e

modify_networks-eq :
    (f : List Net → List Net) (s : Session) (name : Str) (u : User)
    → user_of s ≡ some (name, u)
    → modify_networks f s
      ≡ (ok tt, record s { users = insert name (record u { networks = f u.networks }) s.users })
unfolding modify_networks
modify_networks-eq f s name u e = bind-ok the_user _ s s (name, u) (the_user-eq s name u e)

the_conn-eq :
    (i : ℕ) (s : Session) (name : Str) (u : User) (uc : UpstreamConn)
    → user_of s ≡ some (name, u)
    → conn_at i u.networks ≡ some uc
    → the_conn i s ≡ (ok uc, s)
unfolding the_conn
the_conn-eq i s name u uc e found =
    bind-ok the_user _ s s (name, u) (the_user-eq s name u e)
    ∙ ap (λ (o : Option UpstreamConn). (not_nil o, s)) found

-- The user after it was put back.
pub user_of-put :
    (s : Session) (name : Str) (u u' : User)
    → user_of s ≡ some (name, u)
    → user_of (record s { users = insert name u' s.users }) ≡ some (name, u')
user_of-put s name u u' e =
    user_of-eq (record s { users = insert name u' s.users }) name u' (user_of-some s name u e).0
      (lookup-insert name name u' s.users
        ∙ ap (λ (b : Bool). if b then some u' else lookup name s.users) (str_eq_refl name))

-- The connection after it was put back in its place.
pub conn_at-put_conn :
    (uc uc' : UpstreamConn) (nets : List Net)
    → conn_at uc'.network_ref nets ≡ some uc
    → conn_at uc'.network_ref (put_conn uc' nets) ≡ some uc'
conn_at-put_conn uc uc' nets found =
    ap conn_of (get_elem?-change_at i i (λ net. record net { conn = some uc' }) nets)
    ∙ here (get_elem? nets i) refl
  where
    i : ℕ
    i = uc'.network_ref

    here :
        (o : Option Net)
        → get_elem? nets i ≡ o
        → conn_of (
            if i == i
            then Option.map (λ (net : Net). record net { conn = some uc' }) (get_elem? nets i)
            else get_elem? nets i)
          ≡ some uc'
    here none missing = absurd (Option.none-ne-some uc (sym (ap conn_of missing) ∙ found))
    here (some net) there =
        ap
          (λ (b : Bool). conn_of (
            if b
            then Option.map (λ (n : Net). record n { conn = some uc' }) (get_elem? nets i)
            else get_elem? nets i))
          ((==_iff i i).1 refl)
        ∙ ap
            (λ (o : Option Net). conn_of (Option.map (λ (n : Net). record n { conn = some uc' }) o))
            there

-- A change of the connection of the user, as `put_conn` makes it.
abbrev pub with_conn : Str → UpstreamConn → User → Session → Session
with_conn name uc u s = record s {
  users = insert name (record u { networks = put_conn uc u.networks }) s.users;
}

pub send_upstream-eq :
    (msg : Message) (s : Session) (name : Str) (u : User) (uc : UpstreamConn)
    → user_of s ≡ some (name, u)
    → conn_at uc.network_ref u.networks ≡ some uc
    → uc.closed ≡ false
    → send_upstream uc.network_ref msg s ≡ (ok tt, with_conn name (sent msg uc) u s)
unfolding send_upstream
send_upstream-eq msg s name u uc e found is_open =
    bind-ok (the_conn uc.network_ref) _ s s uc (the_conn-eq uc.network_ref s name u uc e found)
    ∙ ap (λ (b : Bool). (if b then lift panic else modify_networks (put_conn (sent msg uc))) s)
        is_open
    ∙ modify_networks-eq (put_conn (sent msg uc)) s name u e

-- The client with a mark for the next message of the connection.
abbrev pub marked : UpstreamConn → Session → Session
marked uc s = record s {
  client = record s.client {
    our_messages = s.client.our_messages ++ (uc.serial, uc.ring.cur) ∷ [];
  };
}

pub produce_echo-eq :
    (msg : Message) (s : Session) (name : Str) (u : User) (uc : UpstreamConn)
    (ring : Memory Message)
    → user_of s ≡ some (name, u)
    → conn_at uc.network_ref u.networks ≡ some uc
    → produce msg uc.ring ≡ Prelude.ok ring
    → produce_echo uc.network_ref msg s
      ≡ (ok tt, with_conn name (record uc { ring = ring }) u (marked uc s))
unfolding produce_echo
produce_echo-eq msg s name u uc ring e found produced =
    bind-ok (the_conn uc.network_ref) _ s s uc (the_conn-eq uc.network_ref s name u uc e found)
    ∙ bind-ok (modify_client _) _ s (marked uc s) tt refl
    ∙ ap
        (λ (o : Prelude.Outcome (Memory Message)).
          (elim o as (λ _. Handler (Unit {0})) [
            | Prelude.panic ↦ lift panic
            | Prelude.ok r ↦ modify_networks (put_conn (record uc { ring = r }))
          ])
            (marked uc s))
        produced
    ∙ modify_networks-eq (put_conn (record uc { ring = ring })) (marked uc s) name u e

pub resolve-eq :
    (target upstream_name : Str) (s : Session) (name : Str) (u : User) (uc : UpstreamConn)
    → user_of s ≡ some (name, u)
    → unmarshal_channel s.client (conns u.networks) target ≡ ok (uc, upstream_name)
    → resolve target s ≡ (ok (uc, upstream_name), s)
unfolding resolve ◌>>=◌
resolve-eq target upstream_name s name u uc e routed =
    bind-ok the_user (λ x. lift (unmarshal_channel s.client (conns x.1.networks) target)) s s
      (name, u) (the_user-eq s name u e)
    ∙ ap (λ (r : Result (UpstreamConn × Str)). (r, s)) routed
