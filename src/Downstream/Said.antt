-- ===== src/Downstream/Said.antt =====
-- What becomes of a PRIVMSG: it is sent to the server, and its echo put in the ring and marked as the client's own.
pub mod Steps
use mathlib.Core.Option
use soju.Prelude.{
  if_false, ℕ, ◌+◌, ◌<◌, ◌^◌, ◌≡◌, refl, sym, ap, ◌∙◌, Bool, true, false, Option, none, some, List,
  [], ◌∷◌, ◌++◌, ◌==◌, if◌then◌else◌, arith, length, get_elem?, ==_iff, Option-cases, inl, inr,
}
use soju.Prelude
use soju.Prelude.Text.{Str, codes, str_eq, str_eq_refl}
use soju.Prelude.Dict.{lookup, insert, lookup-insert}
use soju.Irc.{Message, Command}
use soju.Irc.Result.{Result, ok, panic}
use soju.Irc.Action.{finish, lift, continue, ◌>>=◌}
use soju.Ring.{Memory, produce}
use soju.Ring.Invariant.{IsRing}
use soju.Ring.Produce.{produce-IsRing}
use soju.Conn.{UpstreamConn}
use soju.User.{Net, User, change_at}
use soju.Downstream.Routing.{unmarshal_channel}
use soju.Downstream.Session.{
  Outside, Session, Handler, modify_client, user_of, the_user, modify_networks, conns, conn_of,
  conn_at, the_conn, put_conn, sent, send_upstream, not_nil,
}
use soju.Downstream.Registered.{plain, resolve, nickserv, echo, produce_echo, say}
use soju.Downstream.Frame.Networks.{get_elem?-change_at}
use soju.Downstream.Isolation.{user_of-eq, user_of-some}
use soju.Downstream.Said.Steps.{
  bind-ok, user_of-put, conn_at-put_conn, with_conn, send_upstream-eq, marked, produce_echo-eq,
  resolve-eq,
}

-- The connection once the message is sent and its echo is in the ring.
abbrev pub after_say : Str → Str → Memory Message → UpstreamConn → UpstreamConn
after_say upstream_name text ring uc =
    record (sent (plain Command.privmsg (upstream_name ∷ text ∷ [])) uc) { ring = ring }

-- What `say` leaves: nothing but the connection and the marks of the client has changed; the mark is for the message at `place`.
pub record Said (s s' : Session) (name : Str) (u : User) (uc uc' : UpstreamConn) (place : ℕ)
    : Type 0 where
  pub now : User
  pub held : lookup name s'.users ≡ some now
  pub in_place :
      get_elem? now.networks uc.network_ref
      ≡ Option.map
          (λ (net : Net). record net { conn = some uc' })
          (get_elem? u.networks uc.network_ref)
  pub elsewhere :
      (j : ℕ) → (uc.network_ref == j) ≡ false → get_elem? now.networks j ≡ get_elem? u.networks j
  pub password : now.password ≡ u.password
  pub attached : now.attached ≡ u.attached
  pub journal : s'.journal ≡ s.journal
  pub client :
      s'.client
      ≡ record s.client { our_messages = s.client.our_messages ++ (uc.serial, place) ∷ [] }
  pub others :
      (other : Str) → str_eq name other ≡ false → lookup other s'.users ≡ lookup other s.users

abbrev sent_on : Str → Str → UpstreamConn → UpstreamConn
sent_on upstream_name text uc = sent (plain Command.privmsg (upstream_name ∷ text ∷ [])) uc

-- The session after the first call, and after both.
abbrev told_server : Str → Str → Str → User → UpstreamConn → Session → Session
told_server name upstream_name text u uc s = with_conn name (sent_on upstream_name text uc) u s

abbrev all_done : Str → Str → Str → User → UpstreamConn → Memory Message → Session → Session
all_done name upstream_name text u uc ring s =
    with_conn name (after_say upstream_name text ring uc)
      (record u { networks = put_conn (sent_on upstream_name text uc) u.networks })
      (marked uc (told_server name upstream_name text u uc s))

say_runs :
    (out : Outside) (text target upstream_name : Str) (s : Session) (name : Str) (u : User)
    (uc : UpstreamConn) (ring : Memory Message)
    → user_of s ≡ some (name, u)
    → unmarshal_channel s.client (conns u.networks) target ≡ ok (uc, upstream_name)
    → conn_at uc.network_ref u.networks ≡ some uc
    → uc.closed ≡ false
    → str_eq upstream_name (codes "NickServ") ≡ false
    → produce (echo uc upstream_name text) uc.ring ≡ Prelude.ok ring
    → say out text target s ≡ (ok tt, all_done name upstream_name text u uc ring s)
unfolding say
say_runs out text target upstream_name s name u uc ring e routed found is_open ordinary produced =
    let s1 : Session = told_server name upstream_name text u uc s in
    let u1 : User = record u { networks = put_conn (sent_on upstream_name text uc) u.networks } in
    bind-ok (resolve target) _ s s (uc, upstream_name)
      (resolve-eq target upstream_name s name u uc e routed)
    ∙ bind-ok (if str_eq upstream_name (codes "NickServ") then nickserv out uc text else finish) _ s
        s tt (ap (λ (b : Bool). (if b then nickserv out uc text else finish) s) ordinary)
    ∙ bind-ok (send_upstream uc.network_ref _) _ s s1 tt
        (send_upstream-eq _ s name u uc e found is_open)
    ∙ produce_echo-eq (echo uc upstream_name text) s1 name u1 (sent_on upstream_name text uc) ring
        (user_of-put s name u u1 e)
        (conn_at-put_conn uc (sent_on upstream_name text uc) u.networks found) produced

-- Of two writes of the connection at a place, the second counts.
get_elem?-put_twice :
    (nets : List Net) (first second : UpstreamConn)
    → second.network_ref ≡ first.network_ref
    → get_elem? (put_conn second (put_conn first nets)) first.network_ref
      ≡ Option.map
          (λ (net : Net). record net { conn = some second })
          (get_elem? nets first.network_ref)
get_elem?-put_twice nets first second same =
    ap (λ (n : ℕ). get_elem? (change_at n put (put_conn first nets)) i) same
    ∙ get_elem?-change_at i i put (put_conn first nets)
    ∙ here _ _
    ∙ ap (Option.map put)
        (get_elem?-change_at i i (λ net. record net { conn = some first }) nets ∙ here _ _)
    ∙ absorbed (get_elem? nets i)
  where
    i : ℕ
    i = first.network_ref

    put : Net → Net
    put net = record net { conn = some second }

    here : {A : Type 0} (x y : A) → (if i == i then x else y) ≡ x
    here x y = ap (λ (b : Bool). if b then x else y) ((==_iff i i).1 refl)

    absorbed :
        (o : Option Net)
        → Option.map put
            (Option.map {A = Net} {B = Net} (λ net. record net { conn = some first }) o)
          ≡ Option.map put o
    absorbed none = refl
    absorbed (some net) = refl

-- A PRIVMSG from a user on a server, as the other clients are to see it.
abbrev pub echo_of : Str → Str → Str → Str → Message
echo_of nick username target text = record {
  prefix = some (record { name = nick; user = username; host = [] });
  command = Command.privmsg;
  params = target ∷ text ∷ [];
}

-- A PRIVMSG to a target that belongs to an open connection, and is not NickServ: it is sent to the server once, under the name of the
-- server, and its echo, with the prefix of the user there, is the next message of the connection's ring, marked as the client's own by
-- its number there. Nothing else of the session changes, and no other user. With fewer than 2 ^ 64 messages nothing panics.
pub say-Said :
    (out : Outside) (text target upstream_name : Str) (s : Session) (name : Str) (u : User)
    (uc : UpstreamConn) (log : List Message)
    → user_of s ≡ some (name, u)
    → unmarshal_channel s.client (conns u.networks) target ≡ ok (uc, upstream_name)
    → conn_at uc.network_ref u.networks ≡ some uc
    → uc.closed ≡ false
    → str_eq upstream_name (codes "NickServ") ≡ false
    → IsRing log uc.ring
    → length log + 1 < 2 ^ 64
    → (ring : Memory Message) × (s' : Session) × (say out text target s ≡ (ok tt, s'))
      × IsRing (log ++ echo_of uc.nick uc.username upstream_name text ∷ []) ring
      × Said s s' name u uc (after_say upstream_name text ring uc) (length log)
say-Said out text target upstream_name s name u uc log e routed found is_open ordinary h room =
    let (ring, produced, h', _, _, _) =
      produce-IsRing log (echo uc upstream_name text) uc.ring h room in
    let u1 : User = record u { networks = put_conn (sent_on upstream_name text uc) u.networks } in
    let s1 : Session = told_server name upstream_name text u uc s in
    let uc' : UpstreamConn = after_say upstream_name text ring uc in
    let u2 : User = record u1 { networks = put_conn uc' u1.networks } in
    (
      ring,
      all_done name upstream_name text u uc ring s,
      say_runs out text target upstream_name s name u uc ring e routed found is_open ordinary
          produced,
      h',
      record {
        now = u2;
        held =
            (user_of-some (all_done name upstream_name text u uc ring s) name u2
              (user_of-put (marked uc s1) name u1 u2 (user_of-put s name u u1 e))).1;
        in_place = get_elem?-put_twice u.networks (sent_on upstream_name text uc) uc' refl;
        elsewhere = λ j apart.
            get_elem?-change_at uc.network_ref j _ u1.networks
            ∙ if_false _ _ apart
            ∙ get_elem?-change_at uc.network_ref j _ u.networks
            ∙ if_false _ _ apart;
        password = refl;
        attached = refl;
        journal = refl;
        client =
            ap
              (λ (n : ℕ). record s.client {
                our_messages = s.client.our_messages ++ (uc.serial, n) ∷ [];
              })
              h.cursor;
        others = λ other apart.
            lookup-insert name other u2 s1.users
            ∙ if_false _ _ apart
            ∙ lookup-insert name other u1 s.users
            ∙ if_false _ _ apart;
      },
    )
