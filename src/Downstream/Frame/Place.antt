-- ===== src/Downstream/Frame/Place.antt =====
-- A property at a place that the client visits, and the handlers that write to the connection there.
use mathlib.Core.Option
use soju.Prelude.{
  ◌&&◌, ℕ, ◌≡◌, refl, sym, ap, ◌∙◌, subst, Bool, true, false, not, Option, none, some, List, [],
  ◌∷◌, ◌++◌, if◌then◌else◌, length, get_or, drop, map, get_elem?, ◌==◌, Option-cases, Bool-cases,
  inl, inr, ltb, arith,
}
use soju.Prelude
use soju.Prelude.Text.{Str, str_eq}
use soju.Irc.{Message}
use soju.Irc.Result.{Result, panic}
use soju.Irc.Action.{lift, continue, ◌>>=◌}
use soju.Ring.{Memory, produce}
use soju.Conn.{points_at, Network, UpstreamConn, DownstreamConn}
use soju.Db.Store.{Journal, store_network}
use soju.User.{Net, User, change_at}
use soju.Downstream.Session.{
  Outside, Session, Handler, user_of, modify_networks, conn_of, conn_at, the_conn, put_conn, sent,
  send_upstream, not_nil,
}
use soju.Downstream.Registered.{with_credentials, save_credentials, nickserv, produce_echo}
use soju.Downstream.Frame.{
  IsFrame, Keeps, Keeps-finish, Keeps-option, Keeps-bind-lift, the_user_at, if_at, option_at,
}
use soju.Downstream.Frame.Registered.{modify_networks-frame}
use soju.Downstream.Frame.Networks.{change_at-Touches}

-- A property, at a place that the client visits.
abbrev pub At : (Session → Type 0) → ℕ → Session → Type 0
At P i s = P s × (points_at s.client i ≡ true)

pub IsFrame-At : {P : Session → Type 0} (i : ℕ) → IsFrame P → IsFrame (At P i)
IsFrame-At i frame = record {
  client = λ s dc h same. (
    frame.client s dc h.0 same,
    ap (λ (network : Option (Str × ℕ)). owned network dc.user) same.network
        ∙ ap (owned s.client.network) same.user
        ∙ h.1,
  );
  journal = λ s j h. (frame.journal s j h.0, h.1);
  placed = λ s name u h e. frame.placed s name u h.0 e;
  put = λ s name u u' h e touches. (frame.put s name u u' h.0 e touches, h.1);
  bound = λ s owner j u config h e found. (frame.bound s owner j u config h.0 e found, h.1);
}
  where
    owned : Option (Str × ℕ) → Option Str → Bool
    owned network user = elim network [
      | none ↦ true
      | some (owner, n) ↦ (elim user [ none ↦ false | some name ↦ str_eq owner name ]) && n == i
    ]

pub the_conn_at :
    (P : Session → Type 0) {B : Type 0} (i : ℕ) (f : UpstreamConn → Handler B) (s : Session)
    → P s
    → ((name : Str) (u : User) (uc : UpstreamConn)
        → user_of s ≡ some (name, u)
        → conn_at i u.networks ≡ some uc
        → P (f uc s).1)
    → P ((the_conn i >>= f) s).1
unfolding ◌>>=◌ the_conn
the_conn_at P i f s h kf = with_user (user_of s) refl
  where
    with_conn :
        (o : Option UpstreamConn) (name : Str) (u : User)
        → user_of s ≡ some (name, u)
        → conn_at i u.networks ≡ o
        → P (continue (not_nil o) f s).1
    with_conn none name u e found = h
    with_conn (some uc) name u e found = kf name u uc e found

    with_user :
        (o : Option (Str × User))
        → user_of s ≡ o
        → P
            (let (r, s') =
                continue {B = UpstreamConn}
                  (not_nil o)
                  (λ x. lift (not_nil (conn_at i x.1.networks)))
                  s in
              continue r f s').1
    with_user none e = h
    with_user (some (name, u)) e = with_conn (conn_at i u.networks) name u e refl

module _ {P : Session → Type 0} (frame : IsFrame P) (i : ℕ) where
  -- What is put in the place of a connection still points to the place.
  pub put_conn-frame :
      (uc uc' : UpstreamConn) (s : Session) (name : Str) (u : User)
      → At P i s
      → user_of s ≡ some (name, u)
      → conn_at i u.networks ≡ some uc
      → uc'.network_ref ≡ uc.network_ref
      → At P i (modify_networks (put_conn uc') s).1
  put_conn-frame uc uc' s name u h e found points =
      let here : uc'.network_ref ≡ i = points ∙ frame.placed s name u h.0 e i uc found in
      modify_networks-frame (IsFrame-At i frame) (put_conn uc') s h (λ v placed.
        change_at-Touches s.client v uc'.network_ref _ placed (ap (points_at s.client) here ∙ h.1)
          (λ net uc'' at now.
            ap (λ (x : UpstreamConn). x.network_ref) (sym (Option.some-injective uc' uc'' now))))

  pub Keeps-send_upstream : (msg : Message) → Keeps (At P i) (send_upstream i msg)
  unfolding send_upstream
  Keeps-send_upstream msg = record {
    at = λ s h. the_conn_at (At P i) i _ s h (λ name u uc e found.
        if_at (At P i) uc.closed (lift panic) _ s h
          (put_conn-frame uc (sent msg uc) s name u h e found refl));
  }

  pub Keeps-save_credentials :
      (out : Outside) (username password : Str)
      → Keeps (At P i) (save_credentials out i username password)
  unfolding save_credentials ◌>>=◌
  Keeps-save_credentials out username password = record {
    at = λ s h. the_user_at (At P i) _ s h (λ name u e.
        option_at (At P i) (get_elem? u.networks i) _ _ s h (λ net found.
          let stored : Result (Unit {0}) × Network × Journal =
            store_network out.sql name (with_credentials username password net.config) s.journal in
          let f : Net → Net = λ n. record n { config = stored.1 } in
          (IsFrame-At i frame).journal _ stored.2 (
            (IsFrame-At i frame).put s name u (record u { networks = change_at i f u.networks }) h e
              (change_at-Touches s.client u i f (frame.placed s name u h.0 e) h.1
                (λ n uc at now. frame.placed s name u h.0 e i uc (ap conn_of at ∙ now))))));
  }

  pub Keeps-nickserv :
      (out : Outside) (uc : UpstreamConn) (text : Str)
      → uc.network_ref ≡ i
      → Keeps (At P i) (nickserv out uc text)
  unfolding nickserv
  Keeps-nickserv out uc text here = Keeps-bind-lift _ _ (λ found e.
      Keeps-option found _ _ Keeps-finish (λ c.
        subst (λ (x : ℕ). Keeps (At P i) (save_credentials out x c.0 c.1)) (sym here)
          (Keeps-save_credentials out c.0 c.1)))

  produced :
      (uc : UpstreamConn) (s : Session)
      → At P i s
      → ((ring : Memory Message)
          → At P i (modify_networks (put_conn (record uc { ring = ring })) s).1)
      → (o : Prelude.Outcome (Memory Message))
      → At P i
          ((elim o as (λ _. Handler (Unit {0})) [
            | Prelude.panic ↦ lift panic
            | Prelude.ok ring ↦ modify_networks (put_conn (record uc { ring = ring }))
          ])
            s).1
  produced uc s h kept Prelude.panic = h
  produced uc s h kept (Prelude.ok ring) = kept ring

  pub Keeps-produce_echo : (msg : Message) → Keeps (At P i) (produce_echo i msg)
  unfolding produce_echo ◌>>=◌
  Keeps-produce_echo msg = record {
    at = λ s h. the_conn_at (At P i) i _ s h (λ name u uc e found.
        let dc : DownstreamConn = record s.client {
          our_messages = s.client.our_messages ++ (uc.serial, uc.ring.cur) ∷ [];
        } in
        let kept : At P i (record s { client = dc }) = (IsFrame-At i frame).client s dc h (record {
          user = refl;
          password = refl;
          network = refl;
          registered = refl;
          sasl_server = refl;
        }) in
        produced uc (record s { client = dc }) kept
          (λ ring.
            put_conn-frame uc (record uc { ring = ring }) (record s { client = dc }) name u kept e
              found refl)
          (produce msg uc.ring));
  }
