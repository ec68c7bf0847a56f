-- ===== src/Downstream/Frame/Served.antt =====
-- The handlers of a registered client that write to one connection, and all of them together.

use soju.Prelude.{ℕ, ◌≡◌, refl, true, not, Option, none, some, List, [], ◌∷◌}
use soju.Prelude.Text.{Str, str_eq}
use soju.Irc.{Message, Command}
use soju.Irc.Result.{Result, ok, err, panic}
use soju.Irc.Action.{lift, continue, ◌>>=◌}
use soju.Irc.Params.{param}
use soju.Conn.{points_at, UpstreamConn}
use soju.Db.Store.{store_channel, remove_channel}
use soju.User.{User}
use soju.Downstream.Routing.{unmarshal_channel}
use soju.Downstream.Session.{Outside, Session, Handler, user_of, conns, not_nil}
use soju.Downstream.Registered.{
  resolve, reworded, resolve_or_reword, join, part, channel_mode, mode, say, say_all, privmsg,
  handle_registered,
}
use soju.Downstream.Frame.{
  IsFrame, Keeps, Keeps-finish, Keeps-fail, Keeps-if, Keeps-option, Keeps-bind, Keeps-bind-lift,
  Keeps-get, if_at,
}
use soju.Downstream.Frame.Registered.{
  Keeps-send, Keeps-cap, Keeps-nick, Keeps-user_mode, Keeps-log_errors,
}
use soju.Downstream.Frame.Networks.{visited-own}
use soju.Downstream.Frame.Resolve.{unmarshal_channel-Visited}
use soju.Downstream.Frame.Place.{
  Keeps-send_upstream, Keeps-nickserv, Keeps-produce_echo, At, IsFrame-At,
}

module _ {P : Session → Type 0} (frame : IsFrame P) where
  -- The rest of a block has a connection at a place that the client visits.
  resolve_at :
      {B : Type 0} (name : Str) (f : UpstreamConn × Str → Handler B) (s : Session)
      → P s
      → ((uc : UpstreamConn) (upstream_name : Str)
          → points_at s.client uc.network_ref ≡ true
          → P (f (uc, upstream_name) s).1)
      → P ((resolve name >>= f) s).1
  unfolding ◌>>=◌ resolve
  resolve_at name f s h kf = with_user (user_of s) refl
    where
      with_conn :
          (r : Result (UpstreamConn × Str)) (nets : List (Option UpstreamConn))
          → unmarshal_channel s.client nets name ≡ r
          → P (continue r f s).1
      with_conn (ok (uc, t)) nets e =
          kf uc t (visited-own s.client uc (unmarshal_channel-Visited s.client nets name uc t e))
      with_conn (err why) nets e = h
      with_conn panic nets e = h

      with_user :
          (o : Option (Str × User))
          → user_of s ≡ o
          → P
              (let (r, s') =
                  continue {B = UpstreamConn × Str}
                    (not_nil o)
                    (λ x. lift (unmarshal_channel s.client (conns x.1.networks) name))
                    s in
                continue r f s').1
      with_user none e = h
      with_user (some (n, u)) e =
          with_conn (unmarshal_channel s.client (conns u.networks) name) (conns u.networks) refl

  resolve_or_reword_at :
      {B : Type 0} (out : Outside) (name : Str) (f : UpstreamConn × Str → Handler B) (s : Session)
      → P s
      → ((uc : UpstreamConn) (upstream_name : Str)
          → points_at s.client uc.network_ref ≡ true
          → P (f (uc, upstream_name) s).1)
      → P ((resolve_or_reword out name >>= f) s).1
  unfolding ◌>>=◌ resolve resolve_or_reword
  resolve_or_reword_at out name f s h kf = with_user (user_of s) refl
    where
      with_conn :
          (r : Result (UpstreamConn × Str)) (nets : List (Option UpstreamConn))
          → unmarshal_channel s.client nets name ≡ r
          → P (continue (reworded out name r) f s).1
      with_conn (ok (uc, t)) nets e =
          kf uc t (visited-own s.client uc (unmarshal_channel-Visited s.client nets name uc t e))
      with_conn (err why) nets e = h
      with_conn panic nets e = h

      with_user :
          (o : Option (Str × User))
          → user_of s ≡ o
          → P
              (let (r, s') =
                  continue {B = UpstreamConn × Str}
                    (not_nil o)
                    (λ x. lift (unmarshal_channel s.client (conns x.1.networks) name))
                    s in
                continue (reworded out name r) f s').1
      with_user none e = h
      with_user (some (n, u)) e =
          with_conn (unmarshal_channel s.client (conns u.networks) name) (conns u.networks) refl

  -- What is done at one place, after a look at where it is.
  At_place :
      (i : ℕ) (m : Handler (Unit {0})) (s : Session)
      → P s
      → points_at s.client i ≡ true
      → Keeps (At P i) m
      → P (m s).1
  At_place i m s h own km = (km.at s (h, own)).0

  Keeps-join : (out : Outside) (msg : Message) → Keeps P (join out msg)
  unfolding join
  Keeps-join out msg = Keeps-bind-lift _ _ (λ params e. record {
    at = λ s h. resolve_or_reword_at out (param params 0) _ s h (λ uc t own.
        At_place uc.network_ref _ s h own (
          Keeps-bind _ _ (Keeps-send_upstream frame uc.network_ref _) (λ _.
            Keeps-log_errors (IsFrame-At uc.network_ref frame) uc.network_ref
              (λ id. store_channel out.sql id t))));
  })

  Keeps-part : (out : Outside) (msg : Message) → Keeps P (part out msg)
  unfolding part
  Keeps-part out msg = Keeps-bind-lift _ _ (λ params e. record {
    at = λ s h. resolve_or_reword_at out (param params 0) _ s h (λ uc t own.
        At_place uc.network_ref _ s h own (
          Keeps-bind _ _ (Keeps-send_upstream frame uc.network_ref _) (λ _.
            Keeps-log_errors (IsFrame-At uc.network_ref frame) uc.network_ref
              (λ id. remove_channel out.sql id t))));
  })

  Keeps-channel_mode :
      (out : Outside) (name mode_str : Str) → Keeps P (channel_mode out name mode_str)
  unfolding channel_mode
  Keeps-channel_mode out name mode_str = record {
    at = λ s h. resolve_at name _ s h (λ uc t own.
        if_at P (not (str_eq mode_str [])) _ _ s
          (At_place uc.network_ref _ s h own (Keeps-send_upstream frame uc.network_ref _))
          ((Keeps-option _ _ _ (Keeps-fail _) (λ ch. Keeps-send frame _)).at s h));
  }

  Keeps-mode : (out : Outside) (msg : Message) → Keeps P (mode out msg)
  unfolding mode
  Keeps-mode out msg = Keeps-option msg.prefix _ _ (Keeps-fail _) (λ p.
      Keeps-bind-lift _ _
        (λ params e. Keeps-if _ _ _ (Keeps-channel_mode out _ _) (Keeps-user_mode frame out _ _)))

  Keeps-say : (out : Outside) (text target : Str) → Keeps P (say out text target)
  unfolding say
  Keeps-say out text target = record {
    at = λ s h. resolve_at target _ s h (λ uc t own. At_place uc.network_ref _ s h own (
        Keeps-bind _ _
          (Keeps-if _ _ _ (Keeps-nickserv frame uc.network_ref out uc text refl) Keeps-finish)
          (λ _.
            Keeps-bind _ _ (Keeps-send_upstream frame uc.network_ref _)
              (λ _. Keeps-produce_echo frame uc.network_ref _))));
  }

  Keeps-say_all :
      (out : Outside) (text : Str) (targets : List Str) → Keeps P (say_all out text targets)
  unfolding say_all
  Keeps-say_all out text [] = Keeps-finish
  Keeps-say_all out text (target ∷ targets) =
      Keeps-bind _ _ (Keeps-say out text target) (λ _. Keeps-say_all out text targets)

  Keeps-privmsg : (out : Outside) (msg : Message) → Keeps P (privmsg out msg)
  unfolding privmsg
  Keeps-privmsg out msg = Keeps-bind-lift _ _ (λ params e. Keeps-say_all out _ _)

  pub Keeps-handle_registered :
      (out : Outside) (cmd : Command) (msg : Message) → Keeps P (handle_registered out cmd msg)
  unfolding handle_registered
  Keeps-handle_registered out cmd msg = elim cmd as (λ c. Keeps P (handle_registered out c msg)) [
    | Command.capability ↦ Keeps-cap frame out msg
    | Command.ping ↦ Keeps-send frame _
    | Command.user ↦ Keeps-get _ (λ s h. h)
    | Command.nick ↦ Keeps-nick frame out msg
    | Command.join ↦ Keeps-join out msg
    | Command.part ↦ Keeps-part out msg
    | Command.mode ↦ Keeps-mode out msg
    | Command.privmsg ↦ Keeps-privmsg out msg
    | _ ↦ Keeps-fail _
  ]
