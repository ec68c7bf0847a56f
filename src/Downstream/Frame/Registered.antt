-- ===== src/Downstream/Frame/Registered.antt =====
-- `handleMessageRegistered` keeps what `IsFrame` describes.

use mathlib.Core.Bool.{true≢false}
use soju.Prelude.{
  ℕ, ◌≡◌, refl, sym, ◌∙◌, none, some, inl, inr, Option-cases, get_elem?, List, drop, map, arith,
}
use soju.Prelude.Dict.{Dict, lookup}
use soju.Prelude.Text.{Str}
use soju.Irc.{Message}
use soju.Irc.Result.{Step}
use soju.Irc.Action.{update, ◌>>=◌}
use soju.Irc.Params.{param}
use soju.Conn.{Network, UpstreamConn, DownstreamConn, deliver}
use soju.Db.Store.{Journal, store_network}
use soju.User.{Net, User}
use soju.Downstream.Caps.{handle_cap_command, cap_ls, cap_list, cap_req}
use soju.Downstream.Session.{
  Outside, Session, modify_client, send, modify_networks, send_upstreams, told,
}
use soju.Downstream.Registered.{
  cap, store_nicks, network_at, change_all_nicks, change_bound_nick, change_nicks, nick, log_errors,
  user_mode,
}
use soju.Downstream.Frame.{
  SameIdentity, IsPlaced, Touches, IsFrame, Keeps, Keeps-fail, Keeps-if, Keeps-bind,
  Keeps-bind-lift, Keeps-get, Keeps-update, Keeps-the_user, the_user_at, option_at, option_eq_at,
}
use soju.Downstream.Frame.Networks.{told-Touches, store_nicks-conns}

pub same : (dc : DownstreamConn) → SameIdentity dc dc
same dc = record {
  user = refl;
  password = refl;
  network = refl;
  registered = refl;
  sasl_server = refl;
}

pub handle_cap_command-SameIdentity :
    (hostname sub : Str) (args : List Str) (dc : DownstreamConn)
    → SameIdentity (handle_cap_command hostname sub args dc).1 dc
unfolding handle_cap_command cap_ls cap_list cap_req
handle_cap_command-SameIdentity hostname sub args dc = record {
  user = ground arith;
  password = ground arith;
  network = ground arith;
  registered = ground arith;
  sasl_server = ground arith;
}

network_at-some :
    (users : Dict User) (owner : Str) (i : ℕ) (u : User) (net : Net)
    → network_at users owner i ≡ some (u, net)
    → lookup owner users ≡ some u
network_at-some users owner i u net e = elim (Option-cases (lookup owner users)) [
  | inl missing ↦ ground (arith, missing)
  | inr (v, found) ↦ elim (Option-cases (get_elem? v.networks i)) [
    | inl missing ↦ ground (arith, found, missing)
    | inr (n, there) ↦ ground (arith, found, there)
  ]
]

module _ {P : Session → Type 0} (frame : IsFrame P) where
  pub Keeps-client :
      (f : DownstreamConn → DownstreamConn)
      → ((dc : DownstreamConn) → SameIdentity (f dc) dc)
      → Keeps P (modify_client f)
  Keeps-client f unchanged =
      Keeps-update _ (λ s h. frame.client s (f s.client) h (unchanged s.client))

  pub Keeps-send : (msg : Message) → Keeps P (send msg)
  Keeps-send msg = Keeps-client (deliver msg) (λ dc. record {
    user = refl;
    password = refl;
    network = refl;
    registered = refl;
    sasl_server = refl;
  })

  pub Keeps-cap : (out : Outside) (msg : Message) → Keeps P (cap out msg)
  unfolding cap
  Keeps-cap out msg = Keeps-bind-lift _ _ (λ params e. record {
    at = λ s h. frame.client s _ h (
        handle_cap_command-SameIdentity out.hostname (param params 0) (drop 1 msg.params) s.client);
  })

  pub Keeps-journal : (f : Session → Journal) → Keeps P (update (λ s. record s { journal = f s }))
  Keeps-journal f = Keeps-update _ (λ s h. frame.journal s (f s) h)

  -- A change of the networks that the client may make.
  pub modify_networks-frame :
      (f : List Net → List Net) (s : Session)
      → P s
      → ((u : User)
          → IsPlaced u.networks
          → Touches s.client u (record u { networks = f u.networks }))
      → P (modify_networks f s).1
  unfolding modify_networks
  modify_networks-frame f s h touches = the_user_at P _ s h (λ name u e.
      frame.put s name u (record u { networks = f u.networks }) h e
        (touches u (frame.placed s name u h e)))

  Keeps-send_upstreams : (f : UpstreamConn → Message) → Keeps P (send_upstreams f)
  unfolding send_upstreams
  Keeps-send_upstreams f = Keeps-get _ (λ s h.
      modify_networks-frame (map (told s.client f)) s h
        (λ u placed. told-Touches s.client u f placed))

  change_all_nicks_at :
      (out : Outside) (name : Str) (s : Session)
      → P s
      → s.client.network ≡ none
      → P (change_all_nicks out name s).1
  unfolding change_all_nicks ◌>>=◌
  change_all_nicks_at out name s h unbound = the_user_at P _ s h (λ username u e.
      let nets : List Net = (store_nicks out.sql username name u.networks s.journal).1 in
      let touches : Touches s.client u (record u { networks = nets }) = record {
        placed = λ j uc found.
            frame.placed s username u h e j uc
              (sym (store_nicks-conns out.sql username name j u.networks s.journal) ∙ found);
        others = λ j away. absurd (true≢false (sym (rw unbound refl) ∙ away));
        password = refl;
      } in
      frame.journal _ _ (frame.put s username u (record u { networks = nets }) h e touches))

  change_bound_nick_at :
      (out : Outside) (owner : Str) (i : ℕ) (name : Str) (s : Session)
      → P s
      → s.client.network ≡ some (owner, i)
      → P (change_bound_nick out owner i name s).1
  unfolding change_bound_nick ◌>>=◌
  change_bound_nick_at out owner i name s h bound = the_user_at P _ s h (λ username u e.
      option_at P (network_at s.users owner i) _ _ s h (λ found here.
        let n : Network = record found.1.config { nick = name } in
        frame.journal _ _ (
          frame.bound s owner i found.0 (store_network out.sql username n s.journal).1 h bound
            (network_at-some s.users owner i found.0 found.1 here))))

  Keeps-change_nicks : (out : Outside) (name : Str) → Keeps P (change_nicks out name)
  unfolding change_nicks
  Keeps-change_nicks out name = Keeps-get _ (λ s h.
      option_eq_at P s.client.network _ _ s (λ unbound. change_all_nicks_at out name s h unbound)
        (λ p bound. change_bound_nick_at out p.0 p.1 name s h bound))

  pub Keeps-nick : (out : Outside) (msg : Message) → Keeps P (nick out msg)
  unfolding nick
  Keeps-nick out msg = Keeps-bind-lift _ _ (λ params e.
      Keeps-bind _ _ (Keeps-change_nicks out (param params 0))
        (λ _. Keeps-send_upstreams (λ uc. msg)))

  pub Keeps-user_mode :
      (out : Outside) (name mode_str : Str) → Keeps P (user_mode out name mode_str)
  unfolding user_mode
  Keeps-user_mode out name mode_str = Keeps-get _ (λ s h.
      (Keeps-if _ _ _ (Keeps-fail _) (Keeps-if _ _ _ (Keeps-send_upstreams _) (Keeps-send _))).at s
        h)

  pub Keeps-log_errors :
      (i : ℕ) (call : ℕ → Journal → Step Journal (Unit {0})) → Keeps P (log_errors i call)
  unfolding log_errors
  Keeps-log_errors i call = Keeps-the_user _ (λ s name u h e. frame.journal s _ h)
