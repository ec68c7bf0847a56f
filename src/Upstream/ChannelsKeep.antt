-- ===== src/Upstream/ChannelsKeep.antt =====
-- The handlers about channels keep a stable invariant.
use soju.Prelude.{
  ℕ, zero, suc, ◌<◌, ◌≡◌, ◌≢◌, refl, sym, ap, ◌∙◌, Bool, true, Option, none, some, List, [], ◌∷◌,
  arith, take, get_or, All,
}
use soju.Prelude.Text.{Str}
use soju.Prelude.Strings.{split}
use soju.Irc.{Prefix, Message, Command, Reply}
use soju.Irc.Modes
use soju.Irc.Modes.Set.{apply-safe}
use soju.Irc.Result.{ok, panic}
use soju.Irc.Params.{parse_message_params, param, parse_channel_status, parse_membership_prefix}
use soju.Conn.{UpstreamChannel, UpstreamConn, DownstreamConn}
use soju.Upstream.{Env, World, Handler, modify}
use soju.Upstream.Bridge.{forward_channel}
use soju.Upstream.Channels.{
  with_prefix, set_user_modes, set_channel_modes, user_mode, channel_mode, handle_mode,
  rename_member, change_nick, handle_nick, join_channel, joined, part_channel, each_channel,
  handle_join, handle_part, without_member, handle_quit, handle_rpl_topic, announce_topic,
  handle_topic, handle_topicwhotime, add_members, handle_namreply, handle_endofnames,
}
use soju.Upstream.Keeps.{
  IsStable, Keeps, Keeps-bind, Keeps-bind-lift, Keeps-fail, Keeps-option, Keeps-finish, Keeps-lift,
  Keeps-if, Keeps-conn,
}
use soju.Upstream.Stable.{
  Keeps-modify, Keeps-put_channel, Keeps-get_channel, Keeps-for_each, Keeps-broadcast,
  delete-IsConsistent, update_all-IsConsistent,
}
use soju.Upstream.Total.{parse-safe}

rename_member-name :
    (old new : Str) (ch : UpstreamChannel) → (rename_member old new ch).name ≡ ch.name
unfolding rename_member
rename_member-name old new ch = ground arith

forward_channel-safe :
    (hostname : Str) (dc : DownstreamConn) (uc : UpstreamConn) (ch : UpstreamChannel)
    → ch.complete ≡ true
    → forward_channel hostname dc uc ch ≢ panic
unfolding forward_channel
forward_channel-safe hostname dc uc ch e x = ground arith

-- The members of a NAMES reply, one at least in each place.
abbrev pub AllNamed : List Str → Type 0
AllNamed names = All (λ s. s ≢ []) names

parse_membership_prefix-safe : (s : Str) → s ≢ [] → parse_membership_prefix s ≢ panic
unfolding parse_membership_prefix
parse_membership_prefix-safe [] h e = h refl
parse_membership_prefix-safe (c ∷ s) h e = ground arith

parse_channel_status-safe : (s : Str) → s ≢ [] → parse_channel_status s ≢ panic
unfolding parse_channel_status
parse_channel_status-safe [] h e = h refl
parse_channel_status-safe (c ∷ []) h e = ground arith
parse_channel_status-safe (c ∷ d ∷ s) h e = cc

param-take : (xs : List Str) (n i : ℕ) → i < n → param (take n xs) i ≡ get_or xs i []
param-take [] zero i h = elim h [ ]
param-take [] (suc n) i h = refl
param-take (x ∷ xs) zero i h = elim h [ ]
param-take (x ∷ xs) (suc n) zero h = refl
param-take (x ∷ xs) (suc n) (suc i) h = param-take xs n i (omega arith)

parse-ok :
    (text : Reply → Str) (msg : Message) (n : ℕ) (out : List Str)
    → parse_message_params text msg n ≡ ok out
    → out ≡ take n msg.params
unfolding parse_message_params
parse-ok text msg n out e = ground arith

-- A message at which the handler of its command does not fall over: TOPIC has a prefix, and a reply
-- of names has a status and no empty name.
abbrev pub IsSafe : Command → Message → Type 0
IsSafe Command.topic msg = msg.prefix ≢ none
IsSafe (Command.reply Reply.rpl_namreply) msg =
    (get_or msg.params 1 [] ≢ []) × AllNamed (split (get_or msg.params 3 []) 32)
IsSafe _ msg = Unit

module _ {P : World → Type 0} {Q : Type 0} (s : IsStable P Q) where
  set_user_modes-Keeps : (modes : Str) → Keeps P Q (set_user_modes modes)
  unfolding set_user_modes
  set_user_modes-Keeps modes = record {
    at = λ w h. (
      s.change w (record w.conn { modes = (Modes.apply w.conn.modes modes).1 }) h
          (record { network_ref = refl; closed = refl; ring = refl })
          (record { named = (s.consistent w h).named; started = (s.consistent w h).started }),
      λ q. apply-safe w.conn.modes modes,
    );
  }

  set_channel_modes-Keeps :
      (name : Str) (ch : UpstreamChannel) (modes : Str)
      → ch.name ≡ name
      → Keeps P Q (set_channel_modes name ch modes)
  unfolding set_channel_modes
  set_channel_modes-Keeps name ch modes e = record {
    at = λ w h. (
      ((Keeps-put_channel s name (record ch { modes = (Modes.apply ch.modes modes).1 }) e).at w
          h).0,
      λ q. apply-safe ch.modes modes,
    );
  }

  user_mode-Keeps : (name modes : Str) → Keeps P Q (user_mode name modes)
  unfolding user_mode
  user_mode-Keeps name modes =
      Keeps-bind _ _ Keeps-conn (λ uc. Keeps-if _ _ _ (Keeps-fail _) (set_user_modes-Keeps modes))

  channel_mode-Keeps : (p : Prefix) (name modes : Str) → Keeps P Q (channel_mode p name modes)
  unfolding channel_mode
  channel_mode-Keeps p name modes =
      Keeps-get_channel s name _ (λ ch e.
        Keeps-bind _ _ (set_channel_modes-Keeps name ch modes e) (λ _. Keeps-broadcast s _))

  with_prefix-Keeps :
      (msg : Message) (f : Prefix → Handler (Unit {0}))
      → ((p : Prefix) → Keeps P Q (f p))
      → Keeps P Q (with_prefix msg f)
  with_prefix-Keeps msg f kf = Keeps-option _ _ _ (Keeps-fail _) kf

  pub handle_mode-Keeps : (env : Env) (msg : Message) → Keeps P Q (handle_mode env msg)
  unfolding handle_mode
  handle_mode-Keeps env msg = with_prefix-Keeps msg _ (λ p.
      Keeps-bind _ _ (Keeps-lift _ (λ _. parse-safe env.text msg 2))
        (λ out. Keeps-if _ _ _ (user_mode-Keeps _ _) (channel_mode-Keeps p _ _)))

  change_nick-Keeps : (p : Prefix) (new : Str) → Keeps P Q (modify (change_nick p new))
  unfolding change_nick
  change_nick-Keeps p new =
      Keeps-modify s (change_nick p new)
        (λ uc. record { network_ref = refl; closed = refl; ring = refl })
        (λ uc c.
          update_all-IsConsistent (rename_member p.name new) _ uc (rename_member-name p.name new) c)

  pub handle_nick-Keeps : (env : Env) (msg : Message) → Keeps P Q (handle_nick env msg)
  unfolding handle_nick
  handle_nick-Keeps env msg = with_prefix-Keeps msg _ (λ p.
      Keeps-bind _ _ (Keeps-lift _ (λ _. parse-safe env.text msg 1)) (λ out.
        Keeps-bind _ _ (change_nick-Keeps p (param out 0)) (λ _.
          Keeps-bind _ _ Keeps-conn (λ uc. Keeps-if _ _ _ (Keeps-broadcast s _) Keeps-finish))))

  join_channel-Keeps : (p : Prefix) (name : Str) → Keeps P Q (join_channel p name)
  unfolding join_channel
  join_channel-Keeps p name = Keeps-bind _ _ Keeps-conn (λ uc.
      Keeps-if _ _ _ (Keeps-put_channel s name (joined name) refl)
        (Keeps-get_channel s name _ (λ ch e. Keeps-put_channel s name _ e)))

  part_channel-Keeps : (p : Prefix) (name : Str) → Keeps P Q (part_channel p name)
  unfolding part_channel
  part_channel-Keeps p name = Keeps-bind _ _ Keeps-conn (λ uc.
      Keeps-if _ _ _
        (Keeps-modify s _ (λ uc. record { network_ref = refl; closed = refl; ring = refl })
          (λ uc c. delete-IsConsistent name uc c))
        (Keeps-get_channel s name _ (λ ch e. Keeps-put_channel s name _ e)))

  each_channel-Keeps :
      (change : Str → Handler (Unit {0})) (cmd : Command) (p : Prefix) (names : List Str)
      → ((name : Str) → Keeps P Q (change name))
      → Keeps P Q (each_channel change cmd p names)
  unfolding each_channel
  each_channel-Keeps change cmd p [] kc = Keeps-finish
  each_channel-Keeps change cmd p (name ∷ names) kc =
      Keeps-bind _ _ (kc name)
        (λ _. Keeps-bind _ _ (Keeps-broadcast s _) (λ _. each_channel-Keeps change cmd p names kc))

  pub handle_join-Keeps : (env : Env) (msg : Message) → Keeps P Q (handle_join env msg)
  unfolding handle_join
  handle_join-Keeps env msg = with_prefix-Keeps msg _ (λ p.
      Keeps-bind _ _ (Keeps-lift _ (λ _. parse-safe env.text msg 1))
        (λ out. each_channel-Keeps _ _ p _ (join_channel-Keeps p)))

  pub handle_part-Keeps : (env : Env) (msg : Message) → Keeps P Q (handle_part env msg)
  unfolding handle_part
  handle_part-Keeps env msg = with_prefix-Keeps msg _ (λ p.
      Keeps-bind _ _ (Keeps-lift _ (λ _. parse-safe env.text msg 1))
        (λ out. each_channel-Keeps _ _ p _ (part_channel-Keeps p)))

  pub handle_quit-Keeps : (msg : Message) → Keeps P Q (handle_quit msg)
  unfolding handle_quit
  handle_quit-Keeps msg = with_prefix-Keeps msg _ (λ p.
      Keeps-bind _ _
        (Keeps-modify s _ (λ uc. record { network_ref = refl; closed = refl; ring = refl })
          (λ uc c. update_all-IsConsistent (without_member p.name) uc.nick uc (λ ch. refl) c))
        (λ _. Keeps-bind _ _ Keeps-conn (λ uc. Keeps-if _ _ _ (Keeps-broadcast s _) Keeps-finish)))

  pub handle_rpl_topic-Keeps :
      (env : Env) (is_topic : Bool) (msg : Message) → Keeps P Q (handle_rpl_topic env is_topic msg)
  unfolding handle_rpl_topic
  handle_rpl_topic-Keeps env is_topic msg =
      Keeps-bind _ _ (Keeps-lift _ (λ _. parse-safe env.text msg 3))
        (λ out. Keeps-get_channel s (param out 1) _ (λ ch e. Keeps-put_channel s _ _ e))

  pub handle_topic-Keeps :
      (env : Env) (msg : Message) → (Q → msg.prefix ≢ none) → Keeps P Q (handle_topic env msg)
  unfolding handle_topic
  handle_topic-Keeps env msg safe =
      Keeps-bind _ _ (Keeps-lift _ (λ _. parse-safe env.text msg 1)) (λ out.
        Keeps-get_channel s (param out 0) _ (λ ch e.
          Keeps-bind _ _ (Keeps-put_channel s _ _ e)
            (λ _. Keeps-for_each s _ (λ q uc dc. announces msg.prefix _ uc dc (safe q)))))
    where
      announces :
          (p : Option Prefix) (params : List Str) (uc : UpstreamConn) (dc : DownstreamConn)
          → p ≢ none
          → announce_topic p params uc dc ≢ panic
      announces none params uc dc h = λ e. h refl
      announces (some p) params uc dc h = λ e. cc

  pub handle_topicwhotime-Keeps :
      (env : Env) (msg : Message) → Keeps P Q (handle_topicwhotime env msg)
  unfolding handle_topicwhotime
  handle_topicwhotime-Keeps env msg =
      Keeps-bind _ _ (Keeps-lift _ (λ _. parse-safe env.text msg 4)) (λ out.
        Keeps-get_channel s (param out 1) _ (λ ch e.
          Keeps-bind _ _ (Keeps-put_channel s _ _ e)
            (λ _. Keeps-option _ _ _ (Keeps-fail _) (λ sec. Keeps-put_channel s _ _ e))))

  add_members-Keeps :
      (name : Str) (members : List Str)
      → (Q → AllNamed members)
      → Keeps P Q (add_members name members)
  unfolding add_members
  add_members-Keeps name [] safe = Keeps-finish
  add_members-Keeps name (m ∷ members) safe =
      Keeps-bind _ _ (Keeps-lift _ (λ q. parse_membership_prefix-safe m (safe q).0)) (λ r.
        Keeps-get_channel s name _ (λ ch e.
          Keeps-bind _ _ (Keeps-put_channel s name _ e)
            (λ _. add_members-Keeps name members (λ q. (safe q).1))))

  pub handle_namreply-Keeps :
      (env : Env) (msg : Message)
      → (Q → IsSafe (Command.reply Reply.rpl_namreply) msg)
      → Keeps P Q (handle_namreply env msg)
  unfolding handle_namreply
  handle_namreply-Keeps env msg safe =
      Keeps-bind-lift _ _ (λ _. parse-safe env.text msg 4)
        (λ out e.
          let p : (i : ℕ) → i < 4 → param out i ≡ get_or msg.params i [] = λ i h.
            ap (λ (o : List Str). param o i) (parse-ok env.text msg 4 out e)
            ∙ param-take msg.params 4 i h in
          Keeps-get_channel s (param out 2) _ (λ ch named.
            Keeps-bind _ _
              (Keeps-lift _
                (λ q. parse_channel_status-safe _ (λ x. (safe q).0 (sym (p 1 (omega arith)) ∙ x))))
              (λ status.
                Keeps-bind _ _ (Keeps-put_channel s _ _ named)
                  (λ _. add_members-Keeps _ _ (λ q. rw (p 3 (omega arith)) (safe q).1)))))

  pub handle_endofnames-Keeps : (env : Env) (msg : Message) → Keeps P Q (handle_endofnames env msg)
  unfolding handle_endofnames
  handle_endofnames-Keeps env msg =
      Keeps-bind _ _ (Keeps-lift _ (λ _. parse-safe env.text msg 2)) (λ out.
        Keeps-get_channel s (param out 1) _ (λ ch e. Keeps-if _ _ _ (Keeps-fail _) (
          Keeps-bind _ _ (Keeps-put_channel s _ _ e)
            (λ _. Keeps-for_each s _ (λ q uc dc. forward_channel-safe env.hostname dc uc _ refl)))))
