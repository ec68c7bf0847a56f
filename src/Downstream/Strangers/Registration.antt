-- ===== src/Downstream/Strangers/Registration.antt =====
-- `register`, and every message of a client that knows no password of the user.

use soju.Prelude.{
  ℕ, Option, ◌≡◌, ◌≢◌, refl, sym, ap, ◌∙◌, Bool, false, some, List, [], ◌∷◌, ◌++◌, if◌then◌else◌,
  arith, length, ◌==◌, take, get_or, All, ltb,
}
use soju.Prelude.Text.{Str}
use soju.Prelude.Dict.{lookup, insert}
use soju.Irc.{Message, Command, Reply}
use soju.Irc.Result.{Result, ok, err, panic, irc_error}
use soju.Irc.Params.{parse_message_params, param, command_text, need_more_params}
use soju.User.{User}
use soju.Downstream.Names.{unmarshal_username}
use soju.Downstream.Session.{Outside, Session, Handler}
use soju.Downstream.Register.{
  attach_all, identify, welcomed, attach_upstreams, enter, register, unregistered_command,
  is_introduced, handle_unregistered,
}
use soju.Downstream.Handle.{close, dispatch, handle_message, serve, serve_all}
use soju.Downstream.Frame.{
  IsPlaced, Keeps, Keeps-finish, Keeps-fail, Keeps-if, Keeps-option, Keeps-bind, Keeps-bind-lift,
  Keeps-get, Keeps-update, the_user_at, lift_at, update_at,
}
use soju.Downstream.Frame.Registered.{Keeps-client, Keeps-cap}
use soju.Downstream.Frame.Served.{Keeps-handle_registered}
use soju.Downstream.Frame.Loop.{Keeps-close, Keeps-settle}
use soju.Downstream.Strangers.{IsWrong, IsStranger, IsStranger-client, IsStranger-put, other_user}
use soju.Downstream.Strangers.Attached.{attach_all_lem, IsPlaced-points_to}
use soju.Downstream.Strangers.Entry.{
  Tells, frame, Keeps-set_network, Keeps-authenticate, Keeps-handle_sasl,
}

-- A message that gives no password that fits, PASS keeping its first parameter, and no response to a SASL server that is not in
-- `responses`.
abbrev pub IsHarmless : Outside → (Option Str → Type 0) → Str → Message → Type 0
IsHarmless out responses hash msg =
    (msg.command ≡ Command.pass → out.check_password hash (get_or msg.params 0 []) ≡ false)
    × (msg.command ≡ Command.authenticate → Tells out responses msg.params)

first_param :
    (text : Reply → Str) (msg : Message) (params : List Str)
    → parse_message_params text msg 1 ≡ ok params
    → param params 0 ≡ get_or msg.params 0 []
unfolding parse_message_params
first_param text msg params e = given msg.params e
  where
    given :
        (all : List Str)
        → (if ltb (length all) 1
            then err (irc_error (need_more_params (command_text text msg.command)))
            else ok (take 1 all))
          ≡ ok params
        → param params 0 ≡ get_or all 0 []
    given [] h = cc
    given (x ∷ xs) h =
        let enough : ltb (length (x ∷ xs)) 1 ≡ false = ground arith in
        first (
          sym (
            ap
              (λ (b : Bool).
                if b
                then err (irc_error (need_more_params (command_text text msg.command)))
                else ok (x ∷ []))
              enough)
          ∙ h)
      where
        first : Result.ok (x ∷ []) ≡ ok params → param params 0 ≡ x
        first h' =
            ap (λ (r : Result (List Str)). elim r as (λ _. Str) [ ok ps ↦ param ps 0 | _ ↦ [] ])
              (sym h')

module _ (out : Outside) (responses : Option Str → Type 0) (name : Str) (u : User) where
  abbrev Q : Session → Type 0
  Q = IsStranger out responses name u

  Keeps-attach_upstreams :
      (hostname : Str) (first : Bool) → Keeps Q (attach_upstreams hostname first)
  unfolding attach_upstreams
  Keeps-attach_upstreams hostname first = Keeps-get _ (λ s h. the_user_at Q _ s h (λ username v e.
      lift_at Q (attach_all hostname first v.networks s.client) _ s h (λ done attached.
        let (points, same) = attach_all_lem hostname first v.networks s.client done attached in
        let placed : IsPlaced done.0 =
          IsPlaced-points_to v.networks done.0
            ((frame out responses name u).placed s username v h e) points in
        update_at Q _ _ s (
          (frame out responses name u).client _ done.1
            (IsStranger-put out responses name u s username (record v { networks = done.0 }) h
              (other_user out responses name u s username v h e) placed)
            same))))

  Keeps-enter : Keeps Q (enter out)
  unfolding enter
  Keeps-enter = Keeps-get _ (λ s h. the_user_at Q _ s h (λ username v e.
      let v' : User = record v { attached = v.attached ++ s.self ∷ [] } in
      let put : Q (record s { users = insert username v' s.users }) =
        IsStranger-put out responses name u s username v' h
          (other_user out responses name u s username v h e)
          ((frame out responses name u).placed s username v h e) in
      update_at Q _ _ s (
        update_at Q _ _ _ (
          (Keeps-attach_upstreams out.hostname (length v.attached == 0)).at _ (
            IsStranger-client out responses name u _ (welcomed out.hostname username s.client) put
              h.apart h.unbound h.given h.wrong)))))

  module _ (wrong : IsWrong out responses u.password) where
    Keeps-identify : Keeps Q (identify out)
    unfolding identify
    Keeps-identify = Keeps-get _ (λ s h. update_at Q _ _ s (
        let s' : Session = record s { client = record s.client { password = [] } } in
        let h' : Q s' =
          IsStranger-client out responses name u s (record s.client { password = [] }) h h.apart
            h.unbound h.given wrong.empty in
        (Keeps-option s.client.user _ _
            (Keeps-authenticate out responses name u s.client.raw_username s.client.password
              h.wrong)
            (λ other.
              Keeps-option s.client.network _ _
                (Keeps-set_network out responses name u
                  (unmarshal_username s.client.raw_username).1)
                (λ i. Keeps-finish))).at
          s' h'))

    Keeps-register : Keeps Q (register out)
    unfolding register
    Keeps-register = Keeps-bind _ _ Keeps-identify (λ _. Keeps-enter)

    -- PASS keeps its parameter as the password.
    Keeps-unregistered_command :
        (cmd : Command) (msg : Message)
        → (cmd ≡ Command.pass → out.check_password u.password (get_or msg.params 0 []) ≡ false)
          × (cmd ≡ Command.authenticate → Tells out responses msg.params)
        → Keeps Q (unregistered_command out cmd msg)
    unfolding unregistered_command
    Keeps-unregistered_command cmd msg harmless =
        (elim cmd
            as (λ c.
              (c ≡ Command.pass → out.check_password u.password (get_or msg.params 0 []) ≡ false)
                × (c ≡ Command.authenticate → Tells out responses msg.params)
              → Keeps Q (unregistered_command out c msg)) [
                | Command.nick ↦ λ no. Keeps-bind-lift _ _ (λ params e.
                    Keeps-client (frame out responses name u) _ (λ dc. record {
                      user = refl;
                      password = refl;
                      network = refl;
                      registered = refl;
                      sasl_server = refl;
                    }))
                | Command.user ↦ λ no. Keeps-bind-lift _ _ (λ params e.
                    Keeps-client (frame out responses name u) _ (λ dc. record {
                      user = refl;
                      password = refl;
                      network = refl;
                      registered = refl;
                      sasl_server = refl;
                    }))
                | Command.pass ↦ λ tried. Keeps-bind-lift _ _ (λ params e. Keeps-update _ (λ s h.
                    IsStranger-client out responses name u s _ h h.apart h.unbound h.given (
                      ap (out.check_password u.password) (first_param out.text msg params e)
                      ∙ tried.0 refl)))
                | Command.capability ↦ λ no. Keeps-cap (frame out responses name u) out msg
                | Command.authenticate ↦
                    λ told. Keeps-handle_sasl out responses name u wrong msg.params (told.1 refl)
                | _ ↦ λ no. Keeps-fail _
              ])
          harmless

    Keeps-handle_unregistered :
        (msg : Message)
        → IsHarmless out responses u.password msg
        → Keeps Q (handle_unregistered out msg)
    unfolding handle_unregistered
    Keeps-handle_unregistered msg harmless =
        Keeps-bind _ _ (Keeps-unregistered_command msg.command msg harmless) (λ _.
          Keeps-get _
            (λ s h. (Keeps-if (is_introduced s.client) _ _ Keeps-register Keeps-finish).at s h))

    Keeps-dispatch :
        (msg : Message) → IsHarmless out responses u.password msg → Keeps Q (dispatch out msg)
    Keeps-dispatch msg harmless = Keeps-get _ (λ s h.
        (Keeps-if s.client.registered _ _
            (Keeps-handle_registered (frame out responses name u) out msg.command msg)
            (Keeps-handle_unregistered msg harmless)).at
          s h)

    Keeps-handle_message :
        (msg : Message) → IsHarmless out responses u.password msg → Keeps Q (handle_message out msg)
    unfolding handle_message
    Keeps-handle_message msg harmless =
        elim msg.command
          as (λ c.
            Keeps Q (elim c as (λ _. Handler (Unit {0})) [
              | Command.quit ↦ close
              | _ ↦ dispatch out msg
            ])) [
              | Command.quit ↦ Keeps-close (frame out responses name u)
              | _ ↦ Keeps-dispatch msg harmless
            ]

    Keeps-serve :
        (msg : Message) → IsHarmless out responses u.password msg → Keeps Q (serve out msg)
    unfolding serve
    Keeps-serve msg harmless = record {
      at = λ s h.
          (Keeps-settle (frame out responses name u) out (handle_message out msg s).0).at _
            ((Keeps-handle_message msg harmless).at s h);
    }

    serve_all_lem :
        (msgs : List Message) (s : Session)
        → Q s
        → All (IsHarmless out responses u.password) msgs
        → Q (serve_all out msgs s)
    unfolding serve_all
    serve_all_lem [] s h harmless = h
    serve_all_lem (msg ∷ msgs) s h (here, later) =
        let h' : Q (serve out msg s).1 = (Keeps-serve msg here).at s h in
        elim (serve out msg s).0
          as (λ r. Q (elim r as (λ _. Session) [
            | panic ↦ (serve out msg s).1
            | _ ↦ serve_all out msgs (serve out msg s).1
          ])) [ panic ↦ h' | _ ↦ serve_all_lem msgs (serve out msg s).1 h' later ]

-- A client that is not logged in as a user and bound to none of its networks, and that gives no password that fits the user's, by PASS
-- or by SASL, neither logs in as that user nor changes anything of it, whatever messages it sends, and whether it registers as another
-- user or not. By SASL it gives none if its responses, and those that its server has been given, are in a set of which no exchange makes
-- the server read a password that fits. That the connections of every user point to their places stays so.
pub serve_all-IsStranger :
    (out : Outside) (responses : Option Str → Type 0) (msgs : List Message) (s : Session)
    (name : Str) (u : User)
    → lookup name s.users ≡ some u
    → s.client.user ≢ some name
    → ((i : ℕ) → s.client.network ≢ some (name, i))
    → ((before : List (Option Str)) → s.client.sasl_server ≡ some before → All responses before)
    → out.check_password u.password s.client.password ≡ false
    → IsWrong out responses u.password
    → All (IsHarmless out responses u.password) msgs
    → ((other : Str) (v : User) → lookup other s.users ≡ some v → IsPlaced v.networks)
    → IsStranger out responses name u (serve_all out msgs s)
serve_all-IsStranger out responses msgs s name u kept apart unbound given tried wrong harmless
      placed =
    serve_all_lem out responses name u wrong msgs s
      (record {
        kept = kept;
        apart = apart;
        unbound = unbound;
        given = given;
        wrong = tried;
        placed = placed;
      })
      harmless
