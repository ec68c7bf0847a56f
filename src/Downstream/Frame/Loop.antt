-- ===== src/Downstream/Frame/Loop.antt =====
-- `handleMessage`, `Close` and the loop of `run` keep what `IsFrame` describes, for a registered client.
use soju.Prelude.{◌≡◌, refl, sym, subst, Bool, true, List, [], ◌∷◌, if◌then◌else◌}
use soju.Irc.{Message, Command}
use soju.Irc.Result.{Result, ok, err, panic, irc_error}
use soju.Irc.Action.{finish}
use soju.Ring.{remove_first}
use soju.Downstream.Session.{Outside, Session, Handler, user_of}
use soju.Downstream.Registered.{handle_registered}
use soju.Downstream.Register.{handle_unregistered}
use soju.Downstream.Handle.{detach, close, dispatch, handle_message, settle, serve, serve_all}
use soju.Downstream.Frame.{
  IsFrame, Keeps, Keeps-finish, Keeps-fail, Keeps-bind, Keeps-get, Keeps-if, option_at,
}
use soju.Downstream.Frame.Registered.{Keeps-send, Keeps-client}
use soju.Downstream.Frame.Served.{Keeps-handle_registered}

module _ {P : Session → Type 0} (frame : IsFrame P) where
  Keeps-detach : Keeps P detach
  unfolding detach
  Keeps-detach = Keeps-get _ (λ s h. option_at P (user_of s) finish _ s h (λ x e.
      frame.put s x.0 x.1 (record x.1 { attached = remove_first s.self x.1.attached }) h e
        (record { placed = frame.placed s x.0 x.1 h e; others = λ j away. refl; password = refl })))

  pub Keeps-close : Keeps P close
  unfolding close
  Keeps-close = Keeps-get _ (λ s h.
      (Keeps-if s.client.closed _ _ (Keeps-fail _) (
          Keeps-bind _ _ Keeps-detach (λ _. Keeps-client frame _ (λ dc. record {
            user = refl;
            password = refl;
            network = refl;
            registered = refl;
            sasl_server = refl;
          })))).at
        s h)

  pub Keeps-settle : (out : Outside) (r : Result (Unit {0})) → Keeps P (settle out r)
  Keeps-settle out (ok a) = Keeps-finish
  Keeps-settle out (err e) = elim e as (λ x. Keeps P (settle out (err x))) [
    | irc_error m ↦ Keeps-send frame _
    | _ ↦ record { at = λ s h. Keeps-close.at s h }
  ]
  Keeps-settle out panic = record { at = λ s h. h }

  -- While the client is registered, which no message changes.
  module _ (registered : (s : Session) → P s → s.client.registered ≡ true) where
    Keeps-dispatch : (out : Outside) (msg : Message) → Keeps P (dispatch out msg)
    Keeps-dispatch out msg = Keeps-get _ (λ s h.
        subst
          (λ (b : Bool).
            P
              ((if b then handle_registered out msg.command msg else handle_unregistered out msg)
                s).1)
          (sym (registered s h)) ((Keeps-handle_registered frame out msg.command msg).at s h))

    Keeps-handle_message : (out : Outside) (msg : Message) → Keeps P (handle_message out msg)
    unfolding handle_message
    Keeps-handle_message out msg =
        elim msg.command
          as (λ c.
            Keeps P (elim c as (λ _. Handler (Unit {0})) [
              | Command.quit ↦ close
              | _ ↦ dispatch out msg
            ])) [ Command.quit ↦ Keeps-close | _ ↦ Keeps-dispatch out msg ]

    Keeps-serve : (out : Outside) (msg : Message) → Keeps P (serve out msg)
    unfolding serve
    Keeps-serve out msg = record {
      at = λ s h.
          (Keeps-settle out (handle_message out msg s).0).at _
            ((Keeps-handle_message out msg).at s h);
    }

    pub serve_all-frame :
        (out : Outside) (msgs : List Message) (s : Session) → P s → P (serve_all out msgs s)
    unfolding serve_all
    serve_all-frame out [] s h = h
    serve_all-frame out (msg ∷ msgs) s h =
        let h' : P (serve out msg s).1 = (Keeps-serve out msg).at s h in
        elim (serve out msg s).0
          as (λ r. P (elim r as (λ _. Session) [
            | panic ↦ (serve out msg s).1
            | _ ↦ serve_all out msgs (serve out msg s).1
          ])) [ panic ↦ h' | _ ↦ serve_all-frame out msgs (serve out msg s).1 h' ]
