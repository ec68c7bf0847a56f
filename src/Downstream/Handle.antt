-- ===== src/Downstream/Handle.antt =====
-- `handleMessage` of a client, `Close`, and what the loops over its messages make of an error.
use soju.Prelude.{true, Option, none, some, List, [], ◌∷◌, if◌then◌else◌}
use soju.Irc.{Message, Command}
use soju.Irc.Result.{Result, ok, err, panic, irc_error, already_closed}
use soju.Irc.Action.{finish, fail, get, ◌>>=◌, ◌>>◌}
use soju.Ring.{remove_first}
use soju.Conn.{server_prefix}
use soju.Downstream.Session.{Outside, Session, Handler, modify_client, send, user_of, put_user}
use soju.Downstream.Registered.{handle_registered}
use soju.Downstream.Register.{handle_unregistered}

-- The client leaves its user's list at its first place there.
unfoldable pub detach : Handler (Unit {0})
detach = do
  s ← get
  elim (user_of s) [
    | none ↦ finish
    | some (name, u) ↦ put_user name (record u { attached = remove_first s.self u.attached })
  ]

unfoldable pub close : Handler (Unit {0})
unfolding detach
close = do
  s ← get
  if s.client.closed
      then fail already_closed
      else (do detach; modify_client (λ dc. record dc { closed = true }))

-- The rest of `handleMessage` but QUIT.
abbrev pub dispatch : Outside → Message → Handler (Unit {0})
dispatch out msg = do
  s ← get
  if s.client.registered then handle_registered out msg.command msg else handle_unregistered out msg

unfoldable pub handle_message : Outside → Message → Handler (Unit {0})
unfolding close
handle_message out msg = elim msg.command [ Command.quit ↦ close | _ ↦ dispatch out msg ]

-- What the loop of `run` does with the result: it answers an `ircError`, and closes the client on any other
-- error. A panic ends the program.
abbrev pub settle : Outside → Result (Unit {0}) → Handler (Unit {0})
settle out (ok a) s = (ok tt, s)
settle out (err (irc_error m)) s = send (record m { prefix = some (server_prefix out.hostname) }) s
settle out (err e) s = let (r, s') = close s in (elim r [ panic ↦ panic | _ ↦ ok tt ], s')
settle out panic s = (panic, s)

unfoldable pub serve : Outside → Message → Handler (Unit {0})
unfolding handle_message
serve out msg s = let (r, s') = handle_message out msg s in settle out r s'

-- The messages of one client, as the loop of `run` comes to them. A panic ends the program.
unfoldable pub serve_all : Outside → List Message → Session → Session
unfolding serve
serve_all out [] s = s
serve_all out (msg ∷ msgs) s =
    let (r, s') = serve out msg s in
    let rest = serve_all out msgs s' in elim r [ panic ↦ s' | _ ↦ rest ]

-- `runUntilRegistered` over the messages that the client sends: it stops when the client is registered, or
-- at an error that is no `ircError`; `none` means that it waits for more. What is left of the messages goes
-- to the user's loop.
unfoldable pub until_registered :
    Outside → List Message → Session → Option (Result (List Message)) × Session
until_registered out [] s = (if s.client.registered then some (ok []) else none, s)
until_registered out (msg ∷ msgs) s =
    let (r, s') = handle_message out msg s in
    let again = until_registered out msgs s' in
    let answered = (λ (m : Message).
      until_registered out msgs
        (send (record m { prefix = some (server_prefix out.hostname) }) s').1) in
    if s.client.registered then (some (ok (msg ∷ msgs)), s) else elim r [
      | ok a ↦ again
      | err (irc_error m) ↦ answered m
      | err e ↦ (some (err e), s')
      | panic ↦ (some panic, s')
    ]
