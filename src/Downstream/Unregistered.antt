-- ===== src/Downstream/Unregistered.antt =====
-- `handleMessageUnregistered`, `authenticate` and `register`: how a client comes to have a user.

use soju.Prelude.{
  ℕ, not, Option, none, some, List, [], ◌∷◌, ◌++◌, if◌then◌else◌, get_elem?, contains,
}
use soju.Prelude.Text.{Str, codes, str_eq}
use soju.Prelude.Strings.{to_upper}
use soju.Prelude.Dict.{lookup}
use soju.Irc.{Message, Command, Reply}
use soju.Irc.Result.{Error, Result, ok, err, panic, irc_error, sasl_failed}
use soju.Irc.Action.{finish, lift, fail, get, update, ◌>>=◌, ◌>>◌}
use soju.Db.Store.{Journal}
use soju.User.{User, get_network, create_network}
use soju.Downstream.Names.{unmarshal_username}
use soju.Downstream.Caps.{is_enabled}
use soju.Downstream.Session.{
  SaslStep, challenge, check, failed, Outside, Handler, modify_client, send, notice, refusal,
  the_user, put_user,
}

-- `errAuthFailed`
abbrev pub auth_failed : Error
auth_failed = irc_error (
    refusal (Command.reply Reply.err_passwdmismatch)
      (codes "*" ∷ codes "Invalid username or password" ∷ []))

-- The address of a network's server, with the port that is meant if none is given.
abbrev pub with_port : Str → Str
with_port addr = if contains addr b':' then addr else addr ++ codes ":6697"

abbrev pub bind_network : Str → ℕ → Handler (Unit {0})
bind_network owner i = modify_client (λ dc. record dc { network = some (owner, i) })

-- What `createNetwork` leaves behind, with its result.
unfoldable pub created : Str → Result ℕ × User × Journal → Handler (Unit {0})
created username (r, u, journal) = do
  update (λ t. record t { journal = journal })
  put_user username u
  i ← lift r
  bind_network username i

-- A network that the user does not have yet: its server has to answer.
unfoldable pub add_network : Outside → Str → Handler (Unit {0})
unfolding created
add_network out name =
    if not (out.dial (with_port name))
    then fail (
        irc_error (
          refusal (Command.reply Reply.err_passwdmismatch)
            (codes "*" ∷ (codes "Failed to connect to " ++ out.quote name) ∷ [])))
    else do
      s ← get
      (username, u) ← the_user
      created username (create_network out.sql username name s.client.nick u s.journal)

unfoldable pub set_network : Outside → Str → Handler (Unit {0})
unfolding add_network
set_network out name = if str_eq name [] then finish else do
  (username, u) ← the_user
  elim (get_network name u.networks) [
    | none ↦ add_network out name
    | some i ↦ bind_network username i
  ]

unfoldable pub authenticate : Outside → Str → Str → Handler (Unit {0})
unfolding set_network
authenticate out raw password = do
  s ← get
  let (username, network) = unmarshal_username raw
  elim (lookup username s.users) [
    | none ↦ fail auth_failed
    | some u ↦
        if not (out.check_password u.password password)
        then fail auth_failed
        else do modify_client (λ dc. record dc { user = some username }); set_network out network
  ]

-- What a SASL exchange that has failed tells the client.
abbrev pub sasl_refusal : Str → Error
sasl_refusal text = irc_error (refusal Command.err_saslfail (codes "*" ∷ text ∷ []))

abbrev pub sasl_over : Handler (Unit {0})
sasl_over = modify_client (λ dc. record dc { sasl_server = none })

abbrev pub sasl_broken : Outside → Handler (Unit {0})
sasl_broken out = do
  send (notice out.hostname Command.err_saslfail (codes "*" ∷ codes "SASL error" ∷ []))
  fail sasl_failed

-- The text of the error of a wrong password is passed on.
abbrev pub sasl_refused : Outside → Command → Message → Handler (Unit {0})
sasl_refused out (Command.reply Reply.err_passwdmismatch) m = elim (get_elem? m.params 1) [
  | none ↦ lift panic
  | some text ↦ fail (sasl_refusal text)
]
sasl_refused out cmd m = sasl_broken out

-- An error of `Next`.
abbrev pub sasl_error : Outside → Error → Handler (Unit {0})
sasl_error out (irc_error m) = sasl_refused out m.command m
sasl_error out e = sasl_broken out

unfoldable pub sasl_done : Outside → Handler (Unit {0})
sasl_done out = do
  sasl_over
  s ← get
  (username, _) ← the_user
  let nick = s.client.nick
  send (
      notice out.hostname Command.rpl_loggedin
        (nick ∷ nick ∷ username ∷ codes "You are now logged in" ∷ []))
  send (
      notice out.hostname Command.rpl_saslsuccess
        (nick ∷ codes "SASL authentication successful" ∷ []))

-- What follows the call of the authenticator.
abbrev pub sasl_checked : Outside → Result (Unit {0}) → Handler (Unit {0})
sasl_checked out (ok a) = sasl_done out
sasl_checked out (err e) = do sasl_over; sasl_error out e
sasl_checked out panic = lift panic

unfoldable pub sasl_check : Outside → Str → Str → Handler (Unit {0})
unfolding authenticate sasl_done
sasl_check out username password s =
    let (r, s') = authenticate out username password s in sasl_checked out r s'

-- What follows a step of the server.
unfoldable pub sasl_answer : Outside → SaslStep → Handler (Unit {0})
unfolding sasl_check
sasl_answer out (challenge text) = send (
    notice out.hostname Command.authenticate
      ((elim text [ none ↦ codes "+" | some t ↦ out.base64_encode t ]) ∷ []))
sasl_answer out (check identity username password) = sasl_check out username password
sasl_answer out failed = do sasl_over; sasl_error out sasl_failed

-- `Next` with the response, which the server keeps.
unfoldable pub sasl_next : Outside → List (Option Str) → Option Str → Handler (Unit {0})
unfolding sasl_answer
sasl_next out before resp = do
  modify_client (λ dc. record dc { sasl_server = some (before ++ resp ∷ []) })
  sasl_answer out (out.plain_next (before ++ resp ∷ []))

-- The first AUTHENTICATE names the mechanism.
unfoldable pub sasl_first : Outside → Str → Handler (Unit {0})
unfolding sasl_next
sasl_first out arg =
    if str_eq (to_upper arg) (codes "PLAIN")
    then sasl_next out [] none
    else fail (sasl_refusal (codes "Unsupported SASL mechanism " ++ out.quote (to_upper arg)))

unfoldable pub sasl_response : Outside → List (Option Str) → Str → Handler (Unit {0})
unfolding sasl_next
sasl_response out before arg =
    if str_eq arg (codes "*")
    then (do
      sasl_over
      fail (
          irc_error (
            refusal Command.err_saslaborted
              (codes "*" ∷ codes "SASL authentication aborted" ∷ []))))
    else if str_eq arg (codes "+")
    then sasl_next out before none
    else elim (out.base64_decode arg) [
      | none ↦ (do sasl_over; fail (sasl_refusal (codes "Invalid base64-encoded response")))
      | some resp ↦ sasl_next out before (some resp)
    ]

unfoldable pub handle_sasl : Outside → List Str → Handler (Unit {0})
unfolding sasl_first sasl_response
handle_sasl out params = do
  s ← get
  if not (is_enabled s.client.caps (codes "sasl"))
      then fail (sasl_refusal (codes "AUTHENTICATE requires the \"sasl\" capability to be enabled"))
      else elim params [
        | [] ↦ fail (sasl_refusal (codes "Missing AUTHENTICATE argument"))
        | arg ∷ args ↦
            if str_eq s.client.nick []
            then fail (sasl_refusal (codes "Expected NICK command before AUTHENTICATE"))
            else elim s.client.sasl_server [
              | none ↦ sasl_first out arg
              | some before ↦ sasl_response out before arg
            ]
      ]
