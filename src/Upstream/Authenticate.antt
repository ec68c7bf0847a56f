-- ===== src/Upstream/Authenticate.antt =====
-- The SASL exchange with a server.
use soju.Prelude.{true, false, not, Option, none, some, List, [], ◌∷◌, ◌++◌, if◌then◌else◌}
use soju.Prelude.Text.{Str, codes, str_eq}
use soju.Irc.{Message, Command}
use soju.Irc.Result.{
  Error, Result, ok, err, panic, unexpected_authenticate, decode_failed, sasl_failed,
}
use soju.Irc.Params.{parse_message_params, param}
use soju.Conn.{SaslClient}
use soju.Upstream.{
  Env, Handler, finish, lift, fail, conn, modify, pure, send_message, command, ◌>>=◌, ◌>>◌,
}

-- Tells the server that the exchange is over, and returns the error.
unfoldable pub abort : Error → Handler (Unit {0})
abort e = do send_message (command Command.authenticate (codes "*" ∷ [])); fail e

abbrev start_client : Env → SaslClient → Handler (Option (Option Str))
start_client env client = do
  modify (λ uc. record uc { sasl_started = true })
  pure (env.sasl_start client)

abbrev next_client : Env → SaslClient → Str → Handler (Option (Option Str))
next_client env client challenge = do
  modify (λ uc. record uc {
    sasl_client = some (record client { challenges = client.challenges ++ challenge ∷ [] });
  })
  pure (env.sasl_next client challenge)

-- `Start` at first, and then `Next`; both are noted before their result is looked at.
unfoldable pub ask_client : Env → SaslClient → Str → Handler (Option (Option Str))
ask_client env client challenge = do
  uc ← conn
  if not uc.sasl_started then start_client env client else next_client env client challenge

abbrev response : Env → Option Str → Str
response env none = codes "+"
response env (some resp) = env.base64_encode resp

unfoldable pub answer : Env → SaslClient → Str → Handler (Unit {0})
answer env client challenge = do
  r ← ask_client env client challenge
  elim r [
    | none ↦ abort sasl_failed
    | some resp ↦ send_message (command Command.authenticate (response env resp ∷ []))
  ]

-- The challenge; `+` stands for none.
unfoldable pub decode_challenge : Env → Str → Option Str
decode_challenge env s = if not (str_eq s (codes "+")) then env.base64_decode s else some []

unfoldable pub challenge_client : Env → SaslClient → Result (List Str) → Handler (Unit {0})
unfolding decode_challenge
challenge_client env client (err e) = abort e
challenge_client env client panic = lift panic
challenge_client env client (ok out) = elim (decode_challenge env (param out 0)) [
  | none ↦ abort decode_failed
  | some challenge ↦ answer env client challenge
]

unfoldable pub handle_authenticate : Env → Message → Handler (Unit {0})
handle_authenticate env msg = do
  uc ← conn
  elim uc.sasl_client [
    | none ↦ fail unexpected_authenticate
    | some client ↦ challenge_client env client (parse_message_params env.text msg 1)
  ]

unfoldable pub handle_loggedin : Env → Message → Handler (Unit {0})
handle_loggedin env msg = do out ← lift (parse_message_params env.text msg 3); finish

-- The replies that end the exchange, whether it succeeded or not.
unfoldable pub handle_sasl_end : Env → Message → Handler (Unit {0})
handle_sasl_end env msg = do
  out ← lift (parse_message_params env.text msg 2)
  modify (λ uc. record uc { sasl_client = none; sasl_started = false })
  send_message (command Command.capability (codes "END" ∷ []))
