-- ===== src/Upstream/Negotiation.antt =====
-- A whole SASL exchange with a server, on an open connection.
use soju.Prelude.{
  ◌≡◌, inl, inr, sym, ap, ◌∙◌, Bool, true, false, Option, none, some, List, [], ◌∷◌, ◌++◌,
  if◌then◌else◌, arith, Bool-cases, Option-cases, append-nil, append_assoc,
}
use soju.Prelude.Text.{Str, codes}
use soju.Irc.{Message, Command}
use soju.Irc.Result.{Step}
use soju.Irc.Params.{parse_message_params}
use soju.Conn.{SaslClient}
use soju.Upstream.{Env, World, command, send_message, ◌>>=◌}
use soju.Upstream.Authenticate.{
  handle_authenticate, challenge_client, answer, ask_client, abort, decode_challenge,
}

-- A client that has been given a challenge.
abbrev pub given : Str → SaslClient → SaslClient
given text client = record client { challenges = client.challenges ++ text ∷ [] }

-- What the client answers to a challenge, or that the exchange is given up.
abbrev pub reply : Env → Option (Option Str) → Str
reply env none = codes "*"
reply env (some none) = codes "+"
reply env (some (some resp)) = env.base64_encode resp

abbrev told_server : Str → List Message → List Message
told_server text outgoing = outgoing ++ command Command.authenticate (text ∷ []) ∷ []

-- The answer to a challenge that has been decoded, and what is noted of it: the first one starts the client, each later one is given to
-- it.
answer_lem :
    (env : Env) (client : SaslClient) (challenge : Str) (w : World)
    → w.conn.closed ≡ false
    → w.conn.sasl_client ≡ some client
    → ((answer env client challenge w).1.conn.outgoing
        ≡ told_server
            (reply env (
              if w.conn.sasl_started
              then env.sasl_next client challenge
              else env.sasl_start client))
            w.conn.outgoing)
      × ((answer env client challenge w).1.conn.sasl_started ≡ true)
      × ((answer env client challenge w).1.conn.sasl_client
          ≡ some (if w.conn.sasl_started then given challenge client else client))
      × ((answer env client challenge w).1.conn.closed ≡ false)
unfolding answer ask_client abort send_message ◌>>=◌
answer_lem env client challenge w is_open has = elim (Bool-cases w.conn.sasl_started) [
  | inl started ↦ elim (Option-cases (env.sasl_next client challenge)) [
    | inl failed ↦ (ground arith, ground arith, ground arith, ground arith)
    | inr (none, e) ↦ (ground arith, ground arith, ground arith, ground arith)
    | inr (some resp, e) ↦ (ground arith, ground arith, ground arith, ground arith)
  ]
  | inr fresh ↦ elim (Option-cases (env.sasl_start client)) [
    | inl failed ↦ (ground arith, ground arith, ground arith, ground arith)
    | inr (none, e) ↦ (ground arith, ground arith, ground arith, ground arith)
    | inr (some resp, e) ↦ (ground arith, ground arith, ground arith, ground arith)
  ]
]

-- The texts of the challenges that messages of the server carry, of which each can be decoded.
abbrev pub Challenges : Env → List Message → List Str → Type 0
Challenges env [] [] = Unit {0}
Challenges env [] (text ∷ texts) = ⊥
Challenges env (msg ∷ msgs) [] = ⊥
Challenges env (msg ∷ msgs) (text ∷ texts) =
    ((challenge : Str) × (rest : List Str) × (msg.params ≡ challenge ∷ rest)
      × (decode_challenge env challenge ≡ some text))
    × Challenges env msgs texts

authenticate_lem :
    (env : Env) (msg : Message) (w : World) (client : SaslClient) (challenge text : Str)
    (rest : List Str)
    → w.conn.sasl_client ≡ some client
    → msg.params ≡ challenge ∷ rest
    → decode_challenge env challenge ≡ some text
    → handle_authenticate env msg w ≡ answer env client text w
unfolding handle_authenticate challenge_client parse_message_params ◌>>=◌
authenticate_lem env msg w client challenge text rest has params e = ground arith

-- The messages handled one after the other, whatever error a handler returns.
unfoldable pub exchange : Env → List Message → World → World
exchange env [] w = w
exchange env (msg ∷ msgs) w = exchange env msgs (handle_authenticate env msg w).1

-- What a client that has been started answers to challenges.
abbrev pub later_replies : Env → SaslClient → List Str → List Message
later_replies env client [] = []
later_replies env client (text ∷ texts) =
    command Command.authenticate (reply env (env.sasl_next client text) ∷ [])
    ∷ later_replies env (given text client) texts

abbrev pub given_all : List Str → SaslClient → SaslClient
given_all texts client = record client { challenges = client.challenges ++ texts }

later_exchange :
    (env : Env) (msgs : List Message) (texts : List Str) (w : World) (client : SaslClient)
    → w.conn.closed ≡ false
    → w.conn.sasl_client ≡ some client
    → w.conn.sasl_started ≡ true
    → Challenges env msgs texts
    → ((exchange env msgs w).conn.outgoing ≡ w.conn.outgoing ++ later_replies env client texts)
      × ((exchange env msgs w).conn.sasl_client ≡ some (given_all texts client))
unfolding exchange
later_exchange env [] [] w client is_open has started challenges = (
  sym (append-nil w.conn.outgoing),
  has
      ∙ ap (λ (cs : List Str). some (record client { challenges = cs }))
          (sym (append-nil client.challenges)),
)
later_exchange env [] (text ∷ texts) w client is_open has started challenges = elim challenges [ ]
later_exchange env (msg ∷ msgs) [] w client is_open has started challenges = elim challenges [ ]
later_exchange env (msg ∷ msgs) (text ∷ texts) w client is_open has started
      ((challenge, rest, params, e), later) =
    let step : handle_authenticate env msg w ≡ answer env client text w =
      authenticate_lem env msg w client challenge text rest has params e in
    let (said, now, kept, still) = answer_lem env client text w is_open has in
    let w' : World = (answer env client text w).1 in
    let (more, done) =
      later_exchange env msgs texts w' (given text client) still
        (kept ∙ ap (λ (b : Bool). some (if b then given text client else client)) started) now
        later in
    (
      ap (λ (r : Step World (Unit {0})). (exchange env msgs r.1).conn.outgoing) step
          ∙ more
          ∙ ap (λ (out : List Message). out ++ later_replies env (given text client) texts)
              (said
                ∙ ap
                    (λ (b : Bool).
                      told_server
                        (reply env (if b then env.sasl_next client text else env.sasl_start client))
                        w.conn.outgoing)
                    started)
          ∙ append_assoc w.conn.outgoing _ (later_replies env (given text client) texts),
      ap (λ (r : Step World (Unit {0})). (exchange env msgs r.1).conn.sasl_client) step
          ∙ done
          ∙ ap (λ (cs : List Str). some (record client { challenges = cs }))
              (append_assoc client.challenges (text ∷ []) texts),
    )

-- A whole SASL exchange on an open connection, of a client that has not been started: of challenges that can be decoded, each is answered
-- by exactly one AUTHENTICATE, in order. The first starts the client, and its text is not looked at; each later one is given to the client
-- after those before it, and is noted with it. The answer is the response, `+` if that is nil, and `*` if the client fails.
pub exchange_lem :
    (env : Env) (msg : Message) (msgs : List Message) (text : Str) (texts : List Str) (w : World)
    (client : SaslClient)
    → w.conn.closed ≡ false
    → w.conn.sasl_client ≡ some client
    → w.conn.sasl_started ≡ false
    → Challenges env (msg ∷ msgs) (text ∷ texts)
    → ((exchange env (msg ∷ msgs) w).conn.outgoing
        ≡ w.conn.outgoing
          ++ command Command.authenticate (reply env (env.sasl_start client) ∷ [])
            ∷ later_replies env client texts)
      × ((exchange env (msg ∷ msgs) w).conn.sasl_client ≡ some (given_all texts client))
unfolding exchange
exchange_lem env msg msgs text texts w client is_open has fresh
      ((challenge, rest, params, e), later) =
    let step : handle_authenticate env msg w ≡ answer env client text w =
      authenticate_lem env msg w client challenge text rest has params e in
    let (said, now, kept, still) = answer_lem env client text w is_open has in
    let (more, done) =
      later_exchange env msgs texts (answer env client text w).1 client still
        (kept ∙ ap (λ (b : Bool). some (if b then given text client else client)) fresh) now
        later in
    (
      ap (λ (r : Step World (Unit {0})). (exchange env msgs r.1).conn.outgoing) step
          ∙ more
          ∙ ap (λ (out : List Message). out ++ later_replies env client texts)
              (said
                ∙ ap
                    (λ (b : Bool).
                      told_server
                        (reply env (if b then env.sasl_next client text else env.sasl_start client))
                        w.conn.outgoing)
                    fresh)
          ∙ append_assoc w.conn.outgoing _ (later_replies env client texts),
      ap (λ (r : Step World (Unit {0})). (exchange env msgs r.1).conn.sasl_client) step ∙ done,
    )
