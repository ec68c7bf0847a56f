-- ===== src/Downstream/Delivery.antt =====
-- `writeMessages`: how a client is sent what is in a ring, and what its own connection has put there.
pub mod OneRound
pub mod InOrder
mod Tests
use soju.Prelude.{
  ℕ, zero, suc, ◌+◌, Bool, true, false, not, ◌&&◌, Option, none, some, List, [], ◌∷◌, ◌++◌, ◌==◌,
  if◌then◌else◌, Outcome, ok, panic, ◌>>=◌,
}
use soju.Prelude.Text.{Str}
use soju.Irc.{Message, Command}
use soju.Ring.{Memory, deref, peek, consume}
use soju.Conn.{marshal_channel}

-- What the loop over a ring reads and writes: `ourMessages` of the client, the ring, and what was written to the client.
pub record Writer : Type 0 where
  pub ours : List (ℕ × ℕ)
  pub ring : Memory Message
  pub written : List Message

-- A round of the loop: there is nothing to read, or a message was passed, or its write failed.
pub data Round : Type 0 where
  idle passed broken : Round

abbrev pub same_key : ℕ × ℕ → ℕ × ℕ → Bool
same_key (a, b) (c, d) = a == c && b == d

-- Whether a message is in `ourMessages`.
unfoldable pub is_ours : ℕ × ℕ → List (ℕ × ℕ) → Bool
is_ours key [] = false
is_ours key (k ∷ ks) = let rest = is_ours key ks in if same_key k key then true else rest

-- `delete(dc.ourMessages, msg)`
unfoldable pub forget : ℕ × ℕ → List (ℕ × ℕ) → List (ℕ × ℕ)
forget key [] = []
forget key (k ∷ ks) = let rest = forget key ks in if same_key k key then rest else k ∷ rest

-- The copy that is written; only a PRIVMSG is expected, and `Params[0]` panics where there is none.
abbrev pub with_target : Message → List Str → Outcome Message
with_target msg [] = panic
with_target msg (target ∷ params) = ok (record msg { params = marshal_channel target ∷ params })

unfoldable pub to_write : Message → Outcome Message
to_write msg = elim msg.command [ Command.privmsg ↦ with_target msg msg.params | _ ↦ panic ]

-- `write` says whether `WriteMessage` succeeds, after what was written; `serial` is the connection's, and `rc` the consumer.
module _ (write : List Message → Message → Bool) (serial rc : ℕ) where
  -- A message that is not the client's own, which the loop has peeked at.
  unfoldable pub pass_on : Message → Writer → Outcome (Round × Writer)
  unfolding to_write
  pass_on msg w = do
    copy ← to_write msg
    if not (write w.written copy) then ok (broken, w) else do
      (_, ring) ← consume rc w.ring
      ok (passed, record w { ring = ring; written = w.written ++ copy ∷ [] })

  unfoldable pub skip : Writer → Outcome (Round × Writer)
  skip w = do (_, ring) ← consume rc w.ring; ok (passed, record w { ring = ring })

  unfoldable pub offer : Option Message → Writer → Outcome (Round × Writer)
  unfolding pass_on skip is_ours forget
  offer none w = ok (idle, w)
  offer (some msg) w = do
    c ← deref w.ring.heap rc
    let w' : Writer = record w { ours = forget (serial, c.cur) w.ours }
    if is_ours (serial, c.cur) w.ours then skip w' else pass_on msg w'

  unfoldable pub write_next : Writer → Outcome (Round × Writer)
  unfolding offer
  write_next w = do (read, ring) ← peek rc w.ring; offer read (record w { ring = ring })

  -- The loop; its result says whether it ended with nothing to read. `none` means that the fuel ran out.
  unfoldable pub write_pending : ℕ → Writer → Outcome (Option Bool × Writer)
  unfolding write_next
  write_pending zero w = ok (none, w)
  write_pending (suc fuel) w = do
    (round, w') ← write_next w
    elim round [
      | idle ↦ ok (some true, w')
      | broken ↦ ok (some false, w')
      | passed ↦ write_pending fuel w'
    ]
