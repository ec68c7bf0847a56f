-- ===== src/Ring.antt =====
-- ring.go: a single producer, multiple consumer ring buffer. A consumer is shared between the ring,
-- which writes to its channel, and its owner, so consumers live in a heap and are named by their
-- address. A uint64 counter wraps at 2 ^ 64.
pub mod Invariant
pub mod Produce
pub mod Consume
pub mod Peek
pub mod Attach
pub mod Resume
pub mod Bounds
mod Tests
use mathlib.Core.Option
use soju.Prelude.{
  ℕ, zero, suc, ◌+◌, ◌-◌, ◌%◌, ◌^◌, Bool, true, false, Option, none, some, List, [], ◌∷◌, ◌++◌,
  Outcome, ok, panic, ◌>>=◌, ◌==◌, ltb, if◌then◌else◌, length, get_elem?, set, replicate, not,
}

-- `Ring`, without its consumers' state. A `nil` entry of the buffer is `none`.
pub record Ring {ℓ} (A : Type ℓ) : Type ℓ where
  pub buffer : List (Option A)
  pub cap : ℕ
  pub cur : ℕ
  pub consumers : List ℕ

-- `RingConsumer`. `pending` says that the channel, of capacity 1, holds an item; `ch_closed` that
-- it is closed.
pub record RingConsumer : Type 0 where
  pub cur : ℕ
  pub pending : Bool
  pub ch_closed : Bool
  pub closed : Bool

-- A ring, and the consumers that were ever made for it, by address.
pub record Memory {ℓ} (A : Type ℓ) : Type ℓ where
  pub ring : Ring A
  pub open ring use *
  pub heap : List RingConsumer

-- `c++` on a uint64.
abbrev pub increment : ℕ → ℕ
increment c = (c + 1) % 2 ^ 64

-- `diff`: the number of pending messages.
abbrev pub diff : ℕ → RingConsumer → Outcome ℕ
diff ring_cur rc = if ltb ring_cur rc.cur then panic else ok (ring_cur - rc.cur)

-- The consumer at an address. No operation frees one.
abbrev pub deref : List RingConsumer → ℕ → Outcome RingConsumer
deref heap rc = elim (get_elem? heap rc) [ none ↦ panic | some c ↦ ok c ]

-- `select { case consumer.ch <- struct{}{}: default: }`
abbrev pub wake : RingConsumer → Outcome RingConsumer
wake c = if c.ch_closed then panic else if c.pending then ok c else ok (record c { pending = true })

-- The loop of `Produce` over the ring's consumers.
unfoldable pub notify : List ℕ → List RingConsumer → Outcome (List RingConsumer)
notify [] heap = ok heap
notify (rc ∷ rest) heap = do c ← deref heap rc; c' ← wake c; notify rest (set heap rc c')

module _ {ℓ} {A : Type ℓ} where
  unfoldable pub new_ring : ℕ → Ring A
  new_ring capacity = record {
    buffer = replicate capacity none;
    cap = capacity;
    cur = 0;
    consumers = [];
  }

  -- `r.cur % r.cap` panics at 0, and the write out of range.
  unfoldable pub produce : A → Memory A → Outcome (Memory A)
  produce msg m =
      if m.cap == 0
      then panic
      else let i = m.cur % m.cap in
        if not (ltb i (length m.buffer)) then panic else do
          heap ← notify m.consumers m.heap
          ok (record {
            ring = record m.ring { buffer = set m.buffer i (some msg); cur = increment m.cur };
            heap = heap;
          })

  -- `NewConsumer`; the new consumer's address comes back.
  unfoldable pub new_consumer : Option ℕ → Memory A → Outcome (ℕ × Memory A)
  new_consumer seq m = do
    let consumer : RingConsumer = record {
      cur = Option.get_or seq m.cur;
      pending = false;
      ch_closed = false;
      closed = false;
    }
    n ← diff m.cur consumer
    let rc = length m.heap
    ok (
      rc,
      record {
        ring = record m.ring { consumers = m.consumers ++ rc ∷ [] };
        heap = m.heap ++ record consumer { pending = ltb 0 n } ∷ [];
      },
    )

  -- The reading half of `Peek`, at the cursor after the jump.
  abbrev pub entry : Ring A → ℕ → Outcome A
  entry r i = elim (get_elem? r.buffer (i % r.cap)) [
    | none ↦ panic
    | some none ↦ panic
    | some (some msg) ↦ ok msg
  ]

  unfoldable pub peek : ℕ → Memory A → Outcome (Option A × Memory A)
  peek rc m = do
    c ← deref m.heap rc
    if c.closed then panic else do
      n ← diff m.cur c
      if n == 0
          then ok (none, m)
          else let cursor = if ltb m.cap n then m.cur - m.cap else c.cur in
            if m.cap == 0 then panic else do
              msg ← entry m.ring cursor
              ok (some msg, record m { heap = set m.heap rc (record c { cur = cursor }) })

  abbrev pub advance : ℕ → Option A × Memory A → Outcome (Option A × Memory A)
  advance rc (none, m) = ok (none, m)
  advance rc (some msg, m) = do
    c ← deref m.heap rc
    ok (some msg, record m { heap = set m.heap rc (record c { cur = increment c.cur }) })

  unfoldable pub consume : ℕ → Memory A → Outcome (Option A × Memory A)
  consume rc m = do r ← peek rc m; advance rc r

  -- The calls of `Consume` by which an owner drains its consumer: until one returns nil. `none`
  -- of the result means that the fuel ran out.
  unfoldable pub drain : ℕ → ℕ → Memory A → Outcome (Option (List A) × Memory A)
  unfolding consume
  drain zero rc m = ok (none, m)
  drain (suc fuel) rc m = do
    (read, m') ← consume rc m
    let rest = λ (msg : A). do (msgs, m'') ← drain fuel rc m'; ok (Option.map (◌∷◌ msg) msgs, m'')
    elim read [ none ↦ ok (some [], m') | some msg ↦ rest msg ]

-- `append(consumers[:i], consumers[i+1:]...)` at the first occurrence.
unfoldable pub remove_first : ℕ → List ℕ → List ℕ
remove_first rc [] = []
remove_first rc (x ∷ xs) = if x == rc then xs else x ∷ remove_first rc xs

module _ {ℓ} {A : Type ℓ} where
  -- `Close`; closing a closed channel panics.
  unfoldable pub close : ℕ → Memory A → Outcome (ℕ × Memory A)
  unfolding remove_first
  close rc m = do
    c ← deref m.heap rc
    if c.ch_closed
        then panic
        else ok (
          c.cur,
          record {
            ring = record m.ring { consumers = remove_first rc m.consumers };
            heap = set m.heap rc (record c { ch_closed = true; closed = true });
          },
        )
