-- ===== src/Ring/Invariant.antt =====
-- What holds of a ring between its operations, against the log of all messages ever produced.
use mathlib.Core.Option
use soju.Prelude.{
  ℕ, ◌+◌, ◌%◌, ◌^◌, ◌≤◌, ◌<◌, ◌≡◌, inl, inr, refl, ◌∙◌, true, false, some, List, [], ◌∷◌, arith, ok,
  ◌==◌, if◌then◌else◌, length, get_elem?, set, contains, IsDistinct, get_elem?-set, Bool-cases,
}
use soju.Ring.{RingConsumer, Memory, notify, wake}

-- The consumer at `rc` is open, and its cursor is at most `limit`.
abbrev pub IsOpen : List RingConsumer → ℕ → ℕ → Type 0
IsOpen heap limit rc =
    (c : RingConsumer) × (get_elem? heap rc ≡ some c)
    × (c.ch_closed ≡ false)
    × (c.closed ≡ false)
    × (c.cur ≤ limit)

-- The ring has seen exactly the messages of `log`, and its buffer holds the last `cap` of them.
pub record IsRing {ℓ} {A : Type ℓ} (log : List A) (m : Memory A) : Type ℓ where
  pub cap_pos : 0 < m.cap
  pub size : length m.buffer ≡ m.cap
  pub cursor : m.cur ≡ length log
  pub small : length log < 2 ^ 64
  pub holds :
      (j : ℕ) (a : A)
      → length log ≤ j + m.cap
      → get_elem? log j ≡ some a
      → get_elem? m.buffer (j % m.cap) ≡ some (some a)
  pub attached : (rc : ℕ) → contains m.consumers rc ≡ true → IsOpen m.heap (length log) rc
  pub distinct : IsDistinct m.consumers

abbrev pub woken : RingConsumer → RingConsumer
woken c = record c { pending = true }

wake_open : (c : RingConsumer) → c.ch_closed ≡ false → wake c ≡ ok (woken c)
wake_open c h = ground arith

-- `heap'` is `heap`, but that the consumers of `who` have an item in their channels.
abbrev pub Notified : List ℕ → List RingConsumer → List RingConsumer → Type 0
Notified who heap heap' =
    (rc : ℕ)
    → get_elem? heap' rc
      ≡ Option.map (λ c. if contains who rc then woken c else c) (get_elem? heap rc)

notify_step :
    (rc limit : ℕ) (rest : List ℕ) (heap : List RingConsumer) (c : RingConsumer)
    → get_elem? heap rc ≡ some c
    → c.ch_closed ≡ false
    → notify (rc ∷ rest) heap ≡ notify rest (set heap rc (woken c))
unfolding notify
notify_step rc limit rest heap c e o = ground arith

set-woken-IsOpen :
    (heap : List RingConsumer) (limit rc j : ℕ) (c : RingConsumer)
    → get_elem? heap rc ≡ some c
    → IsOpen heap limit j
    → IsOpen (set heap rc (woken c)) limit j
set-woken-IsOpen heap limit rc j c e (d, found, o1, o2, b) = elim (Bool-cases (rc == j)) [
  | inl same ↦ (woken d, ground (arith, get_elem?-set heap rc j (woken c)), o1, o2, b)
  | inr other ↦ (d, ground (arith, get_elem?-set heap rc j (woken c)), o1, o2, b)
]

pub notify_lem :
    (who : List ℕ) (heap : List RingConsumer) (limit : ℕ)
    → ((rc : ℕ) → contains who rc ≡ true → IsOpen heap limit rc)
    → (heap' : List RingConsumer) × (notify who heap ≡ ok heap') × Notified who heap heap'
unfolding notify
notify_lem [] heap limit h = (heap, refl, λ rc. ground arith)
notify_lem (rc ∷ rest) heap limit h =
    let (c, e, o, _, _) = h rc (ground arith) in
    let next : List RingConsumer = set heap rc (woken c) in
    let (heap', runs, reads) =
      notify_lem rest next limit
        (λ j k. set-woken-IsOpen heap limit rc j c e (h j (ground arith))) in
    (
      heap',
      notify_step rc limit rest heap c e o ∙ runs,
      λ j. ground (arith, reads j, get_elem?-set heap rc j (woken c), e),
    )
