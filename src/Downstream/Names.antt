-- ===== src/Downstream/Names.antt =====
-- The names that a client gives: its username with a network, a channel of one of its networks, and the
-- credentials of NickServ.
use soju.Prelude.{
  ℕ, ◌≡◌, refl, sym, ap, ◌∙◌, Bool, true, false, ◌||◌, Option, none, some, [], ◌∷◌, ◌++◌, ◌==◌,
  if◌then◌else◌, append_assoc, append-nil, All,
}
use soju.Prelude.Text.{Str}

-- A byte of `"/@"`.
abbrev pub separates : ℕ → Bool
separates c = c == b'/' || c == b'@'

-- What stands before the first separator; the whole text if there is none.
unfoldable pub before_first : Str → Str
before_first [] = []
before_first (c ∷ s) = let rest = before_first s in if separates c then [] else c ∷ rest

-- What stands behind the last separator, if there is one.
unfoldable pub behind_last : Str → Option Str
behind_last [] = none
behind_last (c ∷ s) =
    let rest = behind_last s in
    elim rest [ some t ↦ some t | none ↦ if separates c then some s else none ]

unfoldable pub unmarshal_username : Str → Str × Str
unfolding before_first behind_last
unmarshal_username raw =
    (before_first raw, elim (behind_last raw) [ none ↦ [] | some network ↦ network ])

-- A text without a separator.
abbrev pub IsPlain : Str → Type 0
IsPlain s = All (λ c. separates c ≡ false) s

before_first-plain : (u s : Str) → IsPlain u → before_first (u ++ s) ≡ u ++ before_first s
unfolding before_first
before_first-plain [] s h = refl
before_first-plain (c ∷ u) s h = rw h.0 (ap (◌∷◌ c) (before_first-plain u s h.1))

behind_last-plain : (u : Str) → IsPlain u → behind_last u ≡ none
unfolding behind_last
behind_last-plain [] h = refl
behind_last-plain (c ∷ u) h = rw (behind_last-plain u h.1) (rw h.0 refl)

behind_last-append :
    (u : Str) (c : ℕ) (n : Str) → separates c ≡ true → IsPlain n → behind_last (u ++ c ∷ n) ≡ some n
unfolding behind_last
behind_last-append [] c n h k = rw (behind_last-plain n k) (rw h refl)
behind_last-append (d ∷ u) c n h k = rw (behind_last-append u c n h k) refl

-- A username is read up to its first separator, whatever follows up to the last one, and the network is
-- what stands behind the last; the user and the network have no separator.
pub unmarshal_username_lem :
    (user middle network : Str) (c d : ℕ)
    → IsPlain user
    → separates c ≡ true
    → separates d ≡ true
    → IsPlain network
    → (unmarshal_username (user ++ c ∷ network) ≡ (user, network))
      × (unmarshal_username (user ++ c ∷ (middle ++ d ∷ network)) ≡ (user, network))
      × (unmarshal_username user ≡ (user, []))
unfolding unmarshal_username before_first
unmarshal_username_lem user middle network c d h p q k =
    let first : (s : Str) → before_first (user ++ c ∷ s) ≡ user =
      λ s. before_first-plain user (c ∷ s) h ∙ rw p (append-nil user) in
    let again : behind_last (user ++ c ∷ (middle ++ d ∷ network)) ≡ some network =
      ap behind_last (sym (append_assoc user (c ∷ middle) (d ∷ network)))
      ∙ behind_last-append (user ++ c ∷ middle) d network q k in
    let alone : before_first user ≡ user =
      ap before_first (sym (append-nil user)) ∙ before_first-plain user [] h ∙ append-nil user in
    (
      rw (first network) (rw (behind_last-append user c network p k) refl),
      rw (first (middle ++ d ∷ network)) (rw again refl),
      rw alone (rw (behind_last-plain user h) refl),
    )
