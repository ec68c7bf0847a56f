-- ===== src/Irc/Params/Status.antt =====
-- When the parsers succeed.
use soju.Prelude.{
  ℕ, zero, suc, ◌≤◌, ◌<◌, ◌≡◌, ◌↔◌, ◌⊎◌, inl, inr, refl, true, some, List, [], ◌∷◌, arith, ltb,
  length, get_elem?, take, contains, Bool-cases,
}
use soju.Prelude.Text.{Str}
use soju.Irc.{Message, Reply}
use soju.Irc.Result.{ok, err, irc_error}
use soju.Irc.Params.{
  command_text, need_more_params, parse_message_params, param, channel_statuses,
  parse_channel_status,
}

param-take :
    (xs : List Str) (n i : ℕ) → i < n → n ≤ length xs → get_elem? xs i ≡ some (param (take n xs) i)
param-take [] zero i h k = elim h [ ]
param-take [] (suc n) i h k = elim k [ ]
param-take (x ∷ xs) zero i h k = elim h [ ]
param-take (x ∷ xs) (suc n) zero h k = refl
param-take (x ∷ xs) (suc n) (suc i) h k = param-take xs n i (omega arith) (omega arith)

-- `parseMessageParams` with n pointers succeeds exactly if the message has n parameters at least; each
-- pointer then has the parameter at its place, and otherwise the error names the command.
pub parse_message_params_lem :
    (text : Reply → Str) (msg : Message) (n : ℕ)
    → ((n ≤ length msg.params)
        × ((out : List Str) × (parse_message_params text msg n ≡ ok out)
            × ((i : ℕ) → i < n → get_elem? msg.params i ≡ some (param out i))))
      ⊎ ((length msg.params < n)
          × (parse_message_params text msg n
              ≡ err (irc_error (need_more_params (command_text text msg.command)))))
unfolding parse_message_params
parse_message_params_lem text msg n = elim (Bool-cases (ltb (length msg.params) n)) [
  | inl short ↦ inr (ground arith, ground arith)
  | inr enough ↦ inl (
    ground arith,
    (take n msg.params, ground arith, λ i h. param-take msg.params n i h (ground arith)),
  )
]

-- What `parseChannelStatus` accepts is the one character that it returns, one of `=@*`.
pub parse_channel_status-ok :
    (s : Str) (c : ℕ)
    → (parse_channel_status s ≡ ok c) ↔ ((s ≡ c ∷ []) × (contains channel_statuses c ≡ true))
unfolding parse_channel_status
parse_channel_status-ok [] c = ground arith
parse_channel_status-ok (d ∷ []) c = ground arith
parse_channel_status-ok (d ∷ e ∷ s) c = ground arith
