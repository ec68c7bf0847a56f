-- ===== src/Irc/Tests.antt =====
-- Runs of the parsers, and the theorems at concrete inputs.
use soju.Prelude.{
  ℕ, ◌≡◌, ◌⊎◌, ◌≤◌, ◌<◌, refl, none, some, List, [], ◌∷◌, arith, contains, IsDistinct, get_elem?,
}
use soju.Prelude.Text.{Str, codes}
use soju.Irc.{Message, Command, Reply}
use soju.Irc.Result.{ok, err, irc_error}
use soju.Irc.Modes.{apply, apply_from}
use soju.Irc.Modes.Set.{apply-Set, verdict, settle}
use soju.Irc.Params.{parse_message_params, command_text, need_more_params, param}
use soju.Irc.Params.Status.{parse_message_params_lem}

run_apply : apply (codes "nt") (codes "+ov-t+n") ≡ (ok tt, codes "nov")
unfolding apply apply_from
run_apply = refl

apply-Set_example :
    (ms' : Str) × (apply (codes "nt") (codes "+ov-t+n") ≡ (ok tt, ms'))
    × IsDistinct ms'
    × ((d : ℕ)
        → contains ms' d ≡ settle (contains (codes "nt") d) (verdict d none (codes "+ov-t+n")))
apply-Set_example = apply-Set (codes "nt") (codes "+ov-t+n") (omega arith) refl (refl, (refl, tt))

-- `PART` without a channel, and a PRIVMSG to alice.
abbrev bare_part : Message
bare_part = record { prefix = none; command = Command.part; params = [] }

abbrev two_words : Message
two_words = record {
  prefix = none;
  command = Command.privmsg;
  params = codes "alice" ∷ codes "hi" ∷ [];
}

abbrev no_text : Reply → Str
no_text r = []

run_need_more_params :
    parse_message_params no_text bare_part 1 ≡ err (irc_error (need_more_params (codes "PART")))
unfolding parse_message_params command_text
run_need_more_params = refl

parse_message_params_lem_example :
    ((2 ≤ 2)
      × ((out : List Str) × (parse_message_params no_text two_words 2 ≡ ok out)
          × ((i : ℕ) → i < 2 → get_elem? two_words.params i ≡ some (param out i))))
    ⊎ ((2 < 2)
        × (parse_message_params no_text two_words 2
            ≡ err (irc_error (need_more_params (command_text no_text two_words.command)))))
parse_message_params_lem_example = parse_message_params_lem no_text two_words 2
