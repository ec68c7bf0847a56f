-- ===== src/Irc/Result.antt =====
-- What a fallible function of the program does: it returns, returns an error, or panics.
use soju.Prelude.{◌≡◌, refl}
use soju.Prelude.Text.{Str}
use soju.Irc.{Message}

-- `ircError`, and the errors that `fmt.Errorf` or a library makes.
pub data Error : Type 0 where
  irc_error : Message → Error
  missing_prefix unexpected_authenticate decode_failed sasl_failed bad_topic_time : Error
  unexpected_endofnames already_closed bad_number store_failed dial_failed : Error
  unknown_nick unknown_channel malformed_modes unsupported_mechanism : Str → Error
  long_channel_status unknown_channel_status : Str → Error

pub data Result {ℓ} (A : Type ℓ) : Type ℓ where
  ok : A → Result A
  err : Error → Result A
  panic : Result A

infixl 5 ◌>>=◌
abbrev pub ◌>>=◌ {ℓ κ} : {A : Type ℓ} {B : Type κ} → Result A → (A → Result B) → Result B
panic >>= f = panic
err why >>= f = err why
ok a >>= f = f a

-- A block that returned has returned from its first call, and then from the rest.
pub bind-eq-ok {ℓ κ} :
    {A : Type ℓ} {B : Type κ} (call : Result A) (rest : A → Result B) {out : B}
    → (call >>= rest) ≡ ok out
    → (mid : A) × (call ≡ ok mid) × (rest mid ≡ ok out)
bind-eq-ok (ok a) rest h = (a, refl, h)
bind-eq-ok (err why) rest h = cc
bind-eq-ok panic rest h = cc

-- What a call returned, with the state that it left: writes before an error stay.
abbrev pub Step : Type 0 → Type 0 → Type 0
Step S A = Result A × S
