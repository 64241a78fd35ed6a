-- ===== src/Logging/Examples.antt =====
-- A registry of two secrets, of which one begins the other, and the lines that are written with it.
use Prim.Native.Char.{Char, code}
use cxone_flow_buildwork.Prelude.{
  nat_beq, ◌≡◌, ◌≢◌, ap, refl, arith, Bool, true, false, Option, none, some, List, [], ◌∷◌, ◌++◌,
}
use cxone_flow_buildwork.Prelude.Slices.{take, drop}
use cxone_flow_buildwork.Logging.{Text, star, Header, register, format, is_member, one_line}
use cxone_flow_buildwork.Logging.Masking.{IsWithin, redact, format-redact}
use cxone_flow_buildwork.Logging.Survival.{register_each, secret_is_masked}

abbrev same_code : Char → Char → Bool
same_code c d = nat_beq (code c) (code d)

same_code_refl : (c : Char) → same_code c c ≡ true
same_code_refl c = ground arith

abbrev no_header : Text → Option Header
no_header t = none

no_header-IsWithin : IsWithin no_header
no_header-IsWithin t h e = absurd (ground arith)

abbrev pin : Text
pin = "1" ∷ "2" ∷ []

abbrev long_pin : Text
long_pin = "1" ∷ "2" ∷ "3" ∷ []

abbrev spaced : Text
spaced = "x" ∷ " " ∷ []

abbrev two_pins : List Text
two_pins = pin ∷ long_pin ∷ []

registered : register (some long_pin) (register (some pin) []) ≡ two_pins
unfolding register
registered = refl

-- a secret with a special character is not found among the escaped ones, and is taken in again
registered_again :
    register (some ("+" ∷ [])) (register (some ("+" ∷ [])) []) ≡ ("+" ∷ []) ∷ ("+" ∷ []) ∷ []
unfolding register
registered_again = refl

-- the shorter secret is masked, and the end of the longer one stays
end_of_longer_stays : format same_code no_header two_pins long_pin ≡ star ∷ star ∷ "3" ∷ []
unfolding format
end_of_longer_stays = refl

-- a default expression that takes a part of the line as its header, with the secret in it
abbrev header_of_all : Text → Option Header
header_of_all (a ∷ b ∷ c ∷ rest) = some (record { header = 2; secret = 1; total = 3 })
header_of_all t = none

secret_in_header_stays : format same_code header_of_all two_pins long_pin ≡ "1" ∷ "2" ∷ star ∷ []
unfolding format
secret_in_header_stays = refl

not_member : is_member long_pin (pin ∷ []) ≡ false
unfolding is_member
not_member = refl

unbroken : one_line long_pin ≡ long_pin
unfolding one_line
unbroken = refl

abbrev digit : Char
digit = "1"

digit_ne_star : digit ≢ star
digit_ne_star h = absurd (ground (arith, ap (λ c. nat_beq (code c) 42) h))

secret_is_masked_example :
    take 3 (
      drop 2 (
        format same_code no_header
          (register_each (some pin ∷ none ∷ []) (register (some long_pin) (pin ∷ [])))
          (spaced ++ (long_pin ++ spaced))))
    ≢ long_pin
secret_is_masked_example =
    secret_is_masked same_code no_header (pin ∷ []) (some pin ∷ none ∷ []) spaced "1"
      ("2" ∷ "3" ∷ []) spaced same_code_refl no_header-IsWithin
      (refl, (refl, (refl, (refl, (refl, (refl, (refl, tt))))))) not_member unbroken digit_ne_star

format-redact_example :
    format same_code no_header two_pins long_pin ≡ redact same_code no_header two_pins long_pin 0
format-redact_example = format-redact same_code no_header two_pins no_header-IsWithin long_pin
