-- ===== src/Main/Tests.antt =====
-- Runs of the program: without arguments, with options that are not there, and with a file that is
-- missing.
use fdsstick.Base.{ℕ, ◌≡◌, refl, true, false, List, [], ◌∷◌, Option, none, some, Ensures}
use fdsstick.Sample.{os_with, os_with-Allocates, chip, chip-Clock, chip-Outlasts, bus, unopened}
use fdsstick.Main.{main, command_of, arg, same_string, show_slots, get_raw, put_loader}
use fdsstick.Main.Exits.{Exited, main-Exited}

-- `%i` reads no number here.
abbrev no_number : List ℕ → Option ℕ
no_number s = none

-- `prog -l`
abbrev list_arguments : List (List ℕ)
list_arguments = (0x70 ∷ []) ∷ (0x2d ∷ 0x6c ∷ []) ∷ []

options_run :
    (command_of 0x6c ≡ some show_slots)
    × (command_of 0x52 ≡ some get_raw)
    × (command_of 0x4c ≡ some put_loader)
    × (command_of 0x7a ≡ none)
unfolding command_of
options_run = (refl, refl, refl, refl)

arg_run : (arg list_arguments 1 ≡ some (0x2d ∷ 0x6c ∷ [])) × (arg list_arguments 2 ≡ none)
unfolding arg
arg_run = (refl, refl)

same_string_run : (same_string (1 ∷ 2 ∷ []) (1 ∷ 2 ∷ []) ≡ true) × (same_string (1 ∷ []) [] ≡ false)
unfolding same_string
same_string_run = (refl, refl)

main-Exited_example :
    Ensures Exited (main (os_with none) chip 8005 bus no_number list_arguments unopened)
main-Exited_example =
    main-Exited (os_with none) chip 8005 bus no_number (chip-Clock none) (chip-Outlasts none)
      list_arguments unopened (os_with-Allocates none)
