-- ===== src/CUnsigned/Tests.antt =====
-- The counter at concrete values.
use monya.Prelude.{◌+◌, ◌%◌, ◌≡◌, arith}
use monya.CUnsigned.{CUnsigned}
use monya.CUnsigned.Laws.{IsCounter, inc_times, inc_times-mod}

abbrev last_of_three : CUnsigned
last_of_three = record { val = 2; max = 3 }

last_of_three-IsCounter : IsCounter last_of_three
last_of_three-IsCounter = record { below = omega arith; word = omega arith }

inc_times-mod_example : (inc_times 5 last_of_three).val ≡ (2 + 5) % 3
inc_times-mod_example = inc_times-mod 5 last_of_three last_of_three-IsCounter
