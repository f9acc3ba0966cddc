-- ===== src/Options/Examples.antt =====
-- options.c: an option that is set where there is no table yet.
use script_basic.Common.{none, [], ◌∷◌}
use script_basic.Common.Int.{pos}
use script_basic.Memory.Counting.{counting}
use script_basic.Sym.Name.{Name}
use script_basic.Options.{Options, set_option}
use script_basic.Options.Laws.{SetRead, get_option-set_option}

abbrev no_options : Options counting
no_options = record { table = none; longs = λ c. pos 0; segment = 5 }

abbrev name : Name
name = 97 ∷ 66 ∷ []

get_option-set_option_example :
    SetRead {a = counting} name
      (pos 7)
      none
      (λ c. pos 0)
      (set_option counting name (pos 7) no_options)
get_option-set_option_example = get_option-set_option counting name (pos 7) no_options tt
