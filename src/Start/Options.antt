-- ===== src/Start/Options.antt =====
-- src/main.c: the options of the command line, as `getopt` gives them, each with its argument.
-- `strtol` is a parameter.
use cgr101_scpi.Prelude.{
  ℕ, Bool, true, false, Option, none, some, List, [], ◌∷◌, ◌==◌, if◌then◌else◌,
}
use cgr101_scpi.Prelude.Int.{ℤ, pos, negsuc}
use cgr101_scpi.Output.{Text}

-- The fields of `info_` that the options set.
pub record Options : Type 0 where
  pub bus : ℤ
  pub dev : ℤ
  pub port : ℤ
  pub conf_rsp : Option Text
  pub enable_flash_writes : Bool
  pub verbose : Bool
  pub no_trap : Bool
  pub debug : Option Text

-- `info_`
abbrev pub info : Options
info = record {
  bus = negsuc 0;
  dev = pos 0;
  port = pos 5025;
  conf_rsp = none;
  enable_flash_writes = false;
  verbose = false;
  no_trap = false;
  debug = none;
}

module _ (strtol : Text → ℤ) where
  -- The `switch`, without `-h`.
  unfoldable pub set_option : ℕ → Text → Options → Options
  set_option c optarg o =
      if c == b'b'
      then record o { bus = strtol optarg }
      else if c == b'd'
      then record o { dev = strtol optarg }
      else if c == b'p'
      then record o { port = strtol optarg }
      else if c == b'r'
      then record o { conf_rsp = some optarg }
      else if c == b'W'
      then record o { enable_flash_writes = true }
      else if c == b'v'
      then record o { verbose = true }
      else if c == b'x'
      then record o { no_trap = true }
      else if c == b'D'
      then record o { debug = some optarg }
      else o

  -- The loop of `main`: none where `-h` ends the program.
  unfoldable pub parse_options : List (ℕ × Text) → Options → Option Options
  unfolding set_option
  parse_options [] o = some o
  parse_options ((c, optarg) ∷ rest) o =
      let o' = parse_options rest (set_option c optarg o) in if c == b'h' then none else o'

  -- `main`: whether the exit status is an error, none while the program runs. `start` is `init`.
  unfoldable pub main : (Options → Option (Option Bool)) → List (ℕ × Text) → Option (Option Bool)
  unfolding parse_options
  main start argv = elim (parse_options argv info) [ none ↦ some (some false) | some o ↦ start o ]
