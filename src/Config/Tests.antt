-- ===== src/Config/Tests.antt =====
-- A small file and a command line.
use pimidi.Common.{
  ℕ, ◌≡◌, refl, true, false, Option, none, some, List, [], ◌∷◌, ◌++◌, ◌==◌, if◌then◌else◌, min,
  length,
}
use pimidi.Common.Int.{negsuc}
use pimidi.Common.Memory.{done, fault}
use pimidi.Common.Strings.{codes, decimal, is_space, lower, same_caseless}
use pimidi.KvTable.{KvTable}
use pimidi.Config.{
  Setting, ConfigOption, readonly, config, setting, default_settings, parse_line, trim_from,
  drop_while, take_until, string_get, init,
}
use pimidi.Config.Values.{to_number, is_yes, is_no}
use pimidi.Config.Lines.{IsSetting, line_of, parse_line-line_of, parse_line_blank}
use pimidi.Config.Init.{
  last_value, options_settings, Parsed, lines_of, settings_in, init-string_get,
}
use pimidi.Config.Iter.{iter_create, iter_string_get, nexts, iter_string_get-nexts}

abbrev two_settings : KvTable
two_settings = record {
  name = none;
  items =
      record { key = codes "readonly"; value = some (codes "no") }
      ∷ record { key = codes "service.name"; value = none }
      ∷ [];
}

-- " port = 5004\n"
port-IsSetting :
    IsSetting (32 ∷ []) b'p' (codes "ort") 32 (b'=' ∷ 32 ∷ []) (codes "500") b'4' (10 ∷ [])
unfolding is_space
port-IsSetting = record {
  lead_blank = (refl, tt);
  key_first = refl;
  no_comment = refl;
  key_rest = (refl, (refl, (refl, tt)));
  separates = refl;
  all_separate = (refl, (refl, tt));
  value_first = refl;
  value_last = refl;
  trail_blank = (refl, tt);
}

parse_line-line_of_example :
    parse_line
      (line_of (32 ∷ []) b'p' (codes "ort") 32 (b'=' ∷ 32 ∷ []) (codes "500") (b'4' ∷ 10 ∷ []))
    ≡ done (some (codes "port", some (codes "5004")))
parse_line-line_of_example =
    parse_line-line_of (32 ∷ []) b'p' (codes "ort") 32 (b'=' ∷ 32 ∷ []) (codes "500") b'4' (10 ∷ [])
      port-IsSetting

empty_line_blank : is_space 10 ≡ true
unfolding is_space
empty_line_blank = refl

parse_line_blank_example : parse_line (10 ∷ []) ≡ fault
parse_line_blank_example = parse_line_blank (10 ∷ []) (empty_line_blank, tt)

iter_string_get-nexts_example :
    iter_string_get two_settings (nexts 12 (iter_create (codes "alsa.input_device")))
    ≡ done (string_get two_settings (codes "alsa.input_device" ++ (b'.' ∷ decimal (min 12 10000))))
iter_string_get-nexts_example = iter_string_get-nexts two_settings (codes "alsa.input_device") 12

numbers :
    (to_number 31 (codes " -12x") ≡ done (negsuc 11)) × (to_number 31 (codes "2147483648") ≡ fault)
unfolding to_number drop_while is_space
numbers = (refl, refl)

answers : (is_yes (some (codes "Yes")) ≡ true) × (is_no (some (codes "off")) ≡ false)
unfolding is_yes is_no same_caseless lower
answers = (refl, refl)

-- A file that is there under one name.
abbrev one_file : List ℕ → Option (List (List ℕ))
one_file name =
    if length name == 1 then some (codes "# settings" ∷ codes "readonly=no" ∷ []) else none

abbrev arguments : List ConfigOption
arguments = config (codes "f") ∷ readonly ∷ []

abbrev argument_settings : List Setting
argument_settings =
    setting (codes "config.file") (codes "f") ∷ setting (codes "readonly") (codes "yes") ∷ []

arguments_read : options_settings arguments ≡ some argument_settings
unfolding options_settings
arguments_read = refl

file-Parsed :
    Parsed
      (lines_of one_file
        (last_value (codes "config.file") (default_settings ++ argument_settings) none))
      (none ∷ some (setting (codes "readonly") (codes "no")) ∷ [])
unfolding Parsed last_value parse_line trim_from drop_while take_until is_space same_caseless lower
file-Parsed = (refl, (refl, tt))

-- The file has the last word.
init-string_get_example :
    (table : KvTable) × (dump : ℕ) × (init one_file arguments ≡ done (some (table, dump)))
    × (string_get table (codes "readonly")
        ≡ last_value
            (codes "readonly")
            (default_settings
              ++ (argument_settings
                  ++ settings_in (none ∷ some (setting (codes "readonly") (codes "no")) ∷ [])))
            none)
init-string_get_example =
    init-string_get one_file arguments argument_settings
      (none ∷ some (setting (codes "readonly") (codes "no")) ∷ []) (codes "readonly") arguments_read
      file-Parsed
