-- ===== src/Config.antt =====
-- raveloxmidi/src/raveloxmidi_config.c and the tests of utils.c on its values: the table of settings,
-- the file and the options that fill it, the numbers in it, and the keys with an index. A file is what
-- `fgets` gives of it, its lines up to their newline, or none where it cannot be opened; the options
-- are those that `getopt_long` has found. Allocations succeed.
pub mod Lines
pub mod Init
pub mod Values
pub mod Iter
mod Tests
use pimidi.Common.{
  ℕ, zero, suc, ◌+◌, ◌-◌, ◌*◌, ◌/◌, ◌%◌, ◌^◌, Bool, true, false, not, ◌&&◌, ◌||◌, Option, none,
  some, List, [], ◌∷◌, ◌++◌, ltb, leb, ◌==◌, if◌then◌else◌, length, get_or, take,
}
use pimidi.Common.Int.{ℤ, pos, negsuc}
use pimidi.Common.Memory.{Exec, done, fault, ◌>>=◌}
use pimidi.Common.Strings.{codes, is_space, same_caseless}
use pimidi.KvTable
use pimidi.KvTable.{KvTable, find_item, value_of, get_value, add_item, is_found}

-- A key and its value.
abbrev pub Setting : Type 0
Setting = List ℕ × Option (List ℕ)

abbrev pub setting : List ℕ → List ℕ → Setting
setting key value = (key, some value)

-- `config_add_item`.
abbrev pub config_add_item : KvTable → Setting → KvTable
config_add_item table (key, value) = add_item true true table (some key) value

abbrev pub add_all : KvTable → List Setting → KvTable
add_all table [] = table
add_all table (s ∷ settings) = add_all (config_add_item table s) settings

-- The entries of `config_set_defaults`, in their order, without those for ALSA.
abbrev pub default_settings : List Setting
default_settings =
    setting (codes "network.control.port") (codes "5004")
    ∷ setting (codes "network.data.port") (codes "5005")
    ∷ setting (codes "network.local.port") (codes "5006")
    ∷ setting (codes "network.socket_timeout") (codes "30")
    ∷ setting (codes "service.name") (codes "raveloxmidi")
    ∷ setting (codes "service.ipv4") (codes "yes")
    ∷ setting (codes "service.ipv6") (codes "no")
    ∷ setting (codes "run_as_daemon") (codes "no")
    ∷ setting (codes "daemon.pid_file") (codes "raveloxmidi.pid")
    ∷ setting (codes "logging.enabled") (codes "yes")
    ∷ (codes "logging.log_file", none)
    ∷ setting (codes "logging.log_level") (codes "normal")
    ∷ setting (codes "logging.hex_dump") (codes "no")
    ∷ setting (codes "security.check") (codes "yes")
    ∷ setting (codes "readonly") (codes "no")
    ∷ setting (codes "inbound_midi") (codes "/dev/sequencer")
    ∷ setting (codes "file_mode") (codes "0640")
    ∷ setting (codes "discover.timeout") (codes "5")
    ∷ setting (codes "sync.interval") (codes "10")
    ∷ setting (codes "network.read.blocksize") (codes "2048")
    ∷ setting (codes "journal.write") (codes "no")
    ∷ []

-- White space at the end of the line is cut off. The byte in front of the `n` first ones is read,
-- and for a line of white space alone the one in front of the line.
unfoldable pub trim_from : ℕ → List ℕ → Exec (List ℕ)
trim_from zero line = fault
trim_from (suc n) line =
    if is_space (get_or line n 0) then trim_from n line else done (take (suc n) line)

unfoldable pub drop_while : (ℕ → Bool) → List ℕ → List ℕ
drop_while test [] = []
drop_while test (c ∷ cs) = if test c then drop_while test cs else c ∷ cs

unfoldable pub take_until : (ℕ → Bool) → List ℕ → List ℕ
take_until test [] = []
take_until test (c ∷ cs) = if test c then [] else c ∷ take_until test cs

abbrev pub is_separator : ℕ → Bool
is_separator c = is_space c || c == b'='

-- The value behind the key: its end is overwritten by a NUL, and what separates it is skipped.
abbrev value_behind : List ℕ → List ℕ
value_behind [] = []
value_behind (c ∷ rest) = drop_while is_separator rest

abbrev split_line : List ℕ → Setting
split_line p1 =
    (take_until is_separator p1, some (value_behind (drop_while (λ c. not (is_separator c)) p1)))

abbrev is_comment : List ℕ → Bool
is_comment [] = false
is_comment (c ∷ cs) = c == b'#'

-- A line of the file: the setting in it, if it is no comment.
unfoldable pub parse_line : List ℕ → Exec (Option Setting)
parse_line config_line = trim_from (length config_line) config_line >>= λ trimmed.
    let p1 = drop_while is_space trimmed in
    done (if is_comment p1 then none else some (split_line p1))

abbrev add_parsed : KvTable → Option Setting → KvTable
add_parsed table none = table
add_parsed table (some s) = config_add_item table s

-- The loop of `config_load_file`.
abbrev pub load_lines : KvTable → List (List ℕ) → Exec KvTable
load_lines table [] = done table
load_lines table (line ∷ lines) =
    parse_line line >>= λ parsed. load_lines (add_parsed table parsed) lines

-- `config_load_file`; `files` is `fopen` and the lines behind it.
abbrev pub load_file : (List ℕ → Option (List (List ℕ))) → KvTable → Option (List ℕ) → Exec KvTable
load_file files table none = done table
load_file files table (some filename) = elim (files filename) [
  | none ↦ done table
  | some lines ↦ load_lines table lines
]

-- An option of the command line.
pub data ConfigOption : Type 0 where
  missing_argument help version info debug nodaemon readonly dumpconfig : ConfigOption
  config : List ℕ → ConfigOption
  pidfile : List ℕ → ConfigOption

-- The settings of an option; none where the program exits.
abbrev pub option_settings : ConfigOption → Option (List Setting)
option_settings missing_argument = none
option_settings help = none
option_settings version = none
option_settings (config filename) = some (setting (codes "config.file") filename ∷ [])
option_settings info = some (
    setting (codes "logging.enabled") (codes "yes")
    ∷ setting (codes "logging.log_level") (codes "info")
    ∷ [])
option_settings debug = some (
    setting (codes "logging.enabled") (codes "yes")
    ∷ setting (codes "logging.log_level") (codes "debug")
    ∷ [])
option_settings nodaemon = some (setting (codes "run_as_daemon") (codes "no") ∷ [])
option_settings (pidfile filename) = some (setting (codes "daemon.pid_file") filename ∷ [])
option_settings readonly = some (setting (codes "readonly") (codes "yes") ∷ [])
option_settings dumpconfig = some []

-- `dump_config` after an option: CONFIG_DUMP is 1, CONFIG_DUMP_EXIT 2.
abbrev pub dump_after : ConfigOption → ℕ → ℕ
dump_after debug dump = 1
dump_after dumpconfig dump = 2
dump_after other dump = dump

-- The loop over the options: the table and `dump_config`, none where the program exits.
abbrev pub read_options : KvTable → ℕ → List ConfigOption → Option (KvTable × ℕ)
read_options table dump [] = some (table, dump)
read_options table dump (o ∷ options) = elim (option_settings o) [
  | none ↦ none
  | some settings ↦ read_options (add_all table settings) (dump_after o dump) options
]

abbrev pub string_get : KvTable → List ℕ → Option (List ℕ)
string_get table key = get_value table (some key)

-- The rest of `config_init`, on the table with the defaults: the options, then the file.
unfoldable pub init_from :
    KvTable → (List ℕ → Option (List (List ℕ))) → List ConfigOption → Exec (Option (KvTable × ℕ))
init_from defaults files options = elim (read_options defaults 0 options) [
  | none ↦ done none
  | some (table, dump) ↦
      load_file files table (string_get table (codes "config.file")) >>= λ loaded.
      done (some (loaded, dump))
]

abbrev pub fresh_table : KvTable
fresh_table = record { name = some (codes "config_items"); items = [] }

-- `config_init`, where there is memory for the table: the table and `dump_config`, none where the
-- program exits.
unfoldable pub init :
    (List ℕ → Option (List (List ℕ))) → List ConfigOption → Exec (Option (KvTable × ℕ))
unfolding init_from
init files options = init_from (add_all fresh_table default_settings) files options
