-- ===== src/Config/Init.antt =====
-- Which setting holds after `config_init`.
use pimidi.Common.{
  ℕ, ◌≡◌, refl, sym, ap, subst, ◌∙◌, Bool, false, Option, none, some, List, [], ◌∷◌, ◌++◌,
  if◌then◌else◌, arith,
}
use pimidi.Common.Memory.{done}
use pimidi.Common.Strings.{codes, same_caseless}
use pimidi.KvTable.{KvTable, find_in, add_item}
use pimidi.KvTable.Laws.{get_value-add_item}
use pimidi.Config.{
  Setting, ConfigOption, option_settings, config_add_item, add_all, string_get, load_lines,
  load_file, parse_line, read_options, dump_after, init_from, init, default_settings, fresh_table,
}

-- A key that is looked up is that of a setting. An empty key sets nothing.
abbrev applies : List ℕ → List ℕ → Bool
applies [] j = false
applies (c ∷ key) j = same_caseless (c ∷ key) j

-- The value of the last setting for a key, `d` where there is none.
unfoldable pub last_value : List ℕ → List Setting → Option (List ℕ) → Option (List ℕ)
last_value j [] d = d
last_value j ((key, value) ∷ settings) d =
    last_value j settings (if applies key j then value else d)

string_get-config_add_item :
    (table : KvTable) (key j : List ℕ) (value : Option (List ℕ))
    → string_get (config_add_item table (key, value)) j
      ≡ (if applies key j then value else string_get table j)
unfolding add_item
string_get-config_add_item table [] j value = refl
string_get-config_add_item table (c ∷ key) j value =
    get_value-add_item table (c ∷ key) j value (omega arith)

string_get-add_all :
    (table : KvTable) (settings : List Setting) (j : List ℕ)
    → string_get (add_all table settings) j ≡ last_value j settings (string_get table j)
unfolding last_value
string_get-add_all table [] j = refl
string_get-add_all table ((key, value) ∷ settings) j =
    string_get-add_all (config_add_item table (key, value)) settings j
    ∙ ap (λ d. last_value j settings d) (string_get-config_add_item table key j value)

last_value-append :
    (j : List ℕ) (first rest : List Setting) (d : Option (List ℕ))
    → last_value j (first ++ rest) d ≡ last_value j rest (last_value j first d)
unfolding last_value
last_value-append j [] rest d = refl
last_value-append j ((key, value) ∷ first) rest d =
    last_value-append j first rest (if applies key j then value else d)

-- The settings of all the options, none where one of them makes the program exit.
abbrev pub joined : Option (List Setting) → Option (List Setting) → Option (List Setting)
joined none rest = none
joined (some s) none = none
joined (some s) (some t) = some (s ++ t)

unfoldable pub options_settings : List ConfigOption → Option (List Setting)
options_settings [] = some []
options_settings (o ∷ options) = joined (option_settings o) (options_settings options)

abbrev dump_of : ℕ → List ConfigOption → ℕ
dump_of dump [] = dump
dump_of dump (o ∷ options) = dump_of (dump_after o dump) options

add_all-append :
    (table : KvTable) (first rest : List Setting)
    → add_all table (first ++ rest) ≡ add_all (add_all table first) rest
add_all-append table [] rest = refl
add_all-append table (s ∷ first) rest = add_all-append (config_add_item table s) first rest

-- What the loop over the options leaves.
abbrev optioned : KvTable → ℕ → Option (List Setting) → Option (KvTable × ℕ)
optioned table dump none = none
optioned table dump (some settings) = some (add_all table settings, dump)

optioned-joined :
    (table : KvTable) (dump : ℕ) (s : List Setting) (rest : Option (List Setting))
    → optioned (add_all table s) dump rest ≡ optioned table dump (joined (some s) rest)
optioned-joined table dump s none = refl
optioned-joined table dump s (some t) = ap (λ u. some (u, dump)) (sym (add_all-append table s t))

read_options_step :
    (table : KvTable) (dump dump' : ℕ) (options : List ConfigOption)
    (now rest : Option (List Setting))
    → ((t : KvTable) → read_options t dump options ≡ optioned t dump' rest)
    → (elim now [ none ↦ none | some s ↦ read_options (add_all table s) dump options ])
      ≡ optioned table dump' (joined now rest)
read_options_step table dump dump' options none rest h = refl
read_options_step table dump dump' options (some s) rest h =
    h (add_all table s) ∙ optioned-joined table dump' s rest

read_options_lem :
    (table : KvTable) (dump : ℕ) (options : List ConfigOption)
    → read_options table dump options
      ≡ optioned table (dump_of dump options) (options_settings options)
unfolding options_settings
read_options_lem table dump [] = refl
read_options_lem table dump (o ∷ options) =
    read_options_step table (dump_after o dump) (dump_of (dump_after o dump) options) options
      (option_settings o) (options_settings options)
      (λ t. read_options_lem t (dump_after o dump) options)

-- What the lines of a file are parsed to.
unfoldable pub Parsed : List (List ℕ) → List (Option Setting) → Type 0
Parsed [] [] = Unit
Parsed [] (p ∷ ps) = ⊥
Parsed (l ∷ ls) [] = ⊥
Parsed (l ∷ ls) (p ∷ ps) = (parse_line l ≡ done p) × Parsed ls ps

abbrev pub settings_in : List (Option Setting) → List Setting
settings_in [] = []
settings_in (none ∷ ps) = settings_in ps
settings_in (some s ∷ ps) = s ∷ settings_in ps

load_lines_lem :
    (table : KvTable) (lines : List (List ℕ)) (parsed : List (Option Setting))
    → Parsed lines parsed
    → load_lines table lines ≡ done (add_all table (settings_in parsed))
unfolding Parsed
load_lines_lem table [] [] h = refl
load_lines_lem table [] (p ∷ ps) h = absurd h
load_lines_lem table (l ∷ ls) [] h = absurd h
load_lines_lem table (l ∷ ls) (none ∷ ps) (e, h) = rw e (load_lines_lem table ls ps h)
load_lines_lem table (l ∷ ls) (some s ∷ ps) (e, h) =
    rw e (load_lines_lem (config_add_item table s) ls ps h)

-- The lines that the file of the configuration has.
abbrev pub lines_of : (List ℕ → Option (List (List ℕ))) → Option (List ℕ) → List (List ℕ)
lines_of files none = []
lines_of files (some filename) = elim (files filename) [ none ↦ [] | some lines ↦ lines ]

load_opened :
    (table : KvTable) (o : Option (List (List ℕ)))
    → (elim o [ none ↦ done table | some lines ↦ load_lines table lines ])
      ≡ load_lines table (elim o [ none ↦ [] | some lines ↦ lines ])
load_opened table none = refl
load_opened table (some lines) = refl

load_file_lem :
    (table : KvTable) (files : List ℕ → Option (List (List ℕ))) (filename : Option (List ℕ))
    → load_file files table filename ≡ load_lines table (lines_of files filename)
load_file_lem table files none = refl
load_file_lem table files (some filename) = load_opened table (files filename)

init_from_lem :
    (table : KvTable) (files : List ℕ → Option (List (List ℕ))) (options : List ConfigOption)
    (settings : List Setting) (parsed : List (Option Setting))
    → options_settings options ≡ some settings
    → Parsed (lines_of files (string_get (add_all table settings) (codes "config.file"))) parsed
    → init_from table files options
      ≡ done (some (add_all table (settings ++ settings_in parsed), dump_of 0 options))
unfolding init_from
init_from_lem table files options settings parsed e h =
    let name = string_get (add_all table settings) (codes "config.file") in
    rw
      (
        init_from,
        read_options_lem table 0 options,
        e,
        load_file_lem (add_all table settings) files name,
        load_lines_lem (add_all table settings) (lines_of files name) parsed h,
        add_all-append table settings (settings_in parsed),
      )
      refl

fresh_value :
    (settings : List Setting) (j : List ℕ)
    → string_get (add_all fresh_table settings) j ≡ last_value j settings none
unfolding find_in
fresh_value settings j = string_get-add_all fresh_table settings j

init_from-string_get :
    (defaults : List Setting) (files : List ℕ → Option (List (List ℕ)))
    (options : List ConfigOption) (settings : List Setting) (parsed : List (Option Setting))
    (key : List ℕ)
    → options_settings options ≡ some settings
    → Parsed (lines_of files (last_value (codes "config.file") (defaults ++ settings) none)) parsed
    → (table : KvTable) × (dump : ℕ) × (init_from (add_all fresh_table defaults) files options
        ≡ done (some (table, dump)))
      × (string_get table key ≡ last_value key (defaults ++ (settings ++ settings_in parsed)) none)
init_from-string_get defaults files options settings parsed key e h =
    let all = settings ++ settings_in parsed in
    let name : string_get (add_all (add_all fresh_table defaults) settings) (codes "config.file")
        ≡ last_value (codes "config.file") (defaults ++ settings) none =
      ap (λ t. string_get t (codes "config.file"))
        (sym (add_all-append fresh_table defaults settings))
      ∙ fresh_value (defaults ++ settings) (codes "config.file") in
    (
      add_all (add_all fresh_table defaults) all,
      dump_of 0 options,
      init_from_lem (add_all fresh_table defaults) files options settings parsed e
          (subst (λ n. Parsed (lines_of files n) parsed) (sym name) h),
      ap (λ t. string_get t key) (sym (add_all-append fresh_table defaults all))
          ∙ fresh_value (defaults ++ all) key,
    )

-- `config_init` ends with a table in which the last setting for a key holds, among the defaults, the
-- options of the command line and the lines of the file, in this order; capitals in a key do not
-- count, and an empty key sets nothing. The file is the one of the last setting of config.file in the
-- defaults and the options, and a file that cannot be opened has no lines. No option makes the program
-- exit, and the lines are parsed without an access outside the buffer.
pub init-string_get :
    (files : List ℕ → Option (List (List ℕ))) (options : List ConfigOption)
    (settings : List Setting) (parsed : List (Option Setting)) (key : List ℕ)
    → options_settings options ≡ some settings
    → Parsed
        (lines_of files (last_value (codes "config.file") (default_settings ++ settings) none))
        parsed
    → (table : KvTable) × (dump : ℕ) × (init files options ≡ done (some (table, dump)))
      × (string_get table key
          ≡ last_value key (default_settings ++ (settings ++ settings_in parsed)) none)
unfolding init
init-string_get files options settings parsed key e h =
    init_from-string_get default_settings files options settings parsed key e h
