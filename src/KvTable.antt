-- ===== src/KvTable.antt =====
-- raveloxmidi/src/kv_table.c: a table of keys and values, where capitals in a key do not count. The
-- copies of strings are made; the other allocations have their answer as an argument.
pub mod Laws
use pimidi.Common.{
  ℕ, zero, suc, Bool, true, false, Option, none, some, List, [], ◌∷◌, ◌++◌, ltb, ◌==◌, ◌&&◌,
  if◌then◌else◌, length, get_elem?,
}
use pimidi.Common.Memory.{Exec, done, fault}
use pimidi.Common.Strings.{same_caseless}

-- `kv_item_t`; a value may be NULL.
pub record KvItem : Type 0 where
  pub key : List ℕ
  pub value : Option (List ℕ)

-- `kv_table_t`; `count` is the number of the items.
pub record KvTable : Type 0 where
  pub name : Option (List ℕ)
  pub items : List KvItem

-- `kv_table_create`.
abbrev pub create : Bool → Option (List ℕ) → Option KvTable
create mem name = if mem then some (record { name = name; items = [] }) else none

-- The loop of `kv_find_item`.
unfoldable pub find_in : List ℕ → List KvItem → Option KvItem
find_in key [] = none
find_in key (item ∷ items) = if same_caseless key item.key then some item else find_in key items

-- `kv_find_item`.
abbrev pub find_item : KvTable → Option (List ℕ) → Option KvItem
find_item table none = none
find_item table (some key) = find_in key table.items

abbrev pub value_of : Option KvItem → Option (List ℕ)
value_of none = none
value_of (some item) = item.value

-- `kv_get_value`: NULL for a key that is not there, and for one whose value is NULL.
abbrev pub get_value : KvTable → Option (List ℕ) → Option (List ℕ)
get_value table key = value_of (find_item table key)

-- The item of the key takes the value, through the pointer that `kv_find_item` has given.
unfoldable pub set_value : List ℕ → Option (List ℕ) → List KvItem → List KvItem
set_value key value [] = []
set_value key value (item ∷ items) =
    if same_caseless key item.key
    then record item { value = value } ∷ items
    else item ∷ set_value key value items

abbrev pub is_found {ℓ} : {A : Type ℓ} → Option A → Bool
is_found none = false
is_found (some a) = true

-- `kv_add_item`; `mem` and `mem_list` are the answers for the item and for the list.
unfoldable pub add_item : Bool → Bool → KvTable → Option (List ℕ) → Option (List ℕ) → KvTable
add_item mem mem_list table none value = table
add_item mem mem_list table (some key) value =
    if length key == 0
    then table
    else if is_found (find_in key table.items)
    then record table { items = set_value key value table.items }
    else if mem && mem_list
    then record table { items = table.items ++ (record { key = key; value = value } ∷ []) }
    else table

-- `kv_item_count`.
abbrev pub item_count : KvTable → ℕ
item_count table = length table.items

-- `kv_get_item_by_index`: key and value, NULL both for an index above the count. The one at the
-- count is read, where no item is.
unfoldable get_item_by_index : KvTable → ℕ → Exec (Option (List ℕ) × Option (List ℕ))
get_item_by_index table index =
    if ltb (item_count table) index then done (none, none) else elim (get_elem? table.items index) [
      | none ↦ fault
      | some item ↦ done (some item.key, item.value)
    ]
