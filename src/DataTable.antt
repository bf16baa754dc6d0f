-- ===== src/DataTable.antt =====
-- raveloxmidi/src/data_table.c: a table of items. The count is the number of pointers in the list,
-- which the code keeps beside it; `none` is a NULL pointer. The booleans are the answers of the
-- allocations.
pub mod Laws
use pimidi.Common.{
  ℕ, zero, suc, ◌+◌, Bool, true, false, ◌&&◌, Option, none, some, List, [], ◌∷◌, ◌++◌,
  if◌then◌else◌, ltb, leb, ◌==◌, length, get_or, set,
}
use pimidi.Common.Memory.{Exec, done, fault}

-- `data_item_t`.
pub record Item {ℓ} (A : Type ℓ) : Type ℓ where
  pub used : ℕ
  pub content : Option A

-- `data_table_t`: its items and whether it has an `item_destructor`.
pub record DataTable {ℓ} (A : Type ℓ) : Type ℓ where
  pub items : List (Option (Item A))
  pub item_destructor : Bool

-- `data_table_create`, where the memory is there.
abbrev pub create {ℓ} : {A : Type ℓ} → Bool → DataTable A
create destructor = record { items = []; item_destructor = destructor }

-- `data_table_item_count`.
abbrev pub item_count {ℓ} : {A : Type ℓ} → DataTable A → ℕ
item_count table = length table.items

abbrev is_item_unused {ℓ} : {A : Type ℓ} → Option (Item A) → Bool
is_item_unused none = false
is_item_unused (some item) = item.used == 0

abbrev pub count_unused {ℓ} : {A : Type ℓ} → List (Option (Item A)) → ℕ
count_unused [] = 0
count_unused (o ∷ os) = if is_item_unused o then suc (count_unused os) else count_unused os

-- `data_table_unused_count`.
abbrev unused_count {ℓ} : {A : Type ℓ} → DataTable A → ℕ
unused_count table = count_unused table.items

-- `data_table_item_is_unused`.
abbrev item_is_unused {ℓ} : {A : Type ℓ} → DataTable A → ℕ → Bool
item_is_unused table index = is_item_unused (get_or table.items index none)

abbrev pub content_of {ℓ} : {A : Type ℓ} → Option (Item A) → Option A
content_of none = none
content_of (some item) = item.content

-- `data_table_item_get`: NULL for an index that is out of range.
abbrev pub item_get {ℓ} : {A : Type ℓ} → DataTable A → ℕ → Option A
item_get table index = content_of (get_or table.items index none)

-- A slot that is there and not in use.
abbrev pub is_free {ℓ} : {A : Type ℓ} → Option (Item A) → Bool
is_free none = false
is_free (some item) = if item.used == 1 then false else true

-- The place of the first slot, from the test of the head and the place in the tail.
abbrev pub first_of : Bool → Option ℕ → Option ℕ
first_of true rest = some 0
first_of false none = none
first_of false (some i) = some (suc i)

-- The first free slot.
abbrev pub find_free {ℓ} : {A : Type ℓ} → List (Option (Item A)) → Option ℕ
find_free [] = none
find_free (o ∷ os) = first_of (is_free o) (find_free os)

abbrev pub used_item {ℓ} : {A : Type ℓ} → A → Option (Item A)
used_item a = some (record { used = 1; content = some a })

-- `data_table_add_item`: the answer and the table. A new slot is made where none is free.
unfoldable pub add_item {ℓ} : {A : Type ℓ} → Bool → Bool → DataTable A → Option A → ℕ × DataTable A
add_item mem mem_list table none = (0, table)
add_item mem mem_list table (some a) = elim (find_free table.items) [
  | some i ↦ (1, record table { items = set table.items i (used_item a) })
  | none ↦
      if mem && mem_list
      then (1, record table { items = table.items ++ (used_item a ∷ []) })
      else (0, table)
]

-- The place that `data_table_add_item` gives to its data.
abbrev pub place {ℓ} : {A : Type ℓ} → DataTable A → ℕ
place table = elim (find_free table.items) [ none ↦ length table.items | some i ↦ i ]

-- `data_table_delete_item`. Nothing is deleted without a destructor; with one, the mutex that the
-- function holds is locked a second time.
unfoldable delete_item {ℓ} : {A : Type ℓ} → DataTable A → ℕ → Exec (DataTable A)
delete_item table index = elim (get_or table.items index none) [
  | none ↦ done table
  | some item ↦ if table.item_destructor then fault else done table
]

-- A change of an item through its pointer.
abbrev pub change_item {ℓ} : {A : Type ℓ} → (A → A) → Option (Item A) → Option (Item A)
change_item f none = none
change_item f (some item) = some (record {
  used = item.used;
  content = elim (item.content) [ none ↦ none | some a ↦ some (f a) ];
})

unfoldable pub change {ℓ} : {A : Type ℓ} → DataTable A → ℕ → (A → A) → DataTable A
change table i f = record table {
  items = set table.items i (change_item f (get_or table.items i none));
}

abbrev pub passes {ℓ} : {A : Type ℓ} → (A → Bool) → Option A → Bool
passes test none = false
passes test (some a) = test a

-- The first item that a test passes for.
unfoldable pub find_item {ℓ} : {A : Type ℓ} → (A → Bool) → List (Option (Item A)) → Option ℕ
find_item test [] = none
find_item test (o ∷ os) = first_of (passes test (content_of o)) (find_item test os)

-- The loops over `data_table_item_get` that stop at the first item a test passes for.
unfoldable pub find {ℓ} : {A : Type ℓ} → (A → Bool) → DataTable A → Option ℕ
unfolding find_item
find test table = find_item test table.items
