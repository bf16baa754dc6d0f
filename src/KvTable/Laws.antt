-- ===== src/KvTable/Laws.antt =====
-- The table as a map from keys, up to capitals, to values.
use pimidi.Common.{
  ℕ, ◌≡◌, ◌<◌, refl, sym, subst, ◌∙◌, Bool, true, false, Option, none, some, List, [], ◌∷◌, ◌++◌,
  ◌==◌, if◌then◌else◌, length, arith, inl, inr, Bool-cases,
}
use pimidi.Common.Strings.{same_caseless, same_caseless-sym, same_caseless_trans}
use pimidi.KvTable.{KvItem, KvTable, find_in, value_of, get_value, set_value, is_found, add_item}

-- Two keys that are not the same are not both the same as a third.
not_both :
    (key j k : List ℕ)
    → same_caseless key k ≡ false
    → same_caseless j k ≡ true
    → same_caseless key j ≡ false
not_both key j k e f = elim (Bool-cases (same_caseless key j)) [
  | inl g ↦ absurd (ground (arith, same_caseless_trans key j k g))
  | inr g ↦ g
]

find_in-set_value :
    (key j : List ℕ) (value : Option (List ℕ)) (items : List KvItem)
    → is_found (find_in key items) ≡ true
    → value_of (find_in j (set_value key value items))
      ≡ (if same_caseless key j then value else value_of (find_in j items))
unfolding find_in set_value
find_in-set_value key j value [] h = ground arith
find_in-set_value key j value (item ∷ items) h = elim (Bool-cases (same_caseless key item.key)) [
  | inl e ↦
      let same : same_caseless j item.key ≡ same_caseless key j =
        same_caseless-sym j item.key ∙ sym (same_caseless_trans key item.key j e) in
      elim (Bool-cases (same_caseless key j)) [
        | inl f ↦ rw (e, same, f) refl
        | inr f ↦ rw (e, same, f) refl
      ]
  | inr e ↦
      let rest =
        find_in-set_value key j value items
          (subst (λ b. is_found (if b then some item else find_in key items) ≡ true) e h) in
      elim (Bool-cases (same_caseless j item.key)) [
        | inl f ↦ rw (e, f, not_both key j item.key e f) refl
        | inr f ↦ rw (e, f) rest
      ]
]

find_in-snoc :
    (key j : List ℕ) (value : Option (List ℕ)) (items : List KvItem)
    → is_found (find_in key items) ≡ false
    → value_of (find_in j (items ++ (record { key = key; value = value } ∷ [])))
      ≡ (if same_caseless key j then value else value_of (find_in j items))
unfolding find_in
find_in-snoc key j value [] h = rw (same_caseless-sym key j) (ground arith)
find_in-snoc key j value (item ∷ items) h = elim (Bool-cases (same_caseless key item.key)) [
  | inl e ↦ absurd (ground arith)
  | inr e ↦
      let rest =
        find_in-snoc key j value items
          (subst (λ b. is_found (if b then some item else find_in key items) ≡ false) e h) in
      elim (Bool-cases (same_caseless j item.key)) [
        | inl f ↦ rw (f, not_both key j item.key e f) refl
        | inr f ↦ rw f rest
      ]
]

-- After an entry, `kv_get_value` gives its value for its key, and for every other key what it gave
-- before; capitals in the keys do not count. The key is not empty, and the allocations succeed.
pub get_value-add_item :
    (table : KvTable) (key j : List ℕ) (value : Option (List ℕ))
    → 0 < length key
    → get_value (add_item true true table (some key) value) (some j)
      ≡ (if same_caseless key j then value else get_value table (some j))
unfolding add_item
get_value-add_item table key j value h =
    let some_key : (length key == 0) ≡ false = ground arith in
    elim (Bool-cases (is_found (find_in key table.items))) [
      | inl e ↦ rw (some_key, e) (find_in-set_value key j value table.items e)
      | inr e ↦ rw (some_key, e) (find_in-snoc key j value table.items e)
    ]

-- No two items have the same key.
abbrev pub IsUnique : List KvItem → Type 0
IsUnique [] = Unit
IsUnique (item ∷ items) = (is_found (find_in item.key items) ≡ false) × IsUnique items

find_in-set :
    (key j : List ℕ) (value : Option (List ℕ)) (items : List KvItem)
    → is_found (find_in j (set_value key value items)) ≡ is_found (find_in j items)
unfolding find_in set_value
find_in-set key j value [] = refl
find_in-set key j value (item ∷ items) = ground (arith, find_in-set key j value items)

set_value-IsUnique :
    (key : List ℕ) (value : Option (List ℕ)) (items : List KvItem)
    → IsUnique items
    → IsUnique (set_value key value items)
unfolding set_value
set_value-IsUnique key value [] u = tt
set_value-IsUnique key value (item ∷ items) u =
    ground (arith, find_in-set key item.key value items, set_value-IsUnique key value items u.1)

is_found-snoc :
    (j : List ℕ) (item : KvItem) (items : List KvItem)
    → is_found (find_in j items) ≡ false
    → same_caseless j item.key ≡ false
    → is_found (find_in j (items ++ (item ∷ []))) ≡ false
unfolding find_in
is_found-snoc j item [] e f = rw f refl
is_found-snoc j item (i ∷ items) e f = ground (arith, is_found-snoc j item items)

snoc-IsUnique :
    (key : List ℕ) (value : Option (List ℕ)) (items : List KvItem)
    → is_found (find_in key items) ≡ false
    → IsUnique items
    → IsUnique (items ++ (record { key = key; value = value } ∷ []))
unfolding find_in
snoc-IsUnique key value [] e u = (refl, tt)
snoc-IsUnique key value (item ∷ items) e u = ground (
  arith,
  same_caseless-sym key item.key,
  is_found-snoc item.key (record { key = key; value = value }) items u.0,
  snoc-IsUnique key value items,
)

-- `kv_add_item` keeps the keys of the items different, whatever the allocations answer.
add_item-IsUnique :
    (mem mem_list : Bool) (table : KvTable) (key value : Option (List ℕ))
    → IsUnique table.items
    → IsUnique (add_item mem mem_list table key value).items
unfolding add_item
add_item-IsUnique mem mem_list table none value u = u
add_item-IsUnique mem mem_list table (some key) value u =
    ground (arith, set_value-IsUnique key value table.items u, snoc-IsUnique key value table.items)
