-- ===== src/DataContext.antt =====
-- raveloxmidi/src/data_context.c, with what midi_sender.c reads of a context: data with a count of its
-- users, here who sent the commands of a datagram.
-- A context is a cell of memory, none once it is freed. `A` is what its data points to.
pub mod Laws
pub mod Shared
pub mod Inv
pub mod Users
mod Tests
use pimidi.Common.{
  ℕ, ◌+◌, ◌-◌, ◌%◌, ◌^◌, Bool, true, false, Option, none, some, List, [], ◌∷◌, ◌==◌, if◌then◌else◌,
}
use pimidi.Common.Memory.{Exec, done, fault, ◌>>=◌}

-- `data_context_t`; `destroy_func` is whether there is one.
pub record DataContext (A : Type 0) : Type 0 where
  pub data_of : Option A
  pub reference : ℕ
  pub destroy_func : Bool

module _ {A : Type 0} where
  -- `data_context_create`, where there is memory.
  abbrev pub create : Bool → DataContext A
  create destroy_func = record { data_of = none; reference = 0; destroy_func = destroy_func }

  abbrev pub deref : Option (DataContext A) → Exec (DataContext A)
  deref none = fault
  deref (some context) = done context

  -- `data_context_acquire`.
  unfoldable pub acquire : Option (DataContext A) → Exec (Option (DataContext A))
  acquire cell = deref cell >>= λ context.
      done (some (record context { reference = (context.reference + 1) % 2 ^ 32 }))

  -- The part of `data_context_release` under the mutex, and whether no reference is left.
  unfoldable pub drop_reference : Option (DataContext A) → Exec (Option (DataContext A) × Bool)
  drop_reference cell = deref cell >>= λ context.
      let left = (context.reference + (2 ^ 32 - 1)) % 2 ^ 32 in
      done (some (record context { reference = left }), left == 0)

  -- `data_context_destroy`: the cell, and what `destroy_func` was called with.
  unfoldable pub destroy : Option (DataContext A) → Exec (Option (DataContext A) × List (Option A))
  destroy cell = deref cell >>= λ context.
      done (none, if context.destroy_func then context.data_of ∷ [] else [])

  -- `midi_sender_handler`'s look at the context: its data, before the release.
  unfoldable pub read_data : Option (DataContext A) → Exec (Option A)
  read_data cell = deref cell >>= λ context. done context.data_of
