-- ===== src/Responder/Leaves.antt =====
-- Partial correctness of executions, and of what reads the data of a command.
use pimidi.Common.Memory.{Exec, done, fault, ◌>>=◌}
use pimidi.AppleMidi.{Inv, Sync, Feedback, CommandData, null, unset, inv, sync, feedback, bitrate}
use pimidi.Responder.{as_inv, as_sync, as_feedback}

-- An execution ends in undefined behaviour or with a value that satisfies `P`.
abbrev pub Leaves {ℓ} : {A : Type ℓ} → Exec A → (A → Type 0) → Type 0
Leaves fault P = Unit
Leaves (done a) P = P a

pub Leaves->>= {ℓ κ} :
    {A : Type ℓ} {B : Type κ} (m : Exec A) (f : A → Exec B) (P : B → Type 0)
    → ((a : A) → Leaves (f a) P)
    → Leaves (m >>= f) P
Leaves->>= (done a) f P k = k a
Leaves->>= fault f P k = tt

pub Leaves-chain {ℓ κ} :
    {A : Type ℓ} {B : Type κ} (m : Exec A) (f : A → Exec B) (Q : A → Type 0) (P : B → Type 0)
    → Leaves m Q
    → ((a : A) → Q a → Leaves (f a) P)
    → Leaves (m >>= f) P
Leaves-chain (done a) f Q P h k = k a h
Leaves-chain fault f Q P h k = tt

pub Leaves-as_inv {ℓ} :
    {A : Type ℓ} (d : CommandData) (f : Inv → Exec A) (P : A → Type 0)
    → ((i : Inv) → Leaves (f i) P)
    → Leaves (as_inv d f) P
Leaves-as_inv null f P k = tt
Leaves-as_inv unset f P k = tt
Leaves-as_inv (inv i) f P k = k i
Leaves-as_inv (sync s) f P k = tt
Leaves-as_inv (feedback b) f P k = tt
Leaves-as_inv (bitrate r) f P k = tt

pub Leaves-as_sync {ℓ} :
    {A : Type ℓ} (d : CommandData) (f : Sync → Exec A) (P : A → Type 0)
    → ((s : Sync) → Leaves (f s) P)
    → Leaves (as_sync d f) P
Leaves-as_sync null f P k = tt
Leaves-as_sync unset f P k = tt
Leaves-as_sync (inv i) f P k = tt
Leaves-as_sync (sync s) f P k = k s
Leaves-as_sync (feedback b) f P k = tt
Leaves-as_sync (bitrate r) f P k = tt

pub Leaves-as_feedback {ℓ} :
    {A : Type ℓ} (d : CommandData) (f : Feedback → Exec A) (P : A → Type 0)
    → ((b : Feedback) → Leaves (f b) P)
    → Leaves (as_feedback d f) P
Leaves-as_feedback null f P k = tt
Leaves-as_feedback unset f P k = tt
Leaves-as_feedback (inv i) f P k = tt
Leaves-as_feedback (sync s) f P k = tt
Leaves-as_feedback (feedback b) f P k = k b
Leaves-as_feedback (bitrate r) f P k = tt
