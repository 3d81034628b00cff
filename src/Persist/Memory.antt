-- ===== src/Persist/Memory.antt =====
-- `MemStore` of src/persist/mem.rs: a map from keys to byte strings, as a function.
use smsgate.Base.{
  ℕ, ◌≡◌, ◌≢◌, if◌then◌else◌, Bool, true, List, Option, none, some, Text, text_eq, text_eq_refl,
  text_eq→eq, Bool-cases, inl, inr,
}
use smsgate.Persist.Interface.{Store, IsStore}

pub record MemStore : Type 0 where
  pub contents : Text → Option (List ℕ)

unfoldable pub new : MemStore
new = record { contents = λ key. none }

unfoldable pub load : MemStore → Text → Option (List ℕ)
load s key = s.contents key

unfoldable pub save : MemStore → Text → List ℕ → MemStore × Bool
save s key value =
    (record { contents = λ k. if text_eq key k then some value else s.contents k }, true)

abbrev pub mem_store : Store MemStore
mem_store = record { load = load; save = save }

load-save_self :
    (s : MemStore) (key : Text) (value : List ℕ) → load (save s key value).0 key ≡ some value
unfolding load save
load-save_self s key value = rw (text_eq_refl key)

load-save_other :
    (s : MemStore) (key other : Text) (value : List ℕ)
    → key ≢ other
    → load (save s key value).0 other ≡ load s other
unfolding load save
load-save_other s key other value h = elim (Bool-cases (text_eq key other)) [
  | inl e ↦ absurd (h (text_eq→eq key other e))
  | inr e ↦ rw e
]

-- The store of the tests keeps what is saved, and leaves other keys alone.
pub mem_store-IsStore : IsStore MemStore mem_store
mem_store-IsStore = record {
  load-save = λ s key value saved. load-save_self s key value;
  load-save_ne = load-save_other;
}
