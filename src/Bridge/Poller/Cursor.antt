-- ===== src/Bridge/Poller/Cursor.antt =====
-- The cursor of the polled messages, of src/bridge/poller.rs.
use smsgate.Base.{ℕ, ◌^◌, ◌<◌, ◌≡◌, inl, inr, true, false, Bool-cases, some, arith}
use smsgate.Persist.Interface.{Store, IsStore, load_i64, save_i64, load_i64-save_i64, im_cursor}
use smsgate.Bridge.Poller.{is_after, checkpoint_cursor}

is_after_irrefl : (a : ℕ) → is_after a a ≡ false
is_after_irrefl a = ground arith

is_after_asym : (a b : ℕ) → is_after a b ≡ true → is_after b a ≡ false
is_after_asym a b h = ground arith

module _ {ℓ} {S : Type ℓ} (store : Store S) (laws : IsStore S store) where
  -- In a store that keeps what it saves: if the cursor that is held is the stored one, then after a checkpoint that went well it still is,
  -- and it is neither before the one held earlier nor before the next one.
  pub checkpoint_cursor-load_i64 :
      (s : S) (persisted next : ℕ)
      → next < 2 ^ 64
      → load_i64 store s im_cursor ≡ some persisted
      → (checkpoint_cursor store s persisted next).1.1 ≡ true
      → (load_i64 store (checkpoint_cursor store s persisted next).0 im_cursor
          ≡ some (checkpoint_cursor store s persisted next).1.0)
        × (is_after persisted (checkpoint_cursor store s persisted next).1.0 ≡ false)
        × (is_after next (checkpoint_cursor store s persisted next).1.0 ≡ false)
  unfolding checkpoint_cursor
  checkpoint_cursor-load_i64 s persisted next small held ok =
      elim (Bool-cases (is_after next persisted)) [
        | inr e ↦ rw (e, checkpoint_cursor) (held, is_after_irrefl persisted, e)
        | inl e ↦ elim (Bool-cases (save_i64 store s im_cursor next).1) [
          | inl f ↦
              rw (e, f, checkpoint_cursor)
                (
                  load_i64-save_i64 store laws s im_cursor next small f,
                  is_after_asym next persisted e,
                  is_after_irrefl next,
                )
          | inr f ↦
              let wrong : false ≡ true = rw (e, f, checkpoint_cursor) at ok in absurd (ground arith)
        ]
      ]
