-- ===== src/Web/Storage.antt =====
-- The browser's storage, as the item under one key. It is a parameter: `S` is its state, and what
-- the pages rely on is `IsStorage`.
use novelhub.Prelude.{Option, some, ◌≡◌, ◌≢◌}

-- `setItem` returns, or throws, for want of space or otherwise.
pub data SetResult : Type 0 where
  stored quota_exceeded refused : SetResult

pub record BrowserStorage (T S : Type 0) : Type 0 where
  -- `getItem(key)`; the outer `none` is that it throws
  pub get_item : S → Option (Option T)
  -- `setItem(key, value)`
  pub set_item : T → S → SetResult × S

pub record IsStorage {T S : Type 0} (storage : BrowserStorage T S) : Type 0 where
  pub get_item-set_item :
      (value : T) (s s' : S)
      → storage.set_item value s ≡ (stored, s')
      → storage.get_item s' ≡ some (some value)
  pub set_item_throws :
      (value : T) (s s' : S) (r : SetResult)
      → storage.set_item value s ≡ (r, s')
      → r ≢ stored
      → storage.get_item s' ≡ storage.get_item s
