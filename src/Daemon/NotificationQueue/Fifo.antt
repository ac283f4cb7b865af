-- ===== src/Daemon/NotificationQueue/Fifo.antt =====
-- The specification of a notification queue: a first-in first-out queue of at most `capacity`
-- notifications, oldest first, that drops what it has no room for.
use android_hardware_samsung.Common.{
  ℕ, Option, some, none, List, [], ◌∷◌, ◌++◌, ltb, length, if◌then◌else◌,
}

module _ {ℓ} {A : Type ℓ} where
  unfoldable pub put : ℕ → A → List A → List A
  put capacity x xs = if ltb (length xs) capacity then xs ++ (x ∷ []) else xs

  unfoldable pub take_first : List A → Option A × List A
  take_first [] = (none, [])
  take_first (x ∷ xs) = (some x, xs)
