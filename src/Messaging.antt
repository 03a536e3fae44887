-- ===== src/Messaging.antt =====
-- messaging/client.py: when the broker delivers a message again.
pub mod Backoff
use legal_system.Prelude.{
  ℕ, zero, suc, ◌-◌, min, max, Option, none, some, List, [], ◌∷◌, length, take,
}

-- Seconds, by the number of the delivery.
abbrev pub redelivery_backoff_seconds : List ℕ
redelivery_backoff_seconds = 30 ∷ 60 ∷ 120 ∷ 300 ∷ []

-- `xs[i]`, which the callers keep in range: outside it this is 0.
unfoldable pub item : ℕ → List ℕ → ℕ
item i [] = 0
item zero (x ∷ xs) = x
item (suc i) (x ∷ xs) = item i xs

-- `none` stands for a message whose number of deliveries cannot be read.
unfoldable pub backoff_delay : Option ℕ → ℕ
unfolding item
backoff_delay none = item 0 redelivery_backoff_seconds
backoff_delay (some delivered) =
    item (min (delivered - 1) (length redelivery_backoff_seconds - 1)) redelivery_backoff_seconds

unfoldable pub consumer_backoff : (max_deliver : ℕ) → List ℕ
consumer_backoff max_deliver = take (max 1 (max_deliver - 1)) redelivery_backoff_seconds
