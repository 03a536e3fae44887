-- ===== src/Messaging/Backoff.antt =====
-- messaging/client.py: the two ways in which the delays are applied agree.
use legal_system.Prelude.{
  ℕ, zero, suc, ◌-◌, ◌≤◌, ◌<◌, min, max, Option, none, some, List, [], ◌∷◌, length, take, ◌≡◌, ◌⊎◌,
  refl, ◌∙◌, arith, length-take,
}
use legal_system.Messaging.{redelivery_backoff_seconds, item, backoff_delay, consumer_backoff}

item-take : (i n : ℕ) (xs : List ℕ) → i < n → item i (take n xs) ≡ item i xs
unfolding item
item-take i zero xs h = absurd (omega (arith, h))
item-take i (suc n) [] h = refl
item-take zero (suc n) (x ∷ xs) h = refl
item-take (suc i) (suc n) (x ∷ xs) h = item-take i n xs (omega (arith, h))

-- The delay of a delivery, by its number.
delay_cases :
    (d : ℕ)
    → ((d ≤ 1) × (backoff_delay (some d) ≡ 30))
      ⊎ ((d ≡ 2) × (backoff_delay (some d) ≡ 60))
      ⊎ ((d ≡ 3) × (backoff_delay (some d) ≡ 120))
      ⊎ ((4 ≤ d) × (backoff_delay (some d) ≡ 300))
unfolding backoff_delay item
delay_cases zero = ground arith
delay_cases (suc zero) = ground arith
delay_cases (suc (suc zero)) = ground arith
delay_cases (suc (suc (suc zero))) = ground arith
delay_cases (suc (suc (suc (suc d)))) = ground arith

item-delay : (i : ℕ) → i < 4 → item i redelivery_backoff_seconds ≡ backoff_delay (some (suc i))
unfolding backoff_delay item
item-delay zero h = refl
item-delay (suc zero) h = refl
item-delay (suc (suc zero)) h = refl
item-delay (suc (suc (suc zero))) h = refl
item-delay (suc (suc (suc (suc i)))) h = absurd (omega (arith, h))

length-consumer_backoff : (n : ℕ) → length (consumer_backoff n) ≡ min (max 1 (n - 1)) 4
unfolding consumer_backoff
length-consumer_backoff n = length-take (max 1 (n - 1)) redelivery_backoff_seconds

first_delay : (30 ≤ backoff_delay none) × (backoff_delay none ≤ 300)
unfolding backoff_delay item
first_delay = (omega arith, omega arith)

-- A message is never sent back without a delay: every delay lies between 30 and 300 seconds, also where
-- the number of deliveries is not known, and a later delivery has no shorter one. The schedule of the
-- consumer has the same delays, the entry i for delivery i + 1; it is not empty, and shorter than
-- max_deliver if that is at least 2.
pub backoff_delay-consumer_backoff :
    (max_deliver : ℕ)
    → ((o : Option ℕ) → (30 ≤ backoff_delay o) × (backoff_delay o ≤ 300))
      × ((d e : ℕ) → d ≤ e → backoff_delay (some d) ≤ backoff_delay (some e))
      × ((i : ℕ)
          → i < length (consumer_backoff max_deliver)
          → item i (consumer_backoff max_deliver) ≡ backoff_delay (some (suc i)))
      × (1 ≤ length (consumer_backoff max_deliver))
      × (2 ≤ max_deliver → length (consumer_backoff max_deliver) < max_deliver)
unfolding consumer_backoff
backoff_delay-consumer_backoff max_deliver =
    let size = length-consumer_backoff max_deliver in
    (
      bounds,
      λ d e h. ground (arith, h, delay_cases d, delay_cases e),
      λ i h.
          item-take i (max 1 (max_deliver - 1)) redelivery_backoff_seconds (omega (arith, h, size))
          ∙ item-delay i (omega (arith, h, size)),
      omega (arith, size),
      λ h. omega (arith, size, h),
    )
  where
    bounds : (o : Option ℕ) → (30 ≤ backoff_delay o) × (backoff_delay o ≤ 300)
    bounds none = first_delay
    bounds (some d) = ground (arith, delay_cases d)
