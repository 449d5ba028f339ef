-- ===== src/Watermark/Poll.antt =====
-- The loop of `watermark_pop` of wmdata.c.
use aping.Base.{ℕ, ◌%◌, ◌^◌, List, [], ◌∷◌, Option, some, length, get_elem?, ◌≡◌, ◌≤◌, take}
use aping.Watermark.{Bucket, Arena, eth_crc}

-- The buckets of an arena for message `m`.
abbrev pub bucket_at : ℕ → Arena → Option Bucket
bucket_at m a = get_elem? a.buckets (m % 12)

-- Every arena has its twelve buckets.
abbrev pub AllRoom : List Arena → Type 0
AllRoom [] = Unit
AllRoom (a ∷ later) = (length a.buckets ≡ 12) × AllRoom later

-- What the reader wants of a bucket: both ids are the same and not before the message, and the sum is that
-- of its text.
pub record IsWhole (m : ℕ) (b : Bucket) : Type 0 where
  pub written : b.id ≡ b.wrote
  pub recent : m % 2 ^ 32 ≤ b.id
  pub summed : b.crc ≡ eth_crc (take b.len b.buffer)

-- The bucket of the first arena whose bucket is whole.
pub data First (m : ℕ) (c : Bucket) : List Arena → Type 0 where
  here :
      {a : Arena} {later : List Arena}
      → bucket_at m a ≡ some c
      → IsWhole m c
      → First m c (a ∷ later)
  next :
      {a : Arena} {later : List Arena} {b : Bucket}
      → bucket_at m a ≡ some b
      → ¬ IsWhole m b
      → First m c later
      → First m c (a ∷ later)
