-- ===== src/Tests/Ring.antt =====
-- The ring of messages.
use aping.Base.{ℕ, List, [], ◌∷◌, take, replicate, ◌≡◌, arith}
use aping.Base.Int.{pos}
use aping.Base.Outcome.{ok}
use aping.Watermark.{Arena, Bucket, watermark_pop, eth_crc}
use aping.Watermark.Messages.{serve, served-popped}

-- The message `n` says `n`.
abbrev says : ℕ → List ℕ
says n = n ∷ 0 ∷ []

abbrev unused : List ℕ
unused = replicate 1024 5

served-popped_example :
    (a : Arena) × (serve unused says 5 ≡ ok a)
    × ((b : Bucket) × (watermark_pop (a ∷ []) (pos 3) ≡ ok (b, 4))
        × (take b.len b.buffer ≡ take 12 (says 3)))
served-popped_example = served-popped unused says 5 3 [] (omega arith) (omega arith) (omega arith)

-- A bucket with message 0, and an arena that has it.
abbrev first_message : Bucket
first_message = record { id = 0; wrote = 0; crc = eth_crc (says 0); len = 2; buffer = says 0 }

abbrev written : Arena
written = record { size = 12; buckets = replicate 12 first_message }
