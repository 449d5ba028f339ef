-- ===== src/Watermark.antt =====
-- wmdata.c: the ring of messages in the memory that aping shares with its plugins. The shared memory
-- itself comes from the system; a read or a write of a whole bucket is one step.
pub mod Messages
pub mod Poll
pub mod Crc
use aping.Base.{
  ℕ, zero, suc, ◌+◌, ◌-◌, ◌*◌, ◌/◌, ◌%◌, ◌^◌, min, List, [], ◌∷◌, ◌++◌, Bool, true, false, ◌&&◌,
  ◌||◌, not, Option, none, some, take, drop, length, get_elem?, set, replicate, leb, ltb, bit_xor,
  ◌==◌, if◌then◌else◌,
}
use aping.Base.Int.{ℤ, pos, negsuc, ◌+ℤ◌, residue}
use aping.Base.Outcome.{Run, ok, fatal, Fault, ◌>>=◌, ◌>>◌, require}

abbrev pub poly : ℕ
poly = 0x04c11db7

abbrev pub differ : Bool → Bool → Bool
differ true b = not b
differ false b = b

-- `crc < 0` is the highest bit of the word.
abbrev pub crc_bit : ℕ → Bool → ℕ
crc_bit crc bit = bit_xor (crc * 2 % 2 ^ 32) (if differ (leb (2 ^ 31) crc) bit then poly else 0)

-- The lowest `n` bits of an octet, in order.
unfoldable pub crc_octet : ℕ → ℕ → ℕ → ℕ
crc_octet zero crc octet = crc
crc_octet (suc n) crc octet = crc_octet n (crc_bit crc (octet % 2 == 1)) (octet / 2)

unfoldable pub crc_from : ℕ → List ℕ → ℕ
unfolding crc_octet
crc_from crc [] = crc
crc_from crc (c ∷ cs) = crc_from (crc_octet 8 crc c) cs

-- The bytes that are read.
unfoldable pub eth_crc : List ℕ → ℕ
unfolding crc_from
eth_crc message = crc_from (2 ^ 32 - 1) message

-- The words are unsigned, of 32 bits; `buffer` has 1024 bytes.
pub record Bucket : Type 0 where
  pub id : ℕ
  pub wrote : ℕ
  pub crc : ℕ
  pub len : ℕ
  pub buffer : List ℕ

abbrev arena_size : ℕ
arena_size = 12

pub record Arena : Type 0 where
  pub size : ℕ
  pub buckets : List Bucket

abbrev zero_bucket : Bucket
zero_bucket = record { id = 0; wrote = 0; crc = 0; len = 0; buffer = replicate 1024 0 }

-- `watermark_init` of the server, after `memset`; the statements `... .id == 1;` compare, and store
-- nothing.
abbrev pub watermark_init : Arena
watermark_init = record { size = arena_size; buckets = replicate arena_size zero_bucket }

-- The place of a message, `id % ARENA_SIZE`; a negative one is out of bounds.
unfoldable pub slot_of : ℤ → Run ℕ
slot_of (pos n) = ok (n % arena_size)
slot_of (negsuc n) = if suc n % arena_size == 0 then ok 0 else fatal Fault.bad_index

-- The first step of `watermark_push`: the id of the bucket.
abbrev pub set_id : ℕ → Option Bucket → List Bucket → ℕ → List Bucket
set_id i none bs k = bs
set_id i (some b) bs k = set bs k (record b { id = i })

unfoldable pub flag : Arena → ℤ → Run Arena
flag sha id = do
  k ← slot_of id
  ok (record sha { buckets = set_id (residue (2 ^ 32) id) (get_elem? sha.buckets k) sha.buckets k })

-- The bucket that is put together on the stack, whose buffer holds `stack` before.
unfoldable pub new_bucket : List ℕ → List ℕ → ℕ → ℤ → Run Bucket
new_bucket stack message len id = do
  let tlen = if ltb arena_size len then arena_size else len
  require (leb tlen (length message)) Fault.bad_index
  ok record {
    id = residue (2 ^ 32) id;
    wrote = residue (2 ^ 32) id;
    crc = eth_crc (take tlen message);
    len = tlen;
    buffer = take tlen message ++ drop tlen stack;
  }

-- The last step: the bucket is copied over.
unfoldable pub swap : Arena → ℤ → Bucket → Run Arena
swap sha id b = do k ← slot_of id; ok (record sha { buckets = set sha.buckets k b })

unfoldable pub watermark_push : List ℕ → Arena → List ℕ → ℕ → ℤ → Run Arena
watermark_push stack sha message len oldid = do
  let id = oldid +ℤ pos 1
  sha1 ← flag sha id
  b ← new_bucket stack message len id
  swap sha1 id b

-- The tests of `watermark_pop` on what it has read. The message is compared as an unsigned word.
unfoldable pub is_message : Bucket → ℤ → Bool
is_message b msg_id =
    (b.id == b.wrote)
    && leb (residue (2 ^ 32) msg_id) b.id
    && (b.crc == eth_crc (take b.len b.buffer))

-- One turn of the loop on the bucket that was read; `rest` are the turns after the sleep.
abbrev pub poll : Option Bucket → ℤ → Run (Bucket × ℕ) → Run (Bucket × ℕ)
poll none msg_id rest = fatal Fault.bad_index
poll (some b) msg_id rest = if is_message b msg_id then ok (b, (b.id + 1) % 2 ^ 32) else rest

-- `watermark_pop`: the loop with the arenas that its reads meet; it ends only with a message.
unfoldable pub watermark_pop : List Arena → ℤ → Run (Bucket × ℕ)
watermark_pop [] msg_id = fatal Fault.endless_loop
watermark_pop (sha ∷ later) msg_id =
    let rest = watermark_pop later msg_id in
    slot_of msg_id >>= λ k. poll (get_elem? sha.buckets k) msg_id rest
