-- ===== src/Statistic/Expectation.antt =====
-- `E` of statistic.c: the running mean of a variable, kept in tables that are indexed by bits 2 to 13
-- of the variable's address. The high 18 bits of a count hold the key of the address, and the low
-- 14 the number of samples. A count is the bit pattern of its `long`.
use aping.Base.{ℕ, ◌+◌, ◌-◌, ◌/◌, ◌^◌, Bool, not, ◌&&◌, bit_and, bit_or}
use aping.Base.{◌==◌, leb, if◌then◌else◌}
use aping.Base.Int.{ℤ, pos, negsuc, ◌+ℤ◌, ◌*ℤ◌, ◌==ℤ◌, tdiv, i32, i64}
use aping.Base.Outcome.{Run, ok, fatal, Fault}

-- `sum[n - 1][i]` and `cnt[n - 1][i]`.
pub record Tables : Type 0 where
  pub sum : ℕ → ℕ → ℤ
  pub cnt : ℕ → ℕ → ℕ

abbrev pub empty_tables : Tables
empty_tables = record { sum = λ _ _. pos 0; cnt = λ _ _. 0 }

-- What a call returns and stores through `addr`.
pub record Reply : Type 0 where
  pub ret : ℤ
  pub value : ℤ
  pub tables : Tables

abbrev pub k_size : ℕ
k_size = 2 ^ 14

abbrev pub k_mask : ℕ
k_mask = 2 ^ 32 - 2 ^ 14

-- `IND`: an arithmetic shift, of which the mask keeps the low 12 bits.
abbrev pub index : ℕ → ℕ
index addr = bit_and (addr / 2 ^ 2) (2 ^ 12 - 1)

abbrev pub update {ℓ} : {A : Type ℓ} → (ℕ → ℕ → A) → ℕ → ℕ → A → ℕ → ℕ → A
update f k i v k' i' = if (k == k') && (i == i') then v else f k' i'

abbrev pub clear : Tables → ℕ → ℕ → Tables
clear t k i = record { sum = update t.sum k i (pos 0); cnt = update t.cnt k i 0 }

-- The sample that is added: `data`, or `data * data`.
abbrev pub sample : ℕ → ℤ → ℤ
sample k x = if k == 0 then x else i32 (x *ℤ x)

-- A sum that is not 0 under the key of another address.
unfoldable pub collides : Tables → ℕ → ℕ → Bool
collides t addr k =
    let i = index addr in
    not (t.sum k i ==ℤ pos 0) && not (bit_and (t.cnt k i) k_mask == bit_and addr k_mask)

-- What follows the test of collision, with the count and the sum that include the sample.
unfoldable pub commit : Tables → ℕ → ℕ → ℕ → ℤ → Run Reply
commit t addr k counter total =
    let i = index addr in
    if leb k_size counter
    then ok (record { ret = negsuc 0; value = pos 0; tables = clear t k i })
    else ok (record {
      ret = pos 0;
      value = i32 (tdiv total (pos counter));
      tables = record {
        sum = update t.sum k i total;
        cnt = update t.cnt k i (bit_or (bit_and addr k_mask) (bit_and counter (k_size - 1)));
      };
    })

-- The part for `n` 1 or 2, in table `k = n - 1`.
unfoldable pub add_sample : Tables → ℕ → ℤ → ℕ → Run Reply
unfolding collides commit
add_sample t addr x k =
    let i = index addr in
    if collides t addr k
    then fatal Fault.data_collision
    else commit t addr k (bit_and (t.cnt k i) (k_size - 1) + 1) (i64 (t.sum k i +ℤ sample k x))

unfoldable reset_sample : Tables → ℕ → ℕ → Run Reply
reset_sample t addr k = ok (record { ret = pos 0; value = pos 0; tables = clear t k (index addr) })

unfoldable pub expectation : Tables → ℕ → ℤ → ℤ → Run Reply
unfolding add_sample reset_sample
expectation t addr x n =
    if n ==ℤ negsuc 0
    then reset_sample t addr 0
    else if n ==ℤ negsuc 1
    then reset_sample t addr 1
    else if n ==ℤ pos 1
    then add_sample t addr x 0
    else if n ==ℤ pos 2
    then add_sample t addr x 1
    else fatal Fault.bad_expectation
