-- ===== src/Iss/Memory.antt =====
-- sim/tools/iss.py, the byte memory: `load_mem_byte`, `store_mem_byte`, the page-table reads and
-- the multi-byte accesses of `step`. Addresses from 0x10000000 upwards are peripherals, which the
-- simulator does not have.
pub mod Bytes
use rv32im_5_stage_pipelined.Base.{
  ℕ, zero, suc, ◌+◌, ◌*◌, ◌%◌, ◌^◌, bit_and, bit_or, leb, ◌<<<◌, ◌>>>◌, if◌then◌else◌,
}
use rv32im_5_stage_pipelined.Iss.State.{Iss, update}

abbrev pub mmio_base : ℕ
mmio_base = 0x10000000

unfoldable pub load_mem_byte : ℕ → Iss → ℕ
load_mem_byte addr s = if leb mmio_base addr then 0 else s.mem (bit_and addr s.mem_mask)

unfoldable pub store_mem_byte : ℕ → ℕ → Iss → Iss
store_mem_byte addr val s =
    if leb mmio_base addr
    then s
    else record s { mem = update s.mem (bit_and addr s.mem_mask) (val % 2 ^ 8) }

-- The little-endian reads: the written-out sums of 2 and 4 bytes, and the loop over 8.
unfoldable pub load_half : ℕ → Iss → ℕ
load_half addr s = bit_or (load_mem_byte addr s) (load_mem_byte (addr + 1) s <<< 8)

unfoldable pub load_word : ℕ → Iss → ℕ
load_word addr s =
    bit_or
      (bit_or (bit_or (load_mem_byte addr s) (load_mem_byte (addr + 1) s <<< 8))
        (load_mem_byte (addr + 2) s <<< 16))
      (load_mem_byte (addr + 3) s <<< 24)

-- `for i in range(n): val |= self.load_mem_byte(addr + i) << (8 * i)`, with the rounds left first.
unfoldable pub load_loop : ℕ → ℕ → ℕ → ℕ → Iss → ℕ
load_loop zero i addr val s = val
load_loop (suc left) i addr val s =
    load_loop left (i + 1) addr (bit_or val (load_mem_byte (addr + i) s <<< (8 * i))) s

-- `for i in range(n): self.store_mem_byte(addr + i, val >> (8 * i))`
unfoldable pub store_loop : ℕ → ℕ → ℕ → ℕ → Iss → Iss
store_loop zero i addr val s = s
store_loop (suc left) i addr val s =
    store_loop left (i + 1) addr val (store_mem_byte (addr + i) (val >>> (8 * i)) s)

unfoldable pub read_pte : ℕ → Iss → ℕ
unfolding load_word
read_pte addr s = load_word (addr % 2 ^ 32) s

unfoldable pub read_pte64 : ℕ → Iss → ℕ
unfolding load_loop
read_pte64 addr s = load_loop 8 0 (addr % 2 ^ 32) 0 s
