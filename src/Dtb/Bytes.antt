-- ===== src/Dtb/Bytes.antt =====
-- Python's bytes as lists of numbers below 256, and what sim/tools/gen_dtb.py does with them:
-- `struct.pack`, `struct.unpack`, `str.encode`, slices and `bytes.index`.
pub mod Laws
use Prim.Native.Char.{code}
use Prim.Native.String.{String}
use rv32im_5_stage_pipelined.Base.{
  ℕ, zero, suc, ◌+◌, ◌-◌, ◌*◌, ◌/◌, ◌%◌, ◌^◌, Option, none, some, true, false, List, [], ◌∷◌, ◌++◌,
  ◌==◌, ltb, if◌then◌else◌,
}
use rv32im_5_stage_pipelined.Base.Lists.{length}

infixl 5 ◌>>=◌
abbrev pub ◌>>=◌ {ℓ κ} : {A : Type ℓ} {B : Type κ} → Option A → (A → Option B) → Option B
none >>= f = none
some a >>= f = f a

-- The four bytes of a number, the most significant first.
abbrev pub be32 : ℕ → List ℕ
be32 n = n / 2 ^ 24 % 256 ∷ n / 2 ^ 16 % 256 ∷ n / 2 ^ 8 % 256 ∷ n % 256 ∷ []

-- `struct.pack(">I", n)`, which raises where `n` has more than 32 digits.
unfoldable pub pack32 : ℕ → Option (List ℕ)
pack32 n = if ltb n (2 ^ 32) then some (be32 n) else none

-- `struct.pack(">Q", n)` for a number of 64 digits.
unfoldable pub be64 : ℕ → List ℕ
be64 n = be32 (n / 2 ^ 32 % 2 ^ 32) ++ be32 (n % 2 ^ 32)

-- `struct.unpack(">I", data[:4])`, which raises where there are fewer bytes.
abbrev pub unpack32 : List ℕ → Option ℕ
unpack32 (a ∷ b ∷ c ∷ d ∷ rest) = some (a * 2 ^ 24 + b * 2 ^ 16 + c * 2 ^ 8 + d)
unpack32 _ = none

unfoldable pub zero_bytes : ℕ → List ℕ
zero_bytes zero = []
zero_bytes (suc n) = 0 ∷ zero_bytes n

unfoldable pub align4 : List ℕ → List ℕ
unfolding zero_bytes
align4 data_bytes = data_bytes ++ zero_bytes ((4 - length data_bytes % 4) % 4)

-- `s.encode("ascii")`, which raises at a character past 127.
unfoldable pub encode : String → Option (List ℕ)
encode String.[] = some []
encode (String.◌∷◌ c s) = do
  rest ← encode s
  if ltb (code c) 128 then some (code c ∷ rest) else none

-- `data[n:]` and `data[:n]`
unfoldable pub drop : ℕ → List ℕ → List ℕ
drop zero xs = xs
drop (suc n) [] = []
drop (suc n) (x ∷ xs) = drop n xs

unfoldable pub take : ℕ → List ℕ → List ℕ
take zero xs = []
take (suc n) [] = []
take (suc n) (x ∷ xs) = x ∷ take n xs

-- `data.index(b"\x00")`
unfoldable pub find_zero : List ℕ → Option ℕ
find_zero [] = none
find_zero (x ∷ xs) = elim (x == 0) [ true ↦ some 0 | false ↦ (find_zero xs >>= λ n. some (suc n)) ]
