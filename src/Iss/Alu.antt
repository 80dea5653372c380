-- ===== src/Iss/Alu.antt =====
-- sim/tools/iss.py, the integer results that `ISS.step` computes inline: OP (with RV32M and ctz),
-- OP-32, OP-IMM, OP-IMM-32 and the branch conditions. `a` and `b` are the operand registers.
pub mod Ctz
use rv32im_5_stage_pipelined.Base.{
  ℕ, zero, suc, ◌+◌, ◌-◌, ◌*◌, ◌/◌, ◌%◌, ◌^◌, bit_and, bit_or, bit_xor, Bool, true, false, ◌==◌,
  ◌&&◌, ◌||◌, not, ltb, leb, ◌<<<◌, ◌>>>◌, digit, if◌then◌else◌,
}
use rv32im_5_stage_pipelined.Base.Int.{
  ℤ, pos, negsuc, shift_right, ◌+ℤ◌, ◌-ℤ◌, ◌*ℤ◌, -ℤ◌, abs, ltb_ℤ, leb_ℤ, eqb_ℤ,
}
use rv32im_5_stage_pipelined.Iss.Word.{u_xlen, s_xlen, u32, s32}
use rv32im_5_stage_pipelined.Iss.State.{Error, Result, ok, raised}

abbrev pub is_neg : ℤ → Bool
is_neg v = ltb_ℤ v (pos 0)

abbrev pub of_bool : Bool → ℕ
of_bool b = if b then 1 else 0

-- `-(1 << (w - 1))`, the least integer of `w` digits.
abbrev pub least : ℕ → ℤ
least w = negsuc (2 ^ (w - 1) - 1)

-- `q = abs(..) // abs(..)`, negated where the signs differ.
unfoldable pub trunc_div : ℤ → ℤ → ℤ
trunc_div x y =
    let q = pos (abs x / abs y) in
    if is_neg x then (if is_neg y then q else -ℤ◌ q) else if is_neg y then -ℤ◌ q else q

-- `r = abs(..) % abs(..)`, with the sign of the dividend.
unfoldable pub trunc_rem : ℤ → ℤ → ℤ
trunc_rem x y = let r = pos (abs x % abs y) in if is_neg x then -ℤ◌ r else r

unfoldable pub div_signed : ℕ → ℕ → ℕ → ℕ
unfolding s_xlen trunc_div
div_signed xl a b =
    if b == 0
    then u_xlen (negsuc 0) xl
    else if eqb_ℤ (s_xlen (pos a) xl) (least xl) && eqb_ℤ (s_xlen (pos b) xl) (negsuc 0)
    then a
    else u_xlen (trunc_div (s_xlen (pos a) xl) (s_xlen (pos b) xl)) xl

unfoldable pub rem_signed : ℕ → ℕ → ℕ → ℕ
unfolding s_xlen trunc_rem
rem_signed xl a b =
    if b == 0
    then a
    else if eqb_ℤ (s_xlen (pos a) xl) (least xl) && eqb_ℤ (s_xlen (pos b) xl) (negsuc 0)
    then 0
    else u_xlen (trunc_rem (s_xlen (pos a) xl) (s_xlen (pos b) xl)) xl

-- The M extension, by funct3.
unfoldable pub op_m : ℕ → ℕ → ℕ → ℕ → ℕ
unfolding s_xlen div_signed rem_signed ◌*ℤ◌
op_m xl f3 a b =
    if f3 == 0
    then u_xlen (pos (a * b)) xl
    else if f3 == 1
    then u_xlen (shift_right (s_xlen (pos a) xl *ℤ s_xlen (pos b) xl) xl) xl
    else if f3 == 2
    then u_xlen (shift_right (s_xlen (pos a) xl *ℤ pos (u_xlen (pos b) xl)) xl) xl
    else if f3 == 3
    then (u_xlen (pos a) xl * u_xlen (pos b) xl) >>> xl
    else if f3 == 4
    then div_signed xl a b
    else if f3 == 5
    then if b == 0 then u_xlen (negsuc 0) xl else u_xlen (pos a) xl / u_xlen (pos b) xl
    else if f3 == 6
    then rem_signed xl a b
    else if b == 0
    then a
    else u_xlen (pos a) xl % u_xlen (pos b) xl

-- The loop over `range(xl - 1)` at the digit `i`, with the rounds left first.
unfoldable pub ctz_loop : ℕ → ℕ → ℕ → ℕ → Bool → ℕ
ctz_loop zero i a count done = count
ctz_loop (suc left) i a count done =
    let more = digit a i == 0 && not done in
    ctz_loop left (i + 1) a (if more then count + 1 else count) (if more then done else true)

unfoldable pub ctz : ℕ → ℕ → ℕ
unfolding ctz_loop
ctz xl a = ctz_loop (xl - 1) 0 a 0 false

-- `B & (xl - 1)`
abbrev pub shift_amount : ℕ → ℕ → ℕ
shift_amount xl b = bit_and b (xl - 1)

-- The base integer operations, by funct3 and funct7.
unfoldable pub op_base : ℕ → ℕ → ℕ → ℕ → ℕ → Result ℕ
unfolding s_xlen ◌-ℤ◌
op_base xl f3 f7 a b =
    if f3 == 0 && f7 == 0
    then ok (u_xlen (pos (a + b)) xl)
    else if f3 == 0 && f7 == 32
    then ok (u_xlen (pos a -ℤ pos b) xl)
    else if f3 == 1
    then ok (u_xlen (pos (a <<< shift_amount xl b)) xl)
    else if f3 == 2
    then ok (of_bool (ltb_ℤ (s_xlen (pos a) xl) (s_xlen (pos b) xl)))
    else if f3 == 3
    then ok (of_bool (ltb (u_xlen (pos a) xl) (u_xlen (pos b) xl)))
    else if f3 == 4
    then ok (u_xlen (pos (bit_xor a b)) xl)
    else if f3 == 5 && f7 == 0
    then ok (u_xlen (pos a) xl >>> shift_amount xl b)
    else if f3 == 5 && f7 == 32
    then ok (u_xlen (shift_right (s_xlen (pos a) xl) (shift_amount xl b)) xl)
    else if f3 == 6
    then ok (u_xlen (pos (bit_or a b)) xl)
    else if f3 == 7
    then ok (u_xlen (pos (bit_and a b)) xl)
    else raised (Error.unknown_r_type f3 f7)

unfoldable pub op_r : ℕ → ℕ → ℕ → ℕ → ℕ → Result ℕ
unfolding op_m ctz op_base
op_r xl f3 f7 a b =
    if f7 == 1
    then ok (op_m xl f3 a b)
    else if f7 == 32 && f3 == 7
    then ok (ctz xl a)
    else op_base xl f3 f7 a b

-- The word forms compute on the low 32 digits; `step` then sign-extends.
unfoldable pub op32_m : ℕ → ℕ → ℕ → ℕ
unfolding s32 trunc_div trunc_rem
op32_m f3 a b =
    let overflows = eqb_ℤ (s32 (pos a)) (negsuc 2147483647) && eqb_ℤ (s32 (pos b)) (negsuc 0) in
    if f3 == 0
    then u32 (pos (a * b))
    else if f3 == 4
    then if u32 (pos b) == 0
      then 0xFFFFFFFF
      else if overflows
      then u32 (pos a)
      else u32 (trunc_div (s32 (pos a)) (s32 (pos b)))
    else if f3 == 5
    then if u32 (pos b) == 0 then 0xFFFFFFFF else u32 (pos a) / u32 (pos b)
    else if f3 == 6
    then if u32 (pos b) == 0
      then u32 (pos a)
      else if overflows
      then 0
      else u32 (trunc_rem (s32 (pos a)) (s32 (pos b)))
    else if u32 (pos b) == 0
    then u32 (pos a)
    else u32 (pos a) % u32 (pos b)

unfoldable pub op_32 : ℕ → ℕ → ℕ → ℕ → Result ℕ
unfolding op32_m s32 ◌-ℤ◌
op_32 f3 f7 a b =
    if f7 == 1
    then ok (op32_m f3 a b)
    else if f3 == 0 && f7 == 0
    then ok (u32 (pos (a + b)))
    else if f3 == 0 && f7 == 32
    then ok (u32 (pos a -ℤ pos b))
    else if f3 == 1
    then ok (u32 (pos (u32 (pos a) <<< (b % 2 ^ 5))))
    else if f3 == 5 && f7 == 0
    then ok (u32 (pos a) >>> (b % 2 ^ 5))
    else if f3 == 5 && f7 == 32
    then ok (u32 (shift_right (s32 (pos a)) (b % 2 ^ 5)))
    else raised (Error.unknown_op32 f3 f7)

-- slli, srli and srai, whose amount has 6 digits from XLEN 64 upwards.
unfoldable pub shift_imm : ℕ → ℕ → ℕ → ℕ → ℕ
unfolding s_xlen
shift_imm xl f3 word a =
    let wide = leb 64 xl in
    let shamt = if wide then (word >>> 20) % 2 ^ 6 else (word >>> 20) % 2 ^ 5 in
    let is_alt = if wide then (word >>> 26) % 2 ^ 6 == 16 else (word >>> 25) % 2 ^ 7 == 32 in
    if f3 == 1
    then u_xlen (pos (a <<< shamt)) xl
    else if is_alt
    then u_xlen (shift_right (s_xlen (pos a) xl) shamt) xl
    else u_xlen (pos a) xl >>> shamt

unfoldable pub op_imm : ℕ → ℕ → ℕ → ℕ → ℤ → Result ℕ
unfolding shift_imm s_xlen ◌+ℤ◌
op_imm xl f3 word a imm_i =
    if f3 == 1 || f3 == 5
    then ok (shift_imm xl f3 word a)
    else if f3 == 0
    then ok (u_xlen (pos a +ℤ imm_i) xl)
    else if f3 == 2
    then ok (of_bool (ltb_ℤ (s_xlen (pos a) xl) imm_i))
    else if f3 == 3
    then ok (of_bool (ltb (u_xlen (pos a) xl) (u_xlen imm_i xl)))
    else if f3 == 4
    then ok (u_xlen (pos (bit_xor a (u_xlen imm_i xl))) xl)
    else if f3 == 6
    then ok (u_xlen (pos (bit_or a (u_xlen imm_i xl))) xl)
    else if f3 == 7
    then ok (u_xlen (pos (bit_and a (u_xlen imm_i xl))) xl)
    else raised (Error.unknown_i_type f3)

unfoldable pub op_imm_32 : ℕ → ℕ → ℕ → ℕ → ℤ → Result ℕ
unfolding s32 ◌+ℤ◌
op_imm_32 f3 f7 word a imm_i =
    let shamt = (word >>> 20) % 2 ^ 5 in
    if f3 == 1 || f3 == 5
    then if f3 == 1
      then ok (u32 (pos (u32 (pos a) <<< shamt)))
      else if f7 == 32
      then ok (u32 (shift_right (s32 (pos a)) shamt))
      else ok (u32 (pos a) >>> shamt)
    else if f3 == 0
    then ok (u32 (pos a +ℤ imm_i))
    else raised (Error.unknown_op_imm32 f3)

-- The table of branch conditions. funct3 has 3 digits, so the last line is 7, bgeu.
unfoldable pub branch_taken : ℕ → ℕ → ℕ → ℕ → Bool
unfolding s_xlen
branch_taken xl f3 a b =
    let sa = s_xlen (pos a) xl in
    let sb = s_xlen (pos b) xl in
    let ua = u_xlen (pos a) xl in
    let ub = u_xlen (pos b) xl in
    if f3 == 0
    then eqb_ℤ sa sb
    else if f3 == 1
    then not (eqb_ℤ sa sb)
    else if f3 == 2
    then leb_ℤ sa sb
    else if f3 == 3
    then ltb_ℤ sb sa
    else if f3 == 4
    then ltb_ℤ sa sb
    else if f3 == 5
    then leb_ℤ sb sa
    else if f3 == 6
    then ltb ua ub
    else leb ub ua
