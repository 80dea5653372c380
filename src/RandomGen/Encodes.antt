-- ===== src/RandomGen/Encodes.antt =====
-- sim/tools/random_gen.py and asm.py: the assembler encodes each form of line that is generated.
pub mod Memory
pub mod FloatLines
use rv32im_5_stage_pipelined.Base.{
  ℕ, ◌-◌, ◌%◌, ◌^◌, ◌<◌, ◌≤◌, ◌≡◌, ◌≢◌, refl, sym, ap, ◌∙◌, arith, Bool, true, false, Option, none,
  some, List, [], ◌∷◌, leb, bit_or, ◌<<<◌, if◌then◌else◌,
}
use rv32im_5_stage_pipelined.Base.Int.{ℤ, pos, negsuc, low_bits}
use rv32im_5_stage_pipelined.Asm.Mnemonic.{
  i_funct3, shift_funct3, funct7_base, funct7_alt, RType, IType, Shift, Load, Store, CsrOp,
}
use rv32im_5_stage_pipelined.Asm.Encode
use rv32im_5_stage_pipelined.Asm.Encode.{◌>>=◌}
use rv32im_5_stage_pipelined.Asm.Wide
use rv32im_5_stage_pipelined.Asm.Wide.{RTypeW, ITypeW}
use rv32im_5_stage_pipelined.Asm.Floats
use rv32im_5_stage_pipelined.Asm.Floats.{
  FpArith, FpSgnj, FpMinmax, FpCmp, Madd, fp_arith_funct5, madd_opcode,
}
use rv32im_5_stage_pipelined.Asm.Text.{lower, strip, split_fields}
use rv32im_5_stage_pipelined.Asm.Table.{Mnemonic, mnemonic_of}
use rv32im_5_stage_pipelined.Asm.Operands.{
  Result, ok, or_value_error, arg, reg, freg, number, Address, address, base_register, csr_lookup,
  parse_rm,
}
use rv32im_5_stage_pipelined.Asm.Statement.{
  Labels, with_regs, with_imm, with_address, with_fregs, encode_float, encode, encode_fields,
  encode_line,
}
use rv32im_5_stage_pipelined.RandomGen.Source.{All}
use rv32im_5_stage_pipelined.RandomGen.Lines.{x_reg, f_reg, int_text, address_text, line}
use rv32im_5_stage_pipelined.RandomGen.Texts.{IsPlain, IsStmt, split_fields-line, line-IsStmt}
use rv32im_5_stage_pipelined.RandomGen.Tokens.{
  reg-x_reg, freg-f_reg, number-pos, number-negsuc, IsAddress, address_text-IsAddress,
}

-- A statement that the assembler encodes wherever it stands.
abbrev pub IsEncodable : ℕ → List ℕ → Type 0
IsEncodable xlen t =
    IsStmt t × ((labels : Labels) (addr : ℕ) → (w : ℕ) × (encode_line xlen labels addr t ≡ ok w))

abbrev pub Named : List ℕ → Mnemonic → Type 0
Named mn m = IsPlain mn × (mnemonic_of (lower mn) ≡ some m)

pub encode_line-line :
    (xlen : ℕ) (labels : Labels) (addr : ℕ) (mn tok : List ℕ) (toks : List (List ℕ)) (m : Mnemonic)
    → Named mn m
    → IsPlain tok
    → All IsPlain toks
    → encode_line xlen labels addr (line mn tok toks) ≡ encode xlen labels addr m (tok ∷ toks)
unfolding encode_line encode_fields
encode_line-line xlen labels addr mn tok toks m (p, named) h k =
    let stripped = (line-IsStmt mn tok toks p h k).2 in
    ap (λ (t : List ℕ). encode_fields xlen labels addr (split_fields t)) stripped
    ∙ ap (encode_fields xlen labels addr) (split_fields-line mn tok toks p h k)
    ∙ rw (named, encode_fields) refl

pub line-IsEncodable :
    (xlen : ℕ) (mn tok : List ℕ) (toks : List (List ℕ)) (m : Mnemonic)
    → Named mn m
    → IsPlain tok
    → All IsPlain toks
    → ((labels : Labels) (addr : ℕ) → (w : ℕ) × (encode xlen labels addr m (tok ∷ toks) ≡ ok w))
    → IsEncodable xlen (line mn tok toks)
line-IsEncodable xlen mn tok toks m named h k coded = (
  line-IsStmt mn tok toks named.0 h k,
  λ labels addr.
      let (w, e) = coded labels addr in
      (w, encode_line-line xlen labels addr mn tok toks m named h k ∙ e),
)

-- An integer of 12 digits, by its constructors.
abbrev pub IsInt12 : ℤ → Type 0
IsInt12 (pos n) = n < 2048
IsInt12 (negsuc n) = n < 2048

pub number-int_text : (v : ℤ) → IsInt12 v → (number (int_text v) ≡ ok v) × IsPlain (int_text v)
number-int_text (pos n) h = number-pos n h
number-int_text (negsuc n) h = number-negsuc n h

pub imm_signed-some : (v : ℤ) → IsInt12 v → Encode.imm_signed v 12 ≡ some (low_bits 12 v)
unfolding Encode.imm_signed
imm_signed-some (pos n) h = ground arith
imm_signed-some (negsuc n) h = ground arith

pub imm_unsigned-some :
    (bits n : ℕ) → n ≤ 2 ^ bits - 1 → Encode.imm_unsigned (pos n) bits ≡ some (n % 2 ^ bits)
unfolding Encode.imm_unsigned
imm_unsigned-some bits n h = ground arith

abbrev pub Encoded : Option ℕ → Type 0
Encoded o = (w : ℕ) × (o ≡ some w)

-- A word is made of the digits of an immediate that is in range.
pub then_some :
    (o : Option ℕ) (v : ℕ) (word : ℕ → ℕ) → o ≡ some v → Encoded (o >>= λ x. some (word x))
then_some o v word e = (word v, rw e refl)

shift-Encoded :
    (xlen : ℕ) (m : Shift) (rd rs1 n : ℕ)
    → n ≤ (if leb 64 xlen then 63 else 31)
    → Encoded (Encode.i_type_shift xlen m rd rs1 (pos n))
unfolding Encode.i_type_shift
shift-Encoded xlen m rd rs1 n h = by_xlen (leb 64 xlen) h
  where
    by_xlen :
        (b : Bool)
        → n ≤ (if b then 63 else 31)
        → Encoded (
            if b
            then (Encode.imm_unsigned (pos n) 6 >>= λ shamt. some (
                Encode.word5
                  (bit_or ((if Encode.is_srai m then 0b010000 else 0) <<< 6) shamt)
                  rs1
                  (shift_funct3 m)
                  rd
                  Encode.op_i))
            else (Encode.imm_unsigned (pos n) 5 >>= λ shamt. some (
                Encode.word5
                  (bit_or ((if Encode.is_srai m then funct7_alt else funct7_base) <<< 5) shamt)
                  rs1
                  (shift_funct3 m)
                  rd
                  Encode.op_i)))
    by_xlen true le =
        then_some (Encode.imm_unsigned (pos n) 6) (n % 2 ^ 6) _ (imm_unsigned-some 6 n le)
    by_xlen false le =
        then_some (Encode.imm_unsigned (pos n) 5) (n % 2 ^ 5) _ (imm_unsigned-some 5 n le)

shift_w-Encoded :
    (m : ITypeW) (n : ℕ) → n ≤ 31 → m ≢ ITypeW.addiw → Encoded (Wide.imm12_w m (pos n))
unfolding Wide.imm12_w
shift_w-Encoded ITypeW.addiw n le other = absurd (other refl)
shift_w-Encoded ITypeW.slliw n le other =
    then_some (Encode.imm_unsigned (pos n) 5) _ _ (imm_unsigned-some 5 n le)
shift_w-Encoded ITypeW.srliw n le other =
    then_some (Encode.imm_unsigned (pos n) 5) _ _ (imm_unsigned-some 5 n le)
shift_w-Encoded ITypeW.sraiw n le other =
    then_some (Encode.imm_unsigned (pos n) 5) _ _ (imm_unsigned-some 5 n le)

-- The forms of `assemble` with two registers and an operand more.
module _ (xlen rd rs1 : ℕ) (hd : rd < 32) (h1 : rs1 < 32) (mn : List ℕ) where
  regs_line :
      (m : Mnemonic) (rs2 : ℕ) (word : ℕ → ℕ → ℕ → ℕ)
      → rs2 < 32
      → Named mn m
      → ((labels : Labels) (addr : ℕ) (args : List (List ℕ))
          → encode xlen labels addr m args ≡ with_regs args word)
      → IsEncodable xlen (line mn (x_reg rd) (x_reg rs1 ∷ x_reg rs2 ∷ []))
  unfolding with_regs
  regs_line m rs2 word h2 named same =
      let (d, pd) = reg-x_reg rd hd in
      let (a, p1) = reg-x_reg rs1 h1 in
      let (b, p2) = reg-x_reg rs2 h2 in
      line-IsEncodable xlen mn (x_reg rd) (x_reg rs1 ∷ x_reg rs2 ∷ []) m named pd (p1, (p2, tt))
        (λ labels addr. (word rd rs1 rs2, same labels addr _ ∙ rw (d, a, b) refl))

  imm_line :
      (m : Mnemonic) (v : ℤ) (word : ℕ → ℕ → ℤ → Option ℕ)
      → IsInt12 v
      → Encoded (word rd rs1 v)
      → Named mn m
      → ((labels : Labels) (addr : ℕ) (args : List (List ℕ))
          → encode xlen labels addr m args ≡ with_imm args word)
      → IsEncodable xlen (line mn (x_reg rd) (x_reg rs1 ∷ int_text v ∷ []))
  unfolding with_imm
  imm_line m v word hv (w, coded) named same =
      let (d, pd) = reg-x_reg rd hd in
      let (a, p1) = reg-x_reg rs1 h1 in
      let (b, p2) = number-int_text v hv in
      line-IsEncodable xlen mn (x_reg rd) (x_reg rs1 ∷ int_text v ∷ []) m named pd (p1, (p2, tt))
        (λ labels addr. (w, same labels addr _ ∙ rw (d, a, b, coded) refl))

  pub r_line :
      (m : RType) (rs2 : ℕ)
      → rs2 < 32
      → Named mn (Mnemonic.r m)
      → IsEncodable xlen (line mn (x_reg rd) (x_reg rs1 ∷ x_reg rs2 ∷ []))
  unfolding encode
  r_line m rs2 h2 named =
      regs_line (Mnemonic.r m) rs2 (Encode.r_type m) h2 named (λ labels addr args. refl)

  pub r_w_line :
      (m : RTypeW) (rs2 : ℕ)
      → rs2 < 32
      → Named mn (Mnemonic.r_w m)
      → IsEncodable xlen (line mn (x_reg rd) (x_reg rs1 ∷ x_reg rs2 ∷ []))
  unfolding encode
  r_w_line m rs2 h2 named =
      regs_line (Mnemonic.r_w m) rs2 (Wide.r_type_w m) h2 named (λ labels addr args. refl)

  pub i_line :
      (m : IType) (v : ℤ)
      → IsInt12 v
      → Named mn (Mnemonic.i m)
      → IsEncodable xlen (line mn (x_reg rd) (x_reg rs1 ∷ int_text v ∷ []))
  unfolding encode Encode.i_type
  i_line m v hv named =
      imm_line (Mnemonic.i m) v (Encode.i_type m) hv
        (then_some (Encode.imm_signed v 12) (low_bits 12 v) _ (imm_signed-some v hv)) named
        (λ labels addr args. refl)

  -- A shift amount of 5 digits, or 6 from XLEN 64 upwards.
  pub shift_line :
      (m : Shift) (n : ℕ)
      → n ≤ (if leb 64 xlen then 63 else 31)
      → Named mn (Mnemonic.shift m)
      → IsEncodable xlen (line mn (x_reg rd) (x_reg rs1 ∷ int_text (pos n) ∷ []))
  unfolding encode
  shift_line m n h named =
      imm_line (Mnemonic.shift m) (pos n) (Encode.i_type_shift xlen m) (ground arith)
        (shift-Encoded xlen m rd rs1 n h) named (λ labels addr args. refl)

  pub addiw_line :
      (v : ℤ)
      → IsInt12 v
      → Named mn (Mnemonic.i_w ITypeW.addiw)
      → IsEncodable xlen (line mn (x_reg rd) (x_reg rs1 ∷ int_text v ∷ []))
  unfolding encode Wide.i_type_w Wide.imm12_w
  addiw_line v hv named =
      imm_line (Mnemonic.i_w ITypeW.addiw) v (Wide.i_type_w ITypeW.addiw) hv
        (then_some (Encode.imm_signed v 12) (low_bits 12 v) _ (imm_signed-some v hv)) named
        (λ labels addr args. refl)

  pub shift_w_line :
      (m : ITypeW) (n : ℕ)
      → n ≤ 31
      → m ≢ ITypeW.addiw
      → Named mn (Mnemonic.i_w m)
      → IsEncodable xlen (line mn (x_reg rd) (x_reg rs1 ∷ int_text (pos n) ∷ []))
  unfolding encode Wide.i_type_w
  shift_w_line m n le other named =
      let (v, e) = shift_w-Encoded m n le other in
      imm_line (Mnemonic.i_w m) (pos n) (Wide.i_type_w m) (omega arith)
        (then_some (Wide.imm12_w m (pos n)) v _ e) named (λ labels addr args. refl)
