-- ===== src/RandomGen/Encodes/Memory.antt =====
-- sim/tools/random_gen.py and asm.py: loads, stores and CSR instructions.
use rv32im_5_stage_pipelined.Base.{
  ℕ, ◌%◌, ◌^◌, ◌<◌, ◌≤◌, ◌≡◌, refl, ◌∙◌, arith, Option, List, [], ◌∷◌,
}
use rv32im_5_stage_pipelined.Base.Int.{ℤ, pos}
use rv32im_5_stage_pipelined.Asm.Mnemonic.{csr_funct3, Load, Store, CsrOp}
use rv32im_5_stage_pipelined.Asm.Encode
use rv32im_5_stage_pipelined.Asm.Encode.{◌>>=◌}
use rv32im_5_stage_pipelined.Asm.Floats
use rv32im_5_stage_pipelined.Asm.Floats.{
  FpArith, FpSgnj, FpMinmax, FpCmp, Madd, fp_arith_funct5, madd_opcode,
}
use rv32im_5_stage_pipelined.Asm.Table.{Mnemonic}
use rv32im_5_stage_pipelined.Asm.Operands.{Result, ok, csr_lookup}
use rv32im_5_stage_pipelined.Asm.Statement.{
  Labels, reg_at, freg_at, with_address, encode_csr_reg, encode_csr_imm, encode_float, encode,
}
use rv32im_5_stage_pipelined.RandomGen.Lines.{x_reg, f_reg, int_text, address_text, line}
use rv32im_5_stage_pipelined.RandomGen.Texts.{IsPlain}
use rv32im_5_stage_pipelined.RandomGen.Tokens.{
  reg-x_reg, freg-f_reg, number-pos, address_text-IsAddress,
}
use rv32im_5_stage_pipelined.RandomGen.Encodes.{
  IsEncodable, Named, line-IsEncodable, imm_signed-some, imm_unsigned-some, Encoded, then_some,
}

-- A register, and an offset from x31.
address_line :
    (xlen : ℕ) (mn tok : List ℕ) (m : Mnemonic) (rd off : ℕ) (first : List (List ℕ) → Result ℕ)
    (word : ℕ → ℤ → ℕ → Option ℕ)
    → Named mn m
    → IsPlain tok
    → first (tok ∷ address_text off 31 ∷ []) ≡ ok rd
    → off < 2048
    → Encoded (word rd (pos off) 31)
    → ((labels : Labels) (addr : ℕ) (args : List (List ℕ))
        → encode xlen labels addr m args ≡ with_address args (first args) word)
    → IsEncodable xlen (line mn tok (address_text off 31 ∷ []))
unfolding with_address
address_line xlen mn tok m rd off first word named plain_tok read lt (w, coded) same =
    let ((a, e1, e2, e3), p) = address_text-IsAddress off lt in
    line-IsEncodable xlen mn tok (address_text off 31 ∷ []) m named plain_tok (p, tt)
      (λ labels addr. (w, same labels addr _ ∙ rw (read, e1, e2, e3, coded) refl))

module _ (xlen rd off : ℕ) (hd : rd < 32) (lt : off < 2048) (mn : List ℕ) where
  pub load_line :
      (m : Load)
      → Named mn (Mnemonic.load m)
      → IsEncodable xlen (line mn (x_reg rd) (address_text off 31 ∷ []))
  unfolding encode Encode.load reg_at
  load_line m named =
      let (d, pd) = reg-x_reg rd hd in
      address_line xlen mn (x_reg rd) (Mnemonic.load m) rd off (λ args. reg_at args 0)
        (Encode.load m) named pd d lt
        (then_some (Encode.imm_signed (pos off) 12) _ _ (imm_signed-some (pos off) lt))
        (λ labels addr args. refl)

  pub store_line :
      (m : Store)
      → Named mn (Mnemonic.store m)
      → IsEncodable xlen (line mn (x_reg rd) (address_text off 31 ∷ []))
  unfolding encode Encode.store reg_at
  store_line m named =
      let (d, pd) = reg-x_reg rd hd in
      address_line xlen mn (x_reg rd) (Mnemonic.store m) rd off (λ args. reg_at args 0)
        (Encode.store m) named pd d lt
        (then_some (Encode.imm_signed (pos off) 12) _ _ (imm_signed-some (pos off) lt))
        (λ labels addr args. refl)

  pub flw_line :
      Named mn Mnemonic.flw → IsEncodable xlen (line mn (f_reg rd) (address_text off 31 ∷ []))
  unfolding encode encode_float Floats.flw freg_at
  flw_line named =
      let (d, pd) = freg-f_reg rd hd in
      address_line xlen mn (f_reg rd) Mnemonic.flw rd off (λ args. freg_at args 0) Floats.flw named
        pd d lt (then_some (Encode.imm_signed (pos off) 12) _ _ (imm_signed-some (pos off) lt))
        (λ labels addr args. refl)

  pub fsw_line :
      Named mn Mnemonic.fsw → IsEncodable xlen (line mn (f_reg rd) (address_text off 31 ∷ []))
  unfolding encode encode_float Floats.fsw freg_at
  fsw_line named =
      let (d, pd) = freg-f_reg rd hd in
      address_line xlen mn (f_reg rd) Mnemonic.fsw rd off (λ args. freg_at args 0) Floats.fsw named
        pd d lt (then_some (Encode.imm_signed (pos off) 12) _ _ (imm_signed-some (pos off) lt))
        (λ labels addr args. refl)

-- The name or the address of a CSR.
abbrev pub IsCsr : List ℕ → Type 0
IsCsr t = IsPlain t × ((k : ℕ) × (csr_lookup t ≡ ok k))

module _ (xlen rd : ℕ) (hd : rd < 32) (mn csr : List ℕ) (m : CsrOp) (known : IsCsr csr) where
  pub csr_reg_line :
      (rs1 : ℕ)
      → rs1 < 32
      → Named mn (Mnemonic.csr_reg m)
      → IsEncodable xlen (line mn (x_reg rd) (csr ∷ x_reg rs1 ∷ []))
  unfolding encode encode_csr_reg
  csr_reg_line rs1 h1 named =
      let (d, pd) = reg-x_reg rd hd in
      let (a, p1) = reg-x_reg rs1 h1 in
      let (pc, (k, found)) = known in
      line-IsEncodable xlen mn (x_reg rd) (csr ∷ x_reg rs1 ∷ []) (Mnemonic.csr_reg m) named pd
        (pc, (p1, tt)) (λ labels addr. (Encode.csr_reg m rd k rs1, rw (d, a, found) refl))

  pub csr_imm_line :
      (n : ℕ)
      → n ≤ 31
      → Named mn (Mnemonic.csr_imm m)
      → IsEncodable xlen (line mn (x_reg rd) (csr ∷ int_text (pos n) ∷ []))
  unfolding encode encode_csr_imm Encode.csr_imm
  csr_imm_line n le named =
      let (d, pd) = reg-x_reg rd hd in
      let (b, p2) = number-pos n (omega arith) in
      let (pc, (k, found)) = known in
      let small = imm_unsigned-some 5 n le in
      line-IsEncodable xlen mn (x_reg rd) (csr ∷ int_text (pos n) ∷ []) (Mnemonic.csr_imm m) named
        pd (pc, (p2, tt))
        (λ labels addr. (
          Encode.word5 k (n % 2 ^ 5) (csr_funct3 m) rd Encode.op_system,
          rw (d, found, b, small) refl,
        ))
