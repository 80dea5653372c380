-- ===== src/RandomGen/Encodes/FloatLines.antt =====
-- sim/tools/random_gen.py and asm.py: the float instructions.
use rv32im_5_stage_pipelined.Base.{ℕ, ◌<◌, ◌≡◌, refl, ap, ◌∙◌, Bool, List, [], ◌∷◌}
use rv32im_5_stage_pipelined.Asm.Floats
use rv32im_5_stage_pipelined.Asm.Floats.{
  FpArith, FpSgnj, FpMinmax, FpCmp, Madd, fp_arith_funct5, madd_opcode,
}
use rv32im_5_stage_pipelined.Asm.Table.{Mnemonic}
use rv32im_5_stage_pipelined.Asm.Operands.{Result, ok, ◌>>=◌, parse_rm}
use rv32im_5_stage_pipelined.Asm.Statement.{
  Labels, reg_at, freg_at, with_fregs, encode_float, encode,
}
use rv32im_5_stage_pipelined.RandomGen.Source.{All}
use rv32im_5_stage_pipelined.RandomGen.Lines.{x_reg, f_reg, line}
use rv32im_5_stage_pipelined.RandomGen.Texts.{IsPlain}
use rv32im_5_stage_pipelined.RandomGen.Tokens.{reg-x_reg, freg-f_reg}
use rv32im_5_stage_pipelined.RandomGen.Encodes.{IsEncodable, Named, line-IsEncodable}

-- A rounding mode, and the operand at which it stands.
abbrev pub IsRm : List ℕ → Type 0
IsRm t = IsPlain t × ((k : ℕ) × (parse_rm (t ∷ []) 0 ≡ ok k))

module _ (xlen rd rs1 : ℕ) (hd : rd < 32) (h1 : rs1 < 32) (mn : List ℕ) where
  -- Two sources from the float registers, and a destination in the one or the other file.
  pair_line :
      (m : Mnemonic) (tok : List ℕ) (rs2 w : ℕ) (dest : List (List ℕ) → Result ℕ)
      (word : List (List ℕ) → ℕ → ℕ → ℕ → Result ℕ) (more : List (List ℕ))
      → rs2 < 32
      → Named mn m
      → IsPlain tok
      → All IsPlain more
      → dest (tok ∷ f_reg rs1 ∷ f_reg rs2 ∷ more) ≡ ok rd
      → word (tok ∷ f_reg rs1 ∷ f_reg rs2 ∷ more) rd rs1 rs2 ≡ ok w
      → ((labels : Labels) (addr : ℕ) (args : List (List ℕ))
          → encode xlen labels addr m args ≡ with_fregs args (dest args) (word args))
      → IsEncodable xlen (line mn tok (f_reg rs1 ∷ f_reg rs2 ∷ more))
  unfolding with_fregs freg_at
  pair_line m tok rs2 w dest word more h2 named pd k read coded same =
      let (a, p1) = freg-f_reg rs1 h1 in
      let (b, p2) = freg-f_reg rs2 h2 in
      line-IsEncodable xlen mn tok (f_reg rs1 ∷ f_reg rs2 ∷ more) m named pd (p1, (p2, k))
        (λ labels addr. (w, same labels addr _ ∙ rw (read, a, b, coded) refl))

  pub fp_arith_line :
      (m : FpArith) (rs2 : ℕ) (rm : List ℕ)
      → rs2 < 32
      → IsRm rm
      → Named mn (Mnemonic.fp_arith m)
      → IsEncodable xlen (line mn (f_reg rd) (f_reg rs1 ∷ f_reg rs2 ∷ rm ∷ []))
  unfolding encode encode_float freg_at parse_rm
  fp_arith_line m rs2 rm h2 (pr, (k, mode)) named =
      let (d, pd) = freg-f_reg rd hd in
      pair_line (Mnemonic.fp_arith m) (f_reg rd) rs2 _ (λ args. freg_at args 0)
        (λ args a b c. parse_rm args 3 >>= λ r. ok (Floats.fp_r_type (fp_arith_funct5 m) a b c r))
        (rm ∷ []) h2 named pd (pr, tt) d
        (ap (λ (o : Result ℕ). o >>= λ r. ok (Floats.fp_r_type (fp_arith_funct5 m) rd rs1 rs2 r))
          mode)
        (λ labels addr args. refl)

  pub fp_sgnj_line :
      (m : FpSgnj) (rs2 : ℕ)
      → rs2 < 32
      → Named mn (Mnemonic.fp_sgnj m)
      → IsEncodable xlen (line mn (f_reg rd) (f_reg rs1 ∷ f_reg rs2 ∷ []))
  unfolding encode encode_float freg_at
  fp_sgnj_line m rs2 h2 named =
      let (d, pd) = freg-f_reg rd hd in
      pair_line (Mnemonic.fp_sgnj m) (f_reg rd) rs2 _ (λ args. freg_at args 0)
        (λ args a b c. ok (Floats.fp_sgnj m a b c)) [] h2 named pd tt d refl
        (λ labels addr args. refl)

  pub fp_minmax_line :
      (m : FpMinmax) (rs2 : ℕ)
      → rs2 < 32
      → Named mn (Mnemonic.fp_minmax m)
      → IsEncodable xlen (line mn (f_reg rd) (f_reg rs1 ∷ f_reg rs2 ∷ []))
  unfolding encode encode_float freg_at
  fp_minmax_line m rs2 h2 named =
      let (d, pd) = freg-f_reg rd hd in
      pair_line (Mnemonic.fp_minmax m) (f_reg rd) rs2 _ (λ args. freg_at args 0)
        (λ args a b c. ok (Floats.fp_minmax m a b c)) [] h2 named pd tt d refl
        (λ labels addr args. refl)

  pub fp_cmp_line :
      (m : FpCmp) (rs2 : ℕ)
      → rs2 < 32
      → Named mn (Mnemonic.fp_cmp m)
      → IsEncodable xlen (line mn (x_reg rd) (f_reg rs1 ∷ f_reg rs2 ∷ []))
  unfolding encode encode_float reg_at
  fp_cmp_line m rs2 h2 named =
      let (d, pd) = reg-x_reg rd hd in
      pair_line (Mnemonic.fp_cmp m) (x_reg rd) rs2 _ (λ args. reg_at args 0)
        (λ args a b c. ok (Floats.fp_cmp m a b c)) [] h2 named pd tt d refl
        (λ labels addr args. refl)

  pub fp_madd_line :
      (m : Madd) (rs2 rs3 : ℕ) (rm : List ℕ)
      → rs2 < 32
      → rs3 < 32
      → IsRm rm
      → Named mn (Mnemonic.madd m)
      → IsEncodable xlen (line mn (f_reg rd) (f_reg rs1 ∷ f_reg rs2 ∷ f_reg rs3 ∷ rm ∷ []))
  unfolding encode encode_float freg_at parse_rm
  fp_madd_line m rs2 rs3 rm h2 h3 (pr, (k, mode)) named =
      let (d, pd) = freg-f_reg rd hd in
      let (c3, p3) = freg-f_reg rs3 h3 in
      pair_line (Mnemonic.madd m) (f_reg rd) rs2
        (Floats.fp_r4_type (madd_opcode m) rd rs1 rs2 rs3 k) (λ args. freg_at args 0)
        (λ args a b c. freg_at args 3 >>= λ r3.
          parse_rm args 4 >>= λ r. ok (Floats.fp_r4_type (madd_opcode m) a b c r3 r))
        (f_reg rs3 ∷ rm ∷ []) h2 named pd (p3, (pr, tt)) d
        (rw c3 (
          ap (λ (o : Result ℕ). o >>= λ r. ok (Floats.fp_r4_type (madd_opcode m) rd rs1 rs2 rs3 r))
            mode))
        (λ labels addr args. refl)

  pub fp_sqrt_line :
      (rm : List ℕ)
      → IsRm rm
      → Named mn Mnemonic.fsqrt
      → IsEncodable xlen (line mn (f_reg rd) (f_reg rs1 ∷ rm ∷ []))
  unfolding encode encode_float freg_at parse_rm
  fp_sqrt_line rm (pr, (k, mode)) named =
      let (d, pd) = freg-f_reg rd hd in
      let (a, p1) = freg-f_reg rs1 h1 in
      line-IsEncodable xlen mn (f_reg rd) (f_reg rs1 ∷ rm ∷ []) Mnemonic.fsqrt named pd
        (p1, (pr, tt))
        (λ labels addr. (
          Floats.fp_sqrt rd rs1 k,
          rw (d, a) (ap (λ (o : Result ℕ). o >>= λ r. ok (Floats.fp_sqrt rd rs1 r)) mode),
        ))

  pub fcvt_w_s_line :
      (unsigned : Bool) (rm : List ℕ)
      → IsRm rm
      → Named mn (Mnemonic.fcvt_w_s unsigned)
      → IsEncodable xlen (line mn (x_reg rd) (f_reg rs1 ∷ rm ∷ []))
  unfolding encode encode_float freg_at reg_at parse_rm
  fcvt_w_s_line unsigned rm (pr, (k, mode)) named =
      let (d, pd) = reg-x_reg rd hd in
      let (a, p1) = freg-f_reg rs1 h1 in
      line-IsEncodable xlen mn (x_reg rd) (f_reg rs1 ∷ rm ∷ []) (Mnemonic.fcvt_w_s unsigned) named
        pd (p1, (pr, tt))
        (λ labels addr. (
          Floats.fp_cvt_w_s unsigned rd rs1 k,
          rw (d, a)
              (ap (λ (o : Result ℕ). o >>= λ r. ok (Floats.fp_cvt_w_s unsigned rd rs1 r)) mode),
        ))

  pub fcvt_s_w_line :
      (unsigned : Bool) (rm : List ℕ)
      → IsRm rm
      → Named mn (Mnemonic.fcvt_s_w unsigned)
      → IsEncodable xlen (line mn (f_reg rd) (x_reg rs1 ∷ rm ∷ []))
  unfolding encode encode_float freg_at reg_at parse_rm
  fcvt_s_w_line unsigned rm (pr, (k, mode)) named =
      let (d, pd) = freg-f_reg rd hd in
      let (a, p1) = reg-x_reg rs1 h1 in
      line-IsEncodable xlen mn (f_reg rd) (x_reg rs1 ∷ rm ∷ []) (Mnemonic.fcvt_s_w unsigned) named
        pd (p1, (pr, tt))
        (λ labels addr. (
          Floats.fp_cvt_s_w unsigned rd rs1 k,
          rw (d, a)
              (ap (λ (o : Result ℕ). o >>= λ r. ok (Floats.fp_cvt_s_w unsigned rd rs1 r)) mode),
        ))

  pub fmv_w_x_line :
      Named mn Mnemonic.fmv_w_x → IsEncodable xlen (line mn (f_reg rd) (x_reg rs1 ∷ []))
  unfolding encode encode_float freg_at reg_at
  fmv_w_x_line named =
      let (d, pd) = freg-f_reg rd hd in
      let (a, p1) = reg-x_reg rs1 h1 in
      line-IsEncodable xlen mn (f_reg rd) (x_reg rs1 ∷ []) Mnemonic.fmv_w_x named pd (p1, tt)
        (λ labels addr. (Floats.fp_mv_w_x rd rs1, rw (d, a) refl))
