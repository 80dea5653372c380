-- ===== src/Disasm/Floats.antt =====
-- sim/tools/disasm.py, `disasm`: the lines of OP-FP.
use Prim.Native.String.{String}
use rv32im_5_stage_pipelined.Base.{ℕ, [], ◌∷◌, Option, none, some, ◌==◌, if◌then◌else◌}
use rv32im_5_stage_pipelined.Base.Show.{◌<>◌, in_base, padded}
use rv32im_5_stage_pipelined.Disasm.Names.{get, get?, rm_name, xreg, freg, line3, line2}

-- `{mn} f{rd},f{rs1},f{rs2},{rm}`
abbrev arith_line : String → ℕ → ℕ → ℕ → ℕ → String
arith_line mn rd rs1 rs2 f3 =
    mn <> " " <> freg rd <> "," <> freg rs1 <> "," <> freg rs2 <> "," <> rm_name f3

-- `{mn} f{rd},f{rs1},f{rs2},f{rs3},{rm}`
abbrev pub madd_line : String → ℕ → ℕ → ℕ → ℕ → ℕ → String
madd_line mn rd rs1 rs2 rs3 f3 =
    mn
    <> " "
    <> freg rd
    <> ","
    <> freg rs1
    <> ","
    <> freg rs2
    <> ","
    <> freg rs3
    <> ","
    <> rm_name f3

unfoldable pub fp_line : ℕ → ℕ → ℕ → ℕ → ℕ → String
fp_line funct5 f3 rd rs1 rs2 = elim arith_name [
  | some mn ↦ arith_line mn rd rs1 rs2 f3
  | none ↦
      if funct5 == 0b01011
      then line3 "fsqrt.s" (freg rd) (freg rs1) (rm_name f3)
      else if funct5 == 0b00100
      then line3
          (get ((0b000, "fsgnj.s") ∷ (0b001, "fsgnjn.s") ∷ (0b010, "fsgnjx.s") ∷ []) f3 "fsgnj?")
          (freg rd) (freg rs1) (freg rs2)
      else if funct5 == 0b00101
      then line3 (get ((0b000, "fmin.s") ∷ (0b001, "fmax.s") ∷ []) f3 "fminmax?") (freg rd)
          (freg rs1) (freg rs2)
      else if funct5 == 0b10100
      then line3 (get ((0b000, "fle.s") ∷ (0b001, "flt.s") ∷ (0b010, "feq.s") ∷ []) f3 "fcmp?")
          (xreg rd) (freg rs1) (freg rs2)
      else if funct5 == 0b11000
      then line3 (if rs2 == 0b00001 then "fcvt.wu.s" else "fcvt.w.s") (xreg rd) (freg rs1)
          (rm_name f3)
      else if funct5 == 0b11010
      then line3 (if rs2 == 0b00001 then "fcvt.s.wu" else "fcvt.s.w") (freg rd) (xreg rs1)
          (rm_name f3)
      else if funct5 == 0b11100
      then (if f3 == 0b001
          then line2 "fclass.s" (xreg rd) (freg rs1)
          else line2 "fmv.x.w" (xreg rd) (freg rs1))
      else if funct5 == 0b11110
      then line2 "fmv.w.x" (freg rd) (xreg rs1)
      else "op-fp?(funct5=0b" <> padded 5 (in_base 2 funct5) <> ")"
]
  where
    arith_name : Option String
    arith_name =
        get?
          ((0b00000, "fadd.s")
            ∷ (0b00001, "fsub.s")
            ∷ (0b00010, "fmul.s")
            ∷ (0b00011, "fdiv.s")
            ∷ [])
          funct5
