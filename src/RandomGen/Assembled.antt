-- ===== src/RandomGen/Assembled.antt =====
-- sim/tools/random_gen.py and asm.py: the generated programs are assembled.
pub mod Generated
pub mod Unfit
use Prim.Native.String
use rv32im_5_stage_pipelined.Base.{
  ℕ, zero, suc, ◌+◌, ◌-◌, ◌*◌, ◌/◌, ◌%◌, ◌^◌, ◌<◌, ◌≤◌, ◌≡◌, refl, sym, ap, ◌∙◌, arith, Bool, true,
  false, Option, none, some, List, [], ◌∷◌, ◌++◌, ◌>>>◌, ◌⊎◌, inl, inr, ◌==◌, leb, ltb, bit_or,
  ◌<<<◌, if◌then◌else◌,
}
use rv32im_5_stage_pipelined.Base.Lists.{length, length-append}
use rv32im_5_stage_pipelined.Base.Int.{ℤ, pos, negsuc, ◌-ℤ◌}
use rv32im_5_stage_pipelined.Asm.Mnemonic.{IType, Shift, RType}
use rv32im_5_stage_pipelined.Asm.Encode
use rv32im_5_stage_pipelined.Asm.Wide
use rv32im_5_stage_pipelined.Asm.Text.{codes, lower, strip, without_last}
use rv32im_5_stage_pipelined.Asm.Table.{Mnemonic, mnemonic_of}
use rv32im_5_stage_pipelined.Asm.Operands.{Result, ok, number}
use rv32im_5_stage_pipelined.Asm.Statement.{Labels, with_upper, encode, encode_line}
use rv32im_5_stage_pipelined.Asm.Assemble.{Pass, clean, first_pass, assemble}
use rv32im_5_stage_pipelined.RandomGen.Source.{
  Random, IsRandom, Draw, ◌>>=◌, drawn, Gives, Gives-bind, Gives-drawn, All,
}
use rv32im_5_stage_pipelined.RandomGen.Lines.{x_reg, f_reg, int_text, hex_text, label_line, line}
use rv32im_5_stage_pipelined.RandomGen.Constants.{
  low_part, high_part, low_signed, const_to_reg_instrs, const64_to_reg_instrs,
}
use rv32im_5_stage_pipelined.RandomGen.Items.{Item, Config, gen_items}
use rv32im_5_stage_pipelined.RandomGen.Resolve.{Resolved, resolve_items, label_if}
use rv32im_5_stage_pipelined.RandomGen.Program.{
  Outcome, returned, raised, Info, budget, float_seed_bits, float_seeds, seed_lines, end_lines,
  out_of, random_part, config_of, plain_program, gen_program,
}
use rv32im_5_stage_pipelined.RandomGen.Texts.{plain, IsPlain}
use rv32im_5_stage_pipelined.RandomGen.Tokens.{reg-x_reg}
use rv32im_5_stage_pipelined.RandomGen.Encodes.{
  IsEncodable, Named, line-IsEncodable, IsInt12, i_line, r_line, shift_line, imm_unsigned-some,
  then_some,
}
use rv32im_5_stage_pipelined.RandomGen.Encodes.FloatLines.{fmv_w_x_line}
use rv32im_5_stage_pipelined.RandomGen.Drawn.{IsGood}
use rv32im_5_stage_pipelined.RandomGen.Drawn.Loop.{gen_items-IsGood}
use rv32im_5_stage_pipelined.RandomGen.Drawn.Names.{csr_names-IsCsr}
use rv32im_5_stage_pipelined.RandomGen.Fine.{
  In, IsName, Stmt, Fine, first_pass-stmt, first_pass-label, Stmt-IsStmt,
}
use rv32im_5_stage_pipelined.RandomGen.Fine.Assembles.{assemble-Fine}
use rv32im_5_stage_pipelined.RandomGen.Targets.{Done, resolve_items-Done}
use rv32im_5_stage_pipelined.RandomGen.Fine.Lines.{
  weights, FineLines, FineLines-append, FineLines-Stmt, label_if-FineLines, label_if-In,
  In-append_right, In-append_left,
}

first_pass-nil : (addr : ℕ) (labels : Labels) → length (first_pass [] addr labels).stmts ≡ 0
unfolding first_pass
first_pass-nil addr labels = refl

-- The first pass makes a statement of each line that is one.
pub length-first_pass :
    (xlen : ℕ) (ls out : List (List ℕ)) (addr : ℕ) (labels : Labels) (h : All (Fine xlen ls) out)
    → length (first_pass out addr labels).stmts ≡ weights xlen ls out h
length-first_pass xlen ls [] addr labels h = first_pass-nil addr labels
length-first_pass xlen ls (t ∷ out) addr labels (Fine.stmt _ s, h) =
    ap (λ (p : Pass). length p.stmts) (first_pass-stmt t out addr labels (Stmt-IsStmt xlen ls s))
    ∙ omega (arith, length-first_pass xlen ls out (addr + 4) labels h)
length-first_pass xlen ls (t ∷ out) addr labels (Fine.label _ name n, h) =
    ap (λ (p : Pass). length p.stmts) (first_pass-label t name out addr labels n)
    ∙ omega (arith, length-first_pass xlen ls out addr ((strip name, addr) ∷ labels) h)

-- The lines are statements, all of them.
abbrev pub AllStmts : ℕ → List (List ℕ) → List (List ℕ) → Type 0
AllStmts xlen ls out = FineLines xlen ls out (length out)

module _ (xlen : ℕ) (ls : List (List ℕ)) where
  AllStmts-append :
      (xs ys : List (List ℕ))
      → AllStmts xlen ls xs
      → AllStmts xlen ls ys
      → AllStmts xlen ls (xs ++ ys)
  AllStmts-append xs ys h k =
      let (a, e) = FineLines-append xlen ls xs ys (length xs) (length ys) h k in
      (a, e ∙ sym (length-append xs ys))

  AllStmts-cons :
      (t : List ℕ) (xs : List (List ℕ))
      → IsEncodable xlen t
      → AllStmts xlen ls xs
      → AllStmts xlen ls (t ∷ xs)
  AllStmts-cons t xs e h = FineLines-Stmt xlen ls xs t (length xs) (Stmt.as_it_stands t e) h

  -- A constant whose upper part is read back.
  abbrev IsRead : ℕ → Type 0
  IsRead bits =
      (number (hex_text (high_part bits)) ≡ ok (pos (high_part bits)))
      × IsPlain (hex_text (high_part bits))

  lui_line :
      (rd bits : ℕ)
      → rd < 32
      → IsRead bits
      → IsEncodable xlen (line (codes "lui") (x_reg rd) (hex_text (high_part bits) ∷ []))
  unfolding encode with_upper Encode.u_type high_part plain mnemonic_of lower
  lui_line rd bits hd (read, p) =
      let (d, pd) = reg-x_reg rd hd in
      let small : high_part bits ≤ 2 ^ 20 - 1 = ground arith in
      let coded = imm_unsigned-some 20 (high_part bits) small in
      line-IsEncodable xlen (codes "lui") (x_reg rd) (hex_text (high_part bits) ∷ []) Mnemonic.lui
        (refl, refl) pd (p, tt)
        (λ labels addr. (
          bit_or (bit_or ((high_part bits % 2 ^ 20) <<< 12) (rd <<< 7)) Encode.op_lui,
          rw (d, read, coded) refl,
        ))

  low_signed-IsInt12 : (bits : ℕ) → IsInt12 (low_signed bits)
  unfolding low_signed low_part ◌-ℤ◌
  low_signed-IsInt12 bits = ground arith

  const_to_reg-AllStmts :
      (rd bits : ℕ) → rd < 32 → IsRead bits → AllStmts xlen ls (const_to_reg_instrs rd bits)
  unfolding const_to_reg_instrs plain mnemonic_of lower
  const_to_reg-AllStmts rd bits hd read =
      AllStmts-cons (line (codes "lui") (x_reg rd) (hex_text (high_part bits) ∷ [])) _
        (lui_line rd bits hd read) (by_low (low_part bits == 0))
    where
      by_low :
          (b : Bool)
          → AllStmts xlen ls (
              if b
              then []
              else line (codes "addi") (x_reg rd) (x_reg rd ∷ int_text (low_signed bits) ∷ []) ∷ [])
      by_low true = (tt, refl)
      by_low false =
          AllStmts-cons
            (line (codes "addi") (x_reg rd) (x_reg rd ∷ int_text (low_signed bits) ∷ [])) []
            (i_line xlen rd rd hd hd (codes "addi") IType.addi (low_signed bits)
              (low_signed-IsInt12 bits) (refl, refl))
            (tt, refl)

  -- The float registers from `fr` on, seeded by constants that are read back.
  float_seeds-AllStmts :
      (fr : ℕ) (seeds : List ℕ)
      → fr + length seeds ≤ 32
      → All IsRead seeds
      → AllStmts xlen ls (float_seeds fr seeds)
  unfolding float_seeds plain mnemonic_of lower
  float_seeds-AllStmts fr [] le h = (tt, refl)
  float_seeds-AllStmts fr (bits ∷ seeds) le (read, h) =
      AllStmts-append (const_to_reg_instrs 30 bits) _
        (const_to_reg-AllStmts 30 bits (omega arith) read)
        (AllStmts-cons (line (codes "fmv.w.x") (f_reg fr) (x_reg 30 ∷ []))
          (float_seeds (fr + 1) seeds)
          (fmv_w_x_line xlen fr 30 (omega arith) (omega arith) (codes "fmv.w.x") (refl, refl))
          (float_seeds-AllStmts (fr + 1) seeds (omega arith) h))

  shift32_line :
      (mn : List ℕ) (m : Shift) (rd : ℕ)
      → leb 64 xlen ≡ true
      → rd < 32
      → Named mn (Mnemonic.shift m)
      → IsEncodable xlen (line mn (x_reg rd) (x_reg rd ∷ codes "32" ∷ []))
  unfolding int_text
  shift32_line mn m rd e hd named =
      let le : 32 ≤ (if leb 64 xlen then 63 else 31) = rw e (omega arith) in
      shift_line xlen rd rd hd hd mn m 32 le named

  -- The rest of `const64_to_reg_instrs` behind the upper half, and behind the lower one.
  abbrev shift32 : List ℕ → ℕ → List ℕ
  shift32 mn rd = line mn (x_reg rd) (x_reg rd ∷ codes "32" ∷ [])

  abbrev joined : ℕ → ℕ → List (List ℕ)
  joined rd scratch = line (codes "or") (x_reg rd) (x_reg rd ∷ x_reg scratch ∷ []) ∷ []

  abbrev cleared : ℕ → ℕ → List (List ℕ)
  cleared rd scratch =
      shift32 (codes "slli") scratch ∷ shift32 (codes "srli") scratch ∷ joined rd scratch

  const64_to_reg-AllStmts :
      (rd scratch bits : ℕ)
      → leb 64 xlen ≡ true
      → rd < 32
      → scratch < 32
      → IsRead ((bits >>> 32) % 2 ^ 32)
      → IsRead (bits % 2 ^ 32)
      → AllStmts xlen ls (const64_to_reg_instrs rd scratch bits)
  unfolding const64_to_reg_instrs plain mnemonic_of lower
  const64_to_reg-AllStmts rd scratch bits e hd hs high low =
      let low_lines : List (List ℕ) = const_to_reg_instrs scratch (bits % 2 ^ 32) in
      AllStmts-append (const_to_reg_instrs rd ((bits >>> 32) % 2 ^ 32))
        (shift32 (codes "slli") rd ∷ (low_lines ++ cleared rd scratch))
        (const_to_reg-AllStmts rd ((bits >>> 32) % 2 ^ 32) hd high)
        (AllStmts-cons (shift32 (codes "slli") rd) (low_lines ++ cleared rd scratch)
          (shift32_line (codes "slli") Shift.slli rd e hd (refl, refl))
          (AllStmts-append low_lines (cleared rd scratch)
            (const_to_reg-AllStmts scratch (bits % 2 ^ 32) hs low)
            (AllStmts-cons (shift32 (codes "slli") scratch)
              (shift32 (codes "srli") scratch ∷ joined rd scratch)
              (shift32_line (codes "slli") Shift.slli scratch e hs (refl, refl))
              (AllStmts-cons (shift32 (codes "srli") scratch) (joined rd scratch)
                (shift32_line (codes "srli") Shift.srli scratch e hs (refl, refl))
                (AllStmts-cons (line (codes "or") (x_reg rd) (x_reg rd ∷ x_reg scratch ∷ [])) []
                  (r_line xlen rd rd hd hd (codes "or") RType.or scratch hs (refl, refl))
                  (tt, refl))))))

  float_seed_bits-IsRead : All IsRead float_seed_bits
  unfolding number hex_text high_part plain
  float_seed_bits-IsRead = (
    (refl, refl),
    ((refl, refl), ((refl, refl), ((refl, refl), ((refl, refl), ((refl, refl), tt))))),
  )

  wide-IsRead : IsRead ((0xDEADBEEF12345678 >>> 32) % 2 ^ 32) × IsRead (0xDEADBEEF12345678 % 2 ^ 32)
  unfolding number hex_text high_part plain
  wide-IsRead = ((refl, refl), (refl, refl))

  pub seed_lines-AllStmts : AllStmts xlen ls (seed_lines (leb 64 xlen))
  unfolding seed_lines
  seed_lines-AllStmts =
      AllStmts-append (float_seeds 1 float_seed_bits) _
        (float_seeds-AllStmts 1 float_seed_bits (omega arith) float_seed_bits-IsRead)
        (by_width (leb 64 xlen) refl)
    where
      by_width :
          (b : Bool)
          → leb 64 xlen ≡ b
          → AllStmts xlen ls (if b then const64_to_reg_instrs 29 30 0xDEADBEEF12345678 else [])
      by_width false e = (tt, refl)
      by_width true e =
          const64_to_reg-AllStmts 29 30 0xDEADBEEF12345678 e (omega arith) (omega arith)
            wide-IsRead.0 wide-IsRead.1

pub length-seed_lines : (wide : Bool) → length (seed_lines wide) ≡ (if wide then 20 else 12)
unfolding seed_lines
length-seed_lines true = refl
length-seed_lines false = refl
