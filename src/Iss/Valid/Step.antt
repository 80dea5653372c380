-- ===== src/Iss/Valid/Step.antt =====
-- sim/tools/iss.py, well-formedness under the integer branches of `ISS.step`.
use rv32im_5_stage_pipelined.Base.{ℕ, ◌+◌, ◌==◌, if◌then◌else◌, Bool, true, false, ◌>>>◌}
use rv32im_5_stage_pipelined.Base.Int.{ℤ, pos}
use rv32im_5_stage_pipelined.Iss.State.{Iss, Result, Error, ok, raised, ◌>>=◌, wr}
use rv32im_5_stage_pipelined.Iss.Alu.{op_r, op_32, op_imm, op_imm_32}
use rv32im_5_stage_pipelined.Iss.Fields.{rd_of, funct3_of, funct7_of, imm_i_of}
use rv32im_5_stage_pipelined.Iss.Step.{
  next_pc, reg_a, reg_b, retire, step_r, step_32, step_ctz, step_imm, step_imm_32, store_value,
  step_branch, step_jal, step_jalr, step_lui, step_auipc,
}
use rv32im_5_stage_pipelined.Iss.Valid.{
  IsValid, wr-IsValid, set_pc-IsValid, store_mem_byte-IsValid, store_loop-IsValid,
}

-- What a handler promises: a well-formed state, or an exception.
pub data Keeps : Result Iss → Type 0 where
  kept : {s : Iss} → IsValid s → Keeps (ok s)
  crashed : {e : Error} → Keeps (raised e)

pub retire-IsValid : (word : ℕ) (res : ℤ) (s : Iss) → IsValid s → IsValid (retire word res s)
unfolding retire
retire-IsValid word res s h =
    set_pc-IsValid (next_pc s) (wr (rd_of word) res s) (wr-IsValid (rd_of word) res s h)

pub bind-Keeps {ℓ} :
    {A : Type ℓ} (r : Result A) (f : A → Result Iss) → ((a : A) → Keeps (f a)) → Keeps (r >>= f)
bind-Keeps (ok a) f h = h a
bind-Keeps (raised e) f h = crashed

retired : (word : ℕ) (s : Iss) (res : ℤ) → IsValid s → Keeps (ok (retire word res s))
retired word s res h = kept (retire-IsValid word res s h)

pub step_r-Keeps : (word : ℕ) (s : Iss) → IsValid s → Keeps (step_r word s)
unfolding step_r
step_r-Keeps word s h =
    bind-Keeps (op_r s.xlen (funct3_of word) (funct7_of word) (reg_a word s) (reg_b word s)) _
      (λ res. retired word s (pos res) h)

pub step_32-Keeps : (word : ℕ) (s : Iss) → IsValid s → Keeps (step_32 word s)
unfolding step_32
step_32-Keeps word s h =
    bind-Keeps (op_32 (funct3_of word) (funct7_of word) (reg_a word s) (reg_b word s)) _
      (λ res. retired word s _ h)

pub step_ctz-Keeps : (word : ℕ) (s : Iss) → IsValid s → Keeps (step_ctz word s)
unfolding step_ctz
step_ctz-Keeps word s h = retired word s _ h

pub step_imm-Keeps : (word : ℕ) (s : Iss) → IsValid s → Keeps (step_imm word s)
unfolding step_imm
step_imm-Keeps word s h =
    bind-Keeps (op_imm s.xlen (funct3_of word) word (reg_a word s) (imm_i_of word)) _
      (λ res. retired word s _ h)

pub step_imm_32-Keeps : (word : ℕ) (s : Iss) → IsValid s → Keeps (step_imm_32 word s)
unfolding step_imm_32
step_imm_32-Keeps word s h =
    bind-Keeps (op_imm_32 (funct3_of word) (funct7_of word) word (reg_a word s) (imm_i_of word)) _
      (λ res. retired word s _ h)

pub step_branch-Keeps : (word : ℕ) (s : Iss) → IsValid s → Keeps (step_branch word s)
unfolding step_branch
step_branch-Keeps word s h = kept (set_pc-IsValid _ s h)

pub step_jal-Keeps : (word : ℕ) (s : Iss) → IsValid s → Keeps (step_jal word s)
unfolding step_jal
step_jal-Keeps word s h = kept (set_pc-IsValid _ _ (wr-IsValid (rd_of word) _ s h))

pub step_jalr-Keeps : (word : ℕ) (s : Iss) → IsValid s → Keeps (step_jalr word s)
unfolding step_jalr
step_jalr-Keeps word s h = kept (set_pc-IsValid _ _ (wr-IsValid (rd_of word) _ s h))

pub step_lui-Keeps : (word : ℕ) (s : Iss) → IsValid s → Keeps (step_lui word s)
unfolding step_lui
step_lui-Keeps word s h = retired word s _ h

pub step_auipc-Keeps : (word : ℕ) (s : Iss) → IsValid s → Keeps (step_auipc word s)
unfolding step_auipc
step_auipc-Keeps word s h = retired word s _ h

pub either : (b : Bool) {x y : Result Iss} → Keeps x → Keeps y → Keeps (if b then x else y)
either true hx hy = hx
either false hx hy = hy

pub store_value-Keeps : (f3 addr b : ℕ) (s : Iss) → IsValid s → Keeps (store_value f3 addr b s)
unfolding store_value
store_value-Keeps f3 addr b s h = either (f3 == 0) (kept (store_mem_byte-IsValid addr b s h)) (
    either (f3 == 1)
      (kept (store_mem_byte-IsValid (addr + 1) (b >>> 8) _ (store_mem_byte-IsValid addr b s h)))
      (either (f3 == 2) (kept (store_loop-IsValid 4 0 addr b s h))
        (either (f3 == 3) (kept (store_loop-IsValid 8 0 addr b s h)) crashed)))
