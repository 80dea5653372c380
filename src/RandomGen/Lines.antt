-- ===== src/RandomGen/Lines.antt =====
-- sim/tools/random_gen.py: the lines that its format strings build, as codes.
use rv32im_5_stage_pipelined.Base.{ℕ, List, [], ◌∷◌, ◌++◌}
use rv32im_5_stage_pipelined.Base.Int.{ℤ}
use rv32im_5_stage_pipelined.Base.Show.{decimal, hex, signed_decimal, ◌<>◌}
use rv32im_5_stage_pipelined.Asm.Text.{codes}

-- `x{n}` and `f{n}`
unfoldable pub x_reg : ℕ → List ℕ
unfolding decimal
x_reg n = codes ("x" <> decimal n)

unfoldable pub f_reg : ℕ → List ℕ
unfolding decimal
f_reg n = codes ("f" <> decimal n)

-- `{v}`
unfoldable pub int_text : ℤ → List ℕ
unfolding signed_decimal
int_text v = codes (signed_decimal v)

-- `{v:#x}`
unfoldable pub hex_text : ℕ → List ℕ
unfolding hex
hex_text v = codes ("0x" <> hex v)

-- `{off}(x{base})`
unfoldable pub address_text : ℕ → ℕ → List ℕ
unfolding decimal
address_text off base = codes (decimal off <> "(x" <> decimal base <> ")")

-- `__L{n}`, and the line that sets it.
unfoldable pub label_text : ℕ → List ℕ
unfolding decimal
label_text n = codes ("__L" <> decimal n)

unfoldable pub label_line : ℕ → List ℕ
unfolding label_text
label_line n = label_text n ++ (b':' ∷ [])

unfoldable pub join_from : List ℕ → List (List ℕ) → List ℕ
join_from tok [] = tok
join_from tok (next ∷ toks) = tok ++ (b',' ∷ b' ' ∷ join_from next toks)

-- A mnemonic and its operands.
unfoldable pub line : List ℕ → List ℕ → List (List ℕ) → List ℕ
unfolding join_from
line mn tok toks = mn ++ (b' ' ∷ join_from tok toks)
