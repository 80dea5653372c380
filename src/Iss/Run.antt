-- ===== src/Iss/Run.antt =====
-- sim/tools/iss.py, `ISS.run`. Its `while` loop takes fuel, since a fetch that faults does not count
-- as a step.
pub mod Hazards
use rv32im_5_stage_pipelined.Base.{
  ℕ, zero, suc, ◌+◌, ◌*◌, ◌/◌, Bool, true, false, Option, none, some, List, ◌==◌, ◌&&◌, leb, ltb,
  test_bit, if◌then◌else◌,
}
use rv32im_5_stage_pipelined.Base.Int.{pos, eqb_ℤ}
use rv32im_5_stage_pipelined.Base.Lists.{length, get_elem?}
use rv32im_5_stage_pipelined.Iss.State.{Iss, Error, Result, ok, raised}
use rv32im_5_stage_pipelined.Iss.Csr.{csr_mstatus}
use rv32im_5_stage_pipelined.Iss.Trap.{trap}
use rv32im_5_stage_pipelined.Iss.Mmu.{Access, translate}
use rv32im_5_stage_pipelined.Iss.Fields.{opcode_of, imm_j_of}
use rv32im_5_stage_pipelined.Iss.Step.{step}

-- How a run ends: with its count of steps, by the `RuntimeError` of the step budget, by what `step`
-- raises, or not at all within the fuel.
pub data Outcome : Type 0 where
  halted : ℕ → Iss → Outcome
  exceeded : ℕ → Iss → Outcome
  failed : Error → Outcome
  out_of_fuel : Iss → Outcome

-- One round of the loop.
pub data Round : Type 0 where
  -- `break`
  stop : Round
  -- `continue`, with the interrupt or the page fault taken
  redirect : Iss → Round
  -- the end of the body, after `steps += 1`
  stepped : Iss → Round
  crash : Error → Round

-- The interrupt that fires now: it is scheduled, due, and mstatus.MIE is set.
unfoldable pub due : ℕ → Iss → Option ℕ
due steps s = elim s.pending_interrupt [
  | none ↦ none
  | some p ↦ if leb p.after steps && test_bit (s.csr csr_mstatus) 3 then some p.cause else none
]

abbrev pub cleared : Iss → Iss
cleared s = record s { pending_interrupt = none }

abbrev pub is_self_loop : ℕ → Bool
is_self_loop word = opcode_of word == 0b1101111 && eqb_ℤ (imm_j_of word) (pos 0)

abbrev pub of_step : Result Iss → Round
of_step (ok s) = stepped s
of_step (raised e) = crash e

-- `words[fetch_addr // 4]` behind the test on the program's length, so that `none` is not reached.
unfoldable pub fetched : List ℕ → ℕ → Iss → Round
fetched words fetch_addr s =
    if leb (length words * 4) fetch_addr then stop else elim (get_elem? words (fetch_addr / 4)) [
      | none ↦ stop
      | some word ↦ if is_self_loop word then stop else of_step (step word s)
    ]

unfoldable pub fetch : List ℕ → Iss → Round
unfolding fetched
fetch words s =
    let (pa, s') = translate s.pc Access.fetch s in
    elim pa [ none ↦ redirect s' | some fetch_addr ↦ fetched words fetch_addr s' ]

unfoldable pub round : List ℕ → ℕ → Iss → Round
unfolding due fetch
round words steps s = elim (due steps s) [
  | none ↦ fetch words s
  | some cause ↦ redirect (cleared (trap cause 0 s))
]

unfoldable pub run_loop : ℕ → List ℕ → ℕ → ℕ → Iss → Outcome
run_loop zero words max_steps steps s = out_of_fuel s
run_loop (suc fuel) words max_steps steps s = elim (ltb steps max_steps) [
  | false ↦ exceeded steps s
  | true ↦ elim (round words steps s) [
    | stop ↦ halted steps s
    | redirect s' ↦ run_loop fuel words max_steps steps s'
    | stepped s' ↦ run_loop fuel words max_steps (steps + 1) s'
    | crash e ↦ failed e
  ]
]

unfoldable pub run : ℕ → List ℕ → ℕ → Iss → Outcome
unfolding run_loop
run fuel words max_steps s = run_loop fuel words max_steps 0 s
