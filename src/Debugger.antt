-- ===== src/Debugger.antt =====
-- sim/tools/debugger.py, `class Debugger`: a simulator with a program, breakpoints and a history. The
-- printing commands and the command line are not part of the model.
pub mod Control
pub mod Follows
use rv32im_5_stage_pipelined.Base.{
  ℕ, zero, suc, ◌+◌, ◌*◌, ◌/◌, Bool, true, false, Option, none, some, List, [], ◌∷◌, ◌++◌, ◌==◌,
  ◌&&◌, leb, ltb, if◌then◌else◌,
}
use rv32im_5_stage_pipelined.Base.Lists.{length, get_elem?}
use rv32im_5_stage_pipelined.Iss.State.{Iss, Error, Result, ok, raised, new, member}
use rv32im_5_stage_pipelined.Iss.Run.{is_self_loop}
use rv32im_5_stage_pipelined.Iss.Step.{step}

pub record Debugger : Type 0 where
  pub words : List ℕ
  pub mem_size : ℕ
  pub xlen : ℕ
  pub breakpoints : List ℕ
  -- the pairs of pc and word, the oldest first
  pub history : List (ℕ × ℕ)
  pub iss : Iss

unfoldable pub reset : Debugger → Debugger
unfolding new
reset d = record d { iss = new d.mem_size d.xlen; history = [] }

-- `Debugger(words, mem_size, xlen)`
unfoldable pub start : List ℕ → ℕ → ℕ → Debugger
unfolding new
start words mem_size xlen = record {
  words = words;
  mem_size = mem_size;
  xlen = xlen;
  breakpoints = [];
  history = [];
  iss = new mem_size xlen;
}

unfoldable pub word_at : ℕ → Debugger → ℕ
word_at pc d = elim (get_elem? d.words (pc / 4)) [ none ↦ 0 | some word ↦ word ]

unfoldable pub at_end : Debugger → Bool
at_end d = leb (length d.words * 4) d.iss.pc

abbrev executed : Debugger → Result Iss → Result (Bool × Debugger)
executed d (ok s) = ok (true, record d { iss = s })
executed d (raised e) = raised e

-- False at the end of the program. The history has the instruction even where `step` raises, but
-- then the exception ends the command.
unfoldable pub step_one : Debugger → Result (Bool × Debugger)
unfolding at_end word_at
step_one d =
    if at_end d
    then ok (false, d)
    else let word = word_at d.iss.pc d in
      executed (record d { history = d.history ++ ((d.iss.pc, word) ∷ []) }) (step word d.iss)

pub data Stop : Type 0 where
  end_of_program : Stop
  halted_self_loop : Stop
  breakpoint_hit : ℕ → Stop
  stopped_exceeded : ℕ → Stop

-- Whether a round of the loop stops, by the tests in their order.
unfoldable pub stop_before : ℕ → Debugger → Option Stop
unfolding at_end word_at
stop_before steps d =
    if at_end d
    then some end_of_program
    else if is_self_loop (word_at d.iss.pc d)
    then some halted_self_loop
    else if member d.iss.pc d.breakpoints && ltb 0 steps
    then some (breakpoint_hit d.iss.pc)
    else none

-- The loop with the rounds that the budget leaves: `max_steps - steps`.
unfoldable pub run_rounds : ℕ → ℕ → ℕ → Debugger → Result (Stop × Debugger)
unfolding stop_before step_one
run_rounds zero max_steps steps d = ok (stopped_exceeded max_steps, d)
run_rounds (suc left) max_steps steps d = elim (stop_before steps d) [
  | some why ↦ ok (why, d)
  | none ↦ elim (step_one d) [
    | ok result ↦ run_rounds left max_steps (steps + 1) result.1
    | raised e ↦ raised e
  ]
]

unfoldable pub run_until : ℕ → Debugger → Result (Stop × Debugger)
unfolding run_rounds
run_until max_steps d = run_rounds max_steps max_steps 0 d
