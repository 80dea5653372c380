-- ===== src/Iss/Valid/Run.antt =====
-- sim/tools/iss.py, well-formedness under `ISS.run`, and its step budget.
use rv32im_5_stage_pipelined.Base.{
  ℕ, zero, suc, ◌+◌, ◌*◌, ◌/◌, ◌≤◌, ◌<◌, ◌≡◌, arith, Bool, true, false, Bool-cases, inl, inr,
  Option, none, some, List, leb, ltb, ltb→lt, lt→ltb, if◌then◌else◌,
}
use rv32im_5_stage_pipelined.Base.Lists.{length, get_elem?}
use rv32im_5_stage_pipelined.Iss.State.{Iss, Result}
use rv32im_5_stage_pipelined.Iss.Trap.{trap}
use rv32im_5_stage_pipelined.Iss.Mmu.{Access, translate}
use rv32im_5_stage_pipelined.Iss.Step.{step}
use rv32im_5_stage_pipelined.Iss.Run.{
  Outcome, halted, exceeded, failed, out_of_fuel, Round, stop, redirect, stepped, crash, due,
  cleared, is_self_loop, of_step, fetched, fetch, round, run_loop, run,
}
use rv32im_5_stage_pipelined.Iss.Valid.{IsValid, trap-IsValid}
use rv32im_5_stage_pipelined.Iss.Valid.Step.{Keeps, kept, crashed}
use rv32im_5_stage_pipelined.Iss.Valid.Dispatch.{translate-IsValid, step-Keeps}

-- A round that goes on goes on from a well-formed state.
data KeepsRound : Round → Type 0 where
  stops : KeepsRound stop
  redirects : {s : Iss} → IsValid s → KeepsRound (redirect s)
  steps_on : {s : Iss} → IsValid s → KeepsRound (stepped s)
  crashes : {e : _} → KeepsRound (crash e)

of_step-Keeps : {r : Result Iss} → Keeps r → KeepsRound (of_step r)
of_step-Keeps (kept h) = steps_on h
of_step-Keeps crashed = crashes

stop_or : (b : Bool) {r : Round} → KeepsRound r → KeepsRound (if b then stop else r)
stop_or true h = stops
stop_or false h = h

fetched-Keeps :
    (words : List ℕ) (fetch_addr : ℕ) (s : Iss)
    → IsValid s
    → KeepsRound (fetched words fetch_addr s)
unfolding fetched
fetched-Keeps words fetch_addr s h =
    stop_or (leb (length words * 4) fetch_addr) (at (get_elem? words (fetch_addr / 4)))
  where
    at :
        (w : Option ℕ)
        → KeepsRound (elim w [
          | none ↦ stop
          | some word ↦ if is_self_loop word then stop else of_step (step word s)
        ])
    at none = stops
    at (some word) = stop_or (is_self_loop word) (of_step-Keeps (step-Keeps word s h))

fetch-Keeps : (words : List ℕ) (s : Iss) → IsValid s → KeepsRound (fetch words s)
unfolding fetch
fetch-Keeps words s h = at (translate s.pc Access.fetch s) (translate-IsValid s.pc Access.fetch s h)
  where
    at :
        (r : Option ℕ × Iss)
        → IsValid r.1
        → KeepsRound
            (elim r.0 [ none ↦ redirect r.1 | some fetch_addr ↦ fetched words fetch_addr r.1 ])
    at (none, s') h' = redirects h'
    at (some fetch_addr, s') h' = fetched-Keeps words fetch_addr s' h'

cleared-IsValid : (s : Iss) → IsValid s → IsValid (cleared s)
cleared-IsValid s h = record {
  zero_reg = h.zero_reg;
  regs_fit = h.regs_fit;
  bytes_fit = h.bytes_fit;
  flags_fit = h.flags_fit;
  frm_fits = h.frm_fits;
  mode_fits = h.mode_fits;
}

round-Keeps : (words : List ℕ) (steps : ℕ) (s : Iss) → IsValid s → KeepsRound (round words steps s)
unfolding round
round-Keeps words steps s h = at (due steps s)
  where
    at :
        (d : Option ℕ)
        → KeepsRound
            (elim d [ none ↦ fetch words s | some cause ↦ redirect (cleared (trap cause 0 s)) ])
    at none = fetch-Keeps words s h
    at (some cause) = redirects (cleared-IsValid (trap cause 0 s) (trap-IsValid cause 0 s h))

-- How a run may end within its step budget: halted with at most `max_steps` steps or exceeding it
-- with exactly as many, and in a well-formed state.
pub data Ends (max_steps : ℕ) : Outcome → Type 0 where
  halts : {steps : ℕ} {s : Iss} → steps < max_steps → IsValid s → Ends max_steps (halted steps s)
  exceeds :
      {steps : ℕ} {s : Iss} → steps ≡ max_steps → IsValid s → Ends max_steps (exceeded steps s)
  fails : {e : _} → Ends max_steps (failed e)
  goes_on : {s : Iss} → IsValid s → Ends max_steps (out_of_fuel s)

run_loop-Ends :
    (fuel : ℕ) (words : List ℕ) (max_steps steps : ℕ) (s : Iss)
    → steps ≤ max_steps
    → IsValid s
    → Ends max_steps (run_loop fuel words max_steps steps s)
unfolding run_loop
run_loop-Ends zero words max_steps steps s le h = goes_on h
run_loop-Ends (suc fuel) words max_steps steps s le h = elim (Bool-cases (ltb steps max_steps)) [
  | inl e ↦
      rw (e, run_loop)
        (at (λ steps' s'. run_loop-Ends fuel words max_steps steps' s') (round words steps s)
          (ltb→lt steps max_steps e) (round-Keeps words steps s h))
  | inr e ↦ rw (e, run_loop) (exceeds (grind (arith, ltb→lt, lt→ltb)) h)
]
  where
    at :
        ((steps' : ℕ) (s' : Iss)
          → steps' ≤ max_steps
          → IsValid s'
          → Ends max_steps (run_loop fuel words max_steps steps' s'))
        → (r : Round) → steps < max_steps
        → KeepsRound r
        → Ends max_steps (elim r [
          | stop ↦ halted steps s
          | redirect s' ↦ run_loop fuel words max_steps steps s'
          | stepped s' ↦ run_loop fuel words max_steps (steps + 1) s'
          | crash e ↦ failed e
        ])
    at more stop lt stops = halts lt h
    at more (redirect s') lt (redirects h') = more steps s' le h'
    at more (stepped s') lt (steps_on h') = more (steps + 1) s' (omega arith) h'
    at more (crash e) lt crashes = fails

-- A run from a well-formed state, of any program and with any fuel, ends in one of four ways: it
-- halts in a well-formed state after fewer than `max_steps` steps, it exceeds the budget in a
-- well-formed state after exactly `max_steps` steps, `step` raises, or the fuel is used up in a
-- well-formed state.
pub run-Ends :
    (fuel : ℕ) (words : List ℕ) (max_steps : ℕ) (s : Iss)
    → IsValid s
    → Ends max_steps (run fuel words max_steps s)
unfolding run
run-Ends fuel words max_steps s h = run_loop-Ends fuel words max_steps 0 s (omega arith) h
