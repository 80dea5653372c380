-- ===== src/Debugger/Follows.antt =====
-- sim/tools/debugger.py, `run_until`, against sim/tools/iss.py, `ISS.run`.
use mathlib.Core.Path.{subst}
use rv32im_5_stage_pipelined.Base.{
  ℕ, suc, ◌+◌, ◌*◌, ◌/◌, ◌≤◌, ◌<◌, ◌≡◌, refl, sym, ap, ◌∙◌, arith, Bool, true, false, Option, none,
  some, List, [], ◌∷◌, ◌++◌, leb, ltb, if◌then◌else◌,
}
use rv32im_5_stage_pipelined.Base.Lists.{length, get_elem?, get_elem?-lt}
use rv32im_5_stage_pipelined.Iss.State.{Iss, Result, ok, raised}
use rv32im_5_stage_pipelined.Iss.Trap.{trap}
use rv32im_5_stage_pipelined.Iss.Mmu.{Access, translate}
use rv32im_5_stage_pipelined.Iss.Step.{step}
use rv32im_5_stage_pipelined.Iss.Run.{
  Outcome, halted, exceeded, stop, stepped, redirect, cleared, of_step, is_self_loop, due, fetched,
  fetch, round, run_loop, run,
}
use rv32im_5_stage_pipelined.Iss.Valid.{IsValid}
use rv32im_5_stage_pipelined.Debugger.{
  Debugger, word_at, at_end, Stop, end_of_program, halted_self_loop, breakpoint_hit,
  stopped_exceeded, run_until,
}
use rv32im_5_stage_pipelined.Debugger.Control.{
  IsReason, Executed, IsAdvanced, Stops, stops, raises, run_until-Stops,
}

-- No interrupt is due after `steps` instructions, and the pc translates to itself.
abbrev pub IsQuiet : ℕ → Iss → Type 0
IsQuiet steps s = (due steps s ≡ none) × (translate s.pc Access.fetch s ≡ (some s.pc, s))

-- The states from `s` on, along the words of the trace, are quiet.
abbrev pub AllQuiet : ℕ → List (ℕ × ℕ) → Iss → Type 0
AllQuiet steps [] s = IsQuiet steps s
AllQuiet steps ((pc, word) ∷ trace) s =
    IsQuiet steps s × ((s' : Iss) × (step word s ≡ ok s') × AllQuiet (steps + 1) trace s')

-- What `ISS.run` comes to from the state where the debugger stopped, after `count` instructions.
abbrev pub outcome_of : ℕ → List ℕ → ℕ → ℕ → Stop → Iss → Outcome
outcome_of fuel words max_steps count end_of_program s = halted count s
outcome_of fuel words max_steps count halted_self_loop s = halted count s
outcome_of fuel words max_steps count (breakpoint_hit pc) s =
    run_loop (suc fuel) words max_steps count s
outcome_of fuel words max_steps count (stopped_exceeded n) s = exceeded count s

ok-eq : {s t : Iss} {r : Result Iss} → r ≡ ok s → r ≡ ok t → s ≡ t
ok-eq {s} e q = ap (of_ok s) (sym e ∙ q)
  where
    of_ok : Iss → Result Iss → Iss
    of_ok default (ok s') = s'
    of_ok default (raised e') = default

round-fetched :
    (words : List ℕ) (steps : ℕ) (s : Iss)
    → IsQuiet steps s
    → round words steps s ≡ fetched words s.pc s
unfolding round fetch
round-fetched words steps s (quiet, same) =
    ap
      (λ (o : Option ℕ). elim o [
        | none ↦ fetch words s
        | some cause ↦ redirect (cleared (trap cause 0 s))
      ])
      quiet
    ∙ ap
        (λ (r : Option ℕ × Iss). elim r.0 [
          | none ↦ redirect r.1
          | some fetch_addr ↦ fetched words fetch_addr r.1
        ])
        same

fetched-stepped :
    (words : List ℕ) (word : ℕ) (s s' : Iss)
    → get_elem? words (s.pc / 4) ≡ some word
    → is_self_loop word ≡ false
    → step word s ≡ ok s'
    → fetched words s.pc s ≡ stepped s'
unfolding fetched
fetched-stepped words word s s' there straight e =
    let inside = get_elem?-lt words (s.pc / 4) word there in
    let going : leb (length words * 4) s.pc ≡ false = ground arith in
    rw (going, there, straight, e) refl

run_loop-stepped :
    (fuel : ℕ) (words : List ℕ) (max_steps steps : ℕ) (s s' : Iss)
    → steps < max_steps
    → round words steps s ≡ stepped s'
    → run_loop (suc fuel) words max_steps steps s ≡ run_loop fuel words max_steps (steps + 1) s'
unfolding run_loop
run_loop-stepped fuel words max_steps steps s s' lt e =
    let within : ltb steps max_steps ≡ true = ground arith in rw (run_loop, within, e) refl

run_loop-halted :
    (fuel : ℕ) (words : List ℕ) (max_steps steps : ℕ) (s : Iss)
    → steps < max_steps
    → round words steps s ≡ stop
    → run_loop (suc fuel) words max_steps steps s ≡ halted steps s
unfolding run_loop
run_loop-halted fuel words max_steps steps s lt e =
    let within : ltb steps max_steps ≡ true = ground arith in rw (run_loop, within, e) refl

run_loop-exceeded :
    (fuel : ℕ) (words : List ℕ) (max_steps steps : ℕ) (s : Iss)
    → steps ≡ max_steps
    → run_loop (suc fuel) words max_steps steps s ≡ exceeded steps s
unfolding run_loop
run_loop-exceeded fuel words max_steps steps s e =
    let over : ltb steps max_steps ≡ false = ground arith in rw (run_loop, over) refl

abbrev rounds : List (ℕ × ℕ) → ℕ → ℕ
rounds [] fuel = fuel
rounds (p ∷ trace) fuel = suc (rounds trace fuel)

rounds-sum : (trace : List (ℕ × ℕ)) (fuel : ℕ) → rounds trace fuel ≡ length trace + fuel
rounds-sum [] fuel = omega arith
rounds-sum (p ∷ trace) fuel = omega (arith, rounds-sum trace fuel)

module _ (words breakpoints : List ℕ) (max_steps : ℕ) where
  -- The loop of `ISS.run` goes through the states that a trace goes through.
  run_loop-Executed :
      (trace : List (ℕ × ℕ)) (fuel steps : ℕ) (s t : Iss)
      → Executed words breakpoints steps trace s t
      → AllQuiet steps trace s
      → steps + length trace ≤ max_steps
      → (run_loop (rounds trace fuel) words max_steps steps s
          ≡ run_loop fuel words max_steps (steps + length trace) t)
        × IsQuiet (steps + length trace) t
  run_loop-Executed [] fuel steps s t e quiet le =
      let same : steps ≡ steps + 0 = omega arith in
      (
        ap (λ (n : ℕ). run_loop fuel words max_steps n s) same
            ∙ ap (run_loop fuel words max_steps (steps + 0)) e,
        subst (λ n. IsQuiet n t) same (subst (IsQuiet steps) e quiet),
      )
  run_loop-Executed ((pc, word) ∷ trace) fuel steps s t
        (at, there, straight, passing, (s', e, rest)) (quiet, (s'', e', later)) le =
      let there' = ap (λ (a : ℕ). get_elem? words (a / 4)) (sym at) ∙ there in
      let one : round words steps s ≡ stepped s' =
        round-fetched words steps s quiet ∙ fetched-stepped words word s s' there' straight e in
      let later' = subst (AllQuiet (steps + 1) trace) (ok-eq e' e) later in
      let (goes, ends) = run_loop-Executed trace fuel (steps + 1) s' t rest later' (omega arith) in
      let same : steps + 1 + length trace ≡ steps + length ((pc, word) ∷ trace) = omega arith in
      (
        run_loop-stepped (rounds trace fuel) words max_steps steps s s' (omega arith) one
            ∙ goes
            ∙ ap (λ (n : ℕ). run_loop fuel words max_steps n t) same,
        subst (λ n. IsQuiet n t) same ends,
      )

fetched-at_end : (d : Debugger) → at_end d ≡ true → fetched d.words d.iss.pc d.iss ≡ stop
unfolding fetched at_end
fetched-at_end d e = rw e refl

fetched-self_loop :
    (d : Debugger)
    → is_self_loop (word_at d.iss.pc d) ≡ true
    → fetched d.words d.iss.pc d.iss ≡ stop
unfolding fetched word_at
fetched-self_loop d e =
    by_end (leb (length d.words * 4) d.iss.pc) (get_elem? d.words (d.iss.pc / 4)) e
  where
    by_word :
        (word : ℕ) (b : Bool) → b ≡ true → (if b then stop else of_step (step word d.iss)) ≡ stop
    by_word word true q = refl
    by_word word false q = absurd (cc q)

    by_end :
        (b : Bool) (o : Option ℕ)
        → is_self_loop (elim o [ none ↦ 0 | some word ↦ word ]) ≡ true
        → (if b then stop else elim o [
          | none ↦ stop
          | some word ↦ if is_self_loop word then stop else of_step (step word d.iss)
        ])
          ≡ stop
    by_end true o q = refl
    by_end false none q = refl
    by_end false (some word) q = by_word word (is_self_loop word) q

-- Where the debugger stops, `ISS.run` halts, exceeds its budget or goes on.
run_loop-outcome_of :
    (fuel max_steps count : ℕ) (why : Stop) (t : Debugger)
    → IsReason max_steps count why t
    → IsQuiet count t.iss
    → run_loop (suc fuel) t.words max_steps count t.iss
      ≡ outcome_of fuel t.words max_steps count why t.iss
run_loop-outcome_of fuel max_steps count end_of_program t (over, lt) quiet =
    run_loop-halted fuel t.words max_steps count t.iss lt
      (round-fetched t.words count t.iss quiet ∙ fetched-at_end t over)
run_loop-outcome_of fuel max_steps count halted_self_loop t (looping, lt) quiet =
    run_loop-halted fuel t.words max_steps count t.iss lt
      (round-fetched t.words count t.iss quiet ∙ fetched-self_loop t looping)
run_loop-outcome_of fuel max_steps count (breakpoint_hit pc) t reason quiet = refl
run_loop-outcome_of fuel max_steps count (stopped_exceeded n) t (e, full) quiet =
    run_loop-exceeded fuel t.words max_steps count t.iss full

append_cancel : (xs ys zs : List (ℕ × ℕ)) → xs ++ ys ≡ xs ++ zs → ys ≡ zs
append_cancel [] ys zs e = e
append_cancel (x ∷ xs) ys zs e = append_cancel xs ys zs (ap behind_first e)
  where
    behind_first : List (ℕ × ℕ) → List (ℕ × ℕ)
    behind_first [] = []
    behind_first (y ∷ rest) = rest

-- From a well-formed state, `run_until` has stopped, and its history has grown by a trace. Where along
-- the trace no interrupt is due and every pc translates to itself, `ISS.run` on the same program, with
-- the same budget and fuel for more rounds than the trace is long, comes after as many instructions to
-- the same state: there it halts if the debugger stopped at the end or at a jump to itself, exceeds
-- its budget if the debugger did, and goes on if it was a breakpoint.
pub run_until-run :
    (fuel max_steps : ℕ) (d t : Debugger) (why : Stop) (trace : List (ℕ × ℕ))
    → IsValid d.iss
    → run_until max_steps d ≡ ok (why, t)
    → t.history ≡ d.history ++ trace
    → AllQuiet 0 trace d.iss
    → run (length trace + suc fuel) d.words max_steps d.iss
      ≡ outcome_of fuel d.words max_steps (length trace) why t.iss
unfolding run
run_until-run fuel max_steps d t why trace h e grown quiet =
    by_stops (run_until-Stops max_steps d h) e grown
  where
    Agrees : Stop × Debugger → Type 0
    Agrees w =
        w.1.history ≡ d.history ++ trace
        → run (length trace + suc fuel) d.words max_steps d.iss
          ≡ outcome_of fuel d.words max_steps (length trace) w.0 w.1.iss

    of_ok : Stop × Debugger → Result (Stop × Debugger) → Stop × Debugger
    of_ok default (ok w) = w
    of_ok default (raised e') = default

    agrees :
        (why' : Stop) (t' : Debugger) (trace' : List (ℕ × ℕ))
        → length trace' ≤ max_steps
        → IsAdvanced 0 trace' d t'
        → IsReason max_steps (0 + length trace') why' t'
        → Agrees (why', t')
    agrees why' t' trace' le adv reason grown' =
        let same : trace' ≡ trace =
          append_cancel d.history trace' trace (sym adv.recorded ∙ grown') in
        let size : 0 + length trace' ≡ length trace = omega (arith, ap length same) in
        let (goes, ends) =
          run_loop-Executed d.words d.breakpoints max_steps trace' (suc fuel) 0 d.iss t'.iss
            adv.executed_trace (subst (λ (tr : List (ℕ × ℕ)). AllQuiet 0 tr d.iss) (sym same) quiet)
            (omega arith) in
        let spent : length trace + suc fuel ≡ rounds trace' (suc fuel) =
          omega (arith, rounds-sum trace' (suc fuel), ap length same) in
        ap (λ (n : ℕ). run_loop n d.words max_steps 0 d.iss) spent
        ∙ goes
        ∙ ap (λ (ws : List ℕ). run_loop (suc fuel) ws max_steps (0 + length trace') t'.iss)
            (sym adv.same_words)
        ∙ run_loop-outcome_of fuel max_steps (0 + length trace') why' t' reason ends
        ∙ ap (λ (ws : List ℕ). outcome_of fuel ws max_steps (0 + length trace') why' t'.iss)
            adv.same_words
        ∙ ap (λ (n : ℕ). outcome_of fuel d.words max_steps n why' t'.iss) size

    by_stops :
        {r : Result (Stop × Debugger)}
        → Stops max_steps 0 max_steps d r
        → r ≡ ok (why, t)
        → Agrees (why, t)
    by_stops (stops {why = why'} {t = t'} trace' le adv reason) q =
        subst Agrees (ap (of_ok (why, t)) q) (agrees why' t' trace' le adv reason)
    by_stops (raises trace' lt c) q = absurd (cc q)
