-- ===== src/Debugger/Control.antt =====
-- sim/tools/debugger.py, what `run_until` and `step_one` do with the state, the history and the
-- breakpoints, and `run_until` against the loop of `ISS.run`.
use mathlib.Core.Path.{subst}
use rv32im_5_stage_pipelined.Base.{
  ℕ, zero, suc, ◌+◌, ◌/◌, ◌≤◌, ◌<◌, ◌≡◌, refl, ap, ◌∙◌, arith, Bool, true, false, Option, none,
  some, List, sym, [], ◌∷◌, ◌++◌, ◌&&◌, ltb, ltb→lt, if_cases,
}
use rv32im_5_stage_pipelined.Base.Lists.{length, get_elem?, get_elem?-some}
use mathlib.Core.List.{append-nil, append_assoc}
use rv32im_5_stage_pipelined.Asm.Text.Same.{both_true}
use rv32im_5_stage_pipelined.Iss.State.{Iss, Error, Result, ok, raised, member}
use rv32im_5_stage_pipelined.Iss.Step.{step}
use rv32im_5_stage_pipelined.Iss.Run.{is_self_loop}
use rv32im_5_stage_pipelined.Iss.Valid.{IsValid}
use rv32im_5_stage_pipelined.Iss.Valid.Step.{Keeps, kept, crashed}
use rv32im_5_stage_pipelined.Iss.Valid.Dispatch.{step-Keeps}
use rv32im_5_stage_pipelined.Debugger.{
  Debugger, word_at, at_end, step_one, executed, Stop, end_of_program, halted_self_loop,
  breakpoint_hit, stopped_exceeded, stop_before, run_rounds, run_until,
}

-- The reason given for the stop, of a run that executed `count` instructions.
abbrev pub IsReason : ℕ → ℕ → Stop → Debugger → Type 0
IsReason max_steps count end_of_program d = (at_end d ≡ true) × (count < max_steps)
IsReason max_steps count halted_self_loop d =
    (is_self_loop (word_at d.iss.pc d) ≡ true) × (count < max_steps)
IsReason max_steps count (breakpoint_hit pc) d =
    (pc ≡ d.iss.pc) × (member pc d.breakpoints ≡ true) × (0 < count) × (count < max_steps)
IsReason max_steps count (stopped_exceeded n) d = (n ≡ max_steps) × (count ≡ max_steps)

-- The simulator goes from `s` to `t` by the instructions of the trace, the first of them number
-- `done` of the run: each is the word of the program at its pc, is no jump to itself and, but for the
-- first of the run, is at no breakpoint.
abbrev pub Executed : List ℕ → List ℕ → ℕ → List (ℕ × ℕ) → Iss → Iss → Type 0
Executed words breakpoints done [] s t = s ≡ t
Executed words breakpoints done ((pc, word) ∷ trace) s t =
    (pc ≡ s.pc)
    × (get_elem? words (pc / 4) ≡ some word)
    × (is_self_loop word ≡ false)
    × (member pc breakpoints && ltb 0 done ≡ false)
    × ((s' : Iss) × (step word s ≡ ok s') × Executed words breakpoints (done + 1) trace s' t)

-- `t` comes from `s` by executing the trace, which the history has grown by.
pub record IsAdvanced (done : ℕ) (trace : List (ℕ × ℕ)) (s t : Debugger) : Type 0 where
  pub same_words : t.words ≡ s.words
  pub same_breakpoints : t.breakpoints ≡ s.breakpoints
  pub recorded : t.history ≡ s.history ++ trace
  pub executed_trace : Executed s.words s.breakpoints done trace s.iss t.iss
  pub valid : IsValid t.iss

-- The simulator executes the trace, and then `step` raises on the next word of the program.
pub record Crashes (done : ℕ) (trace : List (ℕ × ℕ)) (s : Debugger) (e : Error) : Type 0 where
  pub last : Iss
  pub word : ℕ
  pub executed_trace : Executed s.words s.breakpoints done trace s.iss last
  pub fetched_word : get_elem? s.words (last.pc / 4) ≡ some word
  pub crash : step word last ≡ raised e

-- What a run of at most `left` instructions promises.
pub data Stops (left done max_steps : ℕ) (s : Debugger) : Result (Stop × Debugger) → Type 0 where
  stops :
      {why : Stop} {t : Debugger} (trace : List (ℕ × ℕ))
      → length trace ≤ left
      → IsAdvanced done trace s t
      → IsReason max_steps (done + length trace) why t
      → Stops left done max_steps s (ok (why, t))
  raises :
      {e : Error} (trace : List (ℕ × ℕ))
      → length trace < left
      → Crashes done trace s e
      → Stops left done max_steps s (raised e)

after : Debugger → ℕ → Iss → Debugger
after d word s = record d { iss = s; history = d.history ++ ((d.iss.pc, word) ∷ []) }

-- One instruction of a debugger that is not at the end.
data Steps (d : Debugger) (word : ℕ) : Result (Bool × Debugger) → Type 0 where
  advanced :
      (s : Iss) → step word d.iss ≡ ok s → IsValid s → Steps d word (ok (true, after d word s))
  raises : (e : Error) → step word d.iss ≡ raised e → Steps d word (raised e)

word_at-fetched :
    (d : Debugger)
    → at_end d ≡ false
    → (word : ℕ) × (get_elem? d.words (d.iss.pc / 4) ≡ some word) × (word_at d.iss.pc d ≡ word)
unfolding at_end word_at
word_at-fetched d going =
    let (word, there) = get_elem?-some d.words (d.iss.pc / 4) (ground (arith, going)) in
    let at : word_at d.iss.pc d ≡ word =
      ap (λ (o : Option ℕ). elim o [ none ↦ 0 | some w ↦ w ]) there in
    (word, there, at)

step_one-Steps :
    (d : Debugger) (word : ℕ)
    → IsValid d.iss
    → at_end d ≡ false
    → word_at d.iss.pc d ≡ word
    → Steps d word (step_one d)
unfolding step_one after
step_one-Steps d word h going at =
    rw (going, step_one) (rw at (by_result (step word d.iss) refl (step-Keeps word d.iss h)))
  where
    by_result :
        (r : Result Iss)
        → step word d.iss ≡ r
        → Keeps r
        → Steps d word (executed (record d { history = d.history ++ ((d.iss.pc, word) ∷ []) }) r)
    by_result (ok s) e (kept valid) = advanced s e valid
    by_result (raised e') e crashed = raises e' e

data Checked (max_steps steps : ℕ) (d : Debugger) : Option Stop → Type 0 where
  found : {why : Stop} → IsReason max_steps steps why d → Checked max_steps steps d (some why)
  clear :
      at_end d ≡ false
      → is_self_loop (word_at d.iss.pc d) ≡ false
      → member d.iss.pc d.breakpoints && ltb 0 steps ≡ false
      → Checked max_steps steps d none

stop_before-Checked :
    (max_steps steps : ℕ) (d : Debugger)
    → steps < max_steps
    → Checked max_steps steps d (stop_before steps d)
unfolding stop_before
stop_before-Checked max_steps steps d lt =
    let P = Checked max_steps steps d in
    let looping = is_self_loop (word_at d.iss.pc d) in
    let at_point = member d.iss.pc d.breakpoints in
    if_cases P (at_end d) (λ e. found (e, lt))
      (λ going.
        if_cases P looping (λ e. found (e, lt))
          (λ straight.
            if_cases P (at_point && ltb 0 steps)
              (λ e.
                let (hit, later) = both_true at_point (ltb 0 steps) e in
                found (refl, hit, ltb→lt 0 steps later, lt))
              (λ passing. clear going straight passing)))

stay : (done : ℕ) (d : Debugger) → IsValid d.iss → IsAdvanced done [] d d
stay done d h = record {
  same_words = refl;
  same_breakpoints = refl;
  recorded = sym (append-nil d.history);
  executed_trace = refl;
  valid = h;
}

-- A run after one instruction more.
module _ (left steps max_steps : ℕ) (d : Debugger) (word : ℕ) (s : Iss)
    (there : get_elem? d.words (d.iss.pc / 4) ≡ some word) (straight : is_self_loop word ≡ false)
    (passing : member d.iss.pc d.breakpoints && ltb 0 steps ≡ false)
    (e : step word d.iss ≡ ok s) where
  one_more :
      (r : Result (Stop × Debugger))
      → Stops left (steps + 1) max_steps (after d word s) r
      → Stops (suc left) steps max_steps d r
  unfolding after
  one_more (ok (why, u)) (stops trace le rest reason) =
      let total : steps + 1 + length trace ≡ steps + length ((d.iss.pc, word) ∷ trace) =
        omega arith in
      stops ((d.iss.pc, word) ∷ trace) (omega arith)
        (record {
          same_words = rest.same_words;
          same_breakpoints = rest.same_breakpoints;
          recorded = rest.recorded ∙ append_assoc d.history ((d.iss.pc, word) ∷ []) trace;
          executed_trace = (refl, there, straight, passing, (s, e, rest.executed_trace));
          valid = rest.valid;
        })
        (subst (λ (n : ℕ). IsReason max_steps n why u) total reason)
  one_more (raised e') (raises trace lt c) =
      raises ((d.iss.pc, word) ∷ trace) (omega arith) (record {
        last = c.last;
        word = c.word;
        executed_trace = (refl, there, straight, passing, (s, e, c.executed_trace));
        fetched_word = c.fetched_word;
        crash = c.crash;
      })

-- The loop, entered with `steps` instructions executed and `left` rounds to go.
run_rounds-Stops :
    (left max_steps steps : ℕ) (d : Debugger)
    → steps + left ≡ max_steps
    → IsValid d.iss
    → Stops left steps max_steps d (run_rounds left max_steps steps d)
unfolding run_rounds
run_rounds-Stops zero max_steps steps d e h =
    stops [] (omega arith) (stay steps d h) (refl, omega arith)
run_rounds-Stops (suc left) max_steps steps d e h =
    at (λ t valid. run_rounds-Stops left max_steps (steps + 1) t (omega arith) valid)
      (stop_before-Checked max_steps steps d (omega arith))
  where
    rest : Debugger → Result (Stop × Debugger)
    rest t = run_rounds left max_steps (steps + 1) t

    next :
        ((t : Debugger) → IsValid t.iss → Stops left (steps + 1) max_steps t (rest t))
        → (word : ℕ) → get_elem? d.words (d.iss.pc / 4) ≡ some word
        → is_self_loop word ≡ false
        → member d.iss.pc d.breakpoints && ltb 0 steps ≡ false
        → {r : Result (Bool × Debugger)} → Steps d word r
        → Stops
            (suc left)
            steps
            max_steps
            d
            (elim r [ ok result ↦ rest result.1 | raised e ↦ raised e ])
    next more word there straight passing (advanced s e' valid) =
        one_more left steps max_steps d word s there straight passing e' (rest (after d word s))
          (more (after d word s) (unfold after in valid))
    next more word there straight passing (raises e' q) = raises [] (omega arith) (record {
      last = d.iss;
      word = word;
      executed_trace = refl;
      fetched_word = there;
      crash = q;
    })

    at :
        ((t : Debugger) → IsValid t.iss → Stops left (steps + 1) max_steps t (rest t))
        → {o : Option Stop} → Checked max_steps steps d o
        → Stops (suc left) steps max_steps d (elim o [
          | some why ↦ ok (why, d)
          | none ↦ elim (step_one d) [ ok result ↦ rest result.1 | raised e ↦ raised e ]
        ])
    at more (found {why} reason) =
        let total : steps ≡ steps + 0 = omega arith in
        stops [] (omega arith) (stay steps d h)
          (subst (λ (n : ℕ). IsReason max_steps n why d) total reason)
    at more (clear going straight passing) =
        let (word, there, same_word) = word_at-fetched d going in
        next more word there (ap is_self_loop (sym same_word) ∙ straight) passing
          (step_one-Steps d word h going same_word)

-- From a well-formed state, `run_until` executes a trace of at most `max_steps` instructions, one
-- after another by `step`, each the word of the program at its pc, none of them a jump to itself, and
-- none but the first at a breakpoint. Then it raises what `step` raises on the next word, within the
-- budget, or stops: the history has grown by the pcs and words of the trace, the program and the
-- breakpoints are the same, the state is well-formed, and the reason given holds. At the end the pc is
-- past the program, at a halt the word is a jump to itself, at a breakpoint the pc is one and at least
-- one instruction was executed, each of these before the budget is used up; and the budget is exceeded
-- after exactly `max_steps`.
pub run_until-Stops :
    (max_steps : ℕ) (d : Debugger)
    → IsValid d.iss
    → Stops max_steps 0 max_steps d (run_until max_steps d)
unfolding run_until
run_until-Stops max_steps d h = run_rounds-Stops max_steps max_steps 0 d (omega arith) h
