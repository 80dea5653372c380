-- ===== src/Dtb/Parse/Ends.antt =====
-- sim/tools/gen_dtb.py, `parse_and_validate`: its loop ends.
use rv32im_5_stage_pipelined.Base.{
  ℕ, zero, suc, ◌+◌, ◌≤◌, ◌<◌, ◌≡◌, ◌≢◌, refl, arith, Bool, true, false, List, ltb, ltb→lt,
  Option-cases, inl, inr,
}
use rv32im_5_stage_pipelined.Base.Lists.{length}
use rv32im_5_stage_pipelined.Dtb.Bytes.{drop, take}
use rv32im_5_stage_pipelined.Dtb.Parse.{
  out_of_rounds, Checked, accepted, failed, Scan, scan_start, Round, next, saw_end, stop,
  on_begin_node, on_end_node, on_prop, round, scan, concluded, after_loop, Header, unpack_header,
  validate_blocks, validate_rsvmap, parse_and_validate,
}

-- A round goes at least four bytes on, or ends the loop otherwise than by the model's last failure.
abbrev Advances : ℕ → Round → Type 0
Advances i (next j st) = i + 4 ≤ j
Advances i (saw_end st) = Unit
Advances i (stop e) = e ≢ out_of_rounds

on_begin_node-Advances : (s : List ℕ) (i : ℕ) (st : Scan) → Advances i (on_begin_node s (i + 4) st)
unfolding on_begin_node
on_begin_node-Advances s i st = ground arith

on_end_node-Advances : (i : ℕ) (st : Scan) → Advances i (on_end_node (i + 4) st)
unfolding on_end_node
on_end_node-Advances i st = ground arith

on_prop-Advances : (s : List ℕ) (n i : ℕ) (st : Scan) → Advances i (on_prop s n (i + 4) st)
unfolding on_prop
on_prop-Advances s n i st = ground arith

round-Advances : (s : List ℕ) (n i : ℕ) (st : Scan) → Advances i (round s n i st)
unfolding round
round-Advances s n i st = ground arith

-- With more rounds than bytes that are left the loop does not run out of rounds.
scan-in_rounds :
    (left : ℕ) (s : List ℕ) (n i : ℕ) (st : Scan)
    → 0 < left
    → length s < left + i
    → scan left s n i st ≢ failed out_of_rounds
unfolding scan
scan-in_rounds zero s n i st some_left h = absurd (omega arith)
scan-in_rounds (suc left) s n i st some_left h =
    by_round (round s n i st) (ltb i (length s)) (ltb→lt i (length s)) (round-Advances s n i st)
      (λ j after. scan-in_rounds left s n j after)
  where
    by_round :
        (r : Round) (b : Bool)
        → (b ≡ true → i < length s)
        → Advances i r
        → ((j : ℕ) (after : Scan)
            → 0 < left
            → length s < left + j
            → scan left s n j after ≢ failed out_of_rounds)
        → ◌≢◌ {A = Checked (Bool × Scan)}
            (elim b [
              | false ↦ accepted (false, st)
              | true ↦ elim r [
                | next j after ↦ scan left s n j after
                | saw_end after ↦ accepted (true, after)
                | stop e ↦ failed e
              ]
            ])
            (failed out_of_rounds)
    by_round r false inside adv rec = λ e. cc e
    by_round (next j after) true inside adv rec =
        let at : i < length s = inside refl in rec j after (omega arith) (omega arith)
    by_round (saw_end after) true inside adv rec = λ e. cc e
    by_round (stop e) true inside adv rec = λ p. adv (cc p)

concluded-in_rounds :
    (seen : Bool) (st : Scan) (totalsize : ℕ) → concluded seen st totalsize ≢ failed out_of_rounds
unfolding concluded
concluded-in_rounds seen st totalsize = ground arith

after_loop-in_rounds :
    (r : Checked (Bool × Scan)) (totalsize : ℕ)
    → r ≢ failed out_of_rounds
    → after_loop r totalsize ≢ failed out_of_rounds
after_loop-in_rounds (accepted (seen, st)) totalsize h = concluded-in_rounds seen st totalsize
after_loop-in_rounds (failed e) totalsize h = λ p. h (cc p)

validate_blocks-in_rounds :
    (blob : List ℕ) (h : Header) → validate_blocks blob h ≢ failed out_of_rounds
unfolding validate_blocks
validate_blocks-in_rounds blob h =
    let struct_bytes = take h.size_struct (drop h.off_struct blob) in
    let size = length (take h.size_strings (drop h.off_strings blob)) in
    after_loop-in_rounds (scan (suc (length struct_bytes)) struct_bytes size 0 scan_start)
      h.totalsize
      (scan-in_rounds (suc (length struct_bytes)) struct_bytes size 0 scan_start (omega arith)
        (omega arith))

validate_rsvmap-in_rounds :
    (blob : List ℕ) (h : Header) → validate_rsvmap blob h ≢ failed out_of_rounds
unfolding validate_rsvmap
validate_rsvmap-in_rounds blob h = ground (arith, validate_blocks-in_rounds blob h)

-- The check of any bytes comes to a result: it does not run out of rounds.
pub parse_and_validate-ends : (blob : List ℕ) → parse_and_validate blob ≢ failed out_of_rounds
unfolding parse_and_validate
parse_and_validate-ends blob = elim (Option-cases (unpack_header blob)) [
  | inl e ↦ rw (e, parse_and_validate) (λ p. cc p)
  | inr (h, e) ↦ rw (e, parse_and_validate) (ground (arith, validate_rsvmap-in_rounds blob h))
]
