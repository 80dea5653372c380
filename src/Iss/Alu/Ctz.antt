-- ===== src/Iss/Alu/Ctz.antt =====
-- sim/tools/iss.py, what the loop of `ctz` counts.
use rv32im_5_stage_pipelined.Base.{
  ℕ, zero, suc, ◌+◌, ◌-◌, ◌≤◌, ◌<◌, ◌≡◌, refl, arith, true, false, Bool-cases, inl, inr, digit,
  ◌==◌,
}
use rv32im_5_stage_pipelined.Iss.Alu.{ctz_loop, ctz}

-- `r` is the first place from `i` on, below `n`, whose digit is set, or `n` where there is none.
pub record IsFirst (i n a r : ℕ) : Type 0 where
  pub from : i ≤ r
  pub within : r ≤ n
  pub clear_below : (k : ℕ) → i ≤ k → k < r → digit a k ≡ 0
  pub set_at : r < n → digit a r ≡ 1

ctz_loop-done : (left i a count : ℕ) → ctz_loop left i a count true ≡ count
unfolding ctz_loop
ctz_loop-done zero i a count = refl
ctz_loop-done (suc left) i a count = elim (Bool-cases (digit a i == 0)) [
  | inl e ↦ rw e (ctz_loop-done left (i + 1) a count)
  | inr e ↦ rw e (ctz_loop-done left (i + 1) a count)
]

ctz_loop-IsFirst : (left i n a : ℕ) → n ≡ i + left → IsFirst i n a (ctz_loop left i a i false)
unfolding ctz_loop
ctz_loop-IsFirst zero i n a len = record {
  from = omega arith;
  within = omega arith;
  clear_below = λ k hi hk. absurd (omega arith);
  set_at = λ h. absurd (omega arith);
}
ctz_loop-IsFirst (suc left) i n a len = elim (Bool-cases (digit a i == 0)) [
  | inl e ↦
      let rest = ctz_loop-IsFirst left (i + 1) n a (omega arith) in
      rw e (record {
        from = omega (arith, rest.from);
        within = omega (arith, rest.within);
        clear_below = λ k hi hk. ground (arith, rest.clear_below k);
        set_at = λ h. ground (arith, rest.set_at);
      })
  | inr e ↦
      rw (e, ctz_loop-done left (i + 1) a i)
        (record {
          from = omega arith;
          within = omega arith;
          clear_below = λ k hi hk. absurd (omega arith);
          set_at = λ h. ground arith;
        })
]

-- Of XLEN digits, `ctz` gives the place of the lowest digit that is set among the first XLEN - 1,
-- and XLEN - 1 where none of them is.
pub ctz-IsFirst : (xl a : ℕ) → IsFirst 0 (xl - 1) a (ctz xl a)
unfolding ctz
ctz-IsFirst xl a = ctz_loop-IsFirst (xl - 1) 0 (xl - 1) a (omega arith)
