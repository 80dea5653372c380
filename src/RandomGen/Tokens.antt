-- ===== src/RandomGen/Tokens.antt =====
-- sim/tools/random_gen.py and asm.py: how the assembler reads the operands that are written.
use rv32im_5_stage_pipelined.Base.{
  ℕ, zero, suc, ◌<◌, ◌≡◌, refl, ap, arith, Bool, true, false, ◌&&◌, ◌==◌, Option, none, some, List,
  ==→eq,
}
use rv32im_5_stage_pipelined.Base.Int.{ℤ, pos, negsuc}
use rv32im_5_stage_pipelined.Asm.Text.{same, strip, without_last}
use rv32im_5_stage_pipelined.Asm.Text.Same.{both_true, same-eq}
use rv32im_5_stage_pipelined.Asm.Operands.{
  Result, ok, raised, reg, freg, number, Address, address, base_register,
}
use rv32im_5_stage_pipelined.Asm.Assemble.{clean}
use rv32im_5_stage_pipelined.RandomGen.Lines.{
  x_reg, f_reg, int_text, address_text, label_text, label_line,
}
use rv32im_5_stage_pipelined.RandomGen.Texts.{plain, IsPlain}

-- Every number below a bound passes a test.
all_below : ℕ → (ℕ → Bool) → Bool
all_below zero test = true
all_below (suc n) test = test n && all_below n test

all_below-at :
    (bound : ℕ) (test : ℕ → Bool) (n : ℕ) → all_below bound test ≡ true → n < bound → test n ≡ true
unfolding all_below
all_below-at zero test n h lt = absurd (omega arith)
all_below-at (suc bound) test n h lt = ground (arith, all_below-at bound test n)

reads : Result ℕ → ℕ → Bool
reads (ok k) n = k == n
reads (raised e) n = false

reads-ok : (r : Result ℕ) (n : ℕ) → reads r n ≡ true → r ≡ ok n
unfolding reads
reads-ok (ok k) n h = ap ok (==→eq k n h)
reads-ok (raised e) n h = absurd (cc h)

x_reads : all_below 32 (λ n. reads (reg (x_reg n)) n && plain (x_reg n)) ≡ true
unfolding all_below reads reg x_reg plain
x_reads = refl

f_reads : all_below 32 (λ n. reads (freg (f_reg n)) n && plain (f_reg n)) ≡ true
unfolding all_below reads freg f_reg plain
f_reads = refl

pub reg-x_reg : (n : ℕ) → n < 32 → (reg (x_reg n) ≡ ok n) × IsPlain (x_reg n)
reg-x_reg n lt =
    let (r, p) =
      both_true (reads (reg (x_reg n)) n) (plain (x_reg n)) (all_below-at 32 _ n x_reads lt) in
    (reads-ok (reg (x_reg n)) n r, p)

pub freg-f_reg : (n : ℕ) → n < 32 → (freg (f_reg n) ≡ ok n) × IsPlain (f_reg n)
freg-f_reg n lt =
    let (r, p) =
      both_true (reads (freg (f_reg n)) n) (plain (f_reg n)) (all_below-at 32 _ n f_reads lt) in
    (reads-ok (freg (f_reg n)) n r, p)

is_pos : Result ℤ → ℕ → Bool
is_pos (ok (pos k)) n = k == n
is_pos _ n = false

is_negsuc : Result ℤ → ℕ → Bool
is_negsuc (ok (negsuc k)) n = k == n
is_negsuc _ n = false

is_pos-ok : (r : Result ℤ) (n : ℕ) → is_pos r n ≡ true → r ≡ ok (pos n)
unfolding is_pos
is_pos-ok (ok (pos k)) n h = ap (λ (m : ℕ). ok (pos m)) (==→eq k n h)
is_pos-ok (ok (negsuc k)) n h = absurd (cc h)
is_pos-ok (raised e) n h = absurd (cc h)

is_negsuc-ok : (r : Result ℤ) (n : ℕ) → is_negsuc r n ≡ true → r ≡ ok (negsuc n)
unfolding is_negsuc
is_negsuc-ok (ok (pos k)) n h = absurd (cc h)
is_negsuc-ok (ok (negsuc k)) n h = ap (λ (m : ℕ). ok (negsuc m)) (==→eq k n h)
is_negsuc-ok (raised e) n h = absurd (cc h)

pos_reads :
    all_below 2048 (λ n. is_pos (number (int_text (pos n))) n && plain (int_text (pos n))) ≡ true
unfolding all_below is_pos number int_text plain
pos_reads = refl

neg_reads :
    all_below 2048 (λ n. is_negsuc (number (int_text (negsuc n))) n && plain (int_text (negsuc n)))
    ≡ true
unfolding all_below is_negsuc number int_text plain
neg_reads = refl

-- An integer of 12 digits is read back.
pub number-pos :
    (n : ℕ) → n < 2048 → (number (int_text (pos n)) ≡ ok (pos n)) × IsPlain (int_text (pos n))
number-pos n lt =
    let (r, p) =
      both_true (is_pos (number (int_text (pos n))) n) (plain (int_text (pos n)))
        (all_below-at 2048 _ n pos_reads lt) in
    (is_pos-ok (number (int_text (pos n))) n r, p)

pub number-negsuc :
    (n : ℕ)
    → n < 2048
    → (number (int_text (negsuc n)) ≡ ok (negsuc n)) × IsPlain (int_text (negsuc n))
number-negsuc n lt =
    let (r, p) =
      both_true (is_negsuc (number (int_text (negsuc n))) n) (plain (int_text (negsuc n)))
        (all_below-at 2048 _ n neg_reads lt) in
    (is_negsuc-ok (number (int_text (negsuc n))) n r, p)

is_address : Result Address → ℕ → Bool
is_address (ok m) off = reads (base_register m) 31 && is_pos (number m.offset) off
is_address (raised e) off = false

-- The operand is an address with this offset and the base register 31.
abbrev pub IsAddress : List ℕ → ℕ → Type 0
IsAddress tok off =
    (m : Address) × (address tok ≡ ok m)
    × (base_register m ≡ ok 31)
    × (number m.offset ≡ ok (pos off))

is_address-ok :
    (r : Result Address) (off : ℕ)
    → is_address r off ≡ true
    → (m : Address) × (r ≡ ok m) × (base_register m ≡ ok 31) × (number m.offset ≡ ok (pos off))
unfolding is_address
is_address-ok (ok m) off h =
    let (b, o) = both_true (reads (base_register m) 31) (is_pos (number m.offset) off) h in
    (m, refl, reads-ok (base_register m) 31 b, is_pos-ok (number m.offset) off o)
is_address-ok (raised e) off h = absurd (cc h)

addresses_read :
    all_below 2048
      (λ off. is_address (address (address_text off 31)) off && plain (address_text off 31))
    ≡ true
unfolding all_below is_address is_pos reads base_register number address address_text plain
addresses_read = refl

pub address_text-IsAddress :
    (off : ℕ) → off < 2048 → IsAddress (address_text off 31) off × IsPlain (address_text off 31)
address_text-IsAddress off lt =
    let (r, p) =
      both_true (is_address (address (address_text off 31)) off) (plain (address_text off 31))
        (all_below-at 2048 _ off addresses_read lt) in
    (is_address-ok (address (address_text off 31)) off r, p)

is_text : Option (List ℕ) → List ℕ → Bool
is_text none t = false
is_text (some s) t = same s t

is_text-some : (o : Option (List ℕ)) (t : List ℕ) → is_text o t ≡ true → o ≡ some t
unfolding is_text
is_text-some none t h = absurd (cc h)
is_text-some (some s) t h = ap some (same-eq s t h)

label_test : ℕ → Bool
label_test n =
    same (strip (label_text n)) (label_text n)
    && (same (clean (label_line n)) (label_line n)
        && (is_text (without_last b':' (label_line n)) (label_text n) && plain (label_text n)))

labels_read : all_below 1024 label_test ≡ true
unfolding all_below label_test strip label_text clean label_line is_text without_last plain
labels_read = refl

-- The line of a label sets the name by which a branch looks it up.
pub label_text-read :
    (n : ℕ)
    → n < 1024
    → (strip (label_text n) ≡ label_text n)
      × (clean (label_line n) ≡ label_line n)
      × (without_last b':' (label_line n) ≡ some (label_text n))
      × IsPlain (label_text n)
unfolding label_test
label_text-read n lt =
    let (a, rest) = both_true _ _ (all_below-at 1024 label_test n labels_read lt) in
    let (b, rest') = both_true _ _ rest in
    let (c, d) = both_true _ _ rest' in
    (
      same-eq (strip (label_text n)) (label_text n) a,
      same-eq (clean (label_line n)) (label_line n) b,
      is_text-some (without_last b':' (label_line n)) (label_text n) c,
      d,
    )
