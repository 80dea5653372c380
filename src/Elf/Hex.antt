-- ===== src/Elf/Hex.antt =====
-- sim/tools/elf2mem.py: `int(field, 16)` of the fields that objdump and nm print.
use rv32im_5_stage_pipelined.Base.{
  ℕ, ◌+◌, ◌*◌, ◌<◌, ◌≡◌, refl, sym, ap, ◌∙◌, arith, Bool, true, false, some, List, [], ◌∷◌, ◌==◌,
  ◌||◌, ltb, if◌then◌else◌,
}
use rv32im_5_stage_pipelined.Asm.Text.{
  is_space, lstrip, rstrip, strip, digit_value, digits_from, after_prefix,
}
use rv32im_5_stage_pipelined.RandomGen.Source.{All}
use rv32im_5_stage_pipelined.Elf.{Result, ok, or_raised, value_error, prefixed_hex, hex_int}

-- A digit to base 16, as a character.
abbrev pub hex_char : ℕ → ℕ
hex_char d = if ltb d 10 then 48 + d else 87 + d

abbrev pub hex_field : List ℕ → List ℕ
hex_field [] = []
hex_field (d ∷ ds) = hex_char d ∷ hex_field ds

-- The number behind digits with the value `n`.
abbrev pub value_from : ℕ → List ℕ → ℕ
value_from n [] = n
value_from n (d ∷ ds) = value_from (n * 16 + d) ds

hex_char-space : (d : ℕ) → d < 16 → is_space (hex_char d) ≡ false
unfolding is_space
hex_char-space d h = ground arith

hex_char-mark : (d : ℕ) → d < 16 → hex_char d == b'_' ≡ false
hex_char-mark d h = ground arith

hex_char-prefix : (d : ℕ) → d < 16 → hex_char d == b'x' || hex_char d == b'X' ≡ false
hex_char-prefix d h = ground arith

digit_value-hex_char : (d : ℕ) → d < 16 → digit_value (hex_char d) ≡ d
unfolding digit_value
digit_value-hex_char d h = ground arith

rstrip-hex_field : (ds : List ℕ) → All (λ d. d < 16) ds → rstrip (hex_field ds) ≡ hex_field ds
unfolding rstrip
rstrip-hex_field [] h = refl
rstrip-hex_field (d ∷ []) (h, k) = rw (hex_char-space d h) refl
rstrip-hex_field (d ∷ e ∷ ds) (h, k) =
    ap
      (λ (cs : List ℕ). elim cs [
        | [] ↦ if is_space (hex_char d) then [] else hex_char d ∷ []
        | c ∷ rest ↦ hex_char d ∷ c ∷ rest
      ])
      (rstrip-hex_field (e ∷ ds) k)

strip-hex_field : (ds : List ℕ) → All (λ d. d < 16) ds → strip (hex_field ds) ≡ hex_field ds
unfolding strip lstrip
strip-hex_field [] h = ap lstrip (rstrip-hex_field [] h)
strip-hex_field (d ∷ ds) h =
    ap lstrip (rstrip-hex_field (d ∷ ds) h) ∙ rw (lstrip, hex_char-space d h.0) refl

digits_from-step :
    (closed : Bool) (n d : ℕ) (cs : List ℕ)
    → d < 16
    → digits_from 16 closed n (hex_char d ∷ cs) ≡ digits_from 16 true (n * 16 + d) cs
unfolding digits_from
digits_from-step closed n d cs h =
    let value = digit_value-hex_char d h in
    let small : ltb d 16 ≡ true = ground arith in
    let small' = ap (λ (v : ℕ). ltb v 16) value ∙ small in
    rw (digits_from, hex_char-mark d h, small')
      (ap (λ (v : ℕ). digits_from 16 true (n * 16 + v) cs) value)

digits_from-hex_field :
    (n : ℕ) (ds : List ℕ)
    → All (λ d. d < 16) ds
    → digits_from 16 true n (hex_field ds) ≡ some (value_from n ds)
unfolding digits_from
digits_from-hex_field n [] h = refl
digits_from-hex_field n (d ∷ ds) (h, k) =
    digits_from-step true n d (hex_field ds) h ∙ digits_from-hex_field (n * 16 + d) ds k

prefixed_hex-hex_field :
    (d : ℕ) (ds : List ℕ)
    → All (λ e. e < 16) (d ∷ ds)
    → prefixed_hex (hex_field (d ∷ ds)) ≡ some (value_from 0 (d ∷ ds))
prefixed_hex-hex_field d [] (h, k) =
    digits_from-step false 0 d [] h ∙ digits_from-hex_field (0 * 16 + d) [] k
prefixed_hex-hex_field d (e ∷ ds) (h, (h', k)) =
    let read : digits_from 16 false 0 (hex_field (d ∷ e ∷ ds)) ≡ some (value_from 0 (d ∷ e ∷ ds)) =
      digits_from-step false 0 d (hex_field (e ∷ ds)) h
      ∙ digits_from-hex_field (0 * 16 + d) (e ∷ ds) (h', k) in
    by_zero (hex_char d == b'0') (hex_char e == b'x' || hex_char e == b'X') (hex_char-prefix e h')
      read
  where
    by_zero :
        (zero_first prefix : Bool)
        → prefix ≡ false
        → digits_from 16 false 0 (hex_field (d ∷ e ∷ ds)) ≡ some (value_from 0 (d ∷ e ∷ ds))
        → (if zero_first
            then if prefix
              then after_prefix 16 (hex_field ds)
              else digits_from 16 false 0 (hex_field (d ∷ e ∷ ds))
            else digits_from 16 false 0 (hex_field (d ∷ e ∷ ds)))
          ≡ some (value_from 0 (d ∷ e ∷ ds))
    by_zero true true q read = absurd (cc q)
    by_zero true false q read = read
    by_zero false prefix q read = read

-- Digits to base 16 are read as their value.
hex_int-hex_field :
    (d : ℕ) (ds : List ℕ)
    → All (λ e. e < 16) (d ∷ ds)
    → hex_int (hex_field (d ∷ ds)) ≡ ok (value_from 0 (d ∷ ds))
unfolding hex_int
hex_int-hex_field d ds h =
    ap (λ (cs : List ℕ). or_raised value_error (prefixed_hex cs)) (strip-hex_field (d ∷ ds) h)
    ∙ ap (or_raised value_error) (prefixed_hex-hex_field d ds h)

-- The number is what the field is read as, and a field of digits alone is read as their value.
pub record IsNumber (field : List ℕ) (n : ℕ) : Type 0 where
  pub is_read : hex_int field ≡ ok n
  pub of_digits :
      (d : ℕ) (ds : List ℕ)
      → field ≡ hex_field (d ∷ ds)
      → All (λ e. e < 16) (d ∷ ds)
      → n ≡ value_from 0 (d ∷ ds)

pub hex_int-IsNumber : (field : List ℕ) (n : ℕ) → hex_int field ≡ ok n → IsNumber field n
hex_int-IsNumber field n e = record {
  is_read = e;
  of_digits = λ d ds q h. ok-eq (sym e ∙ ap hex_int q ∙ hex_int-hex_field d ds h);
}
  where
    ok-eq : {m k : ℕ} → ◌≡◌ {A = Result ℕ} (ok m) (ok k) → m ≡ k
    ok-eq q = ground arith
