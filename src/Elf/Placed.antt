-- ===== src/Elf/Placed.antt =====
-- sim/tools/elf2mem.py: the bytes of the images.
use rv32im_5_stage_pipelined.Base.{
  ℕ, zero, suc, ◌+◌, ◌-◌, ◌≤◌, ◌≡◌, refl, sym, ap, ◌∙◌, arith, Bool, true, false, none, some, List,
  [], ◌∷◌, ◌++◌, ltb, if◌then◌else◌,
}
use rv32im_5_stage_pipelined.Base.Lists.{length, get_elem?}
use rv32im_5_stage_pipelined.Dtb.Bytes.{take, drop}
use rv32im_5_stage_pipelined.Elf.{value_error, ok, raised, put_at, put_within}

-- The byte at `i` of an image that has `d` there, once the blob is placed.
unfoldable pub byte_after : ℕ × List ℕ → ℕ → ℕ → ℕ
byte_after (off, blob) i d =
    if ltb i off then d else elim (get_elem? blob (i - off)) [ none ↦ d | some b ↦ b ]

abbrev pub bytes_after : List (ℕ × List ℕ) → ℕ → ℕ → ℕ
bytes_after [] i d = d
bytes_after (place ∷ places) i d = bytes_after places i (byte_after place i d)

put_at-suc :
    (x : ℕ) (xs : List ℕ) (off : ℕ) (blob : List ℕ)
    → put_at (x ∷ xs) (suc off) blob ≡ x ∷ put_at xs off blob
unfolding put_at take drop
put_at-suc x xs off blob =
    let e : suc off + length blob ≡ suc (off + length blob) = omega arith in
    ap (λ (n : ℕ). x ∷ (take off xs ++ (blob ++ drop n (x ∷ xs)))) e

put_at-zero-suc :
    (x : ℕ) (xs : List ℕ) (b : ℕ) (bs : List ℕ) → put_at (x ∷ xs) 0 (b ∷ bs) ≡ b ∷ put_at xs 0 bs
unfolding put_at take drop
put_at-zero-suc x xs b bs =
    let e : 0 + suc (length bs) ≡ suc (0 + length bs) = omega arith in
    ap (λ (n : ℕ). b ∷ (bs ++ drop n (x ∷ xs))) e

put_at-zero-nil : (xs : List ℕ) → put_at xs 0 [] ≡ xs
unfolding put_at take drop
put_at-zero-nil xs = refl

byte_after-nil : (i d : ℕ) → byte_after (0, []) i d ≡ d
unfolding byte_after
byte_after-nil i d = ground arith

byte_after-first : (b : ℕ) (bs : List ℕ) (d : ℕ) → byte_after (0, b ∷ bs) 0 d ≡ b
unfolding byte_after
byte_after-first b bs d = ground arith

byte_after-rest :
    (b : ℕ) (bs : List ℕ) (i d : ℕ) → byte_after (0, b ∷ bs) (suc i) d ≡ byte_after (0, bs) i d
unfolding byte_after
byte_after-rest b bs i d = ground arith

byte_after-before : (off : ℕ) (blob : List ℕ) (d : ℕ) → byte_after (suc off, blob) 0 d ≡ d
unfolding byte_after
byte_after-before off blob d = ground arith

byte_after-suc :
    (off : ℕ) (blob : List ℕ) (i d : ℕ)
    → byte_after (suc off, blob) (suc i) d ≡ byte_after (off, blob) i d
unfolding byte_after
byte_after-suc off blob i d = ground arith

-- An image changes by a place.
unfoldable pub Changed : ℕ × List ℕ → List ℕ → List ℕ → Type 0
Changed place image image' =
    (length image' ≡ length image)
    × ((i d : ℕ) → get_elem? image i ≡ some d → get_elem? image' i ≡ some (byte_after place i d))

Changed-nil : (image : List ℕ) → Changed (0, []) image image
unfolding Changed
Changed-nil image = (refl, λ i d e. e ∙ ap some (sym (byte_after-nil i d)))

Changed-rest :
    (x b : ℕ) (bs xs ys : List ℕ) → Changed (0, bs) xs ys → Changed (0, b ∷ bs) (x ∷ xs) (b ∷ ys)
unfolding Changed
Changed-rest x b bs xs ys h = (ap suc h.0, at)
  where
    at :
        (i d : ℕ)
        → get_elem? (x ∷ xs) i ≡ some d
        → get_elem? (b ∷ ys) i ≡ some (byte_after (0, b ∷ bs) i d)
    at zero d e = ap some (sym (byte_after-first b bs d))
    at (suc i) d e = h.1 i d e ∙ ap some (sym (byte_after-rest b bs i d))

Changed-suc :
    (x off : ℕ) (blob xs ys : List ℕ)
    → Changed (off, blob) xs ys
    → Changed (suc off, blob) (x ∷ xs) (x ∷ ys)
unfolding Changed
Changed-suc x off blob xs ys h = (ap suc h.0, at)
  where
    at :
        (i d : ℕ)
        → get_elem? (x ∷ xs) i ≡ some d
        → get_elem? (x ∷ ys) i ≡ some (byte_after (suc off, blob) i d)
    at zero d e = e ∙ ap some (sym (byte_after-before off blob d))
    at (suc i) d e = h.1 i d e ∙ ap some (sym (byte_after-suc off blob i d))

-- Placed within an image, a blob changes the bytes that it covers.
put_at-Changed :
    (image : List ℕ) (off : ℕ) (blob : List ℕ)
    → off + length blob ≤ length image
    → Changed (off, blob) image (put_at image off blob)
put_at-Changed image zero [] h = rw (put_at-zero-nil image) (Changed-nil image)
put_at-Changed [] zero (b ∷ bs) h = absurd (omega arith)
put_at-Changed (x ∷ xs) zero (b ∷ bs) h =
    rw (put_at-zero-suc x xs b bs)
      (Changed-rest x b bs xs (put_at xs 0 bs) (put_at-Changed xs 0 bs (omega arith)))
put_at-Changed [] (suc off) blob h = absurd (omega arith)
put_at-Changed (x ∷ xs) (suc off) blob h =
    rw (put_at-suc x xs off blob)
      (Changed-suc x off blob xs (put_at xs off blob) (put_at-Changed xs off blob (omega arith)))

pub put_within-Changed :
    (off : ℕ) (blob image image' : List ℕ)
    → put_within (length image) off blob image ≡ ok image'
    → Changed (off, blob) image image' × (off + length blob ≤ length image)
unfolding put_within
put_within-Changed off blob image image' e = by_size (ltb (length image) (off + length blob)) refl e
  where
    by_size :
        (b : Bool)
        → ltb (length image) (off + length blob) ≡ b
        → (if b then raised value_error else ok (put_at image off blob)) ≡ ok image'
        → Changed (off, blob) image image' × (off + length blob ≤ length image)
    by_size true small q = absurd (cc q)
    by_size false small q =
        let fits : off + length blob ≤ length image = ground arith in
        let shape : put_at image off blob ≡ image' = ground arith in
        (rw (sym shape) (put_at-Changed image off blob fits), fits)
