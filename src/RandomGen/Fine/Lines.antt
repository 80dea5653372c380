-- ===== src/RandomGen/Fine/Lines.antt =====
-- sim/tools/random_gen.py: lists of lines of a program, and the statements among them.
use rv32im_5_stage_pipelined.Base.{
  ℕ, suc, ◌+◌, ◌<◌, ◌≡◌, refl, arith, Bool, true, false, List, [], ◌∷◌, ◌++◌, inl, inr, eq→==,
  if◌then◌else◌,
}
use rv32im_5_stage_pipelined.Iss.State.{member}
use rv32im_5_stage_pipelined.RandomGen.Source.{All}
use rv32im_5_stage_pipelined.RandomGen.Lines.{label_text, label_line}
use rv32im_5_stage_pipelined.RandomGen.Tokens.{label_text-read}
use rv32im_5_stage_pipelined.RandomGen.Resolve.{label_if}
use rv32im_5_stage_pipelined.RandomGen.Fine.{In, IsName, Stmt, Fine}

pub In-append_left : {A : Type 0} (a : A) (xs ys : List A) → In a xs → In a (xs ++ ys)
In-append_left a [] ys i = absurd i
In-append_left a (x ∷ xs) ys (inl e) = inl e
In-append_left a (x ∷ xs) ys (inr i) = inr (In-append_left a xs ys i)

pub In-append_right : {A : Type 0} (a : A) (xs ys : List A) → In a ys → In a (xs ++ ys)
In-append_right a [] ys i = i
In-append_right a (x ∷ xs) ys i = inr (In-append_right a xs ys i)

-- Lines of a program, with the number of statements among them.
abbrev pub weight : {xlen : ℕ} {ls : List (List ℕ)} {t : List ℕ} → Fine xlen ls t → ℕ
weight (Fine.stmt t s) = 1
weight (Fine.label l name n) = 0

abbrev pub weights :
    (xlen : ℕ) (ls : List (List ℕ)) (out : List (List ℕ)) → All (Fine xlen ls) out → ℕ
weights xlen ls [] h = 0
weights xlen ls (t ∷ out) h = weight h.0 + weights xlen ls out h.1

abbrev pub FineLines : ℕ → List (List ℕ) → List (List ℕ) → ℕ → Type 0
FineLines xlen ls out n = (h : All (Fine xlen ls) out) × (weights xlen ls out h ≡ n)

pub FineLines-append :
    (xlen : ℕ) (ls xs ys : List (List ℕ)) (n m : ℕ)
    → FineLines xlen ls xs n
    → FineLines xlen ls ys m
    → FineLines xlen ls (xs ++ ys) (n + m)
FineLines-append xlen ls [] ys n m (h, e) (k, e') = (k, omega arith)
FineLines-append xlen ls (x ∷ xs) ys n m ((f, h), e) (k, e') =
    let (h', e'') = FineLines-append xlen ls xs ys (weights xlen ls xs h) m (h, refl) (k, e') in
    ((f, h'), omega arith)

pub FineLines-Stmt :
    (xlen : ℕ) (ls xs : List (List ℕ)) (t : List ℕ) (n : ℕ)
    → Stmt xlen ls t
    → FineLines xlen ls xs n
    → FineLines xlen ls (t ∷ xs) (suc n)
FineLines-Stmt xlen ls xs t n s (h, e) = ((Fine.stmt t s, h), omega arith)

pub label_line-IsName : (n : ℕ) → n < 1024 → IsName (label_line n) (label_text n)
label_line-IsName n lt =
    let (stripped, cleaned, named, p) = label_text-read n lt in (cleaned, named, stripped)

In-member : (n : ℕ) (labels : List ℕ) → In n labels → member n labels ≡ true
In-member n [] i = absurd i
In-member n (x ∷ xs) (inl e) = rw (eq→== n x e) refl
In-member n (x ∷ xs) (inr i) = ground (arith, In-member n xs i)

pub label_if-FineLines :
    (xlen : ℕ) (ls : List (List ℕ)) (n : ℕ) (labels : List ℕ)
    → n < 1024
    → FineLines xlen ls (label_if n labels) 0
unfolding label_if
label_if-FineLines xlen ls n labels lt = by_test (member n labels)
  where
    by_test : (b : Bool) → FineLines xlen ls (if b then label_line n ∷ [] else []) 0
    by_test true = ((Fine.label (label_line n) (label_text n) (label_line-IsName n lt), tt), refl)
    by_test false = (tt, refl)

pub label_if-In : (n : ℕ) (labels : List ℕ) → In n labels → In (label_line n) (label_if n labels)
unfolding label_if
label_if-In n labels i = rw (In-member n labels i) (inl refl)
