-- ===== src/Dtb/Core/Accepts.antt =====
-- sim/tools/gen_dtb.py: `parse_and_validate` accepts what `build` returns.
use mathlib.Core.Path.{subst, subst₂}
use mathlib.Core.List.{append_assoc}
use rv32im_5_stage_pipelined.Base.{
  ℕ, suc, ◌+◌, ◌-◌, ◌*◌, ◌/◌, ◌%◌, ◌^◌, ◌≤◌, ◌<◌, ◌≡◌, refl, sym, ap, ◌∙◌, arith, Option, none,
  some, List, [], ◌++◌, Bool, true, ltb, lt→ltb, ltb→lt, ◌==◌, eq→==, Bool-cases, inl, inr,
}
use rv32im_5_stage_pipelined.Base.Lists.{length, length-append}
use rv32im_5_stage_pipelined.Dtb.Bytes.{◌>>=◌, be32, be64, pack32, drop, take}
use rv32im_5_stage_pipelined.Dtb.Bytes.Laws.{drop-append, drop-add, take-append, take-length}
use rv32im_5_stage_pipelined.Dtb.Builder.{
  FdtBuilder, new, header, assemble, ended, build, fdt_magic, fdt_version, fdt_last_comp_version,
  fdt_end,
}
use rv32im_5_stage_pipelined.Dtb.Core.{Call, calls}
use rv32im_5_stage_pipelined.Dtb.Core.Builds.{size, rooms, calls-Grows, pack32-fits}
use rv32im_5_stage_pipelined.Dtb.Core.Reads.{all_nested, AllNamed, round-end}
use rv32im_5_stage_pipelined.Dtb.Core.Written.{IsRead, Read, calls-Read}
use rv32im_5_stage_pipelined.Dtb.Parse.{
  Failure, bad_totalsize, bad_off_strings, bad_strings_end, assert, Checked, accepted, Scan,
  scan_start, Header, Info, after_loop, scan, concluded, unpack_header, validate_blocks,
  validate_rsvmap, parse_and_validate,
}

new-IsRead : IsRead new scan_start
new-IsRead = record {
  count = 0;
  rounds = omega arith;
  read = λ n rest le left.
      let e : 0 + left ≡ left = omega arith in ap (λ (k : ℕ). scan k rest n 0 scan_start) e;
  in_strings = λ name off e. absurd (cc e);
}

-- The loop reads the whole block and stops at its last token.
scan-ended :
    (b : FdtBuilder) (st : Scan) (n : ℕ)
    → IsRead b st
    → length b.strings ≤ n
    → let s = b.tree ++ be32 fdt_end in scan (suc (length s)) s n 0 scan_start ≡ accepted (true, st)
unfolding scan
scan-ended b st n r le =
    let s = b.tree ++ be32 fdt_end in
    let size = length-append b.tree (be32 fdt_end) in
    let left = length s - r.count in
    let enough : suc (length s) ≡ r.count + suc left = omega (arith, r.rounds, size) in
    let inside : length b.tree < length s = omega (arith, size) in
    let last = round-end s [] n (length b.tree) st (drop-append b.tree (be32 fdt_end)) in
    ap (λ (k : ℕ). scan k s n 0 scan_start) enough
    ∙ r.read n (be32 fdt_end) le (suc left)
    ∙ rw (lt→ltb (length b.tree) (length s) inside, last, scan) refl

-- The blob's words in front of its two blocks.
abbrev front : ℕ → ℕ → ℕ → ℕ → List ℕ → List ℕ
front totalsize off_strings size_strings size_struct blocks =
    be32 fdt_magic
    ++ (be32 totalsize
        ++ (be32 56
            ++ (be32 off_strings
                ++ (be32 40
                    ++ (be32 fdt_version
                        ++ (be32 fdt_last_comp_version
                            ++ (be32 0
                                ++ (be32 size_strings
                                    ++ (be32 size_struct
                                        ++ (be32 0
                                            ++ (be32 0 ++ (be32 0 ++ (be32 0 ++ blocks)))))))))))))

word-be32 :
    (n : ℕ)
    → n < 2 ^ 32
    → n / 2 ^ 24 % 256 * 2 ^ 24 + n / 2 ^ 16 % 256 * 2 ^ 16 + n / 2 ^ 8 % 256 * 2 ^ 8 + n % 256 ≡ n
word-be32 n h = omega arith

abbrev header_of : ℕ → ℕ → ℕ → ℕ → Header
header_of t o z d = record {
  magic = fdt_magic;
  totalsize = t;
  off_struct = 56;
  off_strings = o;
  off_rsvmap = 40;
  size_strings = z;
  size_struct = d;
}

unpack_header-front :
    (t o z d : ℕ) (blocks : List ℕ)
    → t < 2 ^ 32
    → o < 2 ^ 32
    → z < 2 ^ 32
    → d < 2 ^ 32
    → unpack_header (front t o z d blocks) ≡ some (header_of t o z d)
unfolding unpack_header drop
unpack_header-front t o z d blocks ht ho hz hd = λ i.
    some (header_of (word-be32 t ht i) (word-be32 o ho i) (word-be32 z hz i) (word-be32 d hd i))

all_hold :
    (a b c : Bool) (x y z : Failure) (r : Checked Info)
    → a ≡ true
    → b ≡ true
    → c ≡ true
    → assert a x (assert b y (assert c z r)) ≡ r
all_hold a b c x y z r ha hb hc = rw (ha, hb, hc) refl

module _ (tree strings : List ℕ) where
  abbrev off_strings : ℕ
  off_strings = 56 + length tree

  abbrev total : ℕ
  total = 56 + length tree + length strings

  -- A blob whose header describes its blocks.
  blob_of : List ℕ
  blob_of = front total off_strings (length strings) (length tree) (tree ++ strings)

  abbrev blob_header : Header
  blob_header = header_of total off_strings (length strings) (length tree)

  length-blob : length blob_of ≡ total
  unfolding blob_of
  length-blob = omega (arith, length-append tree strings)

  struct-blob : take (length tree) (drop 56 blob_of) ≡ tree
  unfolding blob_of drop
  struct-blob = take-append tree strings

  drop-blob : drop off_strings blob_of ≡ strings
  unfolding blob_of drop
  drop-blob = drop-add 56 (length tree) blob_of ∙ drop-append tree strings

  strings-blob : take (length strings) (drop off_strings blob_of) ≡ strings
  strings-blob = ap (take (length strings)) drop-blob ∙ take-length strings

  abbrev checked : List ℕ → List ℕ → Checked Info
  checked s l = after_loop (scan (suc (length s)) s (length l) 0 scan_start) total

  validate_blocks-blob : validate_blocks blob_of blob_header ≡ checked tree strings
  unfolding validate_blocks
  validate_blocks-blob =
      ap (λ (s : List ℕ). checked s (take (length strings) (drop off_strings blob_of))) struct-blob
      ∙ ap (λ (l : List ℕ). checked tree l) strings-blob

  validate_rsvmap-blob : validate_rsvmap blob_of blob_header ≡ validate_blocks blob_of blob_header
  unfolding validate_rsvmap blob_of drop
  validate_rsvmap-blob = refl

  parse-blob : total < 2 ^ 32 → parse_and_validate blob_of ≡ checked tree strings
  unfolding parse_and_validate
  parse-blob small =
      let unpacked : unpack_header blob_of ≡ some blob_header =
        unfold blob_of in
        unpack_header-front total off_strings (length strings) (length tree) (tree ++ strings) small
          (omega arith) (omega arith) (omega arith) in
      let sum = off_strings + length strings in
      rw (unpacked, parse_and_validate)
        (all_hold (total == length blob_of) (off_strings == (56 + length tree)) (sum == total)
          bad_totalsize bad_off_strings bad_strings_end (validate_rsvmap blob_of blob_header)
          (eq→== total (length blob_of) (sym length-blob)) (eq→== off_strings off_strings refl)
          (eq→== sum total refl))
      ∙ validate_rsvmap-blob
      ∙ validate_blocks-blob

-- What `header` packs, if it packs.
abbrev IsFront : ℕ → ℕ → ℕ → ℕ → Option (List ℕ) → Type 0
IsFront t o z d none = Unit
IsFront t o z d (some head) =
    ((blocks : List ℕ) → head ++ (be64 0 ++ be64 0) ++ blocks ≡ front t o z d blocks) × (t < 2 ^ 32)

IsFront-bind :
    (t o z d n : ℕ) (f : List ℕ → Option (List ℕ))
    → (n < 2 ^ 32 → IsFront t o z d (f (be32 n)))
    → IsFront t o z d (pack32 n >>= f)
unfolding pack32
IsFront-bind t o z d n f h = elim (Bool-cases (ltb n (2 ^ 32))) [
  | inl e ↦ rw (e, pack32) (h (ltb→lt n (2 ^ 32) e))
  | inr e ↦ rw (e, pack32) tt
]

header-IsFront : (t o z d : ℕ) → IsFront t o z d (header t 56 o z d)
unfolding header be64
header-IsFront t o z d = IsFront-bind t o z d t _ λ ht.
    IsFront-bind t o z d o _
      λ _. IsFront-bind t o z d z _ λ _. IsFront-bind t o z d d _ (λ _. ((λ blocks. refl), ht))

-- The tree is deep enough, closed, and has a property.
pub record IsWhole (st : Scan) : Type 0 where
  pub closed : st.depth ≡ 0
  pub deep : 2 ≤ st.max_depth
  pub has_properties : 0 < st.prop_count

abbrev pub info_of : Scan → List ℕ → Info
info_of st blob = record {
  max_depth = st.max_depth;
  prop_count = st.prop_count;
  totalsize = length blob;
}

concluded-whole :
    (st : Scan) (blob : List ℕ) (n : ℕ)
    → IsWhole st
    → length blob ≡ n
    → concluded true st n ≡ accepted (info_of st blob)
unfolding concluded
concluded-whole st blob n w e = ground arith

abbrev AcceptsAs : Scan → Option (List ℕ) → Type 0
AcceptsAs st none = Unit
AcceptsAs st (some blob) = parse_and_validate blob ≡ accepted (info_of st blob)

assemble-AcceptsAs :
    (b : FdtBuilder) (st : Scan) → IsRead b st → IsWhole st → AcceptsAs st (assemble (ended b))
unfolding assemble be64 blob_of
assemble-AcceptsAs b st r w =
    by_head (header total' 56 off' (length b.strings) (length tree))
      (header-IsFront total' off' (length b.strings) (length tree))
  where
    tree : List ℕ
    tree = b.tree ++ be32 fdt_end

    off' : ℕ
    off' = 56 + length tree

    total' : ℕ
    total' = 56 + length tree + length b.strings

    by_head :
        (o : Option (List ℕ))
        → IsFront total' off' (length b.strings) (length tree) o
        → AcceptsAs st (o >>= λ head. some (head ++ (be64 0 ++ be64 0) ++ tree ++ b.strings))
    by_head none h = tt
    by_head (some head) h =
        let shape : head ++ (be64 0 ++ be64 0) ++ tree ++ b.strings ≡ blob_of tree b.strings =
          append_assoc (head ++ (be64 0 ++ be64 0)) tree b.strings ∙ h.0 (tree ++ b.strings) in
        let size = length-blob tree b.strings in
        rw shape (
          parse-blob tree b.strings h.1
          ∙ ap (λ (c : Checked (Bool × Scan)). after_loop c total')
              (scan-ended b st (length b.strings) r (omega arith))
          ∙ concluded-whole st (blob_of tree b.strings) total' w size)

-- What the calls write from a new builder is accepted, if the blob can be built.
pub calls-AcceptsAs :
    (cs : List Call) (b : FdtBuilder) (st : Scan)
    → AllNamed cs
    → all_nested cs scan_start ≡ some st
    → calls cs new ≡ some b
    → IsWhole st
    → AcceptsAs st (assemble (ended b))
calls-AcceptsAs cs b st named nest made w =
    let read : IsRead b st =
      subst₂ Read nest made (calls-Read cs new scan_start named new-IsRead) in
    assemble-AcceptsAs b st read w

header-fits :
    (t o z d : ℕ)
    → t < 2 ^ 32
    → o ≤ t
    → z ≤ t
    → d ≤ t
    → (head : List ℕ) × (header t 56 o z d ≡ some head)
unfolding header
header-fits t o z d ht ho hz hd =
    let packed = pack32-fits t ht in
    let packed_o = pack32-fits o (omega arith) in
    let packed_z = pack32-fits z (omega arith) in
    let packed_d = pack32-fits d (omega arith) in
    (
      be32 fdt_magic
          ++ be32 t
          ++ be32 56
          ++ be32 o
          ++ be32 40
          ++ be32 fdt_version
          ++ be32 fdt_last_comp_version
          ++ be32 0
          ++ be32 z
          ++ be32 d,
      rw (packed, packed_o, packed_z, packed_d, header) refl,
    )

assemble-fits :
    (b : FdtBuilder) → size b + 60 < 2 ^ 32 → (blob : List ℕ) × (assemble (ended b) ≡ some blob)
unfolding assemble
assemble-fits b space =
    let tree = b.tree ++ be32 fdt_end in
    let grown = length-append b.tree (be32 fdt_end) in
    let h =
      header-fits (56 + length tree + length b.strings) (56 + length tree) (length b.strings)
        (length tree) (omega (arith, grown)) (omega arith) (omega arith) (omega arith) in
    (h.0 ++ (be64 0 ++ be64 0) ++ tree ++ b.strings, unfold be64 in rw (h.1, assemble) refl)

-- Calls that name no node with a NUL, nest to a whole tree, and need fewer than 2 ** 32 - 60 bytes in
-- ASCII, build a blob, and `parse_and_validate` accepts it with the depth and the count of properties
-- of the calls and the length of the blob.
pub calls-accepted :
    (cs : List Call) (st : Scan) (k : ℕ)
    → AllNamed cs
    → all_nested cs scan_start ≡ some st
    → IsWhole st
    → rooms cs ≡ some k
    → k + 60 < 2 ^ 32
    → (blob : List ℕ) × (b : FdtBuilder) × ((calls cs new >>= build) ≡ some (blob, b))
      × (parse_and_validate blob ≡ accepted (info_of st blob))
unfolding build
calls-accepted cs st k names nest w room space =
    let made = calls-Grows cs new {k = k} (λ name off e. absurd (cc e)) room (omega arith) in
    let b = made.result in
    let (blob, is_blob) = assemble-fits b (omega (arith, made.bound)) in
    let accepts = calls-AcceptsAs cs b st names nest made.is_result w in
    (blob, ended b, rw (made.is_result, is_blob, build) refl, subst (AcceptsAs st) is_blob accepts)
