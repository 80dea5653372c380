-- ===== src/Dtb/Core/Reads.antt =====
-- sim/tools/gen_dtb.py: the structure block that the calls of the builder write, read by the loop of
-- `parse_and_validate`.
use Prim.Native.String.{String}
use mathlib.Core.List.{append_assoc}
use rv32im_5_stage_pipelined.Base.{
  ℕ, zero, suc, ◌+◌, ◌-◌, ◌%◌, ◌^◌, ◌<◌, ◌≡◌, refl, sym, ap, ◌∙◌, arith, Option, none, some, List,
  [], ◌∷◌, ◌++◌, lt→ltb,
}
use rv32im_5_stage_pipelined.Base.Lists.{length, length-append}
use rv32im_5_stage_pipelined.Dtb.Bytes.{be32, unpack32, align4, encode, drop, find_zero, zero_bytes}
use rv32im_5_stage_pipelined.Dtb.Bytes.Laws.{
  unpack32-be32, length-align4, align4-append, drop-add, HasNoNul, find_zero-encode,
}
use rv32im_5_stage_pipelined.Dtb.Builder.{fdt_begin_node, fdt_end_node, fdt_prop, fdt_end}
use rv32im_5_stage_pipelined.Dtb.Core.{Call}
use rv32im_5_stage_pipelined.Dtb.Parse.{
  Scan, scan_start, next, saw_end, larger, round_up, on_begin_node, on_end_node, on_prop, round,
  scan,
}

abbrev pub deeper : Scan → Scan
deeper st = record st { depth = st.depth + 1; max_depth = larger st.max_depth (st.depth + 1) }

-- What a call means for the nesting and the count of properties; `none` where a node ends that did
-- not begin.
unfoldable pub nested : Call → Scan → Option Scan
nested (Call.begin_node name) st = some (deeper st)
nested Call.end_node st = elim st.depth [
  | zero ↦ none
  | suc depth ↦ some (record st { depth = depth })
]
nested _ st = some (record st { prop_count = st.prop_count + 1 })

unfoldable pub all_nested : List Call → Scan → Option Scan
unfolding nested
all_nested [] st = some st
all_nested (c ∷ cs) st = elim (nested c st) [ none ↦ none | some after ↦ all_nested cs after ]

-- No node has a name with the character 0.
abbrev pub IsNamed : Call → Type 0
IsNamed (Call.begin_node name) = HasNoNul name
IsNamed _ = Unit

abbrev pub AllNamed : List Call → Type 0
AllNamed [] = Unit
AllNamed (c ∷ cs) = IsNamed c × AllNamed cs

-- `count` rounds of the loop over the bytes `s`, with `n` bytes of strings, lead from the start to
-- the place `i` with the variables `st`.
abbrev pub Gets : List ℕ → ℕ → ℕ → ℕ → Scan → Type 0
Gets s n count i st = (left : ℕ) → scan (count + left) s n 0 scan_start ≡ scan left s n i st

pub Gets-next :
    (s : List ℕ) (n count i j : ℕ) (st after : Scan)
    → Gets s n count i st
    → i < length s
    → round s n i st ≡ next j after
    → Gets s n (suc count) j after
unfolding scan
Gets-next s n count i j st after got inside e left =
    let regroup : suc count + left ≡ count + suc left = omega arith in
    ap (λ (k : ℕ). scan k s n 0 scan_start) regroup
    ∙ got (suc left)
    ∙ rw (lt→ltb i (length s) inside, e, scan) refl

-- A token is found, and what stands behind it.
module _ (s tail : List ℕ) (n i : ℕ) (st : Scan) where
  pub round-begin_node :
      drop i s ≡ be32 fdt_begin_node ++ tail → round s n i st ≡ on_begin_node s (i + 4) st
  unfolding round
  round-begin_node e = rw (e, round) refl

  pub round-end_node :
      drop i s ≡ be32 fdt_end_node ++ tail → round s n i st ≡ on_end_node (i + 4) st
  unfolding round
  round-end_node e = rw (e, round) refl

  pub round-prop : drop i s ≡ be32 fdt_prop ++ tail → round s n i st ≡ on_prop s n (i + 4) st
  unfolding round
  round-prop e = rw (e, round) refl

  pub round-end : drop i s ≡ be32 fdt_end ++ tail → round s n i st ≡ saw_end st
  unfolding round
  round-end e = rw (e, round) refl

pub drop-behind :
    (s tail : List ℕ) (i tok : ℕ) → drop i s ≡ be32 tok ++ tail → drop (i + 4) s ≡ tail
unfolding drop
drop-behind s tail i tok e = drop-add i 4 s ∙ ap (λ (l : List ℕ). drop 4 l) e

-- The bytes of a node's name.
unfoldable pub name_bytes : List ℕ → List ℕ
name_bytes bytes = align4 (bytes ++ (0 ∷ []))

pub on_begin_node-name :
    (name : String) {bytes : List ℕ} (s rest : List ℕ) (i : ℕ) (st : Scan)
    → HasNoNul name
    → encode name ≡ some bytes
    → drop i s ≡ name_bytes bytes ++ rest
    → on_begin_node s i st ≡ next (i + length (name_bytes bytes)) (deeper st)
unfolding on_begin_node name_bytes
on_begin_node-name name {bytes} s rest i st h e there =
    let name_end = bytes ++ (0 ∷ []) in
    let padding = zero_bytes ((4 - length name_end % 4) % 4) in
    let shape : drop i s ≡ bytes ++ (0 ∷ (padding ++ rest)) =
      there ∙ align4-append name_end rest ∙ append_assoc bytes (0 ∷ []) (padding ++ rest) in
    let found : find_zero (drop i s) ≡ some (length bytes) =
      ap find_zero shape ∙ find_zero-encode name (padding ++ rest) h e in
    let size : round_up (length bytes + 1) ≡ length (align4 name_end) =
      omega (arith, length-align4 name_end, length-append bytes (0 ∷ [])) in
    rw (found, on_begin_node) (ap (λ (k : ℕ). next (i + k) (deeper st)) size)

pub on_prop-value :
    (s value rest : List ℕ) (n i off : ℕ) (st : Scan)
    → length value < 2 ^ 32
    → off < 2 ^ 32
    → off < n
    → drop i s ≡ be32 (length value) ++ (be32 off ++ (align4 value ++ rest))
    → on_prop s n i st
      ≡ next (i + 8 + length (align4 value)) (record st { prop_count = st.prop_count + 1 })
unfolding on_prop drop
on_prop-value s value rest n i off st hl ho hn there =
    let behind = be32 off ++ (align4 value ++ rest) in
    let plen : unpack32 (drop i s) ≡ some (length value) =
      ap unpack32 there ∙ unpack32-be32 (length value) behind hl in
    let nameoff : unpack32 (drop 4 (drop i s)) ≡ some off =
      ap (λ (l : List ℕ). unpack32 (drop 4 l)) there
      ∙ unpack32-be32 off (align4 value ++ rest) ho in
    rw (plen, nameoff, lt→ltb off n hn, on_prop)
      (ap (λ (k : ℕ). next (i + 8 + k) (record st { prop_count = st.prop_count + 1 }))
        (sym (length-align4 value)))
