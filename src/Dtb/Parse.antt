-- ===== src/Dtb/Parse.antt =====
-- sim/tools/gen_dtb.py, `parse_and_validate`.
pub mod Ends
use rv32im_5_stage_pipelined.Base.{
  ℕ, zero, suc, ◌+◌, ◌-◌, ◌*◌, ◌/◌, ◌^◌, Bool, true, false, Option, none, some, List, [], ◌∷◌, ◌==◌,
  ltb, leb, if◌then◌else◌, ◌&&◌,
}
use rv32im_5_stage_pipelined.Base.Lists.{length}
use rv32im_5_stage_pipelined.Dtb.Bytes.{◌>>=◌, unpack32, drop, take, find_zero}
use rv32im_5_stage_pipelined.Dtb.Builder.{
  fdt_magic, fdt_begin_node, fdt_end_node, fdt_prop, fdt_end,
}

-- `struct.error`, the `ValueError` of `bytes.index`, and the assertions. The last one is the model's:
-- the loop has no rounds left.
pub data Failure : Type 0 where
  struct_error value_error : Failure
  bad_magic bad_totalsize bad_off_rsvmap bad_off_struct bad_off_strings bad_strings_end : Failure
  bad_rsvmap unmatched_end_node bad_nameoff unknown_token : Failure
  unbalanced no_end too_shallow no_properties : Failure
  out_of_rounds : Failure

pub data Checked (A : Type 0) : Type 0 where
  accepted : A → Checked A
  failed : Failure → Checked A

abbrev pub assert : {A : Type 0} → Bool → Failure → Checked A → Checked A
assert b e rest = if b then rest else failed e

-- The variables of the loop.
pub record Scan : Type 0 where
  pub depth : ℕ
  pub max_depth : ℕ
  pub prop_count : ℕ

abbrev pub scan_start : Scan
scan_start = record { depth = 0; max_depth = 0; prop_count = 0 }

pub data Round : Type 0 where
  next : ℕ → Scan → Round
  saw_end : Scan → Round
  stop : Failure → Round

-- `(n + 3) & ~3`
abbrev pub round_up : ℕ → ℕ
round_up n = (n + 3) / 4 * 4

abbrev pub larger : ℕ → ℕ → ℕ
larger a b = if ltb a b then b else a

-- Past a BEGIN_NODE token.
unfoldable pub on_begin_node : List ℕ → ℕ → Scan → Round
on_begin_node struct_bytes i st = elim (find_zero (drop i struct_bytes)) [
  | none ↦ stop value_error
  | some name_len ↦
      next (i + round_up (name_len + 1))
        (record st { depth = st.depth + 1; max_depth = larger st.max_depth (st.depth + 1) })
]

unfoldable pub on_end_node : ℕ → Scan → Round
on_end_node i st = elim st.depth [
  | zero ↦ stop unmatched_end_node
  | suc depth ↦ next i (record st { depth = depth })
]

unfoldable pub on_prop : List ℕ → ℕ → ℕ → Scan → Round
on_prop struct_bytes strings_len i st =
    let rest = drop i struct_bytes in
    elim (unpack32 rest) [
      | none ↦ stop struct_error
      | some plen ↦ elim (unpack32 (drop 4 rest)) [
        | none ↦ stop struct_error
        | some nameoff ↦
            if ltb nameoff strings_len
            then next (i + 8 + round_up plen) (record st { prop_count = st.prop_count + 1 })
            else stop bad_nameoff
      ]
    ]

-- A round of the loop.
unfoldable pub round : List ℕ → ℕ → ℕ → Scan → Round
unfolding on_begin_node on_end_node on_prop
round struct_bytes strings_len i st = elim (unpack32 (drop i struct_bytes)) [
  | none ↦ stop struct_error
  | some tok ↦
      if tok == fdt_begin_node
      then on_begin_node struct_bytes (i + 4) st
      else if tok == fdt_end_node
      then on_end_node (i + 4) st
      else if tok == fdt_prop
      then on_prop struct_bytes strings_len (i + 4) st
      else if tok == fdt_end
      then saw_end st
      else stop unknown_token
]

-- The loop with the rounds that are left: where it ended, and whether at FDT_END.
unfoldable pub scan : ℕ → List ℕ → ℕ → ℕ → Scan → Checked (Bool × Scan)
unfolding round
scan zero struct_bytes strings_len i st = failed out_of_rounds
scan (suc left) struct_bytes strings_len i st = elim (ltb i (length struct_bytes)) [
  | false ↦ accepted (false, st)
  | true ↦ elim (round struct_bytes strings_len i st) [
    | next j after ↦ scan left struct_bytes strings_len j after
    | saw_end after ↦ accepted (true, after)
    | stop e ↦ failed e
  ]
]

pub record Info : Type 0 where
  pub max_depth : ℕ
  pub prop_count : ℕ
  pub totalsize : ℕ

-- The assertions after the loop.
unfoldable pub concluded : Bool → Scan → ℕ → Checked Info
concluded end_seen st totalsize = assert (st.depth == 0) unbalanced (
    assert end_seen no_end (
      assert (leb 2 st.max_depth) too_shallow (
        assert (ltb 0 st.prop_count) no_properties (
          accepted (record {
            max_depth = st.max_depth;
            prop_count = st.prop_count;
            totalsize = totalsize;
          })))))

abbrev pub after_loop : Checked (Bool × Scan) → ℕ → Checked Info
after_loop (accepted result) totalsize = concluded result.0 result.1 totalsize
after_loop (failed e) totalsize = failed e

-- `struct.unpack(">10I", blob[:40])`, without the two fields that are not looked at.
pub record Header : Type 0 where
  pub magic : ℕ
  pub totalsize : ℕ
  pub off_struct : ℕ
  pub off_strings : ℕ
  pub off_rsvmap : ℕ
  pub size_strings : ℕ
  pub size_struct : ℕ

unfoldable pub unpack_header : List ℕ → Option Header
unpack_header blob = do
  magic ← unpack32 blob
  totalsize ← unpack32 (drop 4 blob)
  off_struct ← unpack32 (drop 8 blob)
  off_strings ← unpack32 (drop 12 blob)
  off_rsvmap ← unpack32 (drop 16 blob)
  version ← unpack32 (drop 20 blob)
  last_comp ← unpack32 (drop 24 blob)
  boot_cpuid ← unpack32 (drop 28 blob)
  size_strings ← unpack32 (drop 32 blob)
  size_struct ← unpack32 (drop 36 blob)
  some (record {
    magic = magic;
    totalsize = totalsize;
    off_struct = off_struct;
    off_strings = off_strings;
    off_rsvmap = off_rsvmap;
    size_strings = size_strings;
    size_struct = size_struct;
  })

-- `struct.unpack(">Q", data[:8])`
unfoldable pub unpack64 : List ℕ → Option ℕ
unpack64 rest = do hi ← unpack32 rest; lo ← unpack32 (drop 4 rest); some (hi * 2 ^ 32 + lo)

-- The structure block and the strings block, and the loop over the first.
unfoldable pub validate_blocks : List ℕ → Header → Checked Info
unfolding scan concluded
validate_blocks blob h =
    let struct_bytes = take h.size_struct (drop h.off_struct blob) in
    let strings_bytes = take h.size_strings (drop h.off_strings blob) in
    after_loop (scan (suc (length struct_bytes)) struct_bytes (length strings_bytes) 0 scan_start)
      h.totalsize

unfoldable pub validate_rsvmap : List ℕ → Header → Checked Info
unfolding unpack64 validate_blocks
validate_rsvmap blob h = elim (unpack64 (drop h.off_rsvmap blob)) [
  | none ↦ failed struct_error
  | some rsvmap_addr ↦ elim (unpack64 (drop (h.off_rsvmap + 8) blob)) [
    | none ↦ failed struct_error
    | some rsvmap_size ↦
        assert (rsvmap_addr == 0 && rsvmap_size == 0) bad_rsvmap (validate_blocks blob h)
  ]
]

unfoldable pub parse_and_validate : List ℕ → Checked Info
unfolding unpack_header validate_rsvmap
parse_and_validate blob = elim (unpack_header blob) [
  | none ↦ failed struct_error
  | some h ↦ assert (h.magic == fdt_magic) bad_magic (
      assert (h.totalsize == length blob) bad_totalsize (
        assert (h.off_rsvmap == 40) bad_off_rsvmap (
          assert (h.off_struct == h.off_rsvmap + 16) bad_off_struct (
            assert (h.off_strings == h.off_struct + h.size_struct) bad_off_strings (
              assert (h.off_strings + h.size_strings == h.totalsize) bad_strings_end
                (validate_rsvmap blob h))))))
]
