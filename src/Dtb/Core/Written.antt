-- ===== src/Dtb/Core/Written.antt =====
-- sim/tools/gen_dtb.py: what the calls of the builder have written is what the loop of
-- `parse_and_validate` reads.
use Prim.Native.String.{String}
use mathlib.Core.Path.{subst}
use mathlib.Core.List.{append_assoc}
use text.Mathlib.Text
use rv32im_5_stage_pipelined.Base.{
  ℕ, suc, ◌+◌, ◌*◌, ◌^◌, ◌≤◌, ◌<◌, ◌≡◌, refl, sym, ap, ◌∙◌, arith, Option, none, some, List, [],
  ◌∷◌, ◌++◌, Bool, true, false,
}
use rv32im_5_stage_pipelined.Base.Lists.{length, length-append}
use rv32im_5_stage_pipelined.Base.Int.{low_bits}
use rv32im_5_stage_pipelined.Dtb.Bytes.{◌>>=◌, be32, be64, pack32, align4, encode, drop}
use rv32im_5_stage_pipelined.Dtb.Bytes.Laws.{pack32-eq-some, drop-append, HasNoNul}
use rv32im_5_stage_pipelined.Dtb.Builder
use rv32im_5_stage_pipelined.Dtb.Builder.{
  FdtBuilder, new, get_offset, string_off, prop_raw, fdt_begin_node, fdt_end_node, fdt_prop,
  strlist_bytes, cells_bytes,
}
use rv32im_5_stage_pipelined.Dtb.Core.{Call, call, calls}
use rv32im_5_stage_pipelined.Dtb.Core.Reads.{
  deeper, nested, all_nested, IsNamed, AllNamed, Gets, Gets-next, round-begin_node, round-end_node,
  round-prop, drop-behind, name_bytes, on_begin_node-name, on_prop-value,
}
use rv32im_5_stage_pipelined.Dtb.Parse.{Scan, next, on_end_node, round}

-- Every name in the table stands in the strings block.
abbrev pub InStrings : FdtBuilder → Type 0
InStrings b =
    (name : String) (off : ℕ) → get_offset b.string_offsets name ≡ some off → off < length b.strings

-- The structure block is read from the start to its end, in `count` rounds, with the variables `st`.
pub record IsRead (b : FdtBuilder) (st : Scan) : Type 0 where
  pub count : ℕ
  pub rounds : count * 4 ≤ length b.tree
  pub read :
      (n : ℕ) (rest : List ℕ)
      → length b.strings ≤ n
      → Gets (b.tree ++ rest) n count (length b.tree) st
  pub in_strings : InStrings b

-- A chunk of at least four bytes that one round reads.
IsRead-chunk :
    (b b' : FdtBuilder) (st after : Scan) (chunk : List ℕ)
    → IsRead b st
    → b'.tree ≡ b.tree ++ chunk
    → 4 ≤ length chunk
    → length b.strings ≤ length b'.strings
    → InStrings b'
    → ((n : ℕ) (s rest : List ℕ)
        → length b'.strings ≤ n
        → drop (length b.tree) s ≡ chunk ++ rest
        → round s n (length b.tree) st ≡ next (length b.tree + length chunk) after)
    → IsRead b' after
IsRead-chunk b b' st after chunk r tree size grown in_strings one =
    let len : length b'.tree ≡ length b.tree + length chunk =
      ap length tree ∙ length-append b.tree chunk in
    record {
      count = suc r.count;
      rounds = omega (arith, len, r.rounds);
      read = λ n rest le.
          let s = b.tree ++ (chunk ++ rest) in
          let shape : s ≡ b'.tree ++ rest =
            sym (ap (λ (l : List ℕ). l ++ rest) tree ∙ append_assoc b.tree chunk rest) in
          let inside : length b.tree < length s =
            omega (arith, length-append b.tree (chunk ++ rest), length-append chunk rest) in
          subst (λ (l : List ℕ). Gets l n (suc r.count) (length b'.tree) after) shape
            (subst (λ (k : ℕ). Gets s n (suc r.count) k after) (sym len)
              (Gets-next s n r.count (length b.tree) (length b.tree + length chunk) st after
                (r.read n (chunk ++ rest) (omega arith)) inside
                (one n s rest le (drop-append b.tree (chunk ++ rest)))));
      in_strings = in_strings;
    }

-- A name gets an offset in the strings block, and the structure block is left alone.
pub record HasOffset (b : FdtBuilder) (off : ℕ) (b' : FdtBuilder) : Type 0 where
  pub same_tree : b'.tree ≡ b.tree
  pub grown : length b.strings ≤ length b'.strings
  pub inside : off < length b'.strings
  pub kept : InStrings b'

abbrev pub AtOffset : FdtBuilder → Option (ℕ × FdtBuilder) → Type 0
AtOffset b none = Unit
AtOffset b (some (off, b')) = HasOffset b off b'

unfoldable pub named : FdtBuilder → String → List ℕ → FdtBuilder
named b name bytes = record b {
  strings = b.strings ++ bytes ++ (0 ∷ []);
  string_offsets = (name, length b.strings) ∷ b.string_offsets;
}

pub length-named :
    (b : FdtBuilder) (name : String) (bytes : List ℕ)
    → length (named b name bytes).strings ≡ length b.strings + length bytes + 1
unfolding named
length-named b name bytes =
    omega (arith, length-append (b.strings ++ bytes) (0 ∷ []), length-append b.strings bytes)

named-InStrings :
    (b : FdtBuilder) (name : String) (bytes : List ℕ) → InStrings b → InStrings (named b name bytes)
unfolding named
named-InStrings b name bytes h key off e = by_name (Text.◌==◌ name key) e
  where
    size : length (named b name bytes).strings ≡ length b.strings + length bytes + 1
    size = length-named b name bytes

    by_name :
        (same : Bool)
        → ◌≡◌ {A = Option ℕ}
            (elim same [ true ↦ some (length b.strings) | false ↦ get_offset b.string_offsets key ])
            (some off)
        → off < length (named b name bytes).strings
    by_name true p = let at : length b.strings ≡ off = ground arith in omega (arith, size)
    by_name false p = omega (arith, size, h key off p)

pub string_off-AtOffset :
    (name : String) (b : FdtBuilder) → InStrings b → AtOffset b (string_off name b)
unfolding string_off named
string_off-AtOffset name b h = by_found (get_offset b.string_offsets name) (h name) (encode name)
  where
    by_found :
        (found : Option ℕ)
        → ((off : ℕ) → found ≡ some off → off < length b.strings)
        → (encoded : Option (List ℕ))
        → AtOffset b (elim found [
          | some off ↦ some (off, b)
          | none ↦ (encoded >>= λ bytes. some (length b.strings, named b name bytes))
        ])
    by_found (some off) old encoded = record {
      same_tree = refl;
      grown = omega arith;
      inside = old off refl;
      kept = h;
    }
    by_found none old none = tt
    by_found none old (some bytes) = record {
      same_tree = refl;
      grown = omega (arith, length-named b name bytes);
      inside = omega (arith, length-named b name bytes);
      kept = named-InStrings b name bytes h;
    }

-- If there is a builder, the loop reads what it has written, with the variables `st`.
abbrev pub ReadBy : Scan → Option FdtBuilder → Type 0
ReadBy st none = Unit
ReadBy st (some b) = IsRead b st

ReadBy-bind {ℓ} :
    {A : Type ℓ} (st : Scan) (o : Option A) (f : A → Option FdtBuilder)
    → ((a : A) → o ≡ some a → ReadBy st (f a))
    → ReadBy st (o >>= f)
ReadBy-bind st none f h = tt
ReadBy-bind st (some a) f h = h a refl

abbrev with_prop : Scan → Scan
with_prop st = record st { prop_count = st.prop_count + 1 }

prop_chunk : ℕ → List ℕ → List ℕ
prop_chunk off value = be32 fdt_prop ++ (be32 (length value) ++ (be32 off ++ align4 value))

round-prop_chunk :
    (s value rest : List ℕ) (n i off : ℕ) (st : Scan)
    → length value < 2 ^ 32
    → off < 2 ^ 32
    → off < n
    → drop i s ≡ prop_chunk off value ++ rest
    → round s n i st ≡ next (i + length (prop_chunk off value)) (with_prop st)
unfolding prop_chunk
round-prop_chunk s value rest n i off st hl ho hn there =
    let tail = be32 (length value) ++ (be32 off ++ (align4 value ++ rest)) in
    let e : i + 4 + 8 + length (align4 value) ≡ i + length (prop_chunk off value) = omega arith in
    round-prop s tail n i st there
    ∙ on_prop-value s value rest n (i + 4) off st hl ho hn (drop-behind s tail i fdt_prop there)
    ∙ ap (λ (k : ℕ). next k (with_prop st)) e

pub regroup : (t a b c d : List ℕ) → t ++ a ++ b ++ c ++ d ≡ t ++ (a ++ (b ++ (c ++ d)))
regroup t a b c d = simp append_assoc

prop_raw-ReadBy :
    (name : String) (value : List ℕ) (b : FdtBuilder) (st : Scan)
    → IsRead b st
    → ReadBy (with_prop st) (prop_raw name value b)
unfolding prop_raw prop_chunk
prop_raw-ReadBy name value b st r = ReadBy-bind (with_prop st) (string_off name b) _ λ p e.
    let at : HasOffset b p.0 p.1 = subst (AtOffset b) e (string_off-AtOffset name b r.in_strings) in
    ReadBy-bind (with_prop st) (pack32 (length value)) _ λ len_word el.
      ReadBy-bind (with_prop st) (pack32 p.0) _ λ off_word eo.
        let (sl, hl) = pack32-eq-some (length value) el in
        let (so, ho) = pack32-eq-some p.0 eo in
        IsRead-chunk b
          (record p.1 { tree = p.1.tree ++ be32 fdt_prop ++ len_word ++ off_word ++ align4 value })
          st (with_prop st) (prop_chunk p.0 value) r
          (rw (sl, so, at.same_tree)
            (regroup b.tree (be32 fdt_prop) (be32 (length value)) (be32 p.0) (align4 value)))
          (omega arith) at.grown at.kept
          (λ n s rest le there.
            round-prop_chunk s value rest n (length b.tree) p.0 st hl ho (omega (arith, at.inside))
              there)

-- A call leaves what the loop reads with the variables that the call means.
abbrev pub Read : Option Scan → Option FdtBuilder → Type 0
Read none o = Unit
Read (some st) o = ReadBy st o

begin_node-ReadBy :
    (name : String) (b : FdtBuilder) (st : Scan)
    → HasNoNul name
    → IsRead b st
    → ReadBy (deeper st) (Builder.begin_node name b)
unfolding Builder.begin_node name_bytes
begin_node-ReadBy name b st h r = ReadBy-bind (deeper st) (encode name) _ λ bytes coded.
    IsRead-chunk b (record b { tree = b.tree ++ be32 fdt_begin_node ++ align4 (bytes ++ (0 ∷ [])) })
      st (deeper st) (be32 fdt_begin_node ++ name_bytes bytes) r
      (append_assoc b.tree (be32 fdt_begin_node) (name_bytes bytes)) (omega arith) (omega arith)
      r.in_strings
      λ n s rest le there.
        let tail = name_bytes bytes ++ rest in
        let i = length b.tree in
        let e : i + 4 + length (name_bytes bytes)
            ≡ i + length (be32 fdt_begin_node ++ name_bytes bytes) =
          omega arith in
        round-begin_node s tail n i st there
        ∙ on_begin_node-name name s rest (i + 4) st h coded
            (drop-behind s tail i fdt_begin_node there)
        ∙ ap (λ (k : ℕ). next k (deeper st)) e

end_node-ReadBy :
    (b : FdtBuilder) (st after : Scan)
    → nested Call.end_node st ≡ some after
    → IsRead b st
    → IsRead (Builder.end_node b) after
unfolding Builder.end_node nested on_end_node
end_node-ReadBy b st after e r =
    IsRead-chunk b (Builder.end_node b) st after (be32 fdt_end_node) r refl (omega arith)
      (omega arith) r.in_strings
      (λ n s rest le there. round-end_node s rest n (length b.tree) st there ∙ ground (arith, e))

Read-some :
    (o : Option Scan) (p : Option FdtBuilder)
    → ((after : Scan) → o ≡ some after → ReadBy after p)
    → Read o p
Read-some none p h = tt
Read-some (some after) p h = h after refl

call-Read :
    (c : Call) (b : FdtBuilder) (st : Scan)
    → IsNamed c
    → IsRead b st
    → Read (nested c st) (call c b)
unfolding call nested
call-Read (Call.begin_node name) b st h r = begin_node-ReadBy name b st h r
call-Read Call.end_node b st h r =
    Read-some (nested Call.end_node st) (some (Builder.end_node b))
      λ after e. end_node-ReadBy b st after e r
call-Read (Call.prop_empty name) b st h r = prop_raw-ReadBy name [] b st r
call-Read (Call.prop_u32 name val) b st h r = prop_raw-ReadBy name (be32 (low_bits 32 val)) b st r
call-Read (Call.prop_u64 name val) b st h r = prop_raw-ReadBy name (be64 (low_bits 64 val)) b st r
call-Read (Call.prop_cells name cells) b st h r = prop_raw-ReadBy name (cells_bytes cells) b st r
call-Read (Call.prop_str name val) b st h r =
    ReadBy-bind (with_prop st) (encode val) _
      λ bytes _. prop_raw-ReadBy name (bytes ++ (0 ∷ [])) b st r
call-Read (Call.prop_strlist name vals) b st h r =
    ReadBy-bind (with_prop st) (strlist_bytes vals) _ λ bytes _. prop_raw-ReadBy name bytes b st r

-- Any calls, from a builder that is read.
pub calls-Read :
    (cs : List Call) (b : FdtBuilder) (st : Scan)
    → AllNamed cs
    → IsRead b st
    → Read (all_nested cs st) (calls cs b)
unfolding calls all_nested
calls-Read [] b st h r = r
calls-Read (c ∷ cs) b st h r =
    at (nested c st) (call c b) (call-Read c b st h.0 r)
      (λ after b' r'. calls-Read cs b' after h.1 r')
  where
    at :
        (o : Option Scan) (p : Option FdtBuilder)
        → Read o p
        → ((after : Scan) (b' : FdtBuilder)
            → IsRead b' after
            → Read (all_nested cs after) (calls cs b'))
        → Read (elim o [ none ↦ none | some after ↦ all_nested cs after ]) (p >>= λ b'. calls cs b')
    at none p q rec = tt
    at (some after) (some b') q rec = rec after b' q
    at (some after) none q rec = Read-some (all_nested cs after) none (λ _ _. tt)
