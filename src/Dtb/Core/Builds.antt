-- ===== src/Dtb/Core/Builds.antt =====
-- sim/tools/gen_dtb.py: the calls of the builder and `build` raise nothing, if every text is ASCII and
-- the blob has fewer than 2 ** 32 bytes.
use Prim.Native.String.{String}
use mathlib.Core.Path.{subst}
use rv32im_5_stage_pipelined.Base.{
  ℕ, ◌+◌, ◌^◌, ◌≤◌, ◌<◌, ◌≡◌, refl, ap, arith, Option, none, some, List, [], ◌∷◌, ◌++◌, lt→ltb,
}
use rv32im_5_stage_pipelined.Base.Lists.{length, length-append}
use rv32im_5_stage_pipelined.Base.Int.{low_bits}
use rv32im_5_stage_pipelined.Dtb.Bytes.{◌>>=◌, be32, be64, pack32, align4, encode}
use rv32im_5_stage_pipelined.Dtb.Bytes.Laws.{length-align4}
use rv32im_5_stage_pipelined.Dtb.Builder
use rv32im_5_stage_pipelined.Dtb.Builder.{
  FdtBuilder, new, get_offset, string_off, prop_raw, fdt_begin_node, fdt_end_node, fdt_prop,
  strlist_bytes, cells_bytes,
}
use rv32im_5_stage_pipelined.Dtb.Core.{Call, call, calls}
use rv32im_5_stage_pipelined.Dtb.Core.Written.{
  InStrings, HasOffset, AtOffset, string_off-AtOffset, named, length-named, regroup,
}

-- The bytes that a call adds to the two blocks, at most; `none` where a text is not ASCII.
prop_room : String → List ℕ → Option ℕ
prop_room name value = do bytes ← encode name; some (length value + length bytes + 16)

unfoldable pub room : Call → Option ℕ
unfolding prop_room
room (Call.begin_node name) = do bytes ← encode name; some (length bytes + 8)
room Call.end_node = some 4
room (Call.prop_empty name) = prop_room name []
room (Call.prop_u32 name val) = prop_room name (be32 (low_bits 32 val))
room (Call.prop_u64 name val) = prop_room name (be64 (low_bits 64 val))
room (Call.prop_cells name cells) = prop_room name (cells_bytes cells)
room (Call.prop_str name val) = do bytes ← encode val; prop_room name (bytes ++ (0 ∷ []))
room (Call.prop_strlist name vals) = do bytes ← strlist_bytes vals; prop_room name bytes

unfoldable pub rooms : List Call → Option ℕ
unfolding room
rooms [] = some 0
rooms (c ∷ cs) = do here ← room c; rest ← rooms cs; some (here + rest)

abbrev pub size : FdtBuilder → ℕ
size b = length b.tree + length b.strings

-- There is a result, larger by at most `k`.
pub record Grows (k : ℕ) (b : FdtBuilder) (o : Option FdtBuilder) : Type 0 where
  pub result : FdtBuilder
  pub is_result : o ≡ some result
  pub bound : size result ≤ size b + k
  pub in_strings : InStrings result

-- Where the room is known and there is space for it, the call succeeds.
abbrev pub Fits : Option ℕ → FdtBuilder → Option FdtBuilder → Type 0
Fits none b o = Unit
Fits (some k) b o = size b + k < 2 ^ 32 → Grows k b o

Fits-bind {ℓ} :
    {A : Type ℓ} (t : Option A) (k : A → Option ℕ) (b : FdtBuilder) (f : A → Option FdtBuilder)
    → ((a : A) → t ≡ some a → Fits (k a) b (f a))
    → Fits (t >>= k) b (t >>= f)
Fits-bind none k b f h = tt
Fits-bind (some a) k b f h = h a refl

pub pack32-fits : (n : ℕ) → n < 2 ^ 32 → pack32 n ≡ some (be32 n)
unfolding pack32
pack32-fits n h = rw (lt→ltb n (2 ^ 32) h) refl

record Named (size : ℕ) (b : FdtBuilder) (o : Option (ℕ × FdtBuilder)) : Type 0 where
  result : ℕ × FdtBuilder
  is_result : o ≡ some result
  bound : length result.1.strings ≤ length b.strings + size + 1

string_off-Named :
    (name : String) (b : FdtBuilder) (bytes : List ℕ)
    → encode name ≡ some bytes
    → Named (length bytes) b (string_off name b)
unfolding string_off named
string_off-Named name b bytes e = by_found (get_offset b.string_offsets name)
  where
    by_found :
        (found : Option ℕ)
        → Named (length bytes) b (elim found [
          | some off ↦ some (off, b)
          | none ↦ (encode name >>= λ bytes. some (length b.strings, named b name bytes))
        ])
    by_found (some off) = record { result = (off, b); is_result = refl; bound = omega arith }
    by_found none = record {
      result = (length b.strings, named b name bytes);
      is_result = rw e refl;
      bound = omega (arith, length-named b name bytes);
    }

prop_raw-Fits :
    (name : String) (value : List ℕ) (b : FdtBuilder)
    → InStrings b
    → Fits (prop_room name value) b (prop_raw name value b)
unfolding prop_room prop_raw
prop_raw-Fits name value b h = by_name (encode name) (string_off-Named name b)
  where
    by_name :
        (o : Option (List ℕ))
        → ((bytes : List ℕ) → o ≡ some bytes → Named (length bytes) b (string_off name b))
        → Fits (o >>= λ bytes. some (length value + length bytes + 16)) b (prop_raw name value b)
    by_name none found = tt
    by_name (some bytes) found = λ space.
        let n = found bytes refl in
        let p = n.result in
        let at : HasOffset b p.0 p.1 =
          subst (AtOffset b) n.is_result (string_off-AtOffset name b h) in
        let aligned = length-align4 value in
        let strings_bound = n.bound in
        let value_word = pack32-fits (length value) (omega arith) in
        let off_word = pack32-fits p.0 (omega (arith, at.inside, n.bound)) in
        let tree = p.1.tree ++ be32 fdt_prop ++ be32 (length value) ++ be32 p.0 ++ align4 value in
        let length_tree : length tree ≡ length b.tree + 12 + length (align4 value) = omega (
          arith,
          ap length
              (regroup p.1.tree (be32 fdt_prop) (be32 (length value)) (be32 p.0) (align4 value)),
          length-append p.1.tree
              (be32 fdt_prop ++ (be32 (length value) ++ (be32 p.0 ++ align4 value))),
          ap length at.same_tree,
        ) in
        record {
          result = record p.1 { tree = tree };
          is_result = rw (n.is_result, value_word, off_word, prop_raw) refl;
          bound = omega (arith, length_tree, n.bound, aligned);
          in_strings = at.kept;
        }

begin_node-Fits :
    (name : String) (b : FdtBuilder)
    → InStrings b
    → Fits (room (Call.begin_node name)) b (Builder.begin_node name b)
unfolding room Builder.begin_node
begin_node-Fits name b h =
    Fits-bind (encode name) (λ bytes. some (length bytes + 8)) b _
      λ bytes _ space.
        let name_end = bytes ++ (0 ∷ []) in
        record {
          result = record b { tree = b.tree ++ be32 fdt_begin_node ++ align4 name_end };
          is_result = refl;
          bound = omega (
            arith,
            length-append (b.tree ++ be32 fdt_begin_node) (align4 name_end),
            length-append b.tree (be32 fdt_begin_node),
            length-align4 name_end,
            length-append bytes (0 ∷ []),
          );
          in_strings = h;
        }

call-Fits : (c : Call) (b : FdtBuilder) → InStrings b → Fits (room c) b (call c b)
unfolding call room
call-Fits (Call.begin_node name) b h = begin_node-Fits name b h
call-Fits Call.end_node b h = λ space. record {
  result = Builder.end_node b;
  is_result = refl;
  bound = omega (arith, length-append b.tree (be32 fdt_end_node));
  in_strings = h;
}
call-Fits (Call.prop_empty name) b h = prop_raw-Fits name [] b h
call-Fits (Call.prop_u32 name val) b h = prop_raw-Fits name (be32 (low_bits 32 val)) b h
call-Fits (Call.prop_u64 name val) b h = prop_raw-Fits name (be64 (low_bits 64 val)) b h
call-Fits (Call.prop_cells name cells) b h = prop_raw-Fits name (cells_bytes cells) b h
call-Fits (Call.prop_str name val) b h =
    Fits-bind (encode val) (λ bytes. prop_room name (bytes ++ (0 ∷ []))) b _
      λ bytes _. prop_raw-Fits name (bytes ++ (0 ∷ [])) b h
call-Fits (Call.prop_strlist name vals) b h =
    Fits-bind (strlist_bytes vals) (prop_room name) b _ λ bytes _. prop_raw-Fits name bytes b h

-- The calls succeed where there is room for all of them.
pub calls-Grows :
    (cs : List Call) (b : FdtBuilder) {k : ℕ}
    → InStrings b
    → rooms cs ≡ some k
    → size b + k < 2 ^ 32
    → Grows k b (calls cs b)
unfolding calls rooms
calls-Grows [] b h e space = record {
  result = b;
  is_result = refl;
  bound = omega arith;
  in_strings = h;
}
calls-Grows (c ∷ cs) b {k} h e space =
    by_room (room c) (rooms cs) (call-Fits c b h) e
      (λ rest after p q s. calls-Grows cs after {k = rest} p q s)
  where
    by_room :
        (here rest : Option ℕ)
        → Fits here b (call c b)
        → (here >>= λ n. rest >>= λ m. some (n + m)) ≡ some k
        → ((m : ℕ) (after : FdtBuilder)
            → InStrings after
            → rest ≡ some m
            → size after + m < 2 ^ 32
            → Grows m after (calls cs after))
        → Grows k b (call c b >>= λ after. calls cs after)
    by_room none rest fit e more = absurd (cc e)
    by_room (some n) none fit e more = absurd (cc e)
    by_room (some n) (some m) fit e more =
        let total : n + m ≡ k = ground arith in
        let first = fit (omega arith) in
        let last = more m first.result first.in_strings refl (omega (arith, first.bound)) in
        record {
          result = last.result;
          is_result = rw first.is_result last.is_result;
          bound = omega (arith, first.bound, last.bound);
          in_strings = last.in_strings;
        }
