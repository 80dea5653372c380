-- ===== src/Dtb/Core/Own.antt =====
-- sim/tools/gen_dtb.py, `build_this_core_dtb`: the blob for this core is built and accepted.
use Prim.Native.String.{String}
use rv32im_5_stage_pipelined.Base.{
  ℕ, ◌+◌, ◌*◌, ◌^◌, ◌≤◌, ◌<◌, ◌≡◌, refl, ap, arith, Option, none, some, List, [], ◌∷◌, ◌++◌,
}
use rv32im_5_stage_pipelined.Base.Lists.{length, length-append}
use rv32im_5_stage_pipelined.Base.Int.{ℤ, pos}
use rv32im_5_stage_pipelined.Dtb.Bytes.{◌>>=◌, be64, encode}
use rv32im_5_stage_pipelined.Dtb.Builder.{FdtBuilder, new, build, cells_bytes}
use rv32im_5_stage_pipelined.Dtb.Core.{
  Call, calls, begin_node, end_node, prop_u32, prop_str, cpus_calls, memory_calls, soc_calls,
  initrd_calls, chosen_calls, core_calls, build_this_core_dtb,
}
use rv32im_5_stage_pipelined.Dtb.Core.Reads.{all_nested, AllNamed}
use rv32im_5_stage_pipelined.Dtb.Core.Builds.{room, rooms}
use rv32im_5_stage_pipelined.Dtb.Core.Accepts.{calls-accepted}
use rv32im_5_stage_pipelined.Dtb.Parse.{accepted, Scan, scan_start, parse_and_validate}

rooms-append :
    (xs ys : List Call) {a b : ℕ}
    → rooms xs ≡ some a
    → rooms ys ≡ some b
    → rooms (xs ++ ys) ≡ some (a + b)
unfolding rooms
rooms-append [] ys {a} {b} e f =
    let none_yet : a ≡ 0 = ground arith in rw (f, none_yet) (ap some (omega arith))
rooms-append (x ∷ xs) ys {a} {b} e f =
    by_room (room x) (rooms xs) e (λ n p. rooms-append xs ys {a = n} {b = b} p f)
  where
    by_room :
        (o p : Option ℕ)
        → (o >>= λ n. p >>= λ m. some (n + m)) ≡ some a
        → ((n : ℕ) → p ≡ some n → rooms (xs ++ ys) ≡ some (n + b))
        → (o >>= λ n. rooms (xs ++ ys) >>= λ m. some (n + m)) ≡ some (a + b)
    by_room none p e more = absurd (cc e)
    by_room (some n) none e more = absurd (cc e)
    by_room (some n) (some m) e more =
        let total : n + m ≡ a = ground arith in rw (more m refl) (ap some (omega arith))

room-bootargs :
    (bootargs : String) {bytes : List ℕ}
    → encode bootargs ≡ some bytes
    → rooms (prop_str "bootargs" bootargs ∷ []) ≡ some (length (bytes ++ (0 ∷ [])) + 8 + 16 + 0)
unfolding rooms encode cells_bytes be64
room-bootargs bootargs {bytes} e = rw (e, room) refl

-- The properties of the initial ramdisk.
abbrev pub initrd_count : Option ℤ → Option ℤ → ℕ
initrd_count (some a) (some b) = 2
initrd_count (some a) none = 0
initrd_count none b = 0

initrd_count-le : (a b : Option ℤ) → initrd_count a b ≤ 2
initrd_count-le a b = ground arith

abbrev path_call : Call
path_call = prop_str "stdout-path" "/soc/uart@10000000"

build-blob :
    (o : Option FdtBuilder) {p : List ℕ × FdtBuilder}
    → (o >>= build) ≡ some p
    → (o >>= λ fdt. build fdt >>= λ built. some built.0) ≡ some p.0
build-blob none e = absurd (cc e)
build-blob (some fdt) e = rw e refl

initrd_rooms : (a b : Option ℤ) → rooms (initrd_calls a b) ≡ some (41 * initrd_count a b)
unfolding rooms encode cells_bytes be64
initrd_rooms (some a) (some b) = refl
initrd_rooms (some a) none = refl
initrd_rooms none b = refl

abbrev whole : ℕ → Scan
whole n = record { depth = 0; max_depth = 4; prop_count = 34 + n }

module _ (mem_size_bytes timebase_freq uart_clock_freq : ℤ) (bootargs : String) where
  abbrev the_calls : Option ℤ → Option ℤ → List Call
  the_calls a b = core_calls mem_size_bytes timebase_freq uart_clock_freq bootargs a b

  core_calls-nested :
      (a b : Option ℤ) → all_nested (the_calls a b) scan_start ≡ some (whole (initrd_count a b))
  unfolding all_nested
  core_calls-nested (some a) (some b) = refl
  core_calls-nested (some a) none = refl
  core_calls-nested none b = refl

  core_calls-AllNamed : (a b : Option ℤ) → AllNamed (the_calls a b)
  core_calls-AllNamed (some a) (some b) = omega arith
  core_calls-AllNamed (some a) none = omega arith
  core_calls-AllNamed none b = omega arith

  abbrev tree_calls : List Call
  tree_calls =
      (begin_node ""
        ∷ prop_u32 "#address-cells" (pos 2)
        ∷ prop_u32 "#size-cells" (pos 2)
        ∷ prop_str "compatible" "5-stage-pipelined-processor"
        ∷ prop_str "model" "5-stage-pipelined-processor,rv64"
        ∷ [])
      ++ cpus_calls timebase_freq
      ++ memory_calls mem_size_bytes
      ++ soc_calls uart_clock_freq

  before_chosen : rooms tree_calls ≡ some 1269
  unfolding rooms encode cells_bytes be64
  before_chosen = refl

  core_calls-rooms :
      (a b : Option ℤ) {bytes : List ℕ}
      → encode bootargs ≡ some bytes
      → (k : ℕ) × (rooms (the_calls a b) ≡ some k) × (k ≤ length bytes + 1500)
  unfolding rooms encode cells_bytes be64
  core_calls-rooms a b {bytes} e =
      let start : rooms (begin_node "chosen" ∷ []) ≡ some 14 = refl in
      let path : rooms (path_call ∷ []) ≡ some 46 = refl in
      let last : rooms (end_node ∷ []) ≡ some 4 = refl in
      let args_call = prop_str "bootargs" bootargs in
      let texts =
        rooms-append (begin_node "chosen" ∷ []) (args_call ∷ path_call ∷ []) start
          (rooms-append (args_call ∷ []) (path_call ∷ []) (room-bootargs bootargs e) path) in
      let texts_calls = begin_node "chosen" ∷ args_call ∷ path_call ∷ [] in
      let chosen =
        rooms-append (texts_calls ++ initrd_calls a b) (end_node ∷ [])
          (rooms-append texts_calls (initrd_calls a b) texts (initrd_rooms a b)) last in
      let all =
        rooms-append (tree_calls ++ chosen_calls bootargs a b) (end_node ∷ [])
          (rooms-append tree_calls (chosen_calls bootargs a b) before_chosen chosen) last in
      (
        1269
            + (14 + (length (bytes ++ (0 ∷ [])) + 8 + 16 + 0 + 46) + 41 * initrd_count a b + 4)
            + 4,
        all,
        omega (arith, length-append bytes (0 ∷ []), initrd_count-le a b),
      )

  -- For any sizes, frequencies and ramdisk, and boot arguments in ASCII of fewer than 2 ** 31
  -- characters, `build_this_core_dtb` returns a blob, and `parse_and_validate` accepts it, with depth
  -- 4, the 34 properties of the tree and 2 more if a ramdisk is given, and the length of the blob.
  pub build_this_core_dtb-accepted :
      (a b : Option ℤ) {bytes : List ℕ}
      → encode bootargs ≡ some bytes
      → length bytes < 2 ^ 31
      → (blob : List ℕ) × (build_this_core_dtb mem_size_bytes timebase_freq uart_clock_freq bootargs
            a b
          ≡ some blob)
        × (parse_and_validate blob
            ≡ accepted (record {
              max_depth = 4;
              prop_count = 34 + initrd_count a b;
              totalsize = length blob;
            }))
  unfolding build_this_core_dtb
  build_this_core_dtb-accepted a b {bytes} e short =
      let (k, room, bound) = core_calls-rooms a b e in
      let (blob, fdt, built, accepts) =
        calls-accepted (the_calls a b) (whole (initrd_count a b)) k (core_calls-AllNamed a b)
          (core_calls-nested a b)
          (record { closed = refl; deep = omega arith; has_properties = omega arith }) room
          (omega arith) in
      (blob, build-blob (calls (the_calls a b) new) built, accepts)
