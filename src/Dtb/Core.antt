-- ===== src/Dtb/Core.antt =====
-- sim/tools/gen_dtb.py, `build_this_core_dtb`: its method calls in their order.
pub mod Reads
pub mod Written
pub mod Accepts
pub mod Builds
pub mod Own
use Prim.Native.String.{String}
use rv32im_5_stage_pipelined.Base.{ℕ, Option, none, some, List, [], ◌∷◌, ◌++◌}
use rv32im_5_stage_pipelined.Base.Int.{ℤ, pos, low_bits, shift_right}
use rv32im_5_stage_pipelined.Dtb.Bytes.{◌>>=◌}
use rv32im_5_stage_pipelined.Dtb.Builder
use rv32im_5_stage_pipelined.Dtb.Builder.{FdtBuilder, new, build}

-- A call of a method of the builder.
pub data Call : Type 0 where
  begin_node : String → Call
  end_node : Call
  prop_empty : String → Call
  prop_u32 : String → ℤ → Call
  prop_u64 : String → ℤ → Call
  prop_cells : String → List ℤ → Call
  prop_str : String → String → Call
  prop_strlist : String → List String → Call

unfoldable pub call : Call → FdtBuilder → Option FdtBuilder
unfolding Builder.begin_node Builder.end_node Builder.prop_empty Builder.prop_u32 Builder.prop_u64
    Builder.prop_cells Builder.prop_str Builder.prop_strlist
call (begin_node name) b = Builder.begin_node name b
call end_node b = some (Builder.end_node b)
call (prop_empty name) b = Builder.prop_empty name b
call (prop_u32 name val) b = Builder.prop_u32 name val b
call (prop_u64 name val) b = Builder.prop_u64 name val b
call (prop_cells name cells) b = Builder.prop_cells name cells b
call (prop_str name val) b = Builder.prop_str name val b
call (prop_strlist name vals) b = Builder.prop_strlist name vals b

unfoldable pub calls : List Call → FdtBuilder → Option FdtBuilder
unfolding call
calls [] b = some b
calls (c ∷ cs) b = call c b >>= λ next. calls cs next

abbrev pub cpus_calls : ℤ → List Call
cpus_calls timebase_freq =
    begin_node "cpus"
    ∷ prop_u32 "#address-cells" (pos 1)
    ∷ prop_u32 "#size-cells" (pos 0)
    ∷ prop_u32 "timebase-frequency" timebase_freq
    ∷ begin_node "cpu@0"
    ∷ prop_u32 "phandle" (pos 1)
    ∷ prop_str "device_type" "cpu"
    ∷ prop_u32 "reg" (pos 0)
    ∷ prop_str "status" "okay"
    ∷ prop_str "compatible" "riscv"
    ∷ prop_str "riscv,isa" "rv64imafd"
    ∷ prop_str "mmu-type" "riscv,sv39"
    ∷ begin_node "interrupt-controller"
    ∷ prop_u32 "#interrupt-cells" (pos 1)
    ∷ prop_empty "interrupt-controller"
    ∷ prop_str "compatible" "riscv,cpu-intc"
    ∷ prop_u32 "phandle" (pos 2)
    ∷ end_node
    ∷ end_node
    ∷ end_node
    ∷ []

abbrev pub memory_calls : ℤ → List Call
memory_calls mem_size_bytes =
    begin_node "memory@0"
    ∷ prop_str "device_type" "memory"
    ∷ prop_cells "reg" (pos 0 ∷ pos 0 ∷ pos 0 ∷ mem_size_bytes ∷ [])
    ∷ end_node
    ∷ []

abbrev pub soc_calls : ℤ → List Call
soc_calls uart_clock_freq =
    begin_node "soc"
    ∷ prop_u32 "#address-cells" (pos 2)
    ∷ prop_u32 "#size-cells" (pos 2)
    ∷ prop_str "compatible" "simple-bus"
    ∷ prop_empty "ranges"
    ∷ begin_node "uart@10000000"
    ∷ prop_str "compatible" "ns16550a"
    ∷ prop_cells "reg" (pos 0 ∷ pos 0x10000000 ∷ pos 0 ∷ pos 0x20 ∷ [])
    ∷ prop_u32 "clock-frequency" uart_clock_freq
    ∷ prop_u32 "reg-shift" (pos 2)
    ∷ prop_u32 "reg-io-width" (pos 4)
    ∷ end_node
    ∷ begin_node "clint@10100000"
    ∷ prop_str "compatible" "riscv,clint0"
    ∷ prop_cells "reg" (pos 0 ∷ pos 0x10100000 ∷ pos 0 ∷ pos 0x10000 ∷ [])
    ∷ prop_cells "interrupts-extended" (pos 2 ∷ pos 3 ∷ pos 2 ∷ pos 7 ∷ [])
    ∷ end_node
    ∷ end_node
    ∷ []

-- `[v >> 32, v & 0xFFFFFFFF]`
abbrev two_cells : ℤ → List ℤ
two_cells v = shift_right v 32 ∷ pos (low_bits 32 v) ∷ []

-- The properties of the initial ramdisk, where both ends are given.
abbrev pub initrd_calls : Option ℤ → Option ℤ → List Call
initrd_calls (some initrd_start) (some initrd_end) =
    prop_cells "linux,initrd-start" (two_cells initrd_start)
    ∷ prop_cells "linux,initrd-end" (two_cells initrd_end)
    ∷ []
initrd_calls (some initrd_start) none = []
initrd_calls none initrd_end = []

abbrev pub chosen_calls : String → Option ℤ → Option ℤ → List Call
chosen_calls bootargs initrd_start initrd_end =
    (begin_node "chosen"
      ∷ prop_str "bootargs" bootargs
      ∷ prop_str "stdout-path" "/soc/uart@10000000"
      ∷ [])
    ++ initrd_calls initrd_start initrd_end
    ++ (end_node ∷ [])

abbrev pub core_calls : ℤ → ℤ → ℤ → String → Option ℤ → Option ℤ → List Call
core_calls mem_size_bytes timebase_freq uart_clock_freq bootargs initrd_start initrd_end =
    (begin_node ""
      ∷ prop_u32 "#address-cells" (pos 2)
      ∷ prop_u32 "#size-cells" (pos 2)
      ∷ prop_str "compatible" "5-stage-pipelined-processor"
      ∷ prop_str "model" "5-stage-pipelined-processor,rv64"
      ∷ [])
    ++ cpus_calls timebase_freq
    ++ memory_calls mem_size_bytes
    ++ soc_calls uart_clock_freq
    ++ chosen_calls bootargs initrd_start initrd_end
    ++ (end_node ∷ [])

unfoldable pub build_this_core_dtb : ℤ → ℤ → ℤ → String → Option ℤ → Option ℤ → Option (List ℕ)
unfolding calls build
build_this_core_dtb mem_size_bytes timebase_freq uart_clock_freq bootargs initrd_start initrd_end =
    do
      fdt ←
          calls
            (core_calls mem_size_bytes timebase_freq uart_clock_freq bootargs initrd_start
              initrd_end)
            new
      built ← build fdt
      some built.0
