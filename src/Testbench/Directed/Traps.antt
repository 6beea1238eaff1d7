-- ===== src/Testbench/Directed/Traps.antt =====
-- verif/tb_core.py: the directed programs that end in a trap other than ECALL, as texts.
use Prim.Native.String.{String, ◌++◌}

abbrev pub trap_ebreak : String
trap_ebreak =
    "\n" ++ "        li   a0, 1\n" ++ "        ebreak\n" ++ "        li   a0, 2\n" ++ "    "

abbrev pub trap_illegal : String
trap_illegal =
    "\n" ++ "        li   a0, 1\n" ++ "        .word 0xFFFFFFFF\n" ++ "        li   a0, 2\n"
    ++ "    "

abbrev pub trap_misaligned_load : String
trap_misaligned_load =
    "\n" ++ "        li   t0, 0x204\n" ++ "        li   t1, 0xDEADBEEF\n"
    ++ "        sw   t1, 0(t0)\n"
    ++ "        li   a0, 0x123           # a0 must survive the trap untouched\n"
    ++ "        addi t0, t0, 1           # 0x205: misaligned for a word access\n"
    ++ "        lw   a0, 0(t0)\n" ++ "        li   a0, 2\n" ++ "    "

abbrev pub trap_misaligned_store : String
trap_misaligned_store =
    "\n" ++ "        li   t0, 0x202\n" ++ "        li   t1, 7\n" ++ "        sw   t1, 0(t0)\n"
    ++ "    "

abbrev pub trap_misaligned_jump : String
trap_misaligned_jump =
    "\n" ++ "        li   t0, 0x202\n" ++ "        jalr x0, 0(t0)\n" ++ "        li   a0, 2\n"
    ++ "    "
