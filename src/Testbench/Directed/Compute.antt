-- ===== src/Testbench/Directed/Compute.antt =====
-- verif/tb_core.py: the directed programs on arithmetic, branches and memory, as texts.
use Prim.Native.String.{String, ◌++◌}

abbrev pub arithmetic : String
arithmetic =
    "\n" ++ "        li   t0, 100\n" ++ "        li   t1, 37\n" ++ "        add  a0, t0, t1\n"
    ++ "        sub  a1, t0, t1\n" ++ "        and  a2, t0, t1\n" ++ "        or   a3, t0, t1\n"
    ++ "        xor  a4, t0, t1\n" ++ "        slt  a5, t1, t0\n" ++ "        sltu a6, t0, t1\n"
    ++ "        addi a7, t0, -200\n" ++ "        slti s2, a7, 0\n" ++ "        sltiu s3, a7, 0\n"
    ++ "        xori s4, t0, -1\n" ++ "        ori  s5, t0, 0x7F\n" ++ "        andi s6, t0, 0x0F\n"
    ++ "        ecall\n" ++ "    "

abbrev pub shifts : String
shifts =
    "\n" ++ "        li   t0, -8\n" ++ "        li   t1, 3\n" ++ "        sll  a0, t0, t1\n"
    ++ "        srl  a1, t0, t1\n" ++ "        sra  a2, t0, t1\n" ++ "        slli a3, t0, 0\n"
    ++ "        srli a4, t0, 31\n" ++ "        srai a5, t0, 31\n" ++ "        slli a6, t0, 31\n"
    ++ "        srai a7, t0, 1\n" ++ "        ecall\n" ++ "    "

abbrev pub branches : String
branches =
    "\n" ++ "        li   t0, 5\n" ++ "        li   t1, -5\n" ++ "        li   s0, 0\n"
    ++ "        beq  t0, t0, b1\n" ++ "        addi s0, s0, 1          # skipped\n"
    ++ "    b1: bne  t0, t1, b2\n" ++ "        addi s0, s0, 2          # skipped\n"
    ++ "    b2: blt  t1, t0, b3\n" ++ "        addi s0, s0, 4          # skipped\n"
    ++ "    b3: bge  t0, t1, b4\n" ++ "        addi s0, s0, 8          # skipped\n"
    ++ "    b4: bltu t0, t1, b5         # unsigned: 5 < huge, taken\n"
    ++ "        addi s0, s0, 16         # skipped\n" ++ "    b5: bgeu t1, t0, b6\n"
    ++ "        addi s0, s0, 32         # skipped\n"
    ++ "    b6: beq  t0, t1, b7         # not taken\n" ++ "        addi s0, s0, 64\n"
    ++ "    b7: bne  t0, t0, b8         # not taken\n" ++ "        addi s0, s0, 128\n"
    ++ "    b8: blt  t0, t1, b9         # not taken\n" ++ "        addi s0, s0, 256\n"
    ++ "    b9: bge  t1, t0, b10        # not taken\n" ++ "        addi s0, s0, 512\n"
    ++ "    b10: bltu t1, t0, b11       # not taken\n" ++ "        addi s0, s0, 1024\n"
    ++ "    b11: bgeu t0, t1, b12       # not taken\n" ++ "        addi s0, s0, 2048\n"
    ++ "    b12: ecall\n" ++ "    "

abbrev pub memory : String
memory =
    "\n" ++ "        li   s0, 0x200\n" ++ "        li   t0, -2\n" ++ "        sw   t0, 0(s0)\n"
    ++ "        lw   a0, 0(s0)\n" ++ "        lb   a1, 0(s0)\n" ++ "        lbu  a2, 0(s0)\n"
    ++ "        lh   a3, 0(s0)\n" ++ "        lhu  a4, 0(s0)\n"
    ++ "        lb   a5, 1(s0)           # byte lane 1\n"
    ++ "        lbu  a6, 3(s0)           # byte lane 3\n"
    ++ "        lhu  a7, 2(s0)           # high halfword\n" ++ "        li   t1, 0x7F\n"
    ++ "        sb   t1, 5(s0)           # byte lane 1 of the next word\n"
    ++ "        li   t2, 0x1234\n"
    ++ "        sh   t2, 10(s0)          # high halfword of a later word\n"
    ++ "        lw   s2, 4(s0)\n" ++ "        lw   s3, 8(s0)\n" ++ "        ecall\n" ++ "    "
