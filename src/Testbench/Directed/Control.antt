-- ===== src/Testbench/Directed/Control.antt =====
-- verif/tb_core.py: the directed programs with jumps and loops, as texts.
use Prim.Native.String.{String, ◌++◌}

abbrev pub jumps_and_upper : String
jumps_and_upper =
    "\n" ++ "        lui   a0, 0x12345\n" ++ "        auipc a1, 0\n" ++ "        auipc a2, 1\n"
    ++ "        jal   ra, sub1\n" ++ "        li    s0, 1\n" ++ "        j     after\n"
    ++ "    sub1:\n" ++ "        li    s1, 2\n" ++ "        ret\n" ++ "    after:\n"
    ++ "        la_target: auipc t0, 0\n" ++ "        addi  t0, t0, 12\n"
    ++ "        jalr  ra, 0(t0)\n" ++ "        li    s2, 3\n" ++ "        li    s3, 4\n"
    ++ "        ecall\n" ++ "    "

abbrev pub x0_and_immediate_edges : String
x0_and_immediate_edges =
    "\n" ++ "        li   x0, 5               # must stay zero\n" ++ "        add  x0, x0, x0\n"
    ++ "        addi a0, x0, 2047        # largest positive I-immediate\n"
    ++ "        addi a1, x0, -2048       # most negative I-immediate\n"
    ++ "        lui  a2, 0xFFFFF\n" ++ "        lui  a3, 0\n" ++ "        addi a4, a2, -1\n"
    ++ "        add  a5, x0, x0          # result zero\n"
    ++ "        sub  a6, x0, a0          # result negative\n" ++ "        nop\n"
    ++ "        ecall\n" ++ "    "

abbrev pub fibonacci : String
fibonacci =
    "\n" ++ "        li   t0, 0\n" ++ "        li   t1, 1\n" ++ "        li   t2, 10\n"
    ++ "    loop:\n" ++ "        beqz t2, done\n" ++ "        add  t3, t0, t1\n"
    ++ "        mv   t0, t1\n" ++ "        mv   t1, t3\n" ++ "        addi t2, t2, -1\n"
    ++ "        j    loop\n" ++ "    done:\n" ++ "        li   t4, 0x300\n"
    ++ "        sw   t0, 0(t4)\n" ++ "        mv   a0, t0\n" ++ "        ecall\n" ++ "    "

abbrev pub bubble_sort : String
bubble_sort =
    "\n" ++ "        li   s0, 0x200           # array base\n"
    ++ "        li   s1, 8               # n\n" ++ "        li   t0, 0\n"
    ++ "    fill:                        # a[i] = n - i, so the array starts reversed\n"
    ++ "        beq  t0, s1, outer\n" ++ "        slli t1, t0, 2\n" ++ "        add  t1, s0, t1\n"
    ++ "        sub  t2, s1, t0\n" ++ "        sw   t2, 0(t1)\n" ++ "        addi t0, t0, 1\n"
    ++ "        j    fill\n" ++ "    outer:\n"
    ++ "        li   t3, 0               # swapped flag\n" ++ "        li   t0, 0\n"
    ++ "    inner:\n" ++ "        addi t4, s1, -1\n" ++ "        beq  t0, t4, check\n"
    ++ "        slli t1, t0, 2\n" ++ "        add  t1, s0, t1\n" ++ "        lw   t5, 0(t1)\n"
    ++ "        lw   t6, 4(t1)\n" ++ "        bge  t6, t5, noswap\n" ++ "        sw   t6, 0(t1)\n"
    ++ "        sw   t5, 4(t1)\n" ++ "        li   t3, 1\n" ++ "    noswap:\n"
    ++ "        addi t0, t0, 1\n" ++ "        j    inner\n" ++ "    check:\n"
    ++ "        bnez t3, outer\n" ++ "        ecall\n" ++ "    "
