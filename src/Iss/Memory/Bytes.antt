-- ===== src/Iss/Memory/Bytes.antt =====
-- The memory of verif/iss.py as bytes: a little-endian byte memory that wraps round is what the
-- word array, its lanes and its alignment test implement.
use rv32i_cpu.Base.{
  ℕ, zero, suc, ◌+◌, ◌-◌, ◌*◌, ◌/◌, ◌%◌, ◌^◌, ◌≤◌, ◌<◌, ◌≡◌, refl, sym, ◌≢◌, arith, Bool, false,
  ◌&&◌, ◌||◌, ◌==◌, ◌!=◌, ltb, leb, if◌then◌else◌, bit_and, length, get_or, get_or-set_self,
  get_or-set_ne, All, All-get_or, Bool-cases, inl, inr, ◌⊎◌,
}
use rv32i_cpu.Base.BitOps.{and_low}
use rv32i_cpu.Bits.{sign_extend}
use rv32i_cpu.Iss.State.{Iss}
use rv32i_cpu.Iss.Memory.{index, misaligned, load, write_lane, store}
use rv32i_cpu.Iss.Memory.Lanes.{
  lane, lanes_after, bit_one, write_lane-byte, write_lane-half, write_lane-word, lane-put_byte,
  lane-put_half, lane-put_word,
}

-- The array is not empty, has its stated length, and holds words.
pub record IsMemory (s : Iss) : Type 0 where
  pub not_empty : 0 < s.words
  pub full : length s.mem ≡ s.words
  pub small : All (λ w. w < 2 ^ 32) s.mem

unfoldable pub byte_at : Iss → ℕ → ℕ
byte_at s addr = lane (get_or s.mem (index s addr) 0) (addr % 4)

-- The bytes that an access of `funct3` covers.
abbrev pub width : ℕ → ℕ
width funct3 = if funct3 == 0 || funct3 == 4 then 1 else if funct3 == 1 || funct3 == 5 then 2 else 4

-- The access of `funct3` at `addr` covers the byte at `a`.
abbrev pub covers : Iss → ℕ → ℕ → ℕ → Bool
covers s funct3 addr a =
    index s a == index s addr && (leb (addr % 4) (a % 4) && ltb (a % 4) (addr % 4 + width funct3))

pub word_at-lt : (s : Iss) (i : ℕ) → IsMemory s → get_or s.mem i 0 < 2 ^ 32
word_at-lt s i m = All-get_or (λ w. w < 2 ^ 32) s.mem i 0 m.small (omega arith)

pub misaligned_half : (addr : ℕ) → misaligned 1 addr ≡ false → addr % 2 ≡ 0
unfolding misaligned
misaligned_half addr h = ground (arith, and_low 1 addr)

pub misaligned_word : (addr : ℕ) → misaligned 2 addr ≡ false → addr % 4 ≡ 0
unfolding misaligned
misaligned_word addr h = ground (arith, and_low 2 addr)

-- The lanes of a word after a store into it.
lane-write_lane :
    (word funct3 addr value j : ℕ)
    → word < 2 ^ 32
    → funct3 ≤ 2
    → misaligned funct3 addr ≡ false
    → j < 4
    → lane (write_lane word funct3 addr value) j
      ≡ lanes_after (width funct3) (addr % 4) word value j
lane-write_lane word zero addr value j h f al hj =
    rw (write_lane-byte word addr value h)
      (lane-put_byte (addr % 4) j word value (omega arith) hj h)
lane-write_lane word (suc zero) addr value j h f al hj =
    let even = misaligned_half addr al in
    rw (write_lane-half word addr value h even)
      (lane-put_half (addr % 4) j word value (omega arith) (omega arith) hj h)
lane-write_lane word (suc (suc zero)) addr value j h f al hj =
    rw (write_lane-word word 2 addr value (omega arith), misaligned_word addr al)
      (lane-put_word j word value hj)
lane-write_lane word (suc (suc (suc n))) addr value j h f al hj = absurd (omega arith)

index-lt : (s : Iss) (addr : ℕ) → IsMemory s → index s addr < length s.mem
unfolding index
index-lt s addr m = ground (arith, m.full, m.not_empty)

index-store : (s : Iss) (funct3 addr value a : ℕ) → index (store s funct3 addr value) a ≡ index s a
unfolding index store
index-store s funct3 addr value a = refl

module _ (s : Iss) (funct3 addr value a : ℕ) (m : IsMemory s) where
  same_word :
      index s a ≡ index s addr
      → get_or (store s funct3 addr value).mem (index s a) 0
        ≡ write_lane (get_or s.mem (index s a) 0) funct3 addr value
  unfolding store
  same_word e = rw (
    e,
    get_or-set_self s.mem (index s addr)
        (write_lane (get_or s.mem (index s addr) 0) funct3 addr value) 0 (index-lt s addr m),
  )

  other_word :
      index s addr ≢ index s a
      → get_or (store s funct3 addr value).mem (index s a) 0 ≡ get_or s.mem (index s a) 0
  unfolding store
  other_word ne = get_or-set_ne s.mem (index s addr) (index s a) _ 0 ne

-- An aligned store of `funct3` puts the low bytes of the value, little end first, at `addr`, and
-- leaves every other byte alone.
pub byte_at-store :
    (s : Iss) (funct3 addr value a : ℕ)
    → IsMemory s
    → funct3 ≤ 2
    → misaligned funct3 addr ≡ false
    → byte_at (store s funct3 addr value) a
      ≡ (if covers s funct3 addr a then lane value (a % 4 - addr % 4) else byte_at s a)
unfolding byte_at
byte_at-store s funct3 addr value a m f al =
    rw (index-store s funct3 addr value a) (elim (Bool-cases (index s a == index s addr)) [
      | inl same ↦ ground (
        arith,
        same_word s funct3 addr value a m,
        lane-write_lane (get_or s.mem (index s a) 0) funct3 addr value (a % 4)
            (word_at-lt s (index s a) m) f al,
      )
      | inr other ↦ ground (arith, other_word s funct3 addr value a m)
    ])

-- The bytes of an access, little end first, extended as its `funct3` says.
unfoldable pub load_value : Iss → ℕ → ℕ → ℕ
load_value s funct3 addr =
    let half = byte_at s addr + byte_at s (addr + 1) * 2 ^ 8 in
    if funct3 == 0
    then sign_extend (byte_at s addr) 8
    else if funct3 == 1
    then sign_extend half 16
    else if funct3 == 4
    then byte_at s addr
    else if funct3 == 5
    then half
    else half + byte_at s (addr + 2) * 2 ^ 16 + byte_at s (addr + 3) * 2 ^ 24

pub next_index : (s : Iss) (addr i : ℕ) → addr % 4 + i < 4 → index s (addr + i) ≡ index s addr
unfolding index
next_index s addr i h = let e : (addr + i) / 4 ≡ addr / 4 = omega arith in rw e

-- A byte of the word at `addr`, by its lane.
byte_at-lane :
    (s : Iss) (addr i o : ℕ)
    → addr % 4 ≡ o
    → o + i < 4
    → byte_at s (addr + i) ≡ lane (get_or s.mem (index s addr) 0) (o + i)
unfolding byte_at
byte_at-lane s addr i o e h =
    let e' : (addr + i) % 4 ≡ o + i = omega arith in rw (e', next_index s addr i (omega arith))

byte_at-first :
    (s : Iss) (addr o : ℕ) → addr % 4 ≡ o → byte_at s addr ≡ lane (get_or s.mem (index s addr) 0) o
unfolding byte_at
byte_at-first s addr o e = rw e

word_lanes :
    (word : ℕ)
    → word < 2 ^ 32
    → lane word 0 + lane word 1 * 2 ^ 8 + lane word 2 * 2 ^ 16 + lane word 3 * 2 ^ 24 ≡ word
word_lanes word h = omega arith

low_lanes : (word : ℕ) → lane word 0 + lane word 1 * 2 ^ 8 ≡ bit_and word 0xffff
low_lanes word = omega (arith, and_low 16 word)

high_lanes : (word : ℕ) → lane word 2 + lane word 3 * 2 ^ 8 ≡ bit_and (word / 2 ^ 16) 0xffff
high_lanes word = omega (arith, and_low 16 (word / 2 ^ 16))

half_cases : (addr : ℕ) → addr % 2 ≡ 0 → (addr % 4 ≡ 0) ⊎ (addr % 4 ≡ 2)
half_cases addr even = grind arith

module _ (s : Iss) (addr : ℕ) (m : IsMemory s) where
  abbrev word : ℕ
  word = get_or s.mem (index s addr) 0

  read_byte : bit_and (word / 2 ^ (8 * bit_and addr 3)) 0xff ≡ byte_at s addr
  unfolding byte_at
  read_byte = rw (and_low 2 addr) (and_low 8 (word / 2 ^ (8 * (addr % 4))))

  read_half :
      addr % 2 ≡ 0
      → (if bit_and addr 2 != 0 then bit_and (word / 2 ^ 16) 0xffff else bit_and word 0xffff)
        ≡ byte_at s addr + byte_at s (addr + 1) * 2 ^ 8
  read_half even = elim (half_cases addr even) [
    | inl low ↦
        rw (byte_at-first s addr 0 low, byte_at-lane s addr 1 0 low (omega arith))
          (ground (arith, bit_one addr, low_lanes word))
    | inr high ↦
        rw (byte_at-first s addr 2 high, byte_at-lane s addr 1 2 high (omega arith))
          (ground (arith, bit_one addr, high_lanes word))
  ]

  read_word :
      addr % 4 ≡ 0
      → word
        ≡ byte_at s addr
          + byte_at s (addr + 1) * 2 ^ 8
          + byte_at s (addr + 2) * 2 ^ 16
          + byte_at s (addr + 3) * 2 ^ 24
  read_word al =
      rw
        (
          byte_at-first s addr 0 al,
          byte_at-lane s addr 1 0 al (omega arith),
          byte_at-lane s addr 2 0 al (omega arith),
          byte_at-lane s addr 3 0 al (omega arith),
        )
        (sym (word_lanes word (word_at-lt s (index s addr) m)))

misaligned_same : (addr : ℕ) → misaligned 5 addr ≡ misaligned 1 addr
unfolding misaligned
misaligned_same addr = refl

-- An aligned load of one of the five load codes reads the bytes of its access, little end first, and
-- extends them as its `funct3` says.
pub load-load_value :
    (s : Iss) (funct3 addr : ℕ)
    → IsMemory s
    → misaligned funct3 addr ≡ false
    → funct3 ≤ 5
    → funct3 ≢ 3
    → load s funct3 addr ≡ load_value s funct3 addr
unfolding load load_value
load-load_value s funct3 addr m al f ne = ground (
  arith,
  read_byte s addr m,
  read_half s addr m,
  read_word s addr m,
  misaligned_half addr,
  misaligned_word addr,
  misaligned_same addr,
)
