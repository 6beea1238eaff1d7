-- ===== src/Iss/Memory/RoundTrip.antt =====
-- Loads after stores in the memory of verif/iss.py.
use native.Mathlib.Nat.{one-le-pow, pow-suc, pow-le-pow_right, mul-lt-mul_of_pos_right}
use rv32i_cpu.Base.{
  ℕ, zero, suc, ◌+◌, ◌*◌, ◌%◌, ◌^◌, ◌≤◌, ◌<◌, ◌≡◌, refl, ap, ◌∙◌, ◌≢◌, arith, false, ◌==◌,
  if◌then◌else◌, length-set, All-set, bit_and, bit_or, ◌-◌, ◌⊎◌,
}
use rv32i_cpu.Base.BitOps.{and_not, or-lt, and_low}
use rv32i_cpu.Bits.{mask32, sign_extend}
use rv32i_cpu.Bits.Laws.{sign_extend_sum}
use rv32i_cpu.Iss.State.{Iss}
use rv32i_cpu.Iss.Memory.{index, misaligned, load, write_lane, store}
use rv32i_cpu.Iss.Memory.Lanes.{lane}
use rv32i_cpu.Iss.Memory.Bytes.{
  IsMemory, byte_at, width, covers, byte_at-store, load_value, load-load_value, word_at-lt,
  next_index, misaligned_half, misaligned_word,
}

two-pow-add : (k s : ℕ) → 2 ^ (k + s) ≡ 2 ^ k * 2 ^ s
two-pow-add zero s = let e : 0 + s ≡ s = omega arith in rw e (omega arith)
two-pow-add (suc k) s =
    let e : suc k + s ≡ suc (k + s) = omega arith in
    rw e
      (omega (arith, pow-suc 2 (k + s), two-pow-add k s, ap (λ (t : ℕ). t * 2 ^ s) (pow-suc 2 k)))

shifted-lt : (k s v : ℕ) → k + s ≤ 32 → v < 2 ^ k → v * 2 ^ s < 2 ^ 32
shifted-lt k s v h hv = omega (
  arith,
  two-pow-add k s,
  mul-lt-mul_of_pos_right hv (one-le-pow s 2 (omega arith)),
  pow-le-pow_right {n = 2} (omega arith) h,
)

join-lt :
    (x v k s : ℕ) → k + s ≤ 32 → bit_or (bit_and x mask32) (bit_and v (2 ^ k - 1) * 2 ^ s) < 2 ^ 32
join-lt x v k s h =
    or-lt 32 (bit_and x mask32) (bit_and v (2 ^ k - 1) * 2 ^ s) (omega (arith, and_low 32 x))
      (shifted-lt k s _ h (ground (arith, and_low k v, one-le-pow k 2)))

pub write_lane-lt :
    (word funct3 addr value : ℕ) → word < 2 ^ 32 → write_lane word funct3 addr value < 2 ^ 32
unfolding write_lane
write_lane-lt word funct3 addr value h = ground (
  arith,
  and_low 2 addr,
  and_low 32 value,
  join-lt (and_not word (0xff * 2 ^ (8 * (addr % 4)))) value 8 (8 * (addr % 4)),
  join-lt (and_not word (0xffff * 2 ^ 16)) value 16 16,
  join-lt (and_not word (0xffff * 2 ^ 0)) value 16 0,
)

-- A store keeps the shape of the memory, whatever its alignment.
pub store-IsMemory :
    (s : Iss) (funct3 addr value : ℕ) → IsMemory s → IsMemory (store s funct3 addr value)
unfolding store
store-IsMemory s funct3 addr value m = record {
  not_empty = m.not_empty;
  full = length-set s.mem _ _ ∙ m.full;
  small =
      All-set (λ w. w < 2 ^ 32) s.mem (index s addr) _ m.small
        (write_lane-lt _ funct3 addr value (word_at-lt s (index s addr) m));
}

module _ (s : Iss) (funct3 addr value : ℕ) (m : IsMemory s) (f : funct3 ≤ 2)
    (al : misaligned funct3 addr ≡ false) where
  stored_byte :
      (i : ℕ)
      → i < width funct3
      → addr % 4 + i < 4
      → byte_at (store s funct3 addr value) (addr + i) ≡ lane value i
  stored_byte i h fits =
      let e : (addr + i) % 4 ≡ addr % 4 + i = omega arith in
      byte_at-store s funct3 addr value (addr + i) m f al
      ∙ rw (next_index s addr i fits, e) (ground arith)

  stored_first : byte_at (store s funct3 addr value) addr ≡ lane value 0
  stored_first =
      byte_at-store s funct3 addr value addr m f al
      ∙ (let e : addr % 4 - addr % 4 ≡ 0 = omega arith in rw e (ground arith))

  kept_byte :
      (a : ℕ) → covers s funct3 addr a ≡ false → byte_at (store s funct3 addr value) a ≡ byte_at s a
  kept_byte a h = byte_at-store s funct3 addr value a m f al ∙ rw h refl

-- What a load of `funct3` makes of the value that was stored with its width.
abbrev pub truncated : ℕ → ℕ → ℕ
truncated funct3 value =
    if funct3 == 0
    then sign_extend value 8
    else if funct3 == 1
    then sign_extend value 16
    else if funct3 == 4
    then value % 2 ^ 8
    else if funct3 == 5
    then value % 2 ^ 16
    else value % 2 ^ 32

low_bytes :
    (value : ℕ)
    → (sign_extend (lane value 0) 8 ≡ sign_extend value 8)
      × (sign_extend (lane value 0 + lane value 1 * 2 ^ 8) 16 ≡ sign_extend value 16)
low_bytes value = (
  ground (arith, sign_extend_sum 7 (lane value 0), sign_extend_sum 7 value),
  ground
      (arith, sign_extend_sum 15 (lane value 0 + lane value 1 * 2 ^ 8), sign_extend_sum 15 value),
)

same_alignment :
    (funct3 funct3' addr : ℕ)
    → funct3 ≤ 2
    → (funct3' ≡ funct3) ⊎ ((funct3' ≡ funct3 + 4) × (funct3 ≤ 1))
    → misaligned funct3 addr ≡ false
    → misaligned funct3' addr ≡ false
unfolding misaligned
same_alignment funct3 funct3' addr f same al = ground arith

load_value-store :
    (s : Iss) (funct3 addr value : ℕ) (m : IsMemory s) (f : funct3 ≤ 2)
    (al : misaligned funct3 addr ≡ false) (funct3' : ℕ)
    → (funct3' ≡ funct3) ⊎ ((funct3' ≡ funct3 + 4) × (funct3 ≤ 1))
    → load_value (store s funct3 addr value) funct3' addr ≡ truncated funct3' value
unfolding load_value
load_value-store s zero addr value m f al funct3' same =
    ground (arith, stored_first s 0 addr value m f al, low_bytes value)
load_value-store s (suc zero) addr value m f al funct3' same = ground (
  arith,
  stored_first s 1 addr value m f al,
  stored_byte s 1 addr value m f al 1,
  misaligned_half addr al,
  low_bytes value,
)
load_value-store s (suc (suc zero)) addr value m f al funct3' same = ground (
  arith,
  stored_first s 2 addr value m f al,
  stored_byte s 2 addr value m f al 1,
  stored_byte s 2 addr value m f al 2,
  stored_byte s 2 addr value m f al 3,
  misaligned_word addr al,
)
load_value-store s (suc (suc (suc n))) addr value m f al funct3' same = absurd (omega arith)

-- A load at the address of an aligned store, of the same width, signed or not, gives the low part
-- of the stored value, extended as the load says.
pub load-store :
    (s : Iss) (funct3 funct3' addr value : ℕ)
    → IsMemory s
    → funct3 ≤ 2
    → (funct3' ≡ funct3) ⊎ ((funct3' ≡ funct3 + 4) × (funct3 ≤ 1))
    → misaligned funct3 addr ≡ false
    → load (store s funct3 addr value) funct3' addr ≡ truncated funct3' value
load-store s funct3 funct3' addr value m f same al =
    load-load_value (store s funct3 addr value) funct3' addr (store-IsMemory s funct3 addr value m)
      (same_alignment funct3 funct3' addr f same al) (omega arith) (omega arith)
    ∙ load_value-store s funct3 addr value m f al funct3' same

-- A load of bytes that an aligned store does not cover gives what it gave before.
pub load-store_apart :
    (s : Iss) (funct3 addr value funct3' addr' : ℕ)
    → IsMemory s
    → funct3 ≤ 2
    → misaligned funct3 addr ≡ false
    → funct3' ≤ 5
    → funct3' ≢ 3
    → misaligned funct3' addr' ≡ false
    → ((i : ℕ) → i < width funct3' → covers s funct3 addr (addr' + i) ≡ false)
    → load (store s funct3 addr value) funct3' addr' ≡ load s funct3' addr'
unfolding load_value
load-store_apart s funct3 addr value funct3' addr' m f al f' ne al' apart =
    let first : addr' + 0 ≡ addr' = omega arith in
    let kept = kept_byte s funct3 addr value m f al in
    let kept_at = λ (i : ℕ) (h : i < width funct3'). kept (addr' + i) (apart i h) in
    let kept_first : byte_at (store s funct3 addr value) addr' ≡ byte_at s addr' =
      rw first at (kept_at 0 (ground arith)) in
    load-load_value (store s funct3 addr value) funct3' addr' (store-IsMemory s funct3 addr value m)
      al' f' ne
    ∙ ground (arith, load-load_value s funct3' addr' m al' f' ne, kept_at 1, kept_at 2, kept_at 3)
