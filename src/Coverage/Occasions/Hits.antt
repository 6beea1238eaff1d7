-- ===== src/Coverage/Occasions/Hits.antt =====
-- The counts of verif/coverage.py after a trace.
use Prim.Native.String.{String}
use rv32i_cpu.Base.{◌+◌, ◌≡◌, refl, arith, Bool, List, [], ◌∷◌, map, All}
use rv32i_cpu.Iss.State.{Commit}
use rv32i_cpu.Coverage.{required, sample, sample_trace}
use rv32i_cpu.Coverage.Counts.{Counter, hits}
use rv32i_cpu.Coverage.Occasions.{occasions, occurrences}
use rv32i_cpu.Coverage.Occasions.Tally.{hits-sample}
use rv32i_cpu.Coverage.Occasions.Told.{Told}
use rv32i_cpu.Coverage.Occasions.Opcodes.{
  op_lui-Told, op_auipc-Told, op_jal-Told, op_jalr-Told, op_branch-Told, op_load-Told,
  op_store-Told, op_imm-Told, op_reg-Told,
}
use rv32i_cpu.Coverage.Occasions.Variants.{
  beq-Told, bne-Told, blt-Told, bge-Told, bltu-Told, bgeu-Told, lb-Told, lh-Told, lw-Told, lbu-Told,
  lhu-Told, sb-Told, sh-Told, sw-Told,
}
use rv32i_cpu.Coverage.Occasions.Effects.{
  taken-Told, not_taken-Told, shift_zero-Told, shift_max-Told, result_zero-Told,
  result_negative-Told, rd_x0-Told, rs1_x0-Told, lane-Told,
}

-- A bin has gained one hit for every occasion of a trace.
abbrev Gained : Counter → List Commit → String × (Commit → Bool) → Type 0
Gained counts trace entry =
    hits entry.0 (sample_trace counts trace) ≡ hits entry.0 counts + occurrences entry.1 trace

Told-Gained :
    (b : String) (happens : Commit → Bool)
    → Told b happens
    → (counts : Counter) (trace : List Commit) → Gained counts trace (b, happens)
unfolding sample_trace
Told-Gained b happens told counts [] = omega arith
Told-Gained b happens told counts (c ∷ trace) = omega (
  arith,
  Told-Gained b happens told (sample counts c.inst c) trace,
  hits-sample b counts c,
  told c,
)

infixr 4 ◌&◌
abbrev ◌&◌ : {A B : Type 0} → A → B → A × B
a & b = (a, b)

occasions-Told : All (λ entry. Told entry.0 entry.1) occasions
occasions-Told =
    op_lui-Told & op_auipc-Told & op_jal-Told & op_jalr-Told & op_branch-Told & op_load-Told
    & op_store-Told & op_imm-Told & op_reg-Told & beq-Told & bne-Told & blt-Told & bge-Told
    & bltu-Told & bgeu-Told & taken-Told & not_taken-Told & lb-Told & lh-Told & lw-Told & lbu-Told
    & lhu-Told & sb-Told & sh-Told & sw-Told & shift_zero-Told & shift_max-Told & result_zero-Told
    & result_negative-Told & rd_x0-Told & rs1_x0-Told & lane-Told & tt

All-map :
    (P Q : String × (Commit → Bool) → Type 0)
    → ((entry : String × (Commit → Bool)) → P entry → Q entry)
    → (entries : List (String × (Commit → Bool))) → All P entries
    → All Q entries
All-map P Q f [] h = tt
All-map P Q f (entry ∷ entries) h = (f entry h.0, All-map P Q f entries h.1)

-- Each of the required bins, which are the bins of the table of occasions in the table's order, has
-- after the samples of a trace, from any counts, exactly as many hits more as the trace has
-- instructions that are an occasion of the bin.
pub hits-sample_trace :
    (counts : Counter) (trace : List Commit)
    → (map (λ entry. entry.0) occasions ≡ required)
      × All
          (λ entry.
            hits entry.0 (sample_trace counts trace)
            ≡ hits entry.0 counts + occurrences entry.1 trace)
          occasions
hits-sample_trace counts trace = (
  refl,
  All-map _ _ (λ entry told. Told-Gained entry.0 entry.1 told counts trace) occasions
      occasions-Told,
)
