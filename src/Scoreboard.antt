-- ===== src/Scoreboard.antt =====
-- The comparison of verif/tb_core.py: the commit of the core against that of the golden model.
use rv32i_cpu.Base.{ℕ, List, [], ◌∷◌, ◌++◌, ◌!=◌, if◌then◌else◌}
use rv32i_cpu.Iss.State.{Commit}

pub data Field : Type 0 where
  pc inst next_pc rd rd_wdata mem_write mem_addr mem_wdata : Field

-- `getattr`.
abbrev pub get : Commit → Field → ℕ
get c pc = c.pc
get c inst = c.inst
get c next_pc = c.next_pc
get c rd = c.rd
get c rd_wdata = c.rd_wdata
get c mem_write = c.mem_write
get c mem_addr = c.mem_addr
get c mem_wdata = c.mem_wdata

-- The fields that are compared: an address and its data only where the model writes.
abbrev pub compared_fields : Commit → List Field
compared_fields exp =
    let always = pc ∷ inst ∷ next_pc ∷ rd ∷ rd_wdata ∷ mem_write ∷ [] in
    if exp.mem_write != 0 then always ++ mem_addr ∷ mem_wdata ∷ [] else always

abbrev pub differing : Commit → Commit → List Field → List Field
differing got exp [] = []
differing got exp (f ∷ fs) =
    let rest = differing got exp fs in if get got f != get exp f then f ∷ rest else rest

-- The list `bad`: the assertion of `compare_commit` holds exactly when it is empty.
unfoldable pub compare_commit : Commit → Commit → List Field
compare_commit got exp = differing got exp (compared_fields exp)
