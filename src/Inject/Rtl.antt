-- ===== src/Inject/Rtl.antt =====
-- The text of rtl/core.sv, the file that the mutants of the whole core are planted in.
mod Ports
mod Datapath
use Prim.Native.String.{String, ◌++◌}
use Ports.{core_top}
use Datapath.{core_bottom}

abbrev pub core_text : String
core_text = core_top ++ core_bottom
