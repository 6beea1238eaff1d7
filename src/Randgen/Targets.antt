-- ===== src/Randgen/Targets.antt =====
-- Where the branches and jumps of verif/randgen.py go.
