-- ===== src/Testbench/Sound.antt =====
-- What `run_program` has checked when it passes, for any device under test.
use rv32i_cpu.Base.{
  ℕ, zero, suc, ◌+◌, ◌*◌, ◌≤◌, ◌≡◌, refl, ap, ◌∙◌, arith, List, [], ◌∷◌, Bool, true, false, not,
  Option, none, some, length, ◌==◌, ◌!=◌, get_or, leb, ==_iff,
}
use rv32i_cpu.Iss.State.{Iss, Commit, new}
use rv32i_cpu.Iss.Step.{run}
use rv32i_cpu.Coverage.Counts.{Counter}
use rv32i_cpu.Scoreboard.{compare_commit}
use rv32i_cpu.Core.Lockstep.{record_commit, Accepted}
use rv32i_cpu.Testbench.{differences}
use rv32i_cpu.Testbench.Run.{
  Checked, passed, failed, Failure, check, is_empty, ◌>>=◌, Dut, Progress, progress, retire_all,
  frozen, check_halt, check_end, check_state, follow, run_program,
}

bind_passed {ℓ} :
    {A B : Type ℓ} (m : Checked A) (f : A → Checked B) (b : B)
    → m >>= f ≡ passed b
    → (a : A) × (m ≡ passed a) × (f a ≡ passed b)
bind_passed (passed a) f b h = (a, refl, h)
bind_passed (failed why) f b h = cc

check_passed :
    {B : Type 0} (test : Bool) (why : Failure) (f : Unit {0} → Checked B) (b : B)
    → check test why >>= f ≡ passed b
    → (test ≡ true) × (f tt ≡ passed b)
check_passed true why f b h = (refl, h)
check_passed false why f b h = cc

is_empty_lem : {A : Type 0} (xs : List A) → is_empty xs ≡ true → xs ≡ []
is_empty_lem [] h = refl
is_empty_lem (x ∷ xs) h = cc

-- Two lists hold the same at each of the first `n` indices.
abbrev pub SameUpTo : ℕ → List ℕ → List ℕ → Type 0
SameUpTo zero xs ys = Unit
SameUpTo (suc n) xs ys = (get_or xs n 0 ≡ get_or ys n 0) × SameUpTo n xs ys

differences-SameUpTo : (n : ℕ) (xs ys : List ℕ) → differences xs ys n ≡ [] → SameUpTo n xs ys
unfolding differences
differences-SameUpTo zero xs ys h = tt
differences-SameUpTo (suc n) xs ys h = ground (arith, differences-SameUpTo n xs ys)

module _ {D : Type 0} (dut : Dut D) where
  -- The device after some edges, and the commits that it shows before each of them.
  abbrev pub edges : ℕ → D → D
  edges zero d = d
  edges (suc n) d = edges n (dut.edge d)

  abbrev pub observed : ℕ → D → List Commit
  observed zero d = []
  observed (suc n) d = record_commit (dut.retiring d) (observed n (dut.edge d))

  -- Within `budget` edges the device has shown the expected commits, and no other.
  pub record Shown (budget : ℕ) (p q : Progress D) (expected : List Commit) : Type 0 where
    pub count : ℕ
    pub within : count ≤ budget
    pub reached : q.device ≡ edges count p.device
    pub accepted : Accepted (observed count p.device) expected

  one_edge :
      (budget : ℕ) (p p' q : Progress D) (c : Option Commit) (es es' : List Commit)
      → dut.retiring p.device ≡ c
      → p'.device ≡ dut.edge p.device
      → ((trace : List Commit) → Accepted trace es' → Accepted (record_commit c trace) es)
      → Shown budget p' q es'
      → Shown (suc budget) p q es
  one_edge budget p p' q c es es' shown moved grow h = record {
    count = suc h.count;
    within = omega (arith, h.within);
    reached = h.reached ∙ ap (edges h.count) moved;
    accepted = rw shown (grow (observed h.count (dut.edge p.device)) (rw moved at h.accepted));
  }

  progress-Shown :
      (budget : ℕ) (c : Option Commit) (p q : Progress D) (e : Commit) (es : List Commit)
      → (rest : Progress D → List Commit → Checked (Progress D))
      → ((p' : Progress D) (es' : List Commit) → rest p' es' ≡ passed q → Shown budget p' q es')
      → dut.retiring p.device ≡ c
      → progress dut c p e es rest ≡ passed q
      → Shown (suc budget) p q (e ∷ es)
  unfolding progress
  progress-Shown budget none p q e es rest ih shown h =
      one_edge budget p _ q none (e ∷ es) (e ∷ es) shown refl (λ trace a. a) (ih _ _ h)
  progress-Shown budget (some c) p q e es rest ih shown h =
      let (same, on) = check_passed (is_empty (compare_commit c e)) _ _ q h in
      one_edge budget p _ q (some c) (e ∷ es) es shown refl
        (λ trace a. (is_empty_lem (compare_commit c e) same, a)) (ih _ _ on)

  retire_all-Shown :
      (budget : ℕ) (p q : Progress D) (es : List Commit)
      → retire_all dut budget p es ≡ passed q
      → Shown budget p q es
  unfolding retire_all
  retire_all-Shown budget p q [] h = record {
    count = 0;
    within = omega arith;
    reached = cc;
    accepted = tt;
  }
  retire_all-Shown zero p q (e ∷ es) h = cc
  retire_all-Shown (suc budget) p q (e ∷ es) h =
      let (_, running) = check_passed (budget != 0) _ _ q h in
      let (_, going) = check_passed (not (dut.is_halted p.device)) _ _ q running in
      progress-Shown budget (dut.retiring p.device) p q e es (retire_all dut budget)
        (λ p' es'. retire_all-Shown budget p' q es') refl going

  -- The device halted where and why the model says, and did not move for three edges more; or
  -- it runs as the model does.
  abbrev pub HaltMatches : Bool → Iss → D → D → Type 0
  HaltMatches true s d d' =
      let stopped = dut.edge d in
      (dut.is_halted stopped ≡ true)
      × (dut.cause stopped ≡ s.halt_cause)
      × (dut.commit_pc stopped ≡ s.pc)
      × (dut.commit_pc (dut.edge stopped) ≡ s.pc)
      × (dut.commit_pc (edges 2 stopped) ≡ s.pc)
      × (dut.commit_pc (edges 3 stopped) ≡ s.pc)
      × (d' ≡ edges 3 stopped)
  HaltMatches false s d d' = (dut.is_halted d ≡ false) × (d' ≡ d)

  frozen_once :
      (n pc : ℕ) (d d' : D)
      → frozen dut (suc n) pc d ≡ passed d'
      → (dut.commit_pc (dut.edge d) ≡ pc) × (frozen dut n pc (dut.edge d) ≡ passed d')
  unfolding frozen
  frozen_once n pc d d' h =
      let (same, on) = check_passed (dut.commit_pc (dut.edge d) == pc) _ _ d' h in
      ((==_iff (dut.commit_pc (dut.edge d)) pc).0 same, on)

  frozen_zero : (pc : ℕ) (d d' : D) → frozen dut 0 pc d ≡ passed d' → d' ≡ d
  unfolding frozen
  frozen_zero pc d d' h = cc

  check_halt_matches :
      (s : Iss) (p q : Progress D)
      → check_halt dut s p ≡ passed q
      → HaltMatches true s p.device q.device
  unfolding check_halt
  check_halt_matches s p q h =
      let d = dut.edge p.device in
      let (halted, h1) = check_passed (dut.is_halted d) _ _ q h in
      let (caused, h2) = check_passed (dut.cause d == s.halt_cause) _ _ q h1 in
      let (at, h3) = check_passed (dut.commit_pc d == s.pc) _ _ q h2 in
      let (last, kept, end) = bind_passed (frozen dut 3 (dut.commit_pc d) d) _ q h3 in
      let pc_eq = (==_iff (dut.commit_pc d) s.pc).0 at in
      let (at1, kept1) = frozen_once 2 (dut.commit_pc d) d last kept in
      let (at2, kept2) = frozen_once 1 (dut.commit_pc d) (dut.edge d) last kept1 in
      let (at3, kept3) = frozen_once 0 (dut.commit_pc d) (edges 2 d) last kept2 in
      let stays = frozen_zero (dut.commit_pc d) (edges 3 d) last kept3 in
      (
        halted,
        (==_iff (dut.cause d) s.halt_cause).0 caused,
        pc_eq,
        at1 ∙ pc_eq,
        at2 ∙ pc_eq,
        at3 ∙ pc_eq,
        device_of end ∙ stays,
      )
    where
      device_of : {x y : Progress D} → passed x ≡ passed y → y.device ≡ x.device
      device_of e = cc

  check_end_matches :
      (b : Bool) (s : Iss) (p q : Progress D)
      → s.halted ≡ b
      → check_end dut s p ≡ passed q
      → HaltMatches b s p.device q.device
  unfolding check_end
  check_end_matches true s p q e h = check_halt_matches s p q (simp e at h)
  check_end_matches false s p q e h =
      let (running, h1) = check_passed (not (dut.is_halted p.device)) _ _ q (simp e at h) in
      (ground arith, cc)

  check_state_same :
      (s : Iss) (p q : Progress D)
      → check_state dut s p ≡ passed q
      → SameUpTo 32 (dut.regs q.device) s.regs
        × SameUpTo s.words (dut.mem q.device) s.mem
        × (q.device ≡ p.device)
  unfolding check_state
  check_state_same s p q h =
      let bad_regs = differences (dut.regs p.device) s.regs 32 in
      let bad_mem = differences (dut.mem p.device) s.mem s.words in
      let (regs, h1) = check_passed (is_empty bad_regs) _ _ q h in
      let (mem, h2) = check_passed (is_empty bad_mem) _ _ q h1 in
      let same : q.device ≡ p.device = cc in
      (
        rw same (differences-SameUpTo 32 _ _ (is_empty_lem bad_regs regs)),
        rw same (differences-SameUpTo s.words _ _ (is_empty_lem bad_mem mem)),
        same,
      )

  -- The device `d` ran as the run `r` of the model does, and ended in `d'`.
  pub record Verified (d : D) (r : Iss × List Commit) (d' : D) : Type 0 where
    pub count : ℕ
    pub within : count ≤ length r.1 * 4 + 200
    pub accepted : Accepted (observed count d) r.1
    pub halts : HaltMatches r.0.halted r.0 (edges count d) d'
    pub registers : SameUpTo 32 (dut.regs d') r.0.regs
    pub memory : SameUpTo r.0.words (dut.mem d') r.0.mem

  follow-Verified :
      (start q : Progress D) (r : Iss × List Commit)
      → follow dut start r ≡ passed q
      → Verified start.device r q.device
  unfolding follow
  follow-Verified start q (s, trace) h =
      let (p, looped, h1) =
        bind_passed (retire_all dut (length trace * 4 + 200) start trace) _ q h in
      let (p', ended, checked) = bind_passed (check_end dut s p) _ q h1 in
      let shown = retire_all-Shown (length trace * 4 + 200) start p trace looped in
      let (regs, mem, same) = check_state_same s p' q checked in
      let halts = check_end_matches s.halted s p p' refl ended in
      record {
        count = shown.count;
        within = shown.within;
        accepted = shown.accepted;
        halts = rw (same, ← shown.reached) halts;
        registers = regs;
        memory = mem;
      }

  -- If `run_program` passes on a device, whatever that device is, then the program fits, and
  -- within the budget the device showed the commits of the golden model, one for one, as the
  -- scoreboard compares them, halted with its cause at its program counter and stayed there, or
  -- was running as it was, and ended with its registers and memory.
  pub run_program-Verified :
      (words : ℕ) (d : D) (program : List ℕ) (max_steps : ℕ) (expect_halt : Option ℕ)
      → (counts : Counter) (q : Progress D)
      → run_program dut words d program max_steps expect_halt counts ≡ passed q
      → (length program ≤ words)
        × Verified (dut.load d program) (run max_steps (new program words 0)) q.device
  unfolding run_program
  run_program-Verified words d program n expect_halt counts q h =
      let (fits, h1) = check_passed (leb (length program) words) _ _ q h in
      (ground (arith, fits), follow-Verified _ q (run n (new program words 0)) h1)
