-- ===== src/Traps/Gates/Install.antt =====
-- The gates that trap_init of jos/kern/trap.c installs.
use cs444_operating_systems.Base.{
  ℕ, ◌+◌, ◌*◌, ◌/◌, ◌^◌, ◌≡◌, ◌≢◌, ◌<◌, refl, Bool, false, not, ◌||◌, ◌&&◌, ◌==◌, leb, some,
  if◌then◌else◌, arith, sym,
}
use mathlib.Core.Path.{subst}
use cs444_operating_systems.Traps.{gd_kt}
use cs444_operating_systems.Traps.Entries.{
  Entry, divide_entry, debug_entry, nmi_entry, brkpt_entry, oflow_entry, bound_entry, illop_entry,
  device_entry, dblflt_entry, tss_entry, segnp_entry, stack_entry, gpflt_entry, pgflt_entry,
  fperr_entry, align_entry, mchk_entry, simderr_entry, syscall_entry, timer_entry, kbd_entry,
  serial_entry, spurious_entry, ide_entry, error_entry, pushed, pushes_zero,
}
use cs444_operating_systems.Traps.Gates.{
  Gatedesc, sts_ig32, gate, set_gate, set_gates, gd_tss0, sts_t32a, seg16, taskstate_size,
  Descriptors, trap_init_percpu, trap_init,
}

-- A program may use the gates of the breakpoint and of the system call, and no other.
abbrev pub privilege : ℕ → ℕ
privilege n = if n == 3 || n == 48 then 3 else 0

-- The exceptions for which the processor pushes an error code.
abbrev pub has_error_code : ℕ → Bool
has_error_code n = n == 8 || (leb 10 n && leb n 14) || n == 17

pub set_gates-at :
    (address : Entry → ℕ) (idt : ℕ → Gatedesc) (l : Entry)
    → set_gates address idt (pushed l) ≡ gate false gd_kt (address l) (privilege (pushed l))
unfolding set_gates set_gate pushed
set_gates-at address idt divide_entry = refl
set_gates-at address idt debug_entry = refl
set_gates-at address idt nmi_entry = refl
set_gates-at address idt brkpt_entry = refl
set_gates-at address idt oflow_entry = refl
set_gates-at address idt bound_entry = refl
set_gates-at address idt illop_entry = refl
set_gates-at address idt device_entry = refl
set_gates-at address idt dblflt_entry = refl
set_gates-at address idt tss_entry = refl
set_gates-at address idt segnp_entry = refl
set_gates-at address idt stack_entry = refl
set_gates-at address idt gpflt_entry = refl
set_gates-at address idt pgflt_entry = refl
set_gates-at address idt fperr_entry = refl
set_gates-at address idt align_entry = refl
set_gates-at address idt mchk_entry = refl
set_gates-at address idt simderr_entry = refl
set_gates-at address idt syscall_entry = refl
set_gates-at address idt timer_entry = refl
set_gates-at address idt kbd_entry = refl
set_gates-at address idt serial_entry = refl
set_gates-at address idt spurious_entry = refl
set_gates-at address idt ide_entry = refl
set_gates-at address idt error_entry = refl

pub set_gates-other :
    (address : Entry → ℕ) (idt : ℕ → Gatedesc) (v : ℕ)
    → ((l : Entry) → v ≢ pushed l)
    → set_gates address idt v ≡ idt v
unfolding set_gates set_gate pushed
set_gates-other address idt v out = ground (
  arith,
  out divide_entry,
  out debug_entry,
  out nmi_entry,
  out brkpt_entry,
  out oflow_entry,
  out bound_entry,
  out illop_entry,
  out device_entry,
  out dblflt_entry,
  out tss_entry,
  out segnp_entry,
  out stack_entry,
  out gpflt_entry,
  out pgflt_entry,
  out fperr_entry,
  out align_entry,
  out mchk_entry,
  out simderr_entry,
  out syscall_entry,
  out timer_entry,
  out kbd_entry,
  out serial_entry,
  out spurious_entry,
  out ide_entry,
  out error_entry,
)

error_codes : (l : Entry) → pushes_zero l ≡ not (has_error_code (pushed l))
unfolding pushes_zero pushed
error_codes divide_entry = refl
error_codes debug_entry = refl
error_codes nmi_entry = refl
error_codes brkpt_entry = refl
error_codes oflow_entry = refl
error_codes bound_entry = refl
error_codes illop_entry = refl
error_codes device_entry = refl
error_codes dblflt_entry = refl
error_codes tss_entry = refl
error_codes segnp_entry = refl
error_codes stack_entry = refl
error_codes gpflt_entry = refl
error_codes pgflt_entry = refl
error_codes fperr_entry = refl
error_codes align_entry = refl
error_codes mchk_entry = refl
error_codes simderr_entry = refl
error_codes syscall_entry = refl
error_codes timer_entry = refl
error_codes kbd_entry = refl
error_codes serial_entry = refl
error_codes spurious_entry = refl
error_codes ide_entry = refl
error_codes error_entry = refl

-- What the processor does at interrupt `n`: the entry point is at `address`, in the kernel's code, with
-- interrupts off, for a caller of privilege `privilege n`.
pub record Enters (n address : ℕ) (g : Gatedesc) : Type 0 where
  pub target : g.gd_off_31_16 * 2 ^ 16 + g.gd_off_15_0 ≡ address
  pub code : g.gd_sel ≡ gd_kt
  pub interrupt_gate : g.gd_type ≡ sts_ig32
  pub dpl : g.gd_dpl ≡ privilege n
  pub present : g.gd_p ≡ 1

gate-Enters :
    (n address : ℕ) → address < 2 ^ 32 → Enters n address (gate false gd_kt address (privilege n))
unfolding gate
gate-Enters n address lt = record {
  target = omega arith;
  code = refl;
  interrupt_gate = refl;
  dpl = ground arith;
  present = refl;
}

-- The task state that the selector `r` stands for.
pub record Selects (r address : ℕ) (s : Descriptors) : Type 0 where
  pub base :
      (s.gdt (r / 8)).sd_base_31_24 * 2 ^ 24
        + (s.gdt (r / 8)).sd_base_23_16 * 2 ^ 16
        + (s.gdt (r / 8)).sd_base_15_0
      ≡ address
  pub limit : (s.gdt (r / 8)).sd_lim_15_0 + 1 ≡ taskstate_size
  pub available : (s.gdt (r / 8)).sd_type ≡ sts_t32a
  pub system : (s.gdt (r / 8)).sd_s ≡ 0

Selects-percpu :
    (kstacks : ℕ) (ts : ℕ → ℕ) (id : ℕ) (s : Descriptors)
    → ts id < 2 ^ 32
    → Selects (gd_tss0 + id * 8) (ts id) (trap_init_percpu kstacks ts id s)
unfolding trap_init_percpu seg16
Selects-percpu kstacks ts id s lt =
    let index : (gd_tss0 + id * 8) / 8 ≡ gd_tss0 / 8 + id = omega arith in
    record {
      base = ground arith;
      limit = ground arith;
      available = ground arith;
      system = ground arith;
    }

-- trap_init, with the entry points of jos/kern/trapentry.S. Each entry point is installed at the number
-- that it pushes, with its address, in the kernel's code segment, with interrupts off and present; the
-- breakpoint and the system call are open to user programs, and no other gate is. It pushes a 0 for the
-- error code exactly where the processor pushes none. A gate `v` that no entry point pushes is as
-- before. The CPU `id` has loaded a selector of a descriptor of its own task state. The hypotheses: the
-- addresses have 32 bits.
pub trap_init_installs :
    (address : Entry → ℕ) (kstacks : ℕ) (ts : ℕ → ℕ) (id : ℕ) (s : Descriptors) (v : ℕ)
    → ((l : Entry) → address l < 2 ^ 32)
    → ts id < 2 ^ 32
    → ((l : Entry) → v ≢ pushed l)
    → let s' = trap_init address kstacks ts id s in
      ((l : Entry)
        → Enters (pushed l) (address l) (s'.idt (pushed l))
          × (pushes_zero l ≡ not (has_error_code (pushed l))))
      × (s'.idt v ≡ s.idt v)
      × (s'.task_register ≡ some (gd_tss0 + id * 8))
      × Selects (gd_tss0 + id * 8) (ts id) s'
unfolding trap_init trap_init_percpu
trap_init_installs address kstacks ts id s v small fits out = (
  λ l. (
    subst (Enters (pushed l) (address l)) (sym (set_gates-at address s.idt l))
        (gate-Enters (pushed l) (address l) (small l)),
    error_codes l,
  ),
  set_gates-other address s.idt v out,
  refl,
  Selects-percpu kstacks ts id (record s { idt = set_gates address s.idt }) fits,
)
