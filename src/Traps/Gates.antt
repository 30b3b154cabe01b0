-- ===== src/Traps/Gates.antt =====
-- trap_init and trap_init_percpu of jos/kern/trap.c, and the entry points of jos/kern/trapentry.S. The
-- addresses of the entry points, of the stacks and of the CPUs' task states are parameters.
pub mod Install
use cs444_operating_systems.Base.{
  ℕ, ◌+◌, ◌-◌, ◌*◌, ◌/◌, ◌%◌, ◌^◌, Bool, true, false, Option, none, some, update, if◌then◌else◌,
}
use cs444_operating_systems.Mmu.{u32}
use cs444_operating_systems.KernelMap.{kstksize}
use cs444_operating_systems.Traps.{
  gd_kt, t_brkpt, t_pgflt, t_syscall, irq_offset, irq_timer, irq_spurious,
}
use cs444_operating_systems.Traps.Entries.{
  Entry, divide_entry, debug_entry, nmi_entry, brkpt_entry, oflow_entry, bound_entry, illop_entry,
  device_entry, dblflt_entry, tss_entry, segnp_entry, stack_entry, gpflt_entry, pgflt_entry,
  fperr_entry, align_entry, mchk_entry, simderr_entry, syscall_entry, timer_entry, kbd_entry,
  serial_entry, spurious_entry, ide_entry, error_entry, t_divide, t_debug, t_nmi, t_oflow, t_bound,
  t_illop, t_device, t_dblflt, t_tss, t_segnp, t_stack, t_gpflt, t_fperr, t_align, t_mchk,
  t_simderr, irq_kbd, irq_serial, irq_ide, irq_error,
}

pub record Gatedesc : Type 0 where
  pub gd_off_15_0 : ℕ
  pub gd_sel : ℕ
  pub gd_args : ℕ
  pub gd_rsv1 : ℕ
  pub gd_type : ℕ
  pub gd_s : ℕ
  pub gd_dpl : ℕ
  pub gd_p : ℕ
  pub gd_off_31_16 : ℕ

abbrev pub sts_ig32 : ℕ
sts_ig32 = 0xE

abbrev pub sts_tg32 : ℕ
sts_tg32 = 0xF

unfoldable pub gate : (istrap : Bool) → (sel off dpl : ℕ) → Gatedesc
gate istrap sel off dpl = record {
  gd_off_15_0 = off % 2 ^ 16;
  gd_sel = sel % 2 ^ 16;
  gd_args = 0;
  gd_rsv1 = 0;
  gd_type = if istrap then sts_tg32 else sts_ig32;
  gd_s = 0;
  gd_dpl = dpl % 4;
  gd_p = 1;
  gd_off_31_16 = off / 2 ^ 16 % 2 ^ 16;
}

-- `SETGATE(idt[i], istrap, sel, off, dpl)`
unfoldable pub set_gate : ℕ → (istrap : Bool) → (sel off dpl : ℕ) → (ℕ → Gatedesc) → ℕ → Gatedesc
set_gate i istrap sel off dpl idt = update idt i (gate istrap sel off dpl)

-- The calls of SETGATE in trap_init.
unfoldable pub set_gates : (address : Entry → ℕ) → (ℕ → Gatedesc) → ℕ → Gatedesc
set_gates address idt =
    let idt = set_gate t_divide false gd_kt (address divide_entry) 0 idt in
    let idt = set_gate t_debug false gd_kt (address debug_entry) 0 idt in
    let idt = set_gate t_nmi false gd_kt (address nmi_entry) 0 idt in
    let idt = set_gate t_brkpt false gd_kt (address brkpt_entry) 3 idt in
    let idt = set_gate t_oflow false gd_kt (address oflow_entry) 0 idt in
    let idt = set_gate t_bound false gd_kt (address bound_entry) 0 idt in
    let idt = set_gate t_illop false gd_kt (address illop_entry) 0 idt in
    let idt = set_gate t_device false gd_kt (address device_entry) 0 idt in
    let idt = set_gate t_dblflt false gd_kt (address dblflt_entry) 0 idt in
    let idt = set_gate t_tss false gd_kt (address tss_entry) 0 idt in
    let idt = set_gate t_segnp false gd_kt (address segnp_entry) 0 idt in
    let idt = set_gate t_stack false gd_kt (address stack_entry) 0 idt in
    let idt = set_gate t_gpflt false gd_kt (address gpflt_entry) 0 idt in
    let idt = set_gate t_pgflt false gd_kt (address pgflt_entry) 0 idt in
    let idt = set_gate t_fperr false gd_kt (address fperr_entry) 0 idt in
    let idt = set_gate t_align false gd_kt (address align_entry) 0 idt in
    let idt = set_gate t_mchk false gd_kt (address mchk_entry) 0 idt in
    let idt = set_gate t_simderr false gd_kt (address simderr_entry) 0 idt in
    let idt = set_gate t_syscall false gd_kt (address syscall_entry) 3 idt in
    let idt = set_gate (irq_offset + irq_timer) false gd_kt (address timer_entry) 0 idt in
    let idt = set_gate (irq_offset + irq_kbd) false gd_kt (address kbd_entry) 0 idt in
    let idt = set_gate (irq_offset + irq_serial) false gd_kt (address serial_entry) 0 idt in
    let idt = set_gate (irq_spurious + irq_offset) false gd_kt (address spurious_entry) 0 idt in
    let idt = set_gate (irq_ide + irq_offset) false gd_kt (address ide_entry) 0 idt in
    set_gate (irq_error + irq_offset) false gd_kt (address error_entry) 0 idt

abbrev pub gd_kd : ℕ
gd_kd = 0x10

abbrev pub gd_tss0 : ℕ
gd_tss0 = 0x28

abbrev pub sts_t32a : ℕ
sts_t32a = 0x9

pub record Segdesc : Type 0 where
  pub sd_lim_15_0 : ℕ
  pub sd_base_15_0 : ℕ
  pub sd_base_23_16 : ℕ
  pub sd_type : ℕ
  pub sd_s : ℕ
  pub sd_dpl : ℕ
  pub sd_p : ℕ
  pub sd_lim_19_16 : ℕ
  pub sd_avl : ℕ
  pub sd_rsv1 : ℕ
  pub sd_db : ℕ
  pub sd_g : ℕ
  pub sd_base_31_24 : ℕ

unfoldable pub seg16 : (type base lim dpl : ℕ) → Segdesc
seg16 type base lim dpl = record {
  sd_lim_15_0 = lim % 2 ^ 16;
  sd_base_15_0 = base % 2 ^ 16;
  sd_base_23_16 = base / 2 ^ 16 % 2 ^ 8;
  sd_type = type % 2 ^ 4;
  sd_s = 1;
  sd_dpl = dpl % 4;
  sd_p = 1;
  sd_lim_19_16 = lim / 2 ^ 16 % 2 ^ 4;
  sd_avl = 0;
  sd_rsv1 = 0;
  sd_db = 1;
  sd_g = 0;
  sd_base_31_24 = base / 2 ^ 24 % 2 ^ 8;
}

-- What trap_init_percpu sets of a task state.
pub record Taskstate : Type 0 where
  pub ts_esp0 : ℕ
  pub ts_ss0 : ℕ
  pub ts_iomb : ℕ

abbrev pub taskstate_size : ℕ
taskstate_size = 104

-- The descriptor tables and the task states, and what the CPU `id` has loaded: the selector of its task
-- state, and the interrupt descriptor table.
pub record Descriptors : Type 0 where
  pub idt : ℕ → Gatedesc
  pub gdt : ℕ → Segdesc
  pub cpu_ts : ℕ → Taskstate
  pub task_register : Option ℕ
  pub idt_loaded : Bool

-- `kstacks` is the address of percpu_kstacks, and `ts i` that of the task state of CPU `i`.
unfoldable pub trap_init_percpu :
    (kstacks : ℕ) → (ts : ℕ → ℕ) → (id : ℕ) → Descriptors → Descriptors
trap_init_percpu kstacks ts id s = record s {
  cpu_ts = update s.cpu_ts id (record {
    ts_esp0 = u32 (kstacks + id * kstksize + kstksize);
    ts_ss0 = gd_kd;
    ts_iomb = taskstate_size;
  });
  gdt =
      update s.gdt (gd_tss0 / 8 + id)
        (record (seg16 sts_t32a (ts id) (taskstate_size - 1) 0) { sd_s = 0 });
  task_register = some (gd_tss0 + id * 8);
  idt_loaded = true;
}

unfoldable pub trap_init :
    (address : Entry → ℕ) → (kstacks : ℕ) → (ts : ℕ → ℕ) → (id : ℕ) → Descriptors → Descriptors
trap_init address kstacks ts id s =
    trap_init_percpu kstacks ts id (record s { idt = set_gates address s.idt })
