-- ===== src/Traps/Entries.antt =====
-- The entry points of jos/kern/trapentry.S and the trap numbers of jos/inc/trap.h.
use cs444_operating_systems.Base.{ℕ, ◌+◌, Bool, true, false}
use cs444_operating_systems.Traps.{t_brkpt, t_pgflt, t_syscall, irq_offset, irq_timer, irq_spurious}

abbrev pub t_divide : ℕ
t_divide = 0

abbrev pub t_debug : ℕ
t_debug = 1

abbrev pub t_nmi : ℕ
t_nmi = 2

abbrev pub t_oflow : ℕ
t_oflow = 4

abbrev pub t_bound : ℕ
t_bound = 5

abbrev pub t_illop : ℕ
t_illop = 6

abbrev pub t_device : ℕ
t_device = 7

abbrev pub t_dblflt : ℕ
t_dblflt = 8

abbrev pub t_tss : ℕ
t_tss = 10

abbrev pub t_segnp : ℕ
t_segnp = 11

abbrev pub t_stack : ℕ
t_stack = 12

abbrev pub t_gpflt : ℕ
t_gpflt = 13

abbrev pub t_fperr : ℕ
t_fperr = 16

abbrev pub t_align : ℕ
t_align = 17

abbrev pub t_mchk : ℕ
t_mchk = 18

abbrev pub t_simderr : ℕ
t_simderr = 19

abbrev pub irq_kbd : ℕ
irq_kbd = 1

abbrev pub irq_serial : ℕ
irq_serial = 4

abbrev pub irq_ide : ℕ
irq_ide = 14

abbrev pub irq_error : ℕ
irq_error = 19

-- The entry points.
pub data Entry : Type 0 where
  divide_entry : Entry
  debug_entry : Entry
  nmi_entry : Entry
  brkpt_entry : Entry
  oflow_entry : Entry
  bound_entry : Entry
  illop_entry : Entry
  device_entry : Entry
  dblflt_entry : Entry
  tss_entry : Entry
  segnp_entry : Entry
  stack_entry : Entry
  gpflt_entry : Entry
  pgflt_entry : Entry
  fperr_entry : Entry
  align_entry : Entry
  mchk_entry : Entry
  simderr_entry : Entry
  syscall_entry : Entry
  timer_entry : Entry
  kbd_entry : Entry
  serial_entry : Entry
  spurious_entry : Entry
  ide_entry : Entry
  error_entry : Entry

-- The number that an entry point pushes.
unfoldable pub pushed : Entry → ℕ
pushed divide_entry = t_divide
pushed debug_entry = t_debug
pushed nmi_entry = t_nmi
pushed brkpt_entry = t_brkpt
pushed oflow_entry = t_oflow
pushed bound_entry = t_bound
pushed illop_entry = t_illop
pushed device_entry = t_device
pushed dblflt_entry = t_dblflt
pushed tss_entry = t_tss
pushed segnp_entry = t_segnp
pushed stack_entry = t_stack
pushed gpflt_entry = t_gpflt
pushed pgflt_entry = t_pgflt
pushed fperr_entry = t_fperr
pushed align_entry = t_align
pushed mchk_entry = t_mchk
pushed simderr_entry = t_simderr
pushed syscall_entry = t_syscall
pushed timer_entry = irq_timer + irq_offset
pushed kbd_entry = irq_kbd + irq_offset
pushed serial_entry = irq_serial + irq_offset
pushed spurious_entry = irq_spurious + irq_offset
pushed ide_entry = irq_ide + irq_offset
pushed error_entry = irq_error + irq_offset

-- Does it push a 0 in the place of an error code?
unfoldable pub pushes_zero : Entry → Bool
pushes_zero divide_entry = true
pushes_zero debug_entry = true
pushes_zero nmi_entry = true
pushes_zero brkpt_entry = true
pushes_zero oflow_entry = true
pushes_zero bound_entry = true
pushes_zero illop_entry = true
pushes_zero device_entry = true
pushes_zero dblflt_entry = false
pushes_zero tss_entry = false
pushes_zero segnp_entry = false
pushes_zero stack_entry = false
pushes_zero gpflt_entry = false
pushes_zero pgflt_entry = false
pushes_zero fperr_entry = true
pushes_zero align_entry = false
pushes_zero mchk_entry = true
pushes_zero simderr_entry = true
pushes_zero syscall_entry = true
pushes_zero timer_entry = true
pushes_zero kbd_entry = true
pushes_zero serial_entry = true
pushes_zero spurious_entry = true
pushes_zero ide_entry = true
pushes_zero error_entry = true
