-- ===== src/Examples/Descriptors.antt =====
-- The descriptor tables of jos/kern/trap.c.
use cs444_operating_systems.Base.{ℕ, ◌+◌, ◌*◌, ◌%◌, ◌≡◌, ◌≢◌, not, none, some, false, arith}
use cs444_operating_systems.Traps.Entries.{
  Entry, divide_entry, debug_entry, nmi_entry, brkpt_entry, oflow_entry, bound_entry, illop_entry,
  device_entry, dblflt_entry, tss_entry, segnp_entry, stack_entry, gpflt_entry, pgflt_entry,
  fperr_entry, align_entry, mchk_entry, simderr_entry, syscall_entry, timer_entry, kbd_entry,
  serial_entry, spurious_entry, ide_entry, error_entry, pushed, pushes_zero,
}
use cs444_operating_systems.Traps.Gates.{gate, seg16, gd_tss0, Descriptors, trap_init}
use cs444_operating_systems.Traps.Gates.Install.{
  has_error_code, Enters, Selects, trap_init_installs,
}

abbrev entries : Entry → ℕ
entries l = 0xF0104000 + 16 * (pushed l % 64)

abbrev task_states : ℕ → ℕ
task_states i = 0xF0200000 + 128 * (i % 8)

abbrev cleared : Descriptors
cleared = record {
  idt = λ v. gate false 0 0 0;
  gdt = λ i. seg16 0 0 0 0;
  cpu_ts = λ i. record { ts_esp0 = 0; ts_ss0 = 0; ts_iomb = 0 };
  task_register = none;
  idt_loaded = false;
}

not_pushed : (l : Entry) → 9 ≢ pushed l
unfolding pushed
not_pushed divide_entry = omega arith
not_pushed debug_entry = omega arith
not_pushed nmi_entry = omega arith
not_pushed brkpt_entry = omega arith
not_pushed oflow_entry = omega arith
not_pushed bound_entry = omega arith
not_pushed illop_entry = omega arith
not_pushed device_entry = omega arith
not_pushed dblflt_entry = omega arith
not_pushed tss_entry = omega arith
not_pushed segnp_entry = omega arith
not_pushed stack_entry = omega arith
not_pushed gpflt_entry = omega arith
not_pushed pgflt_entry = omega arith
not_pushed fperr_entry = omega arith
not_pushed align_entry = omega arith
not_pushed mchk_entry = omega arith
not_pushed simderr_entry = omega arith
not_pushed syscall_entry = omega arith
not_pushed timer_entry = omega arith
not_pushed kbd_entry = omega arith
not_pushed serial_entry = omega arith
not_pushed spurious_entry = omega arith
not_pushed ide_entry = omega arith
not_pushed error_entry = omega arith

trap_init_installs_example :
    let s' = trap_init entries 0xF0210000 task_states 1 cleared in
    ((l : Entry)
      → Enters (pushed l) (entries l) (s'.idt (pushed l))
        × (pushes_zero l ≡ not (has_error_code (pushed l))))
    × (s'.idt 9 ≡ cleared.idt 9)
    × (s'.task_register ≡ some (gd_tss0 + 1 * 8))
    × Selects (gd_tss0 + 1 * 8) (task_states 1) s'
trap_init_installs_example =
    trap_init_installs entries 0xF0210000 task_states 1 cleared 9 (λ l. omega arith) (omega arith)
      not_pushed
