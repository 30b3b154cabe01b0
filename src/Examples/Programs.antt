-- ===== src/Examples/Programs.antt =====
-- The user library, jos/lib/fork.c and jos/lib/ipc.c, on the small machine.
use cs444_operating_systems.Base.{
  ℕ, zero, suc, ◌+◌, ◌*◌, ◌<◌, ◌≡◌, refl, inl, inr, false, none, some, [], ◌∷◌, arith, ◌==◌,
  if◌then◌else◌, bit_or,
}
use cs444_operating_systems.Mmu.{kernbase, pdx, ptx, has_flag, pte_p, pte_w}
use cs444_operating_systems.Kernel.{Kernel}
use cs444_operating_systems.Kernel.Run.{ok}
use cs444_operating_systems.Errors.{value}
use cs444_operating_systems.Pages.Free.{IsFree}
use cs444_operating_systems.Pgdir.Map.{pte_of, IsMapped}
use cs444_operating_systems.Pgdir.Remap.{mapping}
use cs444_operating_systems.Env.{envx}
use cs444_operating_systems.Syscall.Message.{told}
use cs444_operating_systems.UserLib.{duppage, ipc_send}
use cs444_operating_systems.UserLib.Send.{after, Listens, ipc_send_delivers}
use cs444_operating_systems.UserLib.Duplicate.{cow_perm, Duplicates, duplicated, duppage_protects}
use cs444_operating_systems.Examples.{sample, sample_env, sample_mem, sample_dir}
use cs444_operating_systems.Examples.Memory.{sample-IsFree}

-- Environment 2 has the directory in page 8, with the empty table in page 9 for 0x800000.
abbrev child_dir : ℕ
child_dir = 8 * 4096 + kernbase

abbrev forking : Kernel
forking = record sample {
  mem = λ a. if a == child_dir + 4 * 2 then 9 * 4096 + 7 else sample_mem a;
  envs = λ e. record (sample_env e) { env_pgdir = if e == 2 then child_dir else sample_dir };
}

forking-Duplicates : Duplicates forking 1 0x1002 2 0x800 7 (10 ∷ 11 ∷ [])
forking-Duplicates = record {
  current = refl;
  target = record {
    current = refl;
    names = inr (omega arith, (unfold envx in refl, λ e. cc, refl, inr (inr refl)));
  };
  below = omega arith;
  mapped = record {
    table = record {
      reaches = record {
        small = omega arith;
        word = unfold pdx ptx in omega arith;
        present = unfold pdx ptx in refl;
        exists = unfold pdx ptx in omega arith;
      };
      apart = unfold pdx ptx in omega arith;
    };
    word = unfold pdx ptx in omega arith;
    present = unfold pdx ptx in refl;
    page = unfold pdx ptx in refl;
    exists = omega arith;
  };
  changes = unfold pdx ptx in refl;
  table = record {
    reaches = record {
      small = omega arith;
      word = unfold pdx ptx in omega arith;
      present = unfold pdx ptx in refl;
      exists = unfold pdx ptx in omega arith;
    };
    apart = unfold pdx ptx in omega arith;
  };
  empty = unfold pdx ptx in refl;
  free_list = record {
    small = sample-IsFree.small;
    chain = sample-IsFree.chain;
    unlinked = sample-IsFree.unlinked;
  };
  used = (omega arith, omega arith, refl);
  slots = unfold pdx ptx in omega arith;
  own = unfold pdx ptx in omega arith;
  other = unfold pdx ptx in omega arith;
}

abbrev forked : Kernel
forked = duplicated forking 1 2 0x800 7

duppage_protects_example :
    (duppage 0x1002 0x800 forking ≡ ok (value 0) forked)
    × IsMapped 64 sample_dir 0x800000 7 forked.mem
    × IsMapped 64 child_dir 0x800000 7 forked.mem
    × (pte_of sample_dir 0x800000 forked.mem ≡ 7 * 4096 + bit_or cow_perm pte_p)
    × (pte_of child_dir 0x800000 forked.mem ≡ 7 * 4096 + bit_or cow_perm pte_p)
    × (has_flag (7 * 4096 + bit_or cow_perm pte_p) pte_w ≡ false)
    × ((r : ℕ) → (forked.pages r).pp_ref ≡ (forking.pages r).pp_ref + mapping (some 7) r)
    × IsFree forked (10 ∷ 11 ∷ [])
duppage_protects_example =
    duppage_protects forking 1 0x1002 2 0x800 7 (10 ∷ 11 ∷ []) forking-Duplicates

-- While the others run, environment 2 begins to wait for a message.
abbrev receives : Kernel → Kernel
receives k = record k { envs = λ e. record (k.envs e) { env_ipc_recving = e == 2 } }

ipc_send_delivers_example :
    ipc_send 5 receives 0x1002 42 none 0 sample ≡ ok tt (told 1 2 42 (after receives 1 sample))
ipc_send_delivers_example =
    ipc_send_delivers 5 1 receives sample 1 0x1002 2 42 0 (omega arith)
      (λ i lt.
        elim i as (λ n. n < 1 → Listens (after receives n sample) 1 0x1002 2 false) [
          | zero ↦ λ l. record {
            target = record {
              current = refl;
              names = inr (omega arith, (unfold envx in refl, λ e. cc, refl, inl refl));
            };
            state = refl;
          }
          | suc n ↦ λ l. absurd (omega arith)
        ]
          lt)
      (record {
        target = record {
          current = refl;
          names = inr (omega arith, (unfold envx in refl, λ e. cc, refl, inl refl));
        };
        state = refl;
      })
