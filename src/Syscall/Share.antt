-- ===== src/Syscall/Share.antt =====
-- sys_page_map of jos/kern/syscall.c.
use cs444_operating_systems.Base.{
  ℕ, ◌+◌, ◌*◌, ◌^◌, ◌<◌, ◌≡◌, refl, Bool, true, false, not, ◌&&◌, Option, some, List, bit_or,
  Bool-cases, inl, inr,
}
use cs444_operating_systems.Mmu.{has_flag, pte_p, pte_w}
use cs444_operating_systems.Kernel.{Kernel}
use cs444_operating_systems.Kernel.Run.{Run, ok}
use cs444_operating_systems.Errors.{Ret, value, error, inval}
use cs444_operating_systems.Pages.Free.{has, IsFree}
use cs444_operating_systems.Pgdir.{page_insert, page_lookup}
use cs444_operating_systems.Pgdir.Walk.{slot_of, HasTable}
use cs444_operating_systems.Pgdir.Map.{pte_of, IsMapped, lookup_mapped}
use cs444_operating_systems.Pgdir.Insert.{Before, inserted}
use cs444_operating_systems.Pgdir.Remap.{
  mapping, free_after, page_insert-lookup, page_insert_counts,
}
use cs444_operating_systems.Syscall.{bad_va, bad_perm, map_shared, sys_page_map}
use cs444_operating_systems.Syscall.Target.{Targets, with_env-ok}
use cs444_operating_systems.Syscall.Flags.{bad_perm-lt}

-- Does `perm` ask for write access that the entry does not give?
abbrev pub widens : (perm pte : ℕ) → Bool
widens perm pte = has_flag perm pte_w && not (has_flag pte pte_w)

map_refused :
    (k : Kernel) (src srcva dst dstva perm q : ℕ)
    → IsMapped k.npages (k.envs src).env_pgdir srcva q k.mem
    → widens perm (pte_of (k.envs src).env_pgdir srcva k.mem) ≡ true
    → map_shared src srcva dst dstva perm k ≡ ok (error inval) k
unfolding map_shared
map_refused k src srcva dst dstva perm q m bad =
    rw (lookup_mapped k (k.envs src).env_pgdir srcva q m) (rw bad refl)

pub map_granted :
    (k k' : Kernel) (src srcva dst dstva perm q : ℕ)
    → IsMapped k.npages (k.envs src).env_pgdir srcva q k.mem
    → widens perm (pte_of (k.envs src).env_pgdir srcva k.mem) ≡ false
    → page_insert (k.envs dst).env_pgdir q dstva perm k ≡ ok (value 0) k'
    → map_shared src srcva dst dstva perm k ≡ ok (value 0) k'
unfolding map_shared
map_granted k k' src srcva dst dstva perm q m fine ins =
    rw (lookup_mapped k (k.envs src).env_pgdir srcva q m) (rw fine (rw ins refl))

-- What sys_page_map does with the page `q`, by whether write access would be widened.
abbrev pub Shares : Bool → Kernel → (pgdir q dstva perm : ℕ) → List ℕ → Option ℕ → Run Ret → Type 0
Shares true k pgdir q dstva perm ps old r = r ≡ ok (error inval) k
Shares false k pgdir q dstva perm ps old r =
    let k' = inserted pgdir q dstva perm old k in
    (r ≡ ok (value 0) k')
    × (page_lookup pgdir dstva k' ≡ ok (some (q, slot_of pgdir dstva k'.mem)) k')
    × (pte_of pgdir dstva k'.mem ≡ q * 4096 + bit_or perm pte_p)
    × ((x : ℕ) → (k'.pages x).pp_ref + mapping old x ≡ (k.pages x).pp_ref + mapping (some q) x)
    × IsFree k' (free_after k q ps old)

-- sys_page_map with arguments that are accepted, where page `q` is mapped at `srcva` in the source.
-- If write access is asked for and the source has it read-only, it returns -E_INVAL and changes
-- nothing. Else it maps `q` at `dstva` in the target with the permissions: the page has one more
-- reference, and the page mapped there before one less. The hypotheses: the caller names both
-- environments, itself by 0 or one that it may change by its id, the target's directory has a table
-- for `dstva`, a page mapped there has a reference and is not free, and `q` is not free and its counter
-- does not overflow.
pub sys_page_map-Shares :
    (k : Kernel) (c srcenvid src srcva dstenvid dst dstva perm q : ℕ) (ps : List ℕ) (old : Option ℕ)
    → Targets k c srcenvid true src
    → Targets k c dstenvid true dst
    → bad_va srcva ≡ false
    → bad_va dstva ≡ false
    → bad_perm perm ≡ false
    → perm < 2 ^ 32
    → IsMapped k.npages (k.envs src).env_pgdir srcva q k.mem
    → HasTable k.npages (k.envs dst).env_pgdir dstva k.mem
    → IsFree k ps
    → Before k (k.envs dst).env_pgdir dstva ps old
    → (k.pages q).pp_ref + 1 < 2 ^ 16
    → has q ps ≡ false
    → Shares
        (widens perm (pte_of (k.envs src).env_pgdir srcva k.mem))
        k
        (k.envs dst).env_pgdir
        q
        dstva
        perm
        ps
        old
        (sys_page_map srcenvid srcva dstenvid dstva perm k)
unfolding sys_page_map
sys_page_map-Shares k c srcenvid src srcva dstenvid dst dstva perm q ps old s d sa da ok' word m t v
      b room out =
    rw (with_env-ok k c srcenvid true src _ s) (
      rw (with_env-ok k c dstenvid true dst _ d) (
        rw (sa, da, ok')
          (elim (Bool-cases (widens perm (pte_of (k.envs src).env_pgdir srcva k.mem))) [
            | inl bad ↦ rw bad (map_refused k src srcva dst dstva perm q m bad)
            | inr fine ↦
                let small = bad_perm-lt perm word ok' in
                let look =
                  page_insert-lookup k (k.envs dst).env_pgdir q dstva perm ps old t v b m.exists
                    room small in
                let counts =
                  page_insert_counts k (k.envs dst).env_pgdir q dstva perm ps old t v b m.exists
                    room small out in
                rw fine (
                  map_granted k _ src srcva dst dstva perm q m fine look.0,
                  look.1,
                  look.2,
                  counts.1,
                  counts.2,
                )
          ])))
