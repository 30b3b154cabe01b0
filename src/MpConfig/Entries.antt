-- ===== src/MpConfig/Entries.antt =====
-- The processors that mp_init of jos/kern/mpconfig.c finds.
use cs444_operating_systems.Base.{
  ℕ, suc, ◌+◌, ◌≤◌, ◌<◌, ◌≡◌, ◌≢◌, refl, true, some, List, [], ◌∷◌, ◌++◌, length, arith, ltb,
  if◌then◌else◌, bit_and, ap, ◌∙◌, sym,
}
use mathlib.Core.Path.{subst}
use cs444_operating_systems.MpConfig.{
  ncpu_max, Cpus, add_cpu, parse_entries, conclude, load16, load32, mpconfig, mp_init,
}

-- An entry of the table: a processor with its flags, or a bus, an I/O APIC or an interrupt source.
pub data Entry : Type 0 where
  processor : (flags : ℕ) → Entry
  device : (type : ℕ) → Entry

-- The table at `p` holds these entries.
abbrev pub IsTable : (ℕ → ℕ) → ℕ → List Entry → Type 0
IsTable m p [] = Unit
IsTable m p (processor flags ∷ es) = (m p ≡ 0) × (m (p + 3) ≡ flags) × IsTable m (p + 20) es
IsTable m p (device type ∷ es) = (m p ≡ type) × (0 < type) × (type ≤ 4) × IsTable m (p + 8) es

abbrev pub processors : List Entry → ℕ
processors [] = 0
processors (processor flags ∷ es) = suc (processors es)
processors (device type ∷ es) = processors es

-- No processor here is the one that has booted.
abbrev pub NoBoot : List Entry → Type 0
NoBoot [] = Unit
NoBoot (processor flags ∷ es) = (bit_and flags 2 ≡ 0) × NoBoot es
NoBoot (device type ∷ es) = NoBoot es

abbrev pub capped : ℕ → ℕ
capped n = if ltb n ncpu_max then n else ncpu_max

-- Every CPU has its own index as its id.
abbrev pub Indexed : Cpus → Type 0
Indexed s = (i : ℕ) → i < s.ncpu → s.cpu_id i ≡ i

record Counted (n : ℕ) (s s' : Cpus) : Type 0 where
  count : s'.ncpu ≡ capped (s.ncpu + n)
  ids : Indexed s'
  same : s'.ismp ≡ s.ismp

length-append : (xs ys : List Entry) → length (xs ++ ys) ≡ length xs + length ys
length-append [] ys = omega arith
length-append (x ∷ xs) ys = omega (arith, length-append xs ys)

module _ (left p : ℕ) (m : ℕ → ℕ) (s : Cpus) where
  parse_processor :
      m p ≡ 0
      → parse_entries (suc left) p m s ≡ parse_entries left (p + 20) m (add_cpu (m (p + 3)) s)
  unfolding parse_entries
  parse_processor e = ground (arith, e)

  parse_device : 0 < m p → m p ≤ 4 → parse_entries (suc left) p m s ≡ parse_entries left (p + 8) m s
  unfolding parse_entries
  parse_device pos small = ground (arith, pos, small)

parse_entries-Counted :
    (p : ℕ) (es : List Entry) (m : ℕ → ℕ) (s : Cpus)
    → IsTable m p es
    → s.ncpu ≤ ncpu_max
    → Indexed s
    → Counted (processors es) s (parse_entries (length es) p m s)
unfolding parse_entries add_cpu
parse_entries-Counted p [] m s t le ids = record { count = ground arith; ids = ids; same = refl }
parse_entries-Counted p (processor flags ∷ es) m s (at, f, t) le ids =
    let rec =
      parse_entries-Counted (p + 20) es m (add_cpu (m (p + 3)) s) t (ground arith)
        (λ i lt. ground (arith, ids i)) in
    subst (Counted (suc (processors es)) s) (sym (parse_processor (length es) p m s at))
      (record { count = ground (arith, rec.count); ids = rec.ids; same = rec.same ∙ ground arith })
parse_entries-Counted p (device type ∷ es) m s (at, pos, small, t) le ids =
    subst (Counted (processors es) s)
      (sym (parse_device (length es) p m s (omega arith) (omega arith)))
      (parse_entries-Counted (p + 8) es m s t le ids)

-- What is behind the first entries.
abbrev skipped : ℕ → List Entry → ℕ
skipped p [] = p
skipped p (processor flags ∷ es) = skipped (p + 20) es
skipped p (device type ∷ es) = skipped (p + 8) es

IsTable-append :
    (m : ℕ → ℕ) (p : ℕ) (es fs : List Entry)
    → IsTable m p (es ++ fs)
    → IsTable m p es × IsTable m (skipped p es) fs
IsTable-append m p [] fs t = (tt, t)
IsTable-append m p (processor flags ∷ es) fs (at, f, t) =
    let (t1, t2) = IsTable-append m (p + 20) es fs t in ((at, f, t1), t2)
IsTable-append m p (device type ∷ es) fs (at, pos, small, t) =
    let (t1, t2) = IsTable-append m (p + 8) es fs t in ((at, pos, small, t1), t2)

parse_entries-append :
    (p : ℕ) (es : List Entry) (left : ℕ) (m : ℕ → ℕ) (s : Cpus)
    → IsTable m p es
    → parse_entries (length es + left) p m s
      ≡ parse_entries left (skipped p es) m (parse_entries (length es) p m s)
unfolding parse_entries
parse_entries-append p [] left m s t = ground arith
parse_entries-append p (processor flags ∷ es) left m s (at, f, t) =
    let more : suc (length es) + left ≡ suc (length es + left) = omega arith in
    ap (λ (n : ℕ). parse_entries n p m s) more
    ∙ parse_processor (length es + left) p m s at
    ∙ parse_entries-append (p + 20) es left m (add_cpu (m (p + 3)) s) t
    ∙ ap (parse_entries left (skipped (p + 20) es) m) (sym (parse_processor (length es) p m s at))
parse_entries-append p (device type ∷ es) left m s (at, pos, small, t) =
    let pos' : 0 < m p = omega arith in
    let small' : m p ≤ 4 = omega arith in
    let more : suc (length es) + left ≡ suc (length es + left) = omega arith in
    ap (λ (n : ℕ). parse_entries n p m s) more
    ∙ parse_device (length es + left) p m s pos' small'
    ∙ parse_entries-append (p + 8) es left m s t
    ∙ ap (parse_entries left (skipped (p + 8) es) m)
        (sym (parse_device (length es) p m s pos' small'))

parse_entries-NoBoot :
    (p : ℕ) (es : List Entry) (m : ℕ → ℕ) (s : Cpus)
    → IsTable m p es
    → NoBoot es
    → (parse_entries (length es) p m s).bootcpu ≡ s.bootcpu
unfolding parse_entries add_cpu
parse_entries-NoBoot p [] m s t none' = refl
parse_entries-NoBoot p (processor flags ∷ es) m s (at, f, t) (unset, none') =
    ap (λ (s' : Cpus). s'.bootcpu) (parse_processor (length es) p m s at)
    ∙ parse_entries-NoBoot (p + 20) es m (add_cpu (m (p + 3)) s) t none'
    ∙ ground arith
parse_entries-NoBoot p (device type ∷ es) m s (at, pos, small, t) none' =
    ap (λ (s' : Cpus). s'.bootcpu) (parse_device (length es) p m s (omega arith) (omega arith))
    ∙ parse_entries-NoBoot (p + 8) es m s t none'

-- What the entries before the last processor with the boot flag, this one, and those behind it leave.
parse_entries-boot :
    (p : ℕ) (before after : List Entry) (flags : ℕ) (m : ℕ → ℕ) (s : Cpus)
    → IsTable m p (before ++ processor flags ∷ after)
    → bit_and flags 2 ≢ 0
    → NoBoot after
    → s.ncpu ≡ 0
    → (parse_entries (length (before ++ processor flags ∷ after)) p m s).bootcpu
      ≡ capped (processors before)
unfolding add_cpu
parse_entries-boot p before after flags m s t set none' fresh =
    let (t1, (at, f, t2)) = IsTable-append m p before (processor flags ∷ after) t in
    let q : ℕ = skipped p before in
    let s1 : Cpus = parse_entries (length before) p m s in
    let first =
      parse_entries-Counted p before m s t1 (omega arith) (λ i lt. absurd (omega arith)) in
    ap (λ (n : ℕ). (parse_entries n p m s).bootcpu) (length-append before (processor flags ∷ after))
    ∙ ap (λ (s' : Cpus). s'.bootcpu)
        (parse_entries-append p before (suc (length after)) m s t1
          ∙ parse_processor (length after) q m s1 at)
    ∙ parse_entries-NoBoot (q + 20) after m (add_cpu (m (q + 3)) s1) t2 none'
    ∙ ground (arith, first.count)

-- mp_init with a table that is accepted, and that lists processors, buses, I/O APICs and interrupt
-- sources: it always returns, with as many CPUs as there are processors, but 8 at most, each with
-- its own index as its id. `bootcpu` is the entry of the last processor with the boot flag, by the
-- order in the table, and is marked as started; if 8 processors or more come before that one,
-- `bootcpu` points behind the end of `cpus`. The hypothesis on the start: no CPU has been counted.
pub mp_init_counts :
    (npages mp conf : ℕ) (before after : List Entry) (flags : ℕ) (m : ℕ → ℕ) (s : Cpus)
    → mpconfig npages m ≡ some (some (mp, conf))
    → load16 (conf + 34) m ≡ length (before ++ processor flags ∷ after)
    → IsTable m (conf + 44) (before ++ processor flags ∷ after)
    → bit_and flags 2 ≢ 0
    → NoBoot after
    → s.ncpu ≡ 0
    → (s' : Cpus) × (mp_init npages m s ≡ some s')
      × (s'.ncpu ≡ capped (processors (before ++ processor flags ∷ after)))
      × Indexed s'
      × (s'.bootcpu ≡ capped (processors before))
      × (s'.started ≡ some s'.bootcpu)
      × (s'.ismp ≡ true)
unfolding mp_init
mp_init_counts npages mp conf before after flags m s found size t set none' fresh =
    let es : List Entry = before ++ processor flags ∷ after in
    let s0 : Cpus = record s { bootcpu = 0; ismp = true; lapicaddr = load32 (conf + 36) m } in
    let s1 : Cpus = parse_entries (load16 (conf + 34) m) (conf + 44) m s0 in
    let e : s1 ≡ parse_entries (length es) (conf + 44) m s0 =
      ap (λ (n : ℕ). parse_entries n (conf + 44) m s0) size in
    let p =
      subst (Counted (processors es) s0) (sym e) (
        parse_entries-Counted (conf + 44) es m s0 t (omega arith) (λ i lt. absurd (omega arith))) in
    let boot =
      ap (λ (s' : Cpus). s'.bootcpu) e
      ∙ parse_entries-boot (conf + 44) before after flags m s0 t set none' fresh in
    (
      conclude (m (mp + 12)) s1,
      ground (arith, found),
      ground (arith, p.count, p.same),
      λ i lt. ground (arith, p.same, p.ids i),
      ground (arith, p.same, boot),
      ground (arith, p.same),
      ground (arith, p.same),
    )
