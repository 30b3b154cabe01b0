-- ===== src/Monitor/Mappings/Permissions.antt =====
-- The flags that setperms of jos/kern/monitor.c sets.
use cs444_operating_systems.Base.{
  ℕ, zero, suc, ◌+◌, ◌-◌, ◌*◌, ◌/◌, ◌^◌, ◌<◌, ◌≡◌, ◌≢◌, ◌==◌, ◌||◌, ◌&&◌, refl, Bool, true, false,
  some, List, [], ◌∷◌, if◌then◌else◌, arith, sym, ne→==, length, ap, ◌∙◌, update, update_self,
  bit_or,
}
use mathlib.Core.Path.{fun_ext, subst}
use cs444_operating_systems.Mmu.{pte_p, pte_w, pte_u}
use cs444_operating_systems.Base.Bits.{bit_and_low_mask, bit_and_high_mask, bit_or_low_field}
use cs444_operating_systems.Strings.Number.{strtol}
use cs444_operating_systems.Strings.Scan.{strcmp}
use cs444_operating_systems.Kernel.{Kernel}
use cs444_operating_systems.Kernel.Run.{Cmd, ok, when, ◌>>◌}
use cs444_operating_systems.Pgdir.Walk.{slot_of, Reaches, walk_to_table}
use cs444_operating_systems.Monitor.Mappings.{clear_flags, add_flag, set_flags, mon_setperms}
use cs444_operating_systems.Monitor.Mappings.Show.{long_at_lem}

-- The letters at `i`, `i + 2` and so on of a string: there are `n`, and a 0 follows.
abbrev pub AreLetters : (text : ℕ → ℕ) → (a : ℕ) → List ℕ → Type 0
AreLetters text a [] = text a ≡ 0
AreLetters text a (c ∷ cs) = (text a ≡ c) × (c ≢ 0) × AreLetters text (a + 2) cs

-- Is `c` among the letters?
abbrev pub among : ℕ → List ℕ → Bool
among c [] = false
among c (b ∷ bs) = b == c || among c bs

abbrev pub bit : Bool → ℕ
bit b = if b then 1 else 0

-- An entry with the frame and the upper flags `q`, and the flags P, U and W.
abbrev pub entry_with : (q : ℕ) → (p u w : Bool) → ℕ
entry_with q p u w = q * 8 + (4 * bit u + 2 * bit w + bit p)

abbrev pub written : ℕ → ℕ → Kernel → Kernel
written pte entry k = record k { mem = update k.mem pte entry }

update_twice : (m : ℕ → ℕ) (a x y : ℕ) → update (update m a x) a y ≡ update m a y
update_twice m a x y = fun_ext λ j. ground arith

rewritten : (k : Kernel) (pte x y : ℕ) → written pte y (written pte x k) ≡ written pte y k
rewritten k pte x y = ap (λ (m : ℕ → ℕ). record k { mem = m }) (update_twice k.mem pte x y)

clear_flags_lem :
    (k : Kernel) (pte : ℕ)
    → k.mem pte < 2 ^ 32
    → clear_flags pte k ≡ ok tt (written pte (entry_with (k.mem pte / 8) false false false) k)
unfolding clear_flags
clear_flags_lem k pte lt =
    ap (λ (entry : ℕ). ok tt (written pte entry k))
      (omega
        (arith, bit_and_high_mask 3 (k.mem pte) (2 ^ 29 - 1), bit_and_low_mask 29 (k.mem pte / 8)))

or_flags :
    (p u w : Bool)
    → (p' u' w' : Bool)
    → bit_or (4 * bit u + 2 * bit w + bit p) (4 * bit u' + 2 * bit w' + bit p')
      ≡ 4 * bit (u || u') + 2 * bit (w || w') + bit (p || p')
or_flags p u w p' u' w' = ground arith

or_entry :
    (q : ℕ) (p u w p' u' w' : Bool)
    → bit_or (entry_with q p u w) (4 * bit u' + 2 * bit w' + bit p')
      ≡ entry_with q (p || p') (u || u') (w || w')
or_entry q p u w p' u' w' =
    bit_or_low_field 3 q (4 * bit u + 2 * bit w + bit p) (4 * bit u' + 2 * bit w' + bit p')
      (ground arith) (ground arith)
    ∙ ap (λ (x : ℕ). q * 8 + x) (or_flags p u w p' u' w')

add_flag_lem :
    (k : Kernel) (pte v f : ℕ)
    → add_flag pte f (written pte v k) ≡ ok tt (written pte (bit_or v f) k)
unfolding add_flag
add_flag_lem k pte v f =
    ap (λ (x : ℕ). ok tt (written pte (bit_or x f) (written pte v k))) (update_self k.mem pte v)
    ∙ ap (ok tt) (rewritten k pte v (bit_or v f))

when_flag :
    (k : Kernel) (pte q : ℕ) (p u w b p' u' w' : Bool)
    → when b (add_flag pte (4 * bit u' + 2 * bit w' + bit p')) (written pte (entry_with q p u w) k)
      ≡ ok tt (written pte (entry_with q (p || (b && p')) (u || (b && u')) (w || (b && w'))) k)
when_flag k pte q p u w true p' u' w' =
    add_flag_lem k pte (entry_with q p u w) (4 * bit u' + 2 * bit w' + bit p')
    ∙ ap (λ (x : ℕ). ok tt (written pte x k)) (or_entry q p u w p' u' w')
when_flag k pte q p u w false p' u' w' = ground arith

when_p :
    (k : Kernel) (pte q : ℕ) (p u w b : Bool)
    → when b (add_flag pte pte_p) (written pte (entry_with q p u w) k)
      ≡ ok tt (written pte (entry_with q (p || b) u w) k)
when_p k pte q p u w b =
    when_flag k pte q p u w b true false false
    ∙ ap (λ (x : ℕ). ok tt (written pte x k)) (ground arith)

when_u :
    (k : Kernel) (pte q : ℕ) (p u w b : Bool)
    → when b (add_flag pte pte_u) (written pte (entry_with q p u w) k)
      ≡ ok tt (written pte (entry_with q p (u || b) w) k)
when_u k pte q p u w b =
    when_flag k pte q p u w b false true false
    ∙ ap (λ (x : ℕ). ok tt (written pte x k)) (ground arith)

when_w :
    (k : Kernel) (pte q : ℕ) (p u w b : Bool)
    → when b (add_flag pte pte_w) (written pte (entry_with q p u w) k)
      ≡ ok tt (written pte (entry_with q p u (w || b)) k)
when_w k pte q p u w b =
    when_flag k pte q p u w b false false true
    ∙ ap (λ (x : ℕ). ok tt (written pte x k)) (ground arith)

round_flags :
    (k : Kernel) (pte q : ℕ) (p u w a b c : Bool) (rest : Cmd (Unit {0}))
    → (when a (add_flag pte pte_p)
          >> (when b (add_flag pte pte_u) >> (when c (add_flag pte pte_w) >> rest)))
        (written pte (entry_with q p u w) k)
      ≡ rest (written pte (entry_with q (p || a) (u || b) (w || c)) k)
round_flags k pte q p u w a b c rest =
    rw (when_p k pte q p u w a)
      (rw (when_u k pte q (p || a) u w b) (rw (when_w k pte q (p || a) (u || b) w c) refl))

or_false : (b : Bool) → b || false ≡ b
or_false b = ground arith

or_assoc : (a b c : Bool) → (a || b) || c ≡ a || (b || c)
or_assoc a b c = ground arith

set_flags_step :
    (fuel a i pte : ℕ) (text : ℕ → ℕ) (k : Kernel)
    → text (a + i) ≢ 0
    → set_flags (suc fuel) a i pte text k
      ≡ (when (text (a + i) == 80) (add_flag pte pte_p)
            >> (when (text (a + i) == 85) (add_flag pte pte_u)
                >> (when (text (a + i) == 87) (add_flag pte pte_w)
                    >> set_flags fuel a (i + 2) pte text)))
          k
unfolding set_flags
set_flags_step fuel a i pte text k ne = rw (set_flags, ne→== ne) refl

set_flags_lem :
    (k : Kernel) (fuel a i pte q : ℕ) (p u w : Bool) (cs : List ℕ) (text : ℕ → ℕ)
    → AreLetters text (a + i) cs
    → length cs < fuel
    → set_flags fuel a i pte text (written pte (entry_with q p u w) k)
      ≡ ok tt
          (written pte (entry_with q (p || among 80 cs) (u || among 85 cs) (w || among 87 cs)) k)
unfolding set_flags
set_flags_lem k zero a i pte q p u w cs text h lt = ground arith
set_flags_lem k (suc fuel) a i pte q p u w [] text h lt =
    ground (arith, or_false p, or_false u, or_false w)
set_flags_lem k (suc fuel) a i pte q p u w (c ∷ cs) text h lt =
    let t = text (a + i) in
    set_flags_step fuel a i pte text (written pte (entry_with q p u w) k) (λ e. h.1 (sym h.0 ∙ e))
    ∙ round_flags k pte q p u w (t == 80) (t == 85) (t == 87) (set_flags fuel a (i + 2) pte text)
    ∙ set_flags_lem k fuel a (i + 2) pte q (p || t == 80) (u || t == 85) (w || t == 87) cs text
        (subst (λ (x : ℕ). AreLetters text x cs) (omega arith) h.2) (omega (arith, lt))
    ∙ ap (λ (x : ℕ). ok tt (written pte x k))
        (rw (or_assoc p (t == 80) (among 80 cs)) (
          rw (or_assoc u (t == 85) (among 85 cs))
            (rw (or_assoc w (t == 87) (among 87 cs)) (rw h.0 refl))))

-- The address of the entry for `va`.
abbrev pub slot : Kernel → ℕ → ℕ
slot k va = slot_of k.kern_pgdir va k.mem

-- The kernel after setperms, with the results of the two comparisons.
abbrev pub permitted : (clears sets va : ℕ) → List ℕ → Kernel → Kernel
permitted clears sets va cs k =
    let q = k.mem (slot k va) / 8 in
    if clears == 0
    then written (slot k va) (entry_with q false false false) k
    else if sets == 0
    then written (slot k va) (entry_with q (among 80 cs) (among 85 cs) (among 87 cs)) k
    else k

-- setperms of an address for which the kernel's directory has a table, with at least two arguments:
-- "clear" clears the flags P, U and W of the entry. "set" clears them and then sets those whose letter
-- is among the letters of the fourth word, which are its characters at the places 1, 3, 5 and so on up
-- to a 0. Any other word, and the rest of the kernel's state, changes nothing; the frame and the other
-- flags of the entry stay. The hypotheses: the entry has 32 bits, the address and the comparisons with
-- the constants at `clear` and `set` come to an end, and the fuel is more than the number of letters.
pub mon_setperms_sets :
    (k : Kernel) (clear set fuel argc va s' clears sets : ℕ) (argv text : ℕ → ℕ) (cs : List ℕ)
    → Reaches k.npages k.kern_pgdir va k.mem
    → k.mem (slot k va) < 2 ^ 32
    → 1 < argc
    → strtol fuel (argv 2) 0 text ≡ some (va, s')
    → strcmp fuel (argv 1) clear text ≡ some clears
    → strcmp fuel (argv 1) set text ≡ some sets
    → AreLetters text (argv 3 + 1) cs
    → length cs < fuel
    → mon_setperms clear set fuel argc argv text k ≡ ok tt (permitted clears sets va cs k)
unfolding mon_setperms
mon_setperms_sets k clear set fuel argc va s' clears sets argv text cs r word many e ec es h lt =
    ground (
      arith,
      ec,
      es,
      long_at_lem fuel (argv 2) va s' text k e,
      walk_to_table k k.kern_pgdir va false r,
      clear_flags_lem k (slot k va) word,
      set_flags_lem k fuel (argv 3) 1 (slot k va) (k.mem (slot k va) / 8) false false false cs text
          h lt,
    )
