-- ===== src/Stabs/Bracket.antt =====
-- stab_binsearch of jos/kern/kdebug.c brackets the address.
use cs444_operating_systems.Base.{
  ℕ, zero, suc, ◌+◌, ◌-◌, ◌*◌, ◌/◌, ◌^◌, ◌≤◌, ◌<◌, ◌≡◌, ◌≢◌, ◌⊎◌, inl, inr, refl, true, false,
  Option, none, some, arith, leb, ltb, Bool-cases, ap, ◌∙◌,
}
use native.Mathlib.Decide.{dec_lt}
use cs444_operating_systems.Mmu.{u32}
use cs444_operating_systems.Stabs.{
  Stab, Search, earliest, judge, narrow, search_loop, finish, stab_binsearch,
}
use cs444_operating_systems.Stabs.Scan.{Matches, NoMatch, Found, earliest-Found, rightmost_lem}

-- In `[from, to)` the stabs of the type stand in the order of their addresses, none at the address
-- behind `addr`, and `j` is the last one of them up to `addr`.
pub record IsLast (stabs : ℕ → Stab) (type from to addr j : ℕ) : Type 0 where
  pub sorted :
      (i k : ℕ)
      → from ≤ i
      → i ≤ k
      → k < to
      → Matches stabs type i
      → Matches stabs type k
      → (stabs i).n_value ≤ (stabs k).n_value
  pub clear : (i : ℕ) → from ≤ i → i < to → Matches stabs type i → (stabs i).n_value ≢ addr + 1
  pub lower : from ≤ j
  pub upper : j < to
  pub match : Matches stabs type j
  pub before : (stabs j).n_value ≤ addr
  pub after : (i : ℕ) → j < i → i < to → Matches stabs type i → addr < (stabs i).n_value

module _ (stabs : ℕ → Stab) (type from to addr j : ℕ) (h : IsLast stabs type from to addr j)
    (small : addr + 1 < 2 ^ 32) where
  -- What the loop keeps.
  record Inv (s : Search) : Type 0 where
    start : from ≤ s.l
    stop : s.end ≤ to
    same : s.right ≡ s.end
    low : (i : ℕ) → from ≤ i → i < s.l → Matches stabs type i → (stabs i).n_value ≤ addr
    high : (i : ℕ) → s.end ≤ i → i < to → Matches stabs type i → addr < (stabs i).n_value
    bound : (s.end ≡ to) ⊎ Matches stabs type s.end
    left_in : from ≤ s.left
    left_at :
        (s.left ≡ from)
        ⊎ (Matches stabs type s.left × ((stabs s.left).n_value ≤ addr) × (s.left < to))
    at : (s.addr ≡ addr) ⊎ (s.addr ≡ addr + 1)
    any : (s.any_matches ≡ true) ⊎ ((s.end ≡ to) × NoMatch stabs type from s.l)

  -- A stab at the bound or behind it is not the one that is looked for.
  end-gt : (s : Search) → Inv s → j < s.end
  end-gt s v = elim (dec_lt j s.end) [
    | yes lt ↦ lt
    | no ge ↦ absurd (omega (arith, v.high j (omega arith) h.upper h.match, h.before))
  ]

  left-le : (s : Search) → Inv s → s.left ≤ j
  left-le s v = elim (dec_lt j s.left) [
    | yes lt ↦ elim v.left_at [
      | inl e ↦ absurd (omega (arith, h.lower))
      | inr (m, le, inside) ↦ absurd (omega (arith, h.after s.left lt inside m))
    ]
    | no ge ↦ omega arith
  ]

  finished :
      (s : Search)
      → Inv s
      → s.end ≤ s.l
      → finish stabs type s ≡ record { left_next = j + 1; right_next = s.end }
  finished s v over = elim v.any [
    | inr (e, none') ↦ absurd (none' j h.lower (omega (arith, end-gt s v)) h.match)
    | inl any ↦
        let lt = end-gt s v in
        let le = left-le s v in
        let same = v.same in
        let last =
          rightmost_lem stabs type (s.right - (s.left + 1)) s.right s.left j (omega arith) le
            (omega arith) (inl h.match)
            (λ i a b m. omega (
              arith,
              h.after i (omega arith) (omega (arith, v.stop)) m,
              v.low i (omega (arith, h.lower)) (omega arith) m,
            )) in
        ground (arith, any, last, same)
  ]

  abbrev measure : Search → ℕ
  measure s = (s.end - s.l) + (addr + 1 - s.addr)

  record Narrowed (s s' : Search) : Type 0 where
    keeps : Inv s'
    less : measure s' < measure s

  module _ (s : Search) (v : Inv s) (open' : s.l < s.end) (t m : ℕ) (t-end : t < s.end)
      (l-t : s.l ≤ t) where
    skipped : NoMatch stabs type s.l (t + 1) → Narrowed s (record s { l = t + 1 })
    skipped none' = record {
      keeps = record {
        start = omega (arith, v.start);
        stop = v.stop;
        same = v.same;
        low = λ i a b k. elim (dec_lt i s.l) [
          | yes lt ↦ v.low i a lt k
          | no ge ↦ absurd (none' i (omega arith) b k)
        ];
        high = v.high;
        bound = v.bound;
        left_in = v.left_in;
        left_at = v.left_at;
        at = v.at;
        any = elim v.any [
          | inl yes' ↦ inl yes'
          | inr (e, before) ↦ inr (
            e,
            λ i a b k. elim (dec_lt i s.l) [
              | yes lt ↦ before i a lt k
              | no ge ↦ none' i (omega arith) b k
            ],
          )
        ];
      };
      less = omega arith;
    }

    module _ (l-m : s.l ≤ m) (m-t : m ≤ t) (k : Matches stabs type m)
        (none' : NoMatch stabs type (m + 1) (t + 1)) where
      below :
          (stabs m).n_value < s.addr
          → Narrowed s (record s { any_matches = true; left = m; l = t + 1 })
      below lt =
          let le : (stabs m).n_value ≤ addr = omega (arith, v.at) in
          record {
            keeps = record {
              start = omega (arith, v.start);
              stop = v.stop;
              same = v.same;
              low = λ i a b q. elim (dec_lt m i) [
                | yes gt ↦ absurd (none' i (omega arith) b q)
                | no in' ↦ omega (arith, h.sorted i m a (omega arith) (omega (arith, v.stop)) q k)
              ];
              high = v.high;
              bound = v.bound;
              left_in = omega (arith, v.start);
              left_at = inr (k, le, omega (arith, v.stop));
              at = v.at;
              any = inl refl;
            };
            less = omega arith;
          }

      above :
          s.addr < (stabs m).n_value
          → Narrowed s (record s { any_matches = true; right = m; end = m })
      above lt =
          let gt : addr < (stabs m).n_value = omega (arith, v.at) in
          record {
            keeps = record {
              start = v.start;
              stop = omega (arith, v.stop);
              same = refl;
              low = v.low;
              high = λ i a b q. omega (arith, h.sorted m i (omega (arith, v.start)) a b k q);
              bound = inr k;
              left_in = v.left_in;
              left_at = v.left_at;
              at = v.at;
              any = inl refl;
            };
            less = omega arith;
          }

      hit :
          (stabs m).n_value ≡ s.addr
          → Narrowed s (record s { any_matches = true; left = m; l = m; addr = u32 (s.addr + 1) })
      hit e =
          let at : s.addr ≡ addr =
            omega (arith, v.at, h.clear m (omega (arith, v.start)) (omega (arith, v.stop)) k) in
          record {
            keeps = record {
              start = omega (arith, v.start);
              stop = v.stop;
              same = v.same;
              low = λ i a b q.
                  omega (arith, h.sorted i m a (omega arith) (omega (arith, v.stop)) q k);
              high = v.high;
              bound = v.bound;
              left_in = omega (arith, v.start);
              left_at = inr (k, omega arith, omega (arith, v.stop));
              at = inr (omega arith);
              any = inl refl;
            };
            less = omega arith;
          }

      judged : Narrowed s (judge stabs type t m s)
      judged = elim (Bool-cases (ltb (stabs m).n_value s.addr)) [
        | inl lt ↦ rw lt (below (ground arith))
        | inr ge ↦ rw ge (elim (Bool-cases (ltb s.addr (stabs m).n_value)) [
          | inl gt ↦ rw gt (above (ground arith))
          | inr le ↦ rw le (hit (ground arith))
        ])
      ]

  Found-Narrowed :
      (s : Search) (v : Inv s) (open' : s.l < s.end) (o : Option ℕ)
      → let t = (s.l + (s.end - 1)) / 2 in
        Found stabs type s.l t o
        → Narrowed s (elim o [ none ↦ record s { l = t + 1 } | some m ↦ judge stabs type t m s ])
  Found-Narrowed s v open' none f =
      skipped s v open' ((s.l + (s.end - 1)) / 2) 0 (omega arith) (omega arith) f
  Found-Narrowed s v open' (some m) (a, b, k, none') =
      judged s v open' ((s.l + (s.end - 1)) / 2) m (omega arith) (omega arith) a b k none'

  narrowed : (s : Search) → Inv s → s.l < s.end → Narrowed s (narrow stabs type s)
  unfolding narrow
  narrowed s v open' =
      let t = (s.l + (s.end - 1)) / 2 in
      Found-Narrowed s v open' (earliest stabs type (t + 1 - s.l) t)
        (earliest-Found stabs type (t + 1 - s.l) s.l t (omega arith))

  record Ended (r : Option Search) : Type 0 where
    last : Search
    ends : r ≡ some last
    keeps : Inv last
    over : last.end ≤ last.l

  loop-Ended :
      (rounds : ℕ) (s : Search)
      → Inv s
      → measure s < rounds
      → Ended (search_loop stabs type rounds s)
  unfolding search_loop
  loop-Ended zero s v lt = absurd (omega arith)
  loop-Ended (suc rounds) s v lt = elim (Bool-cases (leb s.end s.l)) [
    | inl over ↦ rw over (record { last = s; ends = refl; keeps = v; over = ground arith })
    | inr more ↦
        let n = narrowed s v (ground arith) in
        rw more (loop-Ended rounds (narrow stabs type s) n.keeps (omega (arith, n.less)))
  ]

search-finish :
    (stabs : ℕ → Stab) (type from to addr : ℕ) (s : Search)
    → search_loop stabs type
        (2 * (to - from) + 2)
        (record { l = from; end = to; left = from; right = to; addr = addr; any_matches = false })
      ≡ some s
    → stab_binsearch stabs type from to addr ≡ some (finish stabs type s)
unfolding stab_binsearch
search-finish stabs type from to addr s e = ground (arith, e)

-- stab_binsearch always returns, and brackets the address: `*region_left` is the last stab of the
-- type in the region whose address is at most `addr`, `*region_right` is the entry before the next
-- stab of the type, or the end of the region if there is none. The hypotheses: there is such a
-- stab, the stabs of the type are sorted by address, and none has the address `addr + 1`.
pub stab_binsearch-IsLast :
    (stabs : ℕ → Stab) (type from to addr j : ℕ)
    → IsLast stabs type from to addr j
    → addr + 1 < 2 ^ 32
    → (n : ℕ) × (stab_binsearch stabs type from to addr
        ≡ some (record { left_next = j + 1; right_next = n }))
      × (j < n)
      × (n ≤ to)
      × ((n ≡ to) ⊎ Matches stabs type n)
      × NoMatch stabs type (j + 1) n
stab_binsearch-IsLast stabs type from to addr j h small =
    let s : Search = record {
      l = from;
      end = to;
      left = from;
      right = to;
      addr = addr;
      any_matches = false;
    } in
    let v : Inv stabs type from to addr j h small s = record {
      start = omega arith;
      stop = omega arith;
      same = refl;
      low = λ i a b k. absurd (omega arith);
      high = λ i a b k. absurd (omega arith);
      bound = inl refl;
      left_in = omega arith;
      left_at = inl refl;
      at = inl refl;
      any = inr (refl, λ i a b k. omega arith);
    } in
    let e = loop-Ended stabs type from to addr j h small (2 * (to - from) + 2) s v (omega arith) in
    (
      e.last.end,
      search-finish stabs type from to addr e.last e.ends
          ∙ ap some (finished stabs type from to addr j h small e.last e.keeps e.over),
      end-gt stabs type from to addr j h small e.last e.keeps,
      e.keeps.stop,
      e.keeps.bound,
      λ i a b k. omega (
        arith,
        e.keeps.low i (omega (arith, h.lower)) (omega (arith, e.over)) k,
        h.after i (omega arith) (omega (arith, e.keeps.stop)) k,
      ),
    )
