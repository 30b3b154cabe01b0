-- ===== src/Console/Queue.antt =====
-- The console input buffer of jos/kern/console.c as a queue.
use cs444_operating_systems.Base.{
  ℕ, ◌+◌, ◌%◌, ◌<◌, ◌≡◌, refl, List, [], ◌∷◌, ◌++◌, arith, ◌==◌, if◌then◌else◌, update, length,
  Bool-cases, inl, inr, ap,
}
use mathlib.Core.Path.{subst, sym}
use cs444_operating_systems.Console.{consbufsize, Cons, bump, stash, cons_intr, next_char}

-- From `r` on the buffer holds these characters.
abbrev pub At : (ℕ → ℕ) → ℕ → List ℕ → Type 0
At buf r [] = Unit {0}
At buf r (x ∷ xs) = (buf r ≡ x) × At buf (bump r) xs

-- The buffer holds a queue of characters, the oldest one first.
pub record Holds (s : Cons) (xs : List ℕ) : Type 0 where
  pub small : s.rpos < consbufsize
  pub fits : length xs < consbufsize
  pub ends : s.wpos ≡ (s.rpos + length xs) % consbufsize
  pub content : At s.buf s.rpos xs

-- The characters of a list of device results that are stored.
abbrev pub kept : List ℕ → List ℕ
kept [] = []
kept (c ∷ cs) = if c == 0 then kept cs else c % 256 ∷ kept cs

length-snoc : (xs : List ℕ) (c : ℕ) → length (xs ++ c ∷ []) ≡ length xs + 1
length-snoc [] c = refl
length-snoc (x ∷ xs) c = omega (arith, length-snoc xs c)

append-snoc : (xs ys : List ℕ) (c : ℕ) → (xs ++ c ∷ []) ++ ys ≡ xs ++ c ∷ ys
append-snoc [] ys c = refl
append-snoc (x ∷ xs) ys c = ap (λ l. x ∷ l) (append-snoc xs ys c)

append-nil : (xs : List ℕ) → xs ++ [] ≡ xs
append-nil [] = refl
append-nil (x ∷ xs) = ap (λ l. x ∷ l) (append-nil xs)

At-snoc :
    (buf : ℕ → ℕ) (r w c : ℕ) (xs : List ℕ)
    → r < consbufsize
    → length xs < consbufsize
    → w ≡ (r + length xs) % consbufsize
    → At buf r xs
    → At (update buf w c) r (xs ++ c ∷ [])
At-snoc buf r w c [] small fits e h = (ground arith, tt)
At-snoc buf r w c (x ∷ xs) small fits e (here, rest) =
    let at : bump r ≡ (r + 1) % consbufsize = ground arith in
    (
      ground arith,
      At-snoc buf (bump r) w c xs (omega (arith, at)) (omega arith) (omega (arith, at)) rest,
    )

Holds-stash :
    (s : Cons) (xs : List ℕ) (c : ℕ)
    → length xs + 1 < consbufsize
    → Holds s xs
    → Holds (stash c s) (xs ++ c % 256 ∷ [])
Holds-stash s xs c room h = record {
  small = h.small;
  fits = omega (arith, length-snoc xs (c % 256));
  ends = ground (arith, h.ends, h.small, length-snoc xs (c % 256));
  content = At-snoc s.buf s.rpos s.wpos (c % 256) xs h.small h.fits h.ends h.content;
}

-- cons_intr puts every character that the device gives, a 0 left out and cut to a byte, behind the
-- characters that wait. The hypothesis: there is room, that is at most 511 characters in all.
pub cons_intr_queues :
    (cs : List ℕ) (s : Cons) (xs : List ℕ)
    → Holds s xs
    → length xs + length (kept cs) < consbufsize
    → Holds (cons_intr cs s) (xs ++ kept cs)
unfolding cons_intr
cons_intr_queues [] s xs h room = subst (Holds s) (sym (append-nil xs)) h
cons_intr_queues (c ∷ cs) s xs h room = elim (Bool-cases (c == 0)) [
  | inl none' ↦ rw none' (cons_intr_queues cs s xs h (ground arith))
  | inr some' ↦
      let len : length (kept (c ∷ cs)) ≡ length (kept cs) + 1 = ground arith in
      rw some' (
        subst (Holds (cons_intr cs (stash c s))) (append-snoc xs (kept cs) (c % 256)) (
          cons_intr_queues cs (stash c s) (xs ++ c % 256 ∷ [])
            (Holds-stash s xs c (omega (arith, len)) h)
            (omega (arith, len, length-snoc xs (c % 256)))))
]

-- What cons_getc takes from a queue.
abbrev pub Takes : Cons → List ℕ → Type 0
Takes s [] = next_char s ≡ (0, s)
Takes s (x ∷ xs) = let s' = record s { rpos = bump s.rpos } in (next_char s ≡ (x, s')) × Holds s' xs

-- cons_getc takes the oldest character that waits, and leaves the others; if none waits it returns 0
-- and changes nothing.
pub next_char-Takes : (s : Cons) (xs : List ℕ) → Holds s xs → Takes s xs
unfolding next_char
next_char-Takes s [] h = ground (arith, h.ends, h.small)
next_char-Takes s (x ∷ xs) h =
    let len = h.fits in
    let ends = h.ends in
    let small = h.small in
    let at : bump s.rpos ≡ (s.rpos + 1) % consbufsize = ground arith in
    (
      ground (arith, h.content.0),
      record {
        small = omega (arith, at);
        fits = omega arith;
        ends = omega (arith, at);
        content = h.content.1;
      },
    )

wpos-cons_intr :
    (cs : List ℕ) (s : Cons)
    → s.wpos < consbufsize
    → (cons_intr cs s).wpos ≡ (s.wpos + length (kept cs)) % consbufsize
unfolding cons_intr
wpos-cons_intr [] s h = omega arith
wpos-cons_intr (c ∷ cs) s h = ground (arith, wpos-cons_intr cs s, wpos-cons_intr cs (stash c s))

rpos-cons_intr : (cs : List ℕ) (s : Cons) → (cons_intr cs s).rpos ≡ s.rpos
unfolding cons_intr
rpos-cons_intr [] s = refl
rpos-cons_intr (c ∷ cs) s = ground (arith, rpos-cons_intr cs s, rpos-cons_intr cs (stash c s))

-- If 512 characters come in while none waits, cons_getc finds none: all of them are lost.
pub cons_intr_overflows :
    (cs : List ℕ) (s : Cons)
    → Holds s []
    → length (kept cs) ≡ consbufsize
    → next_char (cons_intr cs s) ≡ (0, cons_intr cs s)
unfolding next_char
cons_intr_overflows cs s h full =
    let ends = h.ends in
    let small = h.small in
    let here : s.wpos ≡ s.rpos = omega arith in
    ground (arith, wpos-cons_intr cs s, rpos-cons_intr cs s)
