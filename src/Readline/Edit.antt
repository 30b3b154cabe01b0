-- ===== src/Readline/Edit.antt =====
-- readline of jos/lib/readline.c against the editing of a list of characters.
use cs444_operating_systems.Base.{
  ℕ, ◌-◌, ◌%◌, ◌≤◌, ◌<◌, ◌≡◌, refl, Option, none, some, Bool, true, false, ◌&&◌, ◌||◌, ◌==◌, leb,
  ltb, List, [], ◌∷◌, length, arith, if◌then◌else◌, update, Bool-cases, inl, inr,
}
use mathlib.Core.Path.{subst, sym}
use cs444_operating_systems.Readline.{
  buflen, Line, Outcome, waiting, null, returned, erases, types, erase, type_char, finish_line,
  read_from, readline,
}

abbrev pub tail : List ℕ → List ℕ
tail [] = []
tail (x ∷ xs) = xs

-- What a key does to the line, which has its last character first.
abbrev pub press : ℕ → List ℕ → List ℕ
press c xs =
    if (c == 8 || c == 127) && ltb 0 (length xs)
    then tail xs
    else if leb 32 c && ltb (length xs) (buflen - 1)
    then c % 256 ∷ xs
    else xs

-- What the keys come to: the line that stands when Enter is pressed, with the keys behind it, or a read
-- error before that, or neither yet.
pub data Edited : Type 0 where
  entered : (xs : List ℕ) → (behind : List (Option ℕ)) → Edited
  failed : Edited
  unfinished : Edited

pub edited : List (Option ℕ) → List ℕ → Edited
edited [] xs = unfinished
edited (none ∷ cs) xs = failed
edited (some c ∷ cs) xs = if c == 10 || c == 13 then entered xs cs else edited cs (press c xs)

-- The buffer holds the line.
abbrev pub Stack : (ℕ → ℕ) → List ℕ → Type 0
Stack buf [] = Unit
Stack buf (x ∷ xs) = (buf (length xs) ≡ x) × Stack buf xs

Stack-update :
    (buf : ℕ → ℕ) (i v : ℕ) (xs : List ℕ) → length xs ≤ i → Stack buf xs → Stack (update buf i v) xs
Stack-update buf i v [] le h = tt
Stack-update buf i v (x ∷ xs) le (at, h) = (ground arith, Stack-update buf i v xs (omega arith) h)

record Shows (s : Line) (xs : List ℕ) : Type 0 where
  count : s.i ≡ length xs
  short : length xs < buflen
  held : Stack s.buf xs

-- A result of readline against one of `edited`.
abbrev pub Agrees : Outcome → Edited → Type 0
Agrees waiting r = r ≡ unfinished
Agrees null r = r ≡ failed
Agrees (returned s rest) unfinished = ⊥
Agrees (returned s rest) failed = ⊥
Agrees (returned s rest) (entered xs cs) =
    (rest ≡ cs) × Stack s.buf xs × (s.buf (length xs) ≡ 0) × (length xs < buflen)

Shows-erase :
    (echoing : Bool) (s : Line) (xs : List ℕ)
    → Shows s xs
    → 0 < s.i
    → Shows (erase echoing s) (tail xs)
Shows-erase echoing s [] h pos = absurd (omega (arith, h.count))
Shows-erase echoing s (x ∷ xs) h pos = record {
  count = omega (arith, h.count);
  short = omega (arith, h.short);
  held = h.held.1;
}

Shows-type :
    (echoing : Bool) (c : ℕ) (s : Line) (xs : List ℕ)
    → Shows s xs
    → s.i < buflen - 1
    → Shows (type_char echoing c s) (c % 256 ∷ xs)
Shows-type echoing c s xs h room = record {
  count = omega (arith, h.count);
  short = omega (arith, h.count);
  held = (
    ground (arith, h.count),
    Stack-update s.buf s.i (c % 256) xs (omega (arith, h.count)) h.held,
  );
}

press-erases :
    (c : ℕ) (s : Line) (xs : List ℕ) → Shows s xs → erases c s ≡ true → press c xs ≡ tail xs
press-erases c s xs h e = ground (arith, h.count)

press-types :
    (c : ℕ) (s : Line) (xs : List ℕ)
    → Shows s xs
    → erases c s ≡ false
    → types c s ≡ true
    → press c xs ≡ c % 256 ∷ xs
press-types c s xs h e t = ground (arith, h.count)

press_none :
    (c : ℕ) (s : Line) (xs : List ℕ)
    → Shows s xs
    → erases c s ≡ false
    → types c s ≡ false
    → press c xs ≡ xs
press_none c s xs h e t = ground (arith, h.count)

abbrev pressed : Bool → ℕ → Line → Line
pressed echoing c s =
    if erases c s then erase echoing s else if types c s then type_char echoing c s else s

Shows-pressed :
    (echoing : Bool) (c : ℕ) (s : Line) (xs : List ℕ)
    → Shows s xs
    → Shows (pressed echoing c s) (press c xs)
Shows-pressed echoing c s xs h = elim (Bool-cases (erases c s)) [
  | inl e ↦ rw e (
      subst (Shows (erase echoing s)) (sym (press-erases c s xs h e))
        (Shows-erase echoing s xs h (ground arith)))
  | inr e ↦ rw e (elim (Bool-cases (types c s)) [
    | inl t ↦ rw t (
        subst (Shows (type_char echoing c s)) (sym (press-types c s xs h e t))
          (Shows-type echoing c s xs h (ground arith)))
    | inr t ↦ rw t (subst (Shows s) (sym (press_none c s xs h e t)) h)
  ])
]

ends_line :
    (echoing : Bool) (c : ℕ) (cs : List (Option ℕ)) (s : Line)
    → (c == 10 || c == 13) ≡ true
    → read_from echoing (some c ∷ cs) s ≡ returned (finish_line echoing s) cs
unfolding read_from
ends_line echoing c cs s e = ground arith

goes_on :
    (echoing : Bool) (c : ℕ) (cs : List (Option ℕ)) (s : Line)
    → (c == 10 || c == 13) ≡ false
    → read_from echoing (some c ∷ cs) s ≡ read_from echoing cs (pressed echoing c s)
unfolding read_from
goes_on echoing c cs s e = ground arith

finished :
    (echoing : Bool) (s : Line) (xs : List ℕ) (cs : List (Option ℕ))
    → Shows s xs
    → Agrees (returned (finish_line echoing s) cs) (entered xs cs)
finished echoing s xs cs h = (
  refl,
  Stack-update s.buf s.i 0 xs (omega (arith, h.count)) h.held,
  ground (arith, h.count),
  h.short,
)

edited_ends :
    (c : ℕ) (cs : List (Option ℕ)) (xs : List ℕ)
    → (c == 10 || c == 13) ≡ true
    → edited (some c ∷ cs) xs ≡ entered xs cs
unfolding edited
edited_ends c cs xs e = rw e refl

edited_on :
    (c : ℕ) (cs : List (Option ℕ)) (xs : List ℕ)
    → (c == 10 || c == 13) ≡ false
    → edited (some c ∷ cs) xs ≡ edited cs (press c xs)
unfolding edited
edited_on c cs xs e = ground (arith, e)

transported : {o o' : Outcome} {r r' : Edited} → o ≡ o' → r ≡ r' → Agrees o' r' → Agrees o r
transported {o} {o'} {r} {r'} e1 e2 h =
    subst (Agrees o) (sym e2) (subst (λ p. Agrees p r') (sym e1) h)

read_from-Agrees :
    (echoing : Bool) (cs : List (Option ℕ)) (s : Line) (xs : List ℕ)
    → Shows s xs
    → Agrees (read_from echoing cs s) (edited cs xs)
unfolding read_from edited
read_from-Agrees echoing [] s xs h = refl
read_from-Agrees echoing (none ∷ cs) s xs h = refl
read_from-Agrees echoing (some c ∷ cs) s xs h = elim (Bool-cases (c == 10 || c == 13)) [
  | inl e ↦
      transported (ends_line echoing c cs s e) (edited_ends c cs xs e) (finished echoing s xs cs h)
  | inr e ↦ transported (goes_on echoing c cs s e) (edited_on c cs xs e) (
      read_from-Agrees echoing cs (pressed echoing c s) (press c xs)
        (Shows-pressed echoing c s xs h))
]

-- readline returns NULL exactly when the keys have a read error with no Enter before it, and waits for
-- more exactly when they have neither. It returns the buffer exactly when they have Enter with no read
-- error before it, and then the buffer holds the edited line, its end marked by a 0, in at most 1023 characters, and the keys
-- behind Enter are left. Editing is that of a list: backspace and delete take the last character
-- away if there is one, and a character from the blank on is added if there is room.
pub readline_edits :
    (echoing : Bool) (cs : List (Option ℕ)) (buf : ℕ → ℕ)
    → Agrees (readline echoing cs buf) (edited cs [])
unfolding readline
readline_edits echoing cs buf =
    read_from-Agrees echoing cs _ [] (record { count = refl; short = omega arith; held = tt })
