-- ===== src/Inotify/Setup/Lines.antt =====
-- What the stream of inotify_setup of src/inotify.c yields of a line that is in its buffer.
use inotispy.Prelude.{
  false, ℕ, zero, suc, ◌+◌, ◌≤◌, ◌≡◌, refl, ap, [], ◌∷◌, ◌++◌, length, take, drop, arith,
}
use inotispy.Text.{Text, newline}
use inotispy.Text.Lines.{OneLine}
use inotispy.Inotify.Setup.Stream.{next_line}

-- A line with its newline, wherever the stream goes on.
pub next_line_buffered :
    (size : ℕ) (file : Text) (room : ℕ) (line rest : Text) (offset : ℕ)
    → OneLine line
    → suc (length line) ≤ room
    → next_line size file room
        (record { buffered = line ++ newline ∷ rest; offset = offset; ended = false })
      ≡ (line ++ newline ∷ [], record { buffered = rest; offset = offset; ended = false })
unfolding next_line
next_line_buffered size file zero line rest offset h fits = absurd (omega arith)
next_line_buffered size file (suc room) [] rest offset h fits = refl
next_line_buffered size file (suc room) (c ∷ line) rest offset (_, nl, h) fits =
    rw (next_line_buffered size file room line rest offset h (omega arith), nl) refl

-- Nothing is in the buffer and nothing behind the offset.
pub next_line_end :
    (size : ℕ) (file : Text) (room offset : ℕ)
    → 1 ≤ room
    → length file ≤ offset
    → (next_line size file room (record { buffered = []; offset = offset; ended = false })).0 ≡ []
unfolding next_line
next_line_end size file zero offset some_room past = absurd (omega arith)
next_line_end size file (suc room) offset some_room past =
    rw (next_line, drop_all offset file past, take_nothing size) refl
  where
    drop_all : (n : ℕ) (xs : Text) → length xs ≤ n → drop n xs ≡ []
    drop_all zero [] h = refl
    drop_all zero (x ∷ xs) h = absurd (omega arith)
    drop_all (suc n) [] h = refl
    drop_all (suc n) (x ∷ xs) h = drop_all n xs (omega arith)

    take_nothing : (n : ℕ) → take {A = ℕ} n [] ≡ []
    take_nothing zero = refl
    take_nothing (suc n) = refl

-- The first line of a file that fits in the buffer is read as if all of the file were there.
pub next_line_first :
    (size : ℕ) (c : ℕ) (s : Text) (room : ℕ)
    → 1 ≤ room
    → length (c ∷ s) ≤ size
    → next_line size (c ∷ s) room (record { buffered = []; offset = 0; ended = false })
      ≡ next_line size
          (c ∷ s)
          room
          (record { buffered = c ∷ s; offset = 0 + length (c ∷ s); ended = false })
unfolding next_line
next_line_first size c s zero some_room fits = absurd (omega arith)
next_line_first size c s (suc room) some_room fits = rw (next_line, take_all size (c ∷ s) fits) refl
  where
    take_all : (n : ℕ) (xs : Text) → length xs ≤ n → take n xs ≡ xs
    take_all zero [] h = refl
    take_all zero (x ∷ xs) h = absurd (omega arith)
    take_all (suc n) [] h = refl
    take_all (suc n) (x ∷ xs) h = ap (λ ys. x ∷ ys) (take_all n xs (omega arith))
