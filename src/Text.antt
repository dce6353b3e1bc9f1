-- ===== src/Text.antt =====
-- C strings as lists of character codes, without the closing zero, and the `string.h` calls of
-- src/inotify.c, src/zeromq.c and src/request.c: `strcmp`, `strstr`, `strlen`.
pub mod Decimal
pub mod Laws
pub mod Lines
use Prim.Native.Char.{code}
use inotispy.Prelude.{
  ℕ, zero, suc, ◌+◌, String, Bool, true, false, ◌&&◌, Option, none, some, List, [], ◌∷◌, ◌++◌, ◌==◌,
  if◌then◌else◌, is_some, length,
}

abbrev pub Text : Type 0
Text = List ℕ

-- A literal.
abbrev pub codes : String → Text
codes String.[] = []
codes (String.◌∷◌ c s) = code c ∷ codes s

abbrev pub slash : ℕ
slash = b'/'

abbrev pub newline : ℕ
newline = 10

-- if (s[strlen(s) - 1] == '\n') s[strlen(s) - 1] = '\0'
unfoldable pub strip_newline : Text → Text
strip_newline [] = []
strip_newline (c ∷ []) = if c == newline then [] else c ∷ []
strip_newline (c ∷ d ∷ s) = c ∷ strip_newline (d ∷ s)

-- fgets of a buffer for `room` characters: the line, and what is left of the file.
unfoldable pub fgets : ℕ → Text → Text × Text
fgets zero s = ([], s)
fgets (suc room) [] = ([], [])
fgets (suc room) (c ∷ s) =
    let (line, rest) = fgets room s in if c == newline then (c ∷ [], s) else (c ∷ line, rest)

-- The characters in front of a terminating zero.
unfoldable pub up_to_zero : Text → Text
up_to_zero [] = []
up_to_zero (c ∷ s) = let rest = up_to_zero s in if c == 0 then [] else c ∷ rest

-- strcmp(s, t) == 0
unfoldable pub text_eq : Text → Text → Bool
text_eq [] [] = true
text_eq (x ∷ xs) (y ∷ ys) = x == y && text_eq xs ys
text_eq _ _ = false

-- `t` stands at the front of `s`.
unfoldable pub starts_with : Text → Text → Bool
starts_with s [] = true
starts_with [] (y ∷ ys) = false
starts_with (x ∷ xs) (y ∷ ys) = x == y && starts_with xs ys

abbrev pub shift : Option ℕ → Option ℕ
shift none = none
shift (some i) = some (suc i)

-- strstr(s, t), as the offset of the first occurrence.
unfoldable pub strstr : Text → Text → Option ℕ
unfolding starts_with
strstr [] t = if starts_with [] t then some 0 else none
strstr (x ∷ xs) t = if starts_with (x ∷ xs) t then some 0 else shift (strstr xs t)

-- strstr(s, t) != NULL
unfoldable pub contains : Text → Text → Bool
unfolding strstr
contains s t = is_some (strstr s t)

-- (ptr = strstr(s, t)) && ptr == s
unfoldable pub strstr_at_start : Text → Text → Bool
unfolding strstr
strstr_at_start s t = elim (strstr s t) [ none ↦ false | some i ↦ i == 0 ]

-- (idx = strstr(s, t)) followed by idx[strlen(t)] == '\0'
unfoldable pub strstr_at_end : Text → Text → Bool
unfolding strstr
strstr_at_end s t = elim (strstr s t) [ none ↦ false | some i ↦ i + length t == length s ]

-- s[0] == c
abbrev pub first_is : ℕ → Text → Bool
first_is c [] = false
first_is c (x ∷ xs) = x == c

-- The format "%s/".
abbrev pub with_slash : Text → Text
with_slash s = s ++ slash ∷ []
