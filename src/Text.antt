-- ===== src/Text.antt =====
-- Python's `str` operations that the program uses on file contents and paths, over lists of code
-- points. They stand for the standard library's `splitlines`, `"\n".join`, `in`, `count`,
-- `replace(…, 1)`, `startswith`, `endswith`, `strip`, `lstrip` and `rstrip`.
pub mod Lines
pub mod Search
pub mod Newlines
use Prim.Native.Char.{code}
use shadow_forge.Base.{
  ℕ, zero, suc, ◌+◌, ◌-◌, String, Bool, true, false, not, ◌&&◌, ◌||◌, List, [], ◌∷◌, ◌++◌, Option,
  none, some, ltb, leb, ◌==◌, if◌then◌else◌, length, drop,
}
use mathlib.Core.List.{reverse}

abbrev pub Text : Type 0
Text = List ℕ

-- The code points of a literal.
abbrev pub codes : String → Text
codes String.[] = []
codes (String.◌∷◌ c s) = code c ∷ codes s

abbrev pub newline : ℕ
newline = 10

abbrev pub carriage_return : ℕ
carriage_return = 13

-- The line boundaries of `str.splitlines`.
unfoldable pub is_break : ℕ → Bool
is_break c =
    (leb 10 c && leb c 13) || (leb 28 c && leb c 30) || (c == 133) || (c == 8232) || (c == 8233)

-- Every boundary becomes one newline; a newline that follows a carriage return belongs to it.
unfoldable pub one_newline : Bool → Text → Text
unfolding is_break
one_newline after_cr [] = []
one_newline after_cr (c ∷ cs) =
    let rest = one_newline (c == carriage_return) cs in
    if after_cr && (c == newline) then rest else if is_break c then newline ∷ rest else c ∷ rest

-- Puts a character in front of the first line.
abbrev pub push : ℕ → List Text → List Text
push c [] = (c ∷ []) ∷ []
push c (l ∷ ls) = (c ∷ l) ∷ ls

-- No line stands behind the last newline.
unfoldable pub split_newlines : Text → List Text
split_newlines [] = []
split_newlines (c ∷ cs) =
    let rest = split_newlines cs in if c == newline then [] ∷ rest else push c rest

unfoldable pub splitlines : Text → List Text
unfolding one_newline split_newlines
splitlines t = split_newlines (one_newline false t)

-- The universal newlines of text mode: a carriage return, with a newline that follows it, becomes one
-- newline. The flag says that a carriage return has just been read.
unfoldable pub universal : Bool → Text → Text
universal after_cr [] = []
universal after_cr (c ∷ cs) =
    let rest = universal (c == carriage_return) cs in
    if after_cr && (c == newline)
    then rest
    else if c == carriage_return
    then newline ∷ rest
    else c ∷ rest

-- What `path.read_text(encoding="utf-8")` gives of the characters of a file. `write_text` writes the
-- characters as they are, as it does on POSIX.
unfoldable pub read_text : Text → Text
unfolding universal
read_text t = universal false t

-- `"\n".join(lines)`
unfoldable pub join : List Text → Text
join [] = []
join (l ∷ []) = l
join (l ∷ m ∷ ls) = l ++ (newline ∷ join (m ∷ ls))

-- `t.startswith(p)`
unfoldable pub starts_with : Text → Text → Bool
starts_with [] t = true
starts_with (p ∷ ps) [] = false
starts_with (p ∷ ps) (c ∷ cs) = (p == c) && starts_with ps cs

-- `sub in t`
unfoldable pub contains : Text → Text → Bool
unfolding starts_with
contains sub [] = starts_with sub []
contains sub (c ∷ cs) = starts_with sub (c ∷ cs) || contains sub cs

-- `t.count(sub)` for a `sub` that is not empty: matches are counted from the left and do not
-- overlap. The number is how many characters of the last match are still to be passed over.
unfoldable pub count_from : Text → ℕ → Text → ℕ
unfolding starts_with
count_from sub skip [] = 0
count_from sub (suc k) (c ∷ cs) = count_from sub k cs
count_from sub zero (c ∷ cs) =
    let found = starts_with sub (c ∷ cs) in
    (if found then 1 else 0) + count_from sub (if found then length sub - 1 else 0) cs

unfoldable pub count : Text → Text → ℕ
unfolding count_from
count sub t = count_from sub 0 t

-- `t.replace(old, new, 1)`
unfoldable pub replace_first : Text → Text → Text → Text
unfolding starts_with
replace_first old new [] = if starts_with old [] then new else []
replace_first old new (c ∷ cs) =
    let rest = replace_first old new cs in
    if starts_with old (c ∷ cs) then new ++ drop (length old) (c ∷ cs) else c ∷ rest

-- `t.endswith(suffix)`
unfoldable pub ends_with : Text → Text → Bool
unfolding starts_with
ends_with suffix t = starts_with (reverse suffix) (reverse t)

-- The characters that `str.isspace` accepts.
unfoldable pub is_space : ℕ → Bool
is_space c =
    (leb 9 c && leb c 13)
    || (leb 28 c && leb c 32)
    || (c == 133)
    || (c == 160)
    || (c == 5760)
    || (leb 8192 c && leb c 8202)
    || (c == 8232)
    || (c == 8233)
    || (c == 8239)
    || (c == 8287)
    || (c == 12288)

unfoldable pub lstrip : Text → Text
unfolding is_space
lstrip [] = []
lstrip (c ∷ cs) = let rest = lstrip cs in if is_space c then rest else c ∷ cs

unfoldable pub rstrip : Text → Text
unfolding lstrip
rstrip t = reverse (lstrip (reverse t))

unfoldable pub strip : Text → Text
unfolding lstrip rstrip
strip t = rstrip (lstrip t)

abbrev pub text_eq : Text → Text → Bool
text_eq [] [] = true
text_eq [] (d ∷ ds) = false
text_eq (c ∷ cs) [] = false
text_eq (c ∷ cs) (d ∷ ds) = (c == d) && text_eq cs ds
