-- ===== src/Deps/Libraries.antt =====
-- Which lines of `ldd` give a library (enumerator.go).
use mathlib.Core.List.{append_assoc}
use mathlib.Core.Option.{map as map_option}
use iicpc.Prelude.{
  sym, inl, inr, ℕ, Bool, true, false, not, ◌≡◌, refl, ap, ◌∙◌, Option, none, some, List, [], ◌∷◌,
  ◌++◌, arith, Bool-cases, All, ◌==◌, ◌&&◌, if◌then◌else◌,
}
use iicpc.Artifact.{Text, same_text}
use iicpc.Strings.{is_space, strip_prefix, trim_left, trim_right, trim_space, cut, split}
use iicpc.Strings.Cuts.{
  lacks, lacks-trim_left, lacks-trim_right, trim_left-solid, trim_right-solid, trim_right-append,
  trim_space-solid, trim_space-cons, cut-cons, lacks-append, same_text-append, trim_left-append,
  cut-append, cut-none, split-append,
}
use iicpc.Deps.{
  paren, not_found, path_of, parse_line, append_some, parse_lines, parse_ldd_output, Toolchain,
  makefile, cargo_toml, go_mod, unsupported, Commands, run_ldd, enumerate_deps,
}

-- The lines that `ldd` prints: a library with its path and its address; a library that is not found;
-- in older versions, one with an arrow and an address but no path; and any other line, with no arrow.
pub data Line : Type 0 where
  linked : Text → Text → Text → Line
  missing : Text → Line
  pathless : Text → Text → Line
  plain : Text → Line

-- " (0x...)".
abbrev pub with_address : Text → Text
with_address address = 32 ∷ 40 ∷ (address ++ 41 ∷ [])

abbrev pub after_arrow : Line → Text
after_arrow (linked name path address) = 32 ∷ (path ++ with_address address)
after_arrow (missing name) = 32 ∷ not_found
after_arrow (pathless name address) = 32 ∷ with_address address
after_arrow (plain text) = []

-- A line, after its tab.
abbrev pub print_line : Line → Text
print_line (plain text) = 9 ∷ text
print_line (linked name path address) =
    9 ∷ (name ++ 32 ∷ 61 ∷ 62 ∷ after_arrow (linked name path address))
print_line (missing name) = 9 ∷ (name ++ 32 ∷ 61 ∷ 62 ∷ after_arrow (missing name))
print_line (pathless name address) =
    9 ∷ (name ++ 32 ∷ 61 ∷ 62 ∷ after_arrow (pathless name address))

abbrev pub print : List Line → Text
print [] = []
print (l ∷ ls) = print_line l ++ 10 ∷ print ls

abbrev pub starts_solid : Text → Bool
starts_solid [] = false
starts_solid (x ∷ xs) = not (is_space x)

-- A line that can be printed: one line, with no ">" in a name, no "(" in the address of a line without
-- a path, and a path that does not start with a space.
abbrev pub IsPrintable : Line → Type 0
IsPrintable (linked name path address) =
    (lacks 10 (print_line (linked name path address)) ≡ true)
    × (lacks 62 name ≡ true)
    × (starts_solid path ≡ true)
IsPrintable (missing name) = (lacks 10 name ≡ true) × (lacks 62 name ≡ true)
IsPrintable (pathless name address) =
    (lacks 10 (print_line (pathless name address)) ≡ true)
    × (lacks 62 name ≡ true)
    × (lacks 40 address ≡ true)
IsPrintable (plain text) = (lacks 10 text ≡ true) × (lacks 62 text ≡ true)

abbrev starts_with : ℕ → Text → Bool
starts_with b [] = false
starts_with b (x ∷ xs) = x == b

-- A path up to the first space before a "(".
abbrev pub before_paren : Text → Text
before_paren [] = []
before_paren (x ∷ xs) = if x == 32 && starts_with 40 xs then [] else x ∷ before_paren xs

-- What a line gives: its path up to a space before a "(", less spaces at the end, unless that is "not
-- found"; where there is an arrow and no path, its address.
abbrev pub given : Line → Option Text
given (linked name path address) =
    let shown = trim_right (before_paren path) in
    if same_text shown not_found then none else some shown
given (missing name) = none
given (pathless name address) = some (40 ∷ (address ++ 41 ∷ []))
given (plain text) = none

abbrev pub all_given : List Line → List Text
all_given [] = []
all_given (l ∷ ls) = append_some (given l) (all_given ls)

with_address-solid : (address : Text) → trim_right (with_address address) ≡ with_address address
with_address-solid address = trim_right-solid (32 ∷ 40 ∷ address) 41 refl

not_found-solid : trim_right (32 ∷ not_found) ≡ 32 ∷ not_found
unfolding trim_right same_text
not_found-solid = refl

trim_left-cons : (x : ℕ) (xs : Text) → is_space x ≡ true → trim_left (x ∷ xs) ≡ trim_left xs
unfolding trim_left
trim_left-cons x xs s = rw s

-- The first " (" of a path and its address.
cut-with_address :
    (xs ys : Text) → (zs : Text) × (cut paren (xs ++ 32 ∷ 40 ∷ ys) ≡ some (before_paren xs, zs))
unfolding cut strip_prefix
cut-with_address [] ys = (ys, refl)
cut-with_address (x ∷ []) ys = (ys, ground arith)
cut-with_address (x ∷ z ∷ xs) ys =
    let (zs, rest) = cut-with_address (z ∷ xs) ys in
    elim (Bool-cases (x == 32 && z == 40)) [
      | inl e ↦ (xs ++ 32 ∷ 40 ∷ ys, ground (arith, e))
      | inr e ↦ (zs, ground (arith, e, rest))
    ]

before_paren-solid :
    (x : ℕ) (xs : Text) → is_space x ≡ false → before_paren (x ∷ xs) ≡ x ∷ before_paren xs
before_paren-solid x xs s = ground (arith, s)

trim_space-left :
    (x : ℕ) (xs : Text) → is_space x ≡ false → trim_space (x ∷ xs) ≡ trim_right (x ∷ xs)
unfolding trim_space
trim_space-left x xs s = rw (trim_left-solid x xs s) refl

trim_right-some :
    (x : ℕ) (xs : Text) → is_space x ≡ false → same_text (trim_right (x ∷ xs)) [] ≡ false
unfolding trim_right same_text
trim_right-some x xs s = rw s refl

path_of-linked :
    (path address : Text)
    → starts_solid path ≡ true
    → path_of (32 ∷ (path ++ with_address address)) ≡ (
        let shown = trim_right (before_paren path) in
        if same_text shown not_found then none else some shown)
unfolding path_of
path_of-linked [] address s = absurd (ground (arith, s))
path_of-linked (x ∷ xs) address s =
    let solid : is_space x ≡ false = ground (arith, s) in
    rw (
      trim_space-solid x (xs ++ with_address address) solid
          (trim_right-append (x ∷ xs) 32 _ (with_address-solid address)),
      (cut-with_address (x ∷ xs) (address ++ 41 ∷ [])).1,
      before_paren-solid x xs solid,
      trim_space-left x (before_paren xs) solid,
      trim_right-some x (before_paren xs) solid,
    )

path_of-pathless :
    (address : Text)
    → lacks 40 address ≡ true
    → path_of (32 ∷ with_address address) ≡ some (40 ∷ (address ++ 41 ∷ []))
unfolding path_of same_text
path_of-pathless address l = rw (
  trim_space-cons 32 (32 ∷ 40 ∷ (address ++ 41 ∷ [])) refl,
  trim_space-solid 40 (address ++ 41 ∷ []) refl (trim_right-solid (40 ∷ address) 41 refl),
  cut-cons 32 40 40 (address ++ 41 ∷ []) (λ e. ground (arith, e))
      (lacks-append 40 address _ l refl),
)

path_of-missing : path_of (32 ∷ not_found) ≡ none
unfolding path_of trim_space cut same_text trim_left trim_right strip_prefix
path_of-missing = refl

-- A line with an arrow, whose end is no space.
parse_line-arrow :
    (name : Text) (y : ℕ) (ys : Text)
    → lacks 62 name ≡ true
    → trim_right (y ∷ ys) ≡ y ∷ ys
    → parse_line (9 ∷ (name ++ 32 ∷ 61 ∷ 62 ∷ y ∷ ys)) ≡ path_of (y ∷ ys)
unfolding parse_line trim_space
parse_line-arrow name y ys l s =
    let spaced : lacks 62 (name ++ 32 ∷ []) ≡ true = lacks-append 62 name (32 ∷ []) l refl in
    let (zs, without, trimmed) =
      trim_left-append 62 (name ++ 32 ∷ []) (62 ∷ y ∷ ys) 61 refl spaced in
    rw (
      sym (append_assoc name (32 ∷ []) (61 ∷ 62 ∷ y ∷ ys)),
      trim_left-cons 9 ((name ++ 32 ∷ []) ++ 61 ∷ 62 ∷ y ∷ ys) refl,
      trimmed,
      trim_right-append zs 61 (62 ∷ y ∷ ys) (trim_right-append (61 ∷ 62 ∷ []) y ys s),
      same_text-append zs 61 (62 ∷ y ∷ ys),
      cut-append 61 62 zs (y ∷ ys) (λ e. ground (arith, e)) without,
    )

parse_line-plain : (text : Text) → lacks 62 text ≡ true → parse_line (9 ∷ text) ≡ none
unfolding parse_line trim_space
parse_line-plain text l =
    rw
      (cut-none 61 62 (trim_right (trim_left (9 ∷ text)))
        (lacks-trim_right 62 (trim_left (9 ∷ text)) (lacks-trim_left 62 (9 ∷ text) l)))
      (elim (Bool-cases (same_text (trim_right (trim_left (9 ∷ text))) [])) [
        | inl e ↦ rw e
        | inr e ↦ rw e
      ])

parse_line-given : (l : Line) → IsPrintable l → parse_line (print_line l) ≡ given l
parse_line-given (linked name path address) (one, l, s) =
    parse_line-arrow name 32 _ l (trim_right-append (32 ∷ path) 32 _ (with_address-solid address))
    ∙ path_of-linked path address s
parse_line-given (missing name) (one, l) =
    parse_line-arrow name 32 not_found l not_found-solid ∙ path_of-missing
parse_line-given (pathless name address) (one, l, p) =
    parse_line-arrow name 32 _ l (trim_right-append (32 ∷ []) 32 _ (with_address-solid address))
    ∙ path_of-pathless address p
parse_line-given (plain text) (one, l) = parse_line-plain text l

print_line-one : (l : Line) → IsPrintable l → lacks 10 (print_line l) ≡ true
print_line-one (linked name path address) h = h.0
print_line-one (missing name) h = lacks-append 10 name _ h.0 refl
print_line-one (pathless name address) h = h.0
print_line-one (plain text) h = h.0

parse_lines_nil : parse_lines (split 10 []) ≡ []
unfolding parse_lines split parse_line trim_space trim_left trim_right same_text
parse_lines_nil = refl

parse_lines-print :
    (ls : List Line) → All IsPrintable ls → parse_lines (split 10 (print ls)) ≡ all_given ls
unfolding parse_lines
parse_lines-print [] h = parse_lines_nil
parse_lines-print (l ∷ ls) (h, hs) = rw (
  split-append 10 (print_line l) (print ls) (print_line-one l h),
  parse_line-given l h,
  parse_lines-print ls hs,
)

abbrev pub answers_ldd : Toolchain → Bool
answers_ldd makefile = true
answers_ldd cargo_toml = true
answers_ldd _ = false

-- For an executable of C++ or Rust, of which `ldd` prints any lines of its format, the libraries are
-- what the lines with a path give, in their order: the path, but only up to a space before a "(" if the
-- path has one in it, less spaces at the end, and nothing if that is "not found". A line that is not
-- found and one with no arrow give none. A line with an arrow and an address, but no path, gives its
-- address as a library. No line has a newline in it, no name a ">", no address without a path a "(", and
-- no path starts with a space.
pub enumerate_deps-print :
    (run : Commands) (binary : Text) (t : Toolchain) (ls : List Line)
    → answers_ldd t ≡ true
    → run.ldd binary ≡ some (print ls)
    → All IsPrintable ls
    → enumerate_deps run binary t ≡ some (all_given ls)
unfolding enumerate_deps run_ldd parse_ldd_output
enumerate_deps-print run binary makefile ls a e h =
    ap (map_option parse_ldd_output) e ∙ ap some (parse_lines-print ls h)
enumerate_deps-print run binary cargo_toml ls a e h =
    ap (map_option parse_ldd_output) e ∙ ap some (parse_lines-print ls h)
enumerate_deps-print run binary go_mod ls a e h = cc
enumerate_deps-print run binary unsupported ls a e h = cc
