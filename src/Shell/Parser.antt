-- ===== src/Shell/Parser.antt =====
-- p5/comand.h, p5/comand.cpp and p5/parser.cpp. Strings are lists of bytes, and `none` is undefined
-- behaviour: an element before the first or behind the last one is used.
use multithread.Base.{
  ℕ, zero, suc, Bool, true, false, ◌&&◌, ◌||◌, Option, none, some, List, [], ◌∷◌, ◌++◌, length,
  drop, ◌==◌, if◌then◌else◌,
}
use multithread.Messages.Message.{◌>>=◌}

pub record Comand : Type 0 where
  pub cmd : List ℕ
  pub params : List (List ℕ)
  pub infile : List ℕ
  pub outfile : List ℕ

-- `Entity` with its two classes, which `who_is` tells apart.
pub data Entity : Type 0 where
  comand : Comand → Entity
  delimeter : List ℕ → Entity

-- The constructor of `Comand`, which reads `parts[0]`.
unfoldable pub new_comand : List (List ℕ) → List ℕ → List ℕ → Option Comand
new_comand [] infile outfile = none
new_comand (part ∷ parts) infile outfile =
    some (record { cmd = part; params = part ∷ parts; infile = infile; outfile = outfile })

-- `==` on `std::string`
abbrev pub same : List ℕ → List ℕ → Bool
same [] [] = true
same (a ∷ s) (b ∷ t) = (a == b) && same s t
same s t = false

abbrev one_of : ℕ → List ℕ → Bool
one_of c [] = false
one_of c (d ∷ s) = (c == d) || one_of c s

-- '<' and '>'
abbrev pub is_redirect : ℕ → Bool
is_redirect c = one_of c (60 ∷ 62 ∷ [])

-- `wsdelim`
abbrev pub is_separator : ℕ → Bool
is_separator c = one_of c (9 ∷ 11 ∷ 13 ∷ 10 ∷ 12 ∷ 60 ∷ 62 ∷ 32 ∷ [])

-- `symcmds`: "|@$&;"
abbrev pub is_delimeter : ℕ → Bool
is_delimeter c = one_of c (124 ∷ 64 ∷ 36 ∷ 38 ∷ 59 ∷ [])

-- A part, if it is not empty.
abbrev pub nonempty : List ℕ → List (List ℕ)
nonempty [] = []
nonempty (c ∷ s) = (c ∷ s) ∷ []

-- The first loop of `add_comand`: `part` is the string from `pos` on, as far as it has been
-- searched.
unfoldable pub split_parts : List ℕ → List ℕ → List (List ℕ)
split_parts part [] = nonempty part
split_parts part (c ∷ str) = elim (is_separator c) [
  | true ↦ nonempty part ++ (if is_redirect c then (c ∷ []) ∷ [] else []) ++ split_parts [] str
  | false ↦ split_parts (part ++ c ∷ []) str
]

-- The second loop of `add_comand`, from an iterator on: `follows` tells whether an element stands
-- before it, to which `iter - 1` can go.
unfoldable pub redirect :
    Bool → List (List ℕ) → List ℕ → List ℕ → Option (List (List ℕ) × List ℕ × List ℕ)
redirect follows [] infile outfile = some ([], infile, outfile)
redirect follows (part ∷ []) infile outfile =
    if same part (60 ∷ []) || same part (62 ∷ []) then none else some (part ∷ [], infile, outfile)
redirect follows (part ∷ name ∷ parts) infile outfile =
    elim (same part (60 ∷ []) || same part (62 ∷ [])) [
      | true ↦
          if follows
          then (if same part (60 ∷ [])
              then redirect true parts name outfile
              else redirect true parts infile name)
          else none
      | false ↦ do
        (others, infile', outfile') ← redirect true (name ∷ parts) infile outfile
        some (part ∷ others, infile', outfile')
    ]

-- `add_comand(str)`: the command that it adds.
unfoldable pub add_comand : List ℕ → Option Comand
add_comand str = do
  (parts, infile, outfile) ← redirect false (split_parts [] str) [] []
  new_comand parts infile outfile

-- `add_delim(str)`: "@" stands for "||", and "$" for "&&".
unfoldable pub add_delim : List ℕ → Entity
add_delim str =
    if same str (64 ∷ [])
    then delimeter (124 ∷ 124 ∷ [])
    else if same str (36 ∷ [])
    then delimeter (38 ∷ 38 ∷ [])
    else delimeter str

abbrev pub starts_with : List ℕ → List ℕ → Bool
starts_with [] str = true
starts_with (a ∷ s) [] = false
starts_with (a ∷ s) (b ∷ t) = (a == b) && starts_with s t

-- `find(fromstr)`, as what stands before and behind the first occurrence.
unfoldable pub find_string : List ℕ → List ℕ → Option (List ℕ × List ℕ)
find_string fromstr [] = none
find_string fromstr (c ∷ str) =
    if starts_with fromstr (c ∷ str)
    then some ([], drop (length fromstr) (c ∷ str))
    else (do (before, behind) ← find_string fromstr str; some (c ∷ before, behind))

-- The loop of `replace`, on the string from `pos` on; each round takes a byte at least, so the
-- length is enough fuel.
unfoldable pub replace_loop : ℕ → List ℕ → List ℕ → List ℕ → List ℕ
replace_loop zero str fromstr tostr = str
replace_loop (suc fuel) str fromstr tostr = elim (find_string fromstr str) [
  | none ↦ str
  | some (before, behind) ↦ before ++ tostr ++ replace_loop fuel behind fromstr tostr
]

unfoldable pub replace : List ℕ → List ℕ → List ℕ → List ℕ
replace str fromstr tostr = replace_loop (length str) str fromstr tostr

-- The loop of `parse` that fills `cmds`: `part` is the string from `pos` on, as far as it has been
-- searched.
unfoldable pub split_commands : List ℕ → List ℕ → Option (List Entity)
split_commands [] [] = some []
split_commands (c ∷ part) [] = do cmd ← add_comand (c ∷ part); some (comand cmd ∷ [])
split_commands part (c ∷ instructs) = elim (is_delimeter c) [
  | true ↦ do
    cmd ← add_comand part
    cmds ← split_commands [] instructs
    some (comand cmd ∷ add_delim (c ∷ []) ∷ cmds)
  | false ↦ split_commands (part ++ c ∷ []) instructs
]

-- "pipe"
abbrev pub pipe : List ℕ
pipe = 112 ∷ 105 ∷ 112 ∷ 101 ∷ []

abbrev pub next_pipe : List Entity → Bool
next_pipe (delimeter d ∷ cmds) = same d (124 ∷ [])
next_pipe cmds = false

-- The loop of `parse` over `cmds`, in which each delimeter stands behind a command; `piped` tells
-- whether the element before is "|".
unfoldable pub connect : Bool → List Entity → Option (List Entity)
connect true [] = none
connect false [] = some []
connect true (delimeter d ∷ cmds) = none
connect false (delimeter d ∷ cmds) = do
  others ← connect (same d (124 ∷ [])) cmds
  some (delimeter d ∷ others)
connect piped (comand c ∷ cmds) = do
  others ← connect false cmds
  some (
      comand (record c {
        infile = if piped then pipe else c.infile;
        outfile = if next_pipe cmds then pipe else c.outfile;
      })
      ∷ others)

-- The end of `parse`: a last "&" is taken away.
unfoldable pub background : List Entity → List Entity × Bool
background [] = ([], false)
background (delimeter d ∷ []) = if same d (38 ∷ []) then ([], true) else (delimeter d ∷ [], false)
background (e ∷ cmds) = let (others, bkgr_mode) = background cmds in (e ∷ others, bkgr_mode)

-- `parse(instructs)`: the members `cmds` and `bkgr_mode`.
unfoldable pub parse : List ℕ → Option (List Entity × Bool)
parse instructs = do
  let once = replace instructs (124 ∷ 124 ∷ []) (64 ∷ [])
  let twice = replace once (38 ∷ 38 ∷ []) (36 ∷ [])
  cmds ← split_commands [] twice
  connected ← connect false cmds
  some (background connected)
