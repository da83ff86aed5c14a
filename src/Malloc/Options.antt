-- ===== src/Malloc/Options.antt =====
-- The command line of malloclab/mdriver.c: the loop over the results of `getopt`. A text is the list
-- of its characters, without the NUL.
pub mod Directory
use cso18_labs.Base.{
  ℕ, ◌+◌, Bool, true, false, Option, none, some, List, [], ◌∷◌, ◌++◌, ltb, ◌==◌, if◌then◌else◌,
  length,
}
use cso18_labs.Base.Run.{Run, ok, fault, ◌>>=◌, ◌>>◌, check, bad_access}

-- `MAXLINE`
abbrev pub maxline : ℕ
maxline = 1024

-- A result of `getopt`: the character, and `optarg`.
pub record Opt : Type 0 where
  pub letter : ℕ
  pub optarg : List ℕ

-- The variables that the options set. `tracefiles` is `none` for NULL: without `-f` the default
-- files are used.
pub record Options : Type 0 where
  pub autograder : Bool
  pub verbose : ℕ
  pub tracefiles : Option (List ℕ)
  pub num_tracefiles : ℕ
  pub tracedir : List ℕ

-- "./traces/"
abbrev pub default_dir : List ℕ
default_dir = 46 ∷ 47 ∷ 116 ∷ 114 ∷ 97 ∷ 99 ∷ 101 ∷ 115 ∷ 47 ∷ []

-- "./"
abbrev pub current_dir : List ℕ
current_dir = 46 ∷ 47 ∷ []

abbrev pub no_options : Options
no_options = record {
  autograder = false;
  verbose = 0;
  tracefiles = none;
  num_tracefiles = 0;
  tracedir = default_dir;
}

-- The program goes on with its options, or `exit(code)` ends it.
pub data Parsed : Type 0 where
  go_on : Options → Parsed
  exit : ℕ → Parsed

abbrev pub last : List ℕ → Option ℕ
last [] = none
last (c ∷ []) = some c
last (c ∷ d ∷ s) = last (d ∷ s)

-- "path always ends with "/"": `strcat`, unless the last character is one. With no last character
-- the code reads in front of the array.
unfoldable pub end_with_slash : Option ℕ → List ℕ → Run (List ℕ)
end_with_slash none dir = fault bad_access
end_with_slash (some c) dir =
    if c == 47
    then ok dir
    else (check (ltb (length dir + 1) maxline) bad_access >> ok (dir ++ 47 ∷ []))

-- The case 't': `strcpy(tracedir, optarg)`.
unfoldable pub set_dir : List ℕ → Options → Run Options
unfolding end_with_slash
set_dir dir o =
    if o.num_tracefiles == 1
    then ok o
    else (check (ltb (length dir) maxline) bad_access
        >> (end_with_slash (last dir) dir >>= λ dir1. ok (record o { tracedir = dir1 })))

abbrev pub set_file : List ℕ → Options → Options
set_file name o = record o { num_tracefiles = 1; tracedir = current_dir; tracefiles = some name }

-- The `switch`: 'g', 'f', 't', 'v', 'V', 'h', or anything else.
unfoldable pub parse_option : Opt → Options → Run Parsed
unfolding set_dir
parse_option opt o =
    if opt.letter == 103
    then ok (go_on (record o { autograder = true }))
    else if opt.letter == 102
    then ok (go_on (set_file opt.optarg o))
    else if opt.letter == 116
    then (set_dir opt.optarg o >>= λ o1. ok (go_on o1))
    else if opt.letter == 118
    then ok (go_on (record o { verbose = 1 }))
    else if opt.letter == 86
    then ok (go_on (record o { verbose = 2 }))
    else if opt.letter == 104
    then ok (exit 0)
    else ok (exit 1)

-- The loop.
unfoldable pub parse_options : List Opt → Options → Run Parsed
unfolding parse_option
parse_options [] o = ok (go_on o)
parse_options (opt ∷ opts) o = parse_option opt o >>= λ parsed. elim parsed [
  | exit code ↦ ok (exit code)
  | go_on o1 ↦ parse_options opts o1
]
