-- ===== src/Malloc/Options/Directory.antt =====
-- What the options of malloclab/mdriver.c leave behind, in whichever order they come.
use cso18_labs.Base.{
  ℕ, ◌+◌, ◌≤◌, ◌<◌, ◌≡◌, Option, none, some, List, [], ◌∷◌, ◌==◌, if◌then◌else◌, length, ◌⊎◌,
}
use cso18_labs.Base.Run.{Run, ok}
use cso18_labs.Malloc.Options.{maxline, Opt, Options, current_dir, Parsed, go_on, exit, last}

-- An argument of `-t` is not empty, and has room for a slash in the array.
abbrev pub IsDirArg : Opt → Type 0
IsDirArg opt = opt.letter ≡ 116 → (1 ≤ length opt.optarg) × (length opt.optarg + 1 < maxline)

pub data AreDirArgs : List Opt → Type 0 where
  no_more : AreDirArgs []
  one_more :
      {opt : Opt} {opts : List Opt} → IsDirArg opt → AreDirArgs opts → AreDirArgs (opt ∷ opts)

-- Which files the program will use.
abbrev pub IsChoice : Options → Type 0
IsChoice o =
    ((o.num_tracefiles ≡ 0) × (o.tracefiles ≡ none))
    ⊎ ((o.num_tracefiles ≡ 1)
        × (o.tracedir ≡ current_dir)
        × ((f : List ℕ) × (o.tracefiles ≡ some f)))

pub record IsSettled (o : Options) : Type 0 where
  pub slash : last o.tracedir ≡ some 47
  pub choice : IsChoice o

-- The argument of the last `-f` (102), or `named` without one.
abbrev pub last_file : List Opt → Option (List ℕ) → Option (List ℕ)
last_file [] named = named
last_file (opt ∷ opts) named = last_file opts (if opt.letter == 102 then some opt.optarg else named)

-- How the loop may end, where `file` is the trace file that the options name.
pub data IsParsed (file : Option (List ℕ)) : Parsed → Type 0 where
  helped : IsParsed file (exit 0)
  refused : IsParsed file (exit 1)
  chosen : {o : Options} → IsSettled o → o.tracefiles ≡ file → IsParsed file (go_on o)

abbrev IsOutcome : Option (List ℕ) → Run Parsed → Type 0
IsOutcome file r = (parsed : Parsed) × (r ≡ ok parsed) × IsParsed file parsed

-- What one option makes of the named file.
abbrev named_by : Opt → Options → Option (List ℕ)
named_by opt o = if opt.letter == 102 then some opt.optarg else o.tracefiles
