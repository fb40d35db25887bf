-- ===== src/Parser.antt =====
-- common/src/common_command.c: `COMMON_CMD_parser`, which splits a line into a command, its options
-- and its parameters. A text is the list of its bytes before the terminator.
pub mod Bare
pub mod Tests
use morning_projects.Common.{
  ℕ, ◌+◌, ◌-◌, Bool, true, false, Option, none, some, List, [], ◌∷◌, ◌++◌, ltb, ◌==◌, if◌then◌else◌,
  ◌>>=◌, length,
}

abbrev pub Text : Type 0
Text = List ℕ

pub data Status : Type 0 where
  status_ok status_fail : Status

-- `cmd_line_tag`, all of whose bytes are cleared first. There are never parameters in one that is
-- returned.
pub record CommandLine : Type 0 where
  pub cmd : Text
  pub num_options : ℕ
  pub num_params : ℕ

-- what goes wrong in memory: an access through NULL, a write past the end of the array `ptr` or `cmd`, and
-- a write behind an allocated block
pub data Fault : Type 0 where
  through_null past_array past_block : Fault

pub data Parsed : Type 0 where
  fault : Fault → Parsed
  returned : Status → CommandLine → Parsed

-- MAX_CMD_LENGTH, and the number of words that `ptr` has room for, with the NULL behind them
abbrev pub max_cmd_length : ℕ
max_cmd_length = 12

abbrev pub max_words : ℕ
max_words = 100

-- a word that has ended
abbrev pub end_word : Text → List Text → List Text
end_word [] ws = ws
end_word (c ∷ cs) ws = (c ∷ cs) ∷ ws

-- the calls of `strtok` with " ", from inside the word `w`
abbrev pub words_from : Text → Text → List Text
words_from w [] = end_word w []
words_from w (c ∷ str) =
    let rest = words_from [] str in
    let on = words_from (w ++ (c ∷ [])) str in if c == 32 then end_word w rest else on

abbrev pub words : Text → List Text
words str = words_from [] str

abbrev pub is_quote : ℕ → Bool
is_quote c = c == 34

abbrev pub last_byte : ℕ → Text → ℕ
last_byte c [] = c
last_byte c (d ∷ ds) = last_byte d ds

-- the quotes stand at both ends of the word, or at neither
abbrev pub is_quoted_well : Text → Bool
is_quoted_well [] = false
is_quoted_well (c ∷ cs) =
    if is_quote c
    then is_quote (last_byte c cs)
    else (if is_quote (last_byte c cs) then false else true)

-- The loop over the parameters with status OK so far. `memory` says of each `malloc` in turn whether it
-- gives memory: the terminator of the first parameter that has some is written behind its block, for which
-- `none` stands. After a failure nothing is written.
unfoldable pub copy_params : List Bool → List Text → Option Status
copy_params memory [] = some status_ok
copy_params [] (w ∷ ws) = some status_fail
copy_params (allocated ∷ memory) (w ∷ ws) =
    if is_quoted_well w then (if allocated then none else some status_fail) else some status_fail

-- what the `malloc`s give: for the options, for the array of parameters, and for each of these
pub record ParserMemory : Type 0 where
  pub option : Bool
  pub params : Bool
  pub each : List Bool

-- the word behind the command is one of options, of which the first is '-'
abbrev pub is_option : Text → Bool
is_option [] = false
is_option (c ∷ cs) = c == 45

abbrev pub named : Text → CommandLine
named w = record { cmd = w; num_options = 0; num_params = 0 }

-- behind the loop over the parameters
abbrev pub concluded : CommandLine → Option Status → Parsed
concluded line none = fault past_block
concluded line (some status) = returned status line

-- Behind the command. The options are copied with a terminator for which there is no room; parameters
-- without memory for their array are written through NULL.
abbrev pub parse_rest : ParserMemory → Text → List Text → Parsed
parse_rest memory w [] = returned status_ok (named w)
parse_rest memory w (x ∷ ws) =
    if is_option x
    then (if memory.option
        then fault past_block
        else returned status_fail (record (named w) { num_options = length x - 1 }))
    else if memory.params
    then concluded (record (named w) { num_params = length (x ∷ ws) })
        (copy_params memory.each (x ∷ ws))
    else (if is_quoted_well x
        then fault through_null
        else returned status_fail (record (named w) { num_params = length (x ∷ ws) }))

-- A line without words has no first one to read.
abbrev pub parse_words : ParserMemory → List Text → Parsed
parse_words memory [] = fault through_null
parse_words memory (w ∷ ws) =
    if ltb max_cmd_length (length w)
    then returned status_fail (named [])
    else if ltb (length w) max_cmd_length
    then parse_rest memory w ws
    else fault past_array

-- `COMMON_CMD_parser`
unfoldable pub common_cmd_parser : ParserMemory → Text → Parsed
unfolding copy_params
common_cmd_parser memory str =
    if ltb (length (words str)) max_words then parse_words memory (words str) else fault past_array
