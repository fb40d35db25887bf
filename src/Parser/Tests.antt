-- ===== src/Parser/Tests.antt =====
-- Runs of common/src/common_command.c.
use morning_projects.Common.{◌≡◌, refl, true, [], ◌∷◌, ◌++◌, arith}
use morning_projects.Parser.{Text, ParserMemory, fault, past_block, common_cmd_parser}
use morning_projects.Parser.Bare.{common_cmd_parser_lem}

abbrev plenty : ParserMemory
plenty = record { option = true; params = true; each = true ∷ [] }

-- "ab"
abbrev ab : Text
ab = 97 ∷ 98 ∷ []

-- "ab -f": the options are written behind their block
common_cmd_parser_lem_example :
    common_cmd_parser plenty (ab ++ (32 ∷ 45 ∷ 102 ∷ [])) ≡ fault past_block
common_cmd_parser_lem_example =
    (((common_cmd_parser_lem plenty 97 (98 ∷ []) (refl, (refl, tt))).3 (45 ∷ 102 ∷ [])
          (45 ∷ 102 ∷ []) [] refl).1
        (omega arith) (omega arith)).0
      refl refl

-- "ab c": so is the terminator of the parameter
parameter_overflow : common_cmd_parser plenty (ab ++ (32 ∷ 99 ∷ [])) ≡ fault past_block
unfolding common_cmd_parser
parameter_overflow = refl
