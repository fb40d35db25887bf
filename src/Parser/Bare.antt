-- ===== src/Parser/Bare.antt =====
-- common/src/common_command.c: the lines that `COMMON_CMD_parser` accepts.
use morning_projects.Common.{
  ℕ, ◌<◌, ◌≡◌, ◌≢◌, ◌≤◌, ◌+◌, ◌-◌, refl, sym, ◌∙◌, ap, subst, Bool, true, false, none, some, List,
  [], ◌∷◌, ◌++◌, ltb, ltb-true, ◌==◌, if◌then◌else◌, length, arith, append_assoc, append-nil,
  Bool-cases, inl, inr,
}
use morning_projects.Parser.{
  Text, Fault, through_null, past_array, past_block, Parsed, fault, returned, status_ok,
  status_fail, CommandLine, max_cmd_length, max_words, end_word, words_from, words, is_quoted_well,
  copy_params, ParserMemory, is_option, named, concluded, parse_rest, parse_words,
  common_cmd_parser,
}

-- no byte is a space
abbrev pub NoSpace : Text → Type 0
NoSpace [] = Unit
NoSpace (c ∷ cs) = ((c == 32) ≡ false) × NoSpace cs

-- the line is not accepted
abbrev pub IsRefused : Parsed → Type 0
IsRefused r = (line : CommandLine) → r ≢ returned status_ok line

IsRefused-fault : (f : Fault) → IsRefused (fault f)
IsRefused-fault f line e = cc

IsRefused-fail : (c : CommandLine) → IsRefused (returned status_fail c)
IsRefused-fail c line e = cc

IsRefused-if :
    (b : Bool) (m n : Parsed) → IsRefused m → IsRefused n → IsRefused (if b then m else n)
IsRefused-if true m n h k = h
IsRefused-if false m n h k = k

-- the words of a line, behind a word that has begun
words_from-word :
    (w v : Text) (rest : Text) → NoSpace v → words_from w (v ++ rest) ≡ words_from (w ++ v) rest
words_from-word w [] rest n = ap (λ u. words_from u rest) (sym (append-nil w))
words_from-word w (c ∷ v) rest (e, n) = rw e (
    words_from-word (w ++ (c ∷ [])) v rest n
    ∙ ap (λ u. words_from u rest) (append_assoc w (c ∷ []) v))

concluded-IsRefused :
    (line : CommandLine) (quoted allocated : Bool)
    → IsRefused (
        concluded line
          (if quoted then (if allocated then none else some status_fail) else some status_fail))
concluded-IsRefused line true true = IsRefused-fault past_block
concluded-IsRefused line true false = IsRefused-fail line
concluded-IsRefused line false allocated = IsRefused-fail line

copy_params-IsRefused :
    (memory : List Bool) (line : CommandLine) (x : Text) (ws : List Text)
    → IsRefused (concluded line (copy_params memory (x ∷ ws)))
unfolding copy_params
copy_params-IsRefused [] line x ws = IsRefused-fail line
copy_params-IsRefused (allocated ∷ memory) line x ws =
    concluded-IsRefused line (is_quoted_well x) allocated

copy_params_ill :
    (memory : List Bool) (x : Text) (ws : List Text)
    → is_quoted_well x ≡ false
    → copy_params memory (x ∷ ws) ≡ some status_fail
unfolding copy_params
copy_params_ill [] x ws ill = refl
copy_params_ill (allocated ∷ memory) x ws ill = rw ill refl

parse_rest-IsRefused :
    (memory : ParserMemory) (w x : Text) (ws : List Text) → IsRefused (parse_rest memory w (x ∷ ws))
parse_rest-IsRefused memory w x ws =
    IsRefused-if (is_option x) _ _
      (IsRefused-if memory.option _ _ (IsRefused-fault past_block) (IsRefused-fail _))
      (IsRefused-if memory.params _ _ (copy_params-IsRefused memory.each _ x ws)
        (IsRefused-if (is_quoted_well x) _ _ (IsRefused-fault through_null) (IsRefused-fail _)))

-- the line is one word
words-word : (c : ℕ) (cs : Text) → NoSpace (c ∷ cs) → words (c ∷ cs) ≡ (c ∷ cs) ∷ []
words-word c cs n = ap words (sym (append-nil (c ∷ cs))) ∙ words_from-word [] (c ∷ cs) [] n

words_from-end : (w str : Text) → words_from w (32 ∷ str) ≡ end_word w (words str)
words_from-end w str = refl

-- the line is a word and what stands behind a space
words-two :
    (c : ℕ) (cs str : Text)
    → NoSpace (c ∷ cs)
    → words ((c ∷ cs) ++ (32 ∷ str)) ≡ (c ∷ cs) ∷ words str
words-two c cs str n = words_from-word [] (c ∷ cs) (32 ∷ str) n ∙ words_from-end (c ∷ cs) str

parsed :
    (memory : ParserMemory) (str : Text) (ws : List Text)
    → words str ≡ ws
    → length ws < max_words
    → common_cmd_parser memory str ≡ parse_words memory ws
unfolding common_cmd_parser
parsed memory str ws e few = rw e (rw (ltb-true (length ws) max_words few) refl)

parse_words-IsRefused :
    (memory : ParserMemory) (w x : Text) (ws : List Text)
    → IsRefused (parse_words memory (w ∷ x ∷ ws))
parse_words-IsRefused memory w x ws =
    IsRefused-if (ltb max_cmd_length (length w)) _ _ (IsRefused-fail _) (
      IsRefused-if (ltb (length w) max_cmd_length) _ _ (parse_rest-IsRefused memory w x ws)
        (IsRefused-fault past_array))

parser-IsRefused :
    (memory : ParserMemory) (str w x : Text) (ws : List Text)
    → words str ≡ w ∷ x ∷ ws
    → IsRefused (common_cmd_parser memory str)
unfolding common_cmd_parser
parser-IsRefused memory str w x ws e =
    IsRefused-if (ltb (length (words str)) max_words) _ _
      (subst (λ u. IsRefused (parse_words memory u)) (sym e) (parse_words-IsRefused memory w x ws))
      (IsRefused-fault past_array)

-- what becomes of a word that follows a command of fewer than MAX_CMD_LENGTH bytes
abbrev pub Follows : ParserMemory → Text → Parsed → Type 0
Follows memory x r =
    (is_option x ≡ true → memory.option ≡ true → r ≡ fault past_block)
    × (is_option x ≡ true
        → memory.option ≡ false
        → (c : CommandLine) × (r ≡ returned status_fail c) × (c.num_options ≡ length x - 1))
    × (is_option x ≡ false
        → is_quoted_well x ≡ true
        → memory.params ≡ false
        → r ≡ fault through_null)
    × (is_option x ≡ false
        → is_quoted_well x ≡ true
        → memory.params ≡ true
        → ((more : List Bool) → memory.each ≡ true ∷ more → r ≡ fault past_block)
          × ((more : List Bool)
              → memory.each ≡ false ∷ more
              → (c : CommandLine) × (r ≡ returned status_fail c)))
    × (is_option x ≡ false
        → is_quoted_well x ≡ false
        → (c : CommandLine) × (r ≡ returned status_fail c))

abbrev with_params : Text → List Text → CommandLine
with_params w ws = record (named w) { num_params = length ws }

parse_rest-Follows :
    (memory : ParserMemory) (w x : Text) (ws : List Text)
    → Follows memory x (parse_rest memory w (x ∷ ws))
unfolding copy_params
parse_rest-Follows memory w x ws = (
  (λ o m. rw (o, m) refl),
  (λ o m. (record (named w) { num_options = length x - 1 }, rw (o, m) refl, refl)),
  (λ o q m. rw (o, m, q) refl),
  (λ o q m. (
    (λ more e. rw (o, m, e, q) refl),
    (λ more e. (with_params w (x ∷ ws), rw (o, m, e, q) refl)),
  )),
  (λ o q. elim (Bool-cases memory.params) [
    | inl m ↦ (with_params w (x ∷ ws), rw (o, m, copy_params_ill memory.each x ws q) refl)
    | inr m ↦ (with_params w (x ∷ ws), rw (o, m, q) refl)
  ]),
)

parser-Follows :
    (memory : ParserMemory) (str w x : Text) (ws : List Text)
    → words str ≡ w ∷ x ∷ ws
    → length w < max_cmd_length
    → length ws + 2 < max_words
    → Follows memory x (common_cmd_parser memory str)
parser-Follows memory str w x ws e short few =
    let rest : parse_words memory (w ∷ x ∷ ws) ≡ parse_rest memory w (x ∷ ws) = ground arith in
    subst (Follows memory x) (sym (parsed memory str (w ∷ x ∷ ws) e (omega arith) ∙ rest))
      (parse_rest-Follows memory w x ws)

parser_crowded :
    (memory : ParserMemory) (str : Text)
    → max_words ≤ length (words str)
    → common_cmd_parser memory str ≡ fault past_array
unfolding common_cmd_parser
parser_crowded memory str many = ground arith

-- Let the line begin with a word without spaces. When the line is that word, `COMMON_CMD_parser` accepts
-- it below MAX_CMD_LENGTH bytes, with neither options nor parameters; it fails above that length, and at
-- that length writes behind `cmd`. When any word follows, it never accepts the line, whatever the memory.
-- With a command below MAX_CMD_LENGTH bytes and fewer than 100 words in all it then writes behind the
-- block of the options, if the next word is one of options and there is memory for them, and fails
-- without. If the next word is a parameter with quotes at both ends or at neither, it writes through NULL
-- without memory for the array of parameters, behind the block of the parameter with memory for both, and
-- fails with memory for the array alone; with a quote at one end only it fails. With 100 words or more it
-- writes behind `ptr`.
pub common_cmd_parser_lem :
    (memory : ParserMemory) (c : ℕ) (cs : Text)
    → NoSpace (c ∷ cs)
    → (length (c ∷ cs) < max_cmd_length
        → common_cmd_parser memory (c ∷ cs) ≡ returned status_ok (named (c ∷ cs)))
      × (max_cmd_length < length (c ∷ cs)
          → common_cmd_parser memory (c ∷ cs) ≡ returned status_fail (named []))
      × (length (c ∷ cs) ≡ max_cmd_length → common_cmd_parser memory (c ∷ cs) ≡ fault past_array)
      × ((str x : Text) (ws : List Text)
          → words str ≡ x ∷ ws
          → let r = common_cmd_parser memory ((c ∷ cs) ++ (32 ∷ str)) in
            IsRefused r
            × (length (c ∷ cs) < max_cmd_length
                → length (words str) + 1 < max_words
                → Follows memory x r)
            × (max_words ≤ length (words str) + 1 → r ≡ fault past_array))
common_cmd_parser_lem memory c cs n =
    let alone = parsed memory (c ∷ cs) ((c ∷ cs) ∷ []) (words-word c cs n) (omega arith) in
    (
      (λ short. alone ∙ ground arith),
      (λ long. alone ∙ ground arith),
      (λ exact. alone ∙ ground arith),
      λ str x ws e.
          let all = words-two c cs str n ∙ ap (λ u. (c ∷ cs) ∷ u) e in
          (
            parser-IsRefused memory ((c ∷ cs) ++ (32 ∷ str)) (c ∷ cs) x ws all,
            (λ short few.
                parser-Follows memory ((c ∷ cs) ++ (32 ∷ str)) (c ∷ cs) x ws all short
                  (omega (arith, ap length e))),
            (λ many.
                parser_crowded memory ((c ∷ cs) ++ (32 ∷ str))
                  (omega (arith, ap length (words-two c cs str n)))),
          ),
    )
