-- ===== src/Kernel/Parse.antt =====
-- `ParseConfigFile` of ldfd/build/kernel/config.go, on the text of the file. A slice out of range is
-- none; that the scanner refuses lines over 64 KiB is not modelled.
use ldf.Prelude.{
  ℕ, ◌-◌, Text, codes, text_eq, has_prefix, has_suffix, trim_space, split_on, Bool, true, false,
  ◌||◌, ◌&&◌, leb, ltb, ◌==◌, if◌then◌else◌, List, [], ◌∷◌, ◌++◌, Option, none, some, is_nil, drop,
  take, length,
}
use ldf.Kernel.Options.{Options, set_option}

-- The class [A-Z0-9_] of the two regular expressions.
unfoldable pub is_key_byte : ℕ → Bool
is_key_byte c = (leb b'A' c && leb c b'Z') || ((leb b'0' c && leb c b'9') || c == b'_')

-- The longest run of such bytes, and what follows it.
unfoldable pub span_key : Text → Text × Text
unfolding is_key_byte
span_key [] = ([], [])
span_key (c ∷ s) =
    let (run, rest) = span_key s in if is_key_byte c then (c ∷ run, rest) else ([], c ∷ s)

abbrev pub config_prefix : Text
config_prefix = codes "CONFIG_"

unfoldable pub value_after : Text → Text → Option (Text × Text)
value_after name (c ∷ value) =
    if c == b'=' && (if is_nil name then false else true)
    then some (config_prefix ++ name, value)
    else none
value_after name [] = none

-- ^(CONFIG_[A-Z0-9_]+)=(.*)$
unfoldable pub match_set : Text → Option (Text × Text)
unfolding has_prefix span_key value_after
match_set line =
    if has_prefix line config_prefix
    then (let (name, rest) = span_key (drop 7 line) in value_after name rest)
    else none

-- ^# (CONFIG_[A-Z0-9_]+) is not set$
unfoldable pub match_unset : Text → Option Text
unfolding has_prefix span_key text_eq
match_unset line =
    if has_prefix line (codes "# " ++ config_prefix)
    then (let (name, rest) = span_key (drop 9 line) in
        if text_eq rest (codes " is not set") && (if is_nil name then false else true)
        then some (config_prefix ++ name)
        else none)
    else none

-- `value[1 : len(value)-1]` of a value that begins and ends with a quote.
unfoldable pub strip_quotes : Text → Option Text
unfolding has_prefix has_suffix
strip_quotes value =
    if has_prefix value (codes "\"") && has_suffix value (codes "\"")
    then if ltb (length value) 2 then none else some (take (length value - 2) (drop 1 value))
    else some value

unfoldable pub store_value : Text → Options → Option Text → Option Options
unfolding set_option
store_value key m none = none
store_value key m (some value) = some (set_option key value m)

unfoldable pub store_unset : Options → Option Text → Option Options
unfolding set_option
store_unset m none = some m
store_unset m (some key) = some (set_option key (codes "n") m)

unfoldable pub parsed : Options → Text → Option (Text × Text) → Option Options
unfolding match_unset strip_quotes store_value store_unset
parsed m line (some (key, value)) = store_value key m (strip_quotes value)
parsed m line none = store_unset m (match_unset line)

unfoldable pub parse_line : Text → Options → Option Options
unfolding trim_space match_set parsed
parse_line raw m = let line = trim_space raw in parsed m line (match_set line)

unfoldable pub parse_lines : List Text → Options → Option Options
unfolding parse_line
parse_lines [] m = some m
parse_lines (line ∷ lines) m = elim (parse_line line m) [
  | none ↦ none
  | some m' ↦ parse_lines lines m'
]

unfoldable pub drop_cr : Text → Text
drop_cr [] = []
drop_cr (c ∷ []) = if c == 13 then [] else c ∷ []
drop_cr (c ∷ d ∷ s) = c ∷ drop_cr (d ∷ s)

unfoldable pub scanned : List Text → List Text
unfolding drop_cr
scanned [] = []
scanned ([] ∷ []) = []
scanned (line ∷ lines) = drop_cr line ∷ scanned lines

-- The lines that a `bufio.Scanner` gives.
unfoldable pub scan_lines : Text → List Text
unfolding split_on scanned
scan_lines text = scanned (split_on 10 text)

unfoldable pub parse_config_file : Text → Option Options
unfolding scan_lines parse_lines
parse_config_file text = parse_lines (scan_lines text) []
