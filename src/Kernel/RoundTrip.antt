-- ===== src/Kernel/RoundTrip.antt =====
-- What `GenerateConfigFragment` writes, `ParseConfigFile` reads back (ldfd/build/kernel/config.go).
use ldf.Prelude.{
  Text, codes, split_on, split_on-part, List, [], ◌∷◌, ◌++◌, Option, none, some, ◌≡◌, refl, ap, ◌∙◌,
  All, is_nil, true, false, Bool-cases, inl, inr,
}
use ldf.Kernel.Options.{Options, lookup, set_option, set_all, lookup-set_all, IsUnique, or_else}
use ldf.Kernel.Fragment.{
  text_le, config_line, config_lines, insert_sorted, sorted, generate_config_fragment,
  lookup-sorted, sorted-IsUnique,
}
use ldf.Kernel.Parse.{
  config_prefix, is_key_byte, parse_lines, drop_cr, scanned, scan_lines, parse_config_file,
}
use ldf.Kernel.Shapes.{IsEntry}
use ldf.Kernel.Lines.{
  config_line-NoNewline, drop_cr-config_line, parse_line-entry, parse_line-lone_quote,
}

abbrev pub AllEntries : Options → Type 0
AllEntries [] = Unit
AllEntries ((k, v) ∷ m) = IsEntry k v × AllEntries m

abbrev lines_of : Options → List Text
lines_of [] = []
lines_of ((k, v) ∷ m) = config_line k v ∷ lines_of m

split-config_lines :
    (m : Options) → AllEntries m → split_on 10 (config_lines m) ≡ lines_of m ++ [] ∷ []
unfolding config_lines split_on
split-config_lines [] h = refl
split-config_lines ((k, v) ∷ m) h =
    split_on-part 10 (config_line k v) (config_lines m) (config_line-NoNewline k v h.0)
    ∙ ap (λ t. config_line k v ∷ t) (split-config_lines m h.1)

scanned-cons :
    (line next : Text) (lines : List Text)
    → scanned (line ∷ next ∷ lines) ≡ drop_cr line ∷ scanned (next ∷ lines)
unfolding scanned
scanned-cons [] next lines = refl
scanned-cons (c ∷ line) next lines = refl

scanned-lines : (m : Options) → AllEntries m → scanned (lines_of m ++ [] ∷ []) ≡ lines_of m
scanned-lines [] h = unfold scanned in refl
scanned-lines ((k, v) ∷ []) h =
    scanned-cons (config_line k v) [] [] ∙ rw (drop_cr-config_line k v h.0, scanned-lines [] tt)
scanned-lines ((k, v) ∷ (j, w) ∷ m) h =
    scanned-cons (config_line k v) (config_line j w) (lines_of m ++ [] ∷ [])
    ∙ rw (drop_cr-config_line k v h.0, scanned-lines ((j, w) ∷ m) h.1)

parse_lines-entries :
    (entries m : Options)
    → AllEntries entries
    → parse_lines (lines_of entries) m ≡ some (set_all entries m)
unfolding parse_lines set_all
parse_lines-entries [] m h = refl
parse_lines-entries ((k, v) ∷ entries) m h =
    rw (parse_line-entry k v m h.0, parse_lines)
      (parse_lines-entries entries (set_option k v m) h.1)

insert_sorted-AllEntries :
    (k v : Text) (m : Options) → IsEntry k v → AllEntries m → AllEntries (insert_sorted k v m)
unfolding insert_sorted
insert_sorted-AllEntries k v [] e h = (e, tt)
insert_sorted-AllEntries k v ((j, w) ∷ m) e h = elim (Bool-cases (text_le k j)) [
  | inl le ↦ rw (le, insert_sorted) (e, h)
  | inr gt ↦ rw (gt, insert_sorted) (h.0, insert_sorted-AllEntries k v m e h.1)
]

sorted-AllEntries : (m : Options) → AllEntries m → AllEntries (sorted m)
unfolding sorted
sorted-AllEntries [] h = tt
sorted-AllEntries ((k, v) ∷ m) h =
    insert_sorted-AllEntries k v (sorted m) h.0 (sorted-AllEntries m h.1)

or_else-none : (o : Option Text) → or_else o none ≡ o
or_else-none none = refl
or_else-none (some v) = refl

-- For every map whose keys are CONFIG_ and a name of capitals, digits and underscores, and whose values
-- hold no newline, the parser reads the generated fragment without a panic, and every key has its value
-- back.
pub parse-generate :
    (m : Options)
    → IsUnique m
    → AllEntries m
    → (read : Options) × (parse_config_file (generate_config_fragment m) ≡ some read)
      × ((key : Text) → lookup key read ≡ lookup key m)
unfolding parse_config_file generate_config_fragment scan_lines lookup
parse-generate m u h =
    let s = sorted m in
    let hs = sorted-AllEntries m h in
    (
      set_all s [],
      rw (split-config_lines s hs, scanned-lines s hs) (parse_lines-entries s [] hs),
      λ key.
          lookup-set_all s [] key (sorted-IsUnique m u)
          ∙ (or_else-none (lookup key s) ∙ lookup-sorted m key),
    )

-- The parser panics on a line that sets a key, CONFIG_ and a non-empty name of capitals, digits and
-- underscores, to a single quote, whatever lines stand behind it and whatever was read before.
parse-lone_quote :
    (name : Text) (lines : List Text) (m : Options)
    → is_nil name ≡ false
    → All (λ c. is_key_byte c ≡ true) name
    → parse_lines (((config_prefix ++ name) ++ codes "=\"") ∷ lines) m ≡ none
unfolding parse_lines
parse-lone_quote name lines m f h = rw (parse_line-lone_quote name m f h, parse_lines) refl
