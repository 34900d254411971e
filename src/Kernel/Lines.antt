-- ===== src/Kernel/Lines.antt =====
-- The lines of a config fragment (ldfd/build/kernel/config.go), and what the parser makes of each.
use ldf.Prelude.{
  ℕ, Text, codes, text_eq, text_eq_sound, trim_space, trim_space-id, is_space, true, false, ◌||◌,
  [], ◌∷◌, ◌++◌, none, some, is_nil, append_assoc, ◌≡◌, ◌≢◌, ◌⊎◌, refl, sym, ap, arith, ◌∙◌, All,
  All-append, Bool-cases, inl, inr,
}
use ldf.Kernel.Options.{Options, set_option}
use ldf.Kernel.Fragment.{config_line}
use ldf.Kernel.Parse.{
  is_key_byte, config_prefix, match_set, strip_quotes, parse_line, parsed, drop_cr, store_value,
  store_unset,
}
use ldf.Kernel.Shapes.{
  IsKey, IsEntry, NoNewline, match_set-line, match_unset-line, strip_quotes-quoted,
}

-- A text that begins and ends with bytes that are no spaces.
record IsTrimmed (line : Text) : Type 0 where
  first : ℕ
  middle : Text
  last : ℕ
  shape : line ≡ first ∷ (middle ++ last ∷ [])
  first_ok : is_space first ≡ false
  last_ok : is_space last ≡ false

trim-IsTrimmed : (line : Text) → IsTrimmed line → trim_space line ≡ line
trim-IsTrimmed line t = rw t.shape (trim_space-id t.first t.last t.middle t.first_ok t.last_ok)

drop_cr-append : (s : Text) (c d : ℕ) → d ≢ 13 → drop_cr (c ∷ (s ++ d ∷ [])) ≡ c ∷ (s ++ d ∷ [])
unfolding drop_cr
drop_cr-append [] c d h = ground arith
drop_cr-append (x ∷ s) c d h = ap (λ t. c ∷ t) (drop_cr-append s x d h)

not_cr : (d : ℕ) → is_space d ≡ false → d ≢ 13
unfolding is_space
not_cr d h = ground arith

drop_cr-IsTrimmed : (line : Text) → IsTrimmed line → drop_cr line ≡ line
drop_cr-IsTrimmed line t =
    rw t.shape (drop_cr-append t.middle t.first t.last (not_cr t.last t.last_ok))

-- The two kinds of lines that are written.
record Assigns (key value : Text) : Type 0 where
  written : Text
  body : Text
  last : ℕ
  shape : config_line key value ≡ key ++ b'=' ∷ written
  ends : written ≡ body ++ last ∷ []
  last_ok : is_space last ≡ false
  read : strip_quotes written ≡ some value
  one_line : NoNewline value → NoNewline written

abbrev Unsets : Text → Text → Type 0
Unsets key value =
    (value ≡ codes "n") × (config_line key value ≡ codes "# " ++ (key ++ codes " is not set"))

quoted-NoNewline : (value : Text) → NoNewline value → NoNewline (b'"' ∷ (value ++ b'"' ∷ []))
quoted-NoNewline value h =
    (omega arith, All-append (λ c. c ≢ 10) value (b'"' ∷ []) h (omega arith, tt))

flag_line :
    (key value : Text) (c : ℕ)
    → value ≡ c ∷ []
    → is_space c ≡ false
    → strip_quotes (c ∷ []) ≡ some (c ∷ [])
    → (text_eq value (codes "y") || text_eq value (codes "m")) ≡ true
    → Assigns key value
unfolding config_line
flag_line key value c e ok r h = record {
  written = value;
  body = [];
  last = c;
  shape = rw (h, config_line);
  ends = e;
  last_ok = ok;
  read = rw e r;
  one_line = λ n. n;
}

flag_ok :
    (is_space b'y' ≡ false)
    × (strip_quotes (b'y' ∷ []) ≡ some (b'y' ∷ []))
    × (is_space b'm' ≡ false)
    × (strip_quotes (b'm' ∷ []) ≡ some (b'm' ∷ []))
    × (is_space b'"' ≡ false)
    × (is_space b'C' ≡ false)
    × (is_space b'#' ≡ false)
    × (is_space b't' ≡ false)
unfolding is_space strip_quotes
flag_ok = (refl, refl, refl, refl, refl, refl, refl, refl)

config_line-cases : (key value : Text) → Assigns key value ⊎ Unsets key value
unfolding config_line
config_line-cases key value = elim (Bool-cases (text_eq value (codes "y"))) [
  | inl y ↦ inl (flag_line key value b'y' (text_eq_sound value _ y) flag_ok.0 flag_ok.1 (rw y))
  | inr ny ↦ elim (Bool-cases (text_eq value (codes "m"))) [
    | inl m ↦
        inl (flag_line key value b'm' (text_eq_sound value _ m) flag_ok.2 flag_ok.3 (rw (ny, m)))
    | inr nm ↦ elim (Bool-cases (text_eq value (codes "n"))) [
      | inl n ↦ inr (text_eq_sound value _ n, rw (ny, nm, n, config_line))
      | inr nn ↦ inl (record {
        written = b'"' ∷ (value ++ b'"' ∷ []);
        body = b'"' ∷ value;
        last = b'"';
        shape = rw (ny, nm, nn, config_line);
        ends = refl;
        last_ok = flag_ok.4;
        read = strip_quotes-quoted value;
        one_line = quoted-NoNewline value;
      })
    ]
  ]
]

key_byte-not_newline : (c : ℕ) → is_key_byte c ≡ true → c ≢ 10
unfolding is_key_byte
key_byte-not_newline c h = ground arith

ascii_line : NoNewline config_prefix × NoNewline (codes "# ") × NoNewline (codes " is not set")
ascii_line = omega arith

key-NoNewline : (name : Text) → All (λ c. is_key_byte c ≡ true) name → NoNewline name
key-NoNewline [] h = tt
key-NoNewline (c ∷ name) h = (key_byte-not_newline c h.0, key-NoNewline name h.1)

config_line-IsTrimmed : (key value : Text) → IsEntry key value → IsTrimmed (config_line key value)
config_line-IsTrimmed key value e = elim (config_line-cases key value) [
  | inl a ↦ record {
    first = b'C';
    middle = (codes "ONFIG_" ++ e.key_ok.name) ++ b'=' ∷ a.body;
    last = a.last;
    shape =
        a.shape
        ∙ (ap (λ k. k ++ b'=' ∷ a.written) e.key_ok.shape
            ∙ (ap (λ w. (config_prefix ++ e.key_ok.name) ++ b'=' ∷ w) a.ends
                ∙ sym
                    (append_assoc (config_prefix ++ e.key_ok.name) (b'=' ∷ a.body) (a.last ∷ []))));
    first_ok = flag_ok.5;
    last_ok = a.last_ok;
  }
  | inr u ↦ record {
    first = b'#';
    middle = 32 ∷ (key ++ codes " is not se");
    last = b't';
    shape = u.1 ∙ ap (λ t. b'#' ∷ 32 ∷ t) (sym (append_assoc key (codes " is not se") (codes "t")));
    first_ok = flag_ok.6;
    last_ok = flag_ok.7;
  }
]

entry-NoNewline : (key : Text) → IsKey key → NoNewline key
entry-NoNewline key k =
    rw k.shape
      (All-append (λ c. c ≢ 10) config_prefix k.name ascii_line.0 (key-NoNewline k.name k.bytes))

pub config_line-NoNewline :
    (key value : Text) → IsEntry key value → NoNewline (config_line key value)
config_line-NoNewline key value e = elim (config_line-cases key value) [
  | inl a ↦ rw a.shape (
      All-append (λ c. c ≢ 10) key (b'=' ∷ a.written) (entry-NoNewline key e.key_ok)
        (omega arith, a.one_line e.one_line))
  | inr u ↦ rw u.1 (
      All-append (λ c. c ≢ 10) (codes "# ") (key ++ codes " is not set") ascii_line.1
        (All-append (λ c. c ≢ 10) key (codes " is not set") (entry-NoNewline key e.key_ok)
          ascii_line.2))
]

pub drop_cr-config_line :
    (key value : Text) → IsEntry key value → drop_cr (config_line key value) ≡ config_line key value
drop_cr-config_line key value e = drop_cr-IsTrimmed _ (config_line-IsTrimmed key value e)

parse_trimmed :
    (line : Text) (m : Options)
    → trim_space line ≡ line
    → parse_line line m ≡ parsed m line (match_set line)
unfolding parse_line
parse_trimmed line m h = rw (parse_line, h)

-- What the parser makes of a line that the generator writes for an entry.
pub parse_line-entry :
    (key value : Text) (m : Options)
    → IsEntry key value
    → parse_line (config_line key value) m ≡ some (set_option key value m)
unfolding parsed store_value store_unset
parse_line-entry key value m e =
    let line = config_line key value in
    parse_trimmed line m (trim-IsTrimmed line (config_line-IsTrimmed key value e))
    ∙ elim (config_line-cases key value) [
      | inl a ↦
          let k = e.key_ok in
          let matched : match_set line ≡ some (key, a.written) =
            rw (a.shape, k.shape) (match_set-line k.name a.written k.filled k.bytes) in
          rw (matched, parsed) (rw a.read refl)
      | inr u ↦
          let k = e.key_ok in
          let unmatched = match_unset-line k.name k.filled k.bytes in
          rw (u.1, u.0, k.shape) (rw (unmatched.0, parsed) (rw unmatched.1 refl))
    ]

-- What the parser makes of a line that sets a key to a single quote.
pub parse_line-lone_quote :
    (name : Text) (m : Options)
    → is_nil name ≡ false
    → All (λ c. is_key_byte c ≡ true) name
    → parse_line ((config_prefix ++ name) ++ codes "=\"") m ≡ none
unfolding parsed store_value strip_quotes
parse_line-lone_quote name m f h =
    let line = (config_prefix ++ name) ++ codes "=\"" in
    let trimmed : IsTrimmed line = record {
      first = b'C';
      middle = (codes "ONFIG_" ++ name) ++ b'=' ∷ [];
      last = b'"';
      shape =
          ap (λ t. b'C' ∷ t) (sym (append_assoc (codes "ONFIG_" ++ name) (b'=' ∷ []) (b'"' ∷ [])));
      first_ok = flag_ok.5;
      last_ok = flag_ok.4;
    } in
    let matched : match_set line ≡ some (config_prefix ++ name, b'"' ∷ []) =
      match_set-line name (b'"' ∷ []) f h in
    parse_trimmed line m (trim-IsTrimmed line trimmed) ∙ rw (matched, parsed) refl
