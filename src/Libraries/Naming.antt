-- ===== src/Libraries/Naming.antt =====
-- internal/libraries/settings.go: safeComponent and renderNamingSequence, with what they use of
-- the package strings: Trim, the Replacer, TrimSuffix and the format %04d.
pub mod Safe
use Prim.Native.Char.{Char, code}
use Prim.Native.Nat.{◌/◌, ◌%◌}
use Prim.Native.String.{◌++◌ as concat}
use text.Mathlib.Text.{starts_with}
use expediente.Base.{
  ℕ, zero, suc, ◌-◌, Bool, true, false, ◌&&◌, ◌||◌, String, String_eq, ℕ_eq, List, [], ◌∷◌, Option,
  none, some, ◌==◌, leb, ltb, if◌then◌else◌,
}
use expediente.Domain.Text.{trim_space, map_runes, rune_count}
use expediente.Libraries.{Call, Settings}

keeps : Call → Char → Bool
keeps call c = call.is_letter c || call.is_digit c || code c == 45 || code c == 95 || code c == 46

clean_char : Call → String → String
unfolding keeps
clean_char call String.[] = String.[]
clean_char call (String.◌∷◌ c s) =
    let rest = clean_char call s in
    elim (keeps call c) [ true ↦ String.◌∷◌ c rest | false ↦ String.◌∷◌ "_" rest ]

-- The cutset ". _" of `strings.Trim`.
unfoldable pub is_edge : Char → Bool
is_edge c = code c == 46 || code c == 32 || code c == 95

unfoldable pub drop_edges : String → String
unfolding is_edge
drop_edges String.[] = String.[]
drop_edges (String.◌∷◌ c s) =
    let rest = drop_edges s in elim (is_edge c) [ true ↦ rest | false ↦ String.◌∷◌ c s ]

is_all_edges : String → Bool
unfolding is_edge
is_all_edges String.[] = true
is_all_edges (String.◌∷◌ c s) = is_edge c && is_all_edges s

unfoldable pub drop_last_edges : String → String
unfolding is_all_edges
drop_last_edges String.[] = String.[]
drop_last_edges (String.◌∷◌ c s) =
    let rest = drop_last_edges s in
    elim (is_all_edges (String.◌∷◌ c s)) [ true ↦ String.[] | false ↦ String.◌∷◌ c rest ]

unfoldable pub first_chars : ℕ → String → String
first_chars zero s = String.[]
first_chars (suc n) String.[] = String.[]
first_chars (suc n) (String.◌∷◌ c s) = String.◌∷◌ c (first_chars n s)

-- The part in front of the first full stop.
before_stop : String → String
before_stop String.[] = String.[]
before_stop (String.◌∷◌ c s) =
    let rest = before_stop s in elim (code c == 46) [ true ↦ String.[] | false ↦ String.◌∷◌ c rest ]

ends_in_digit : String → Bool
ends_in_digit (String.◌∷◌ a (String.◌∷◌ b (String.◌∷◌ c (String.◌∷◌ d String.[])))) =
    leb 49 (code d) && leb (code d) 57
ends_in_digit _ = false

-- The names that Windows keeps for devices. A name of four bytes that begins with COM or LPT has
-- four characters.
unfoldable pub is_reserved : String → Bool
unfolding ends_in_digit
is_reserved name =
    name == "CON"
    || name == "PRN"
    || name == "AUX"
    || name == "NUL"
    || ((starts_with name "COM" || starts_with name "LPT") && ends_in_digit name)

or_document : String → String
or_document String.[] = "Documento"
or_document (String.◌∷◌ c s) = String.◌∷◌ c s

-- `safeComponent`
unfoldable pub safe_component : Call → String → String
unfolding clean_char drop_edges drop_last_edges first_chars before_stop is_reserved or_document
safe_component call value =
    let result =
      or_document
        (first_chars 60 (drop_last_edges (drop_edges (clean_char call (trim_space value))))) in
    if is_reserved (map_runes call.upper (before_stop result))
    then String.◌∷◌ "_" result
    else result

-- The first key in the order of the arguments that stands at the head of the text.
key_at : List (String × String) → String → Option (String × String)
key_at [] s = none
key_at ((key, value) ∷ pairs) s =
    let rest = key_at pairs s in if starts_with s key then some (key, value) else rest

-- `Replacer.Replace`, `skipped` characters of the key replaced last being left.
unfoldable pub replace_keys : List (String × String) → ℕ → String → String
unfolding key_at
replace_keys pairs skipped String.[] = String.[]
replace_keys pairs (suc skipped) (String.◌∷◌ c s) = replace_keys pairs skipped s
replace_keys pairs zero (String.◌∷◌ c s) = elim (key_at pairs (String.◌∷◌ c s)) [
  | none ↦ String.◌∷◌ c (replace_keys pairs 0 s)
  | some (key, value) ↦ concat value (replace_keys pairs (rune_count key - 1) s)
]

digit_text : ℕ → String
digit_text n =
    if n == 0
    then "0"
    else if n == 1
    then "1"
    else if n == 2
    then "2"
    else if n == 3
    then "3"
    else if n == 4
    then "4"
    else if n == 5
    then "5"
    else if n == 6
    then "6"
    else if n == 7
    then "7"
    else if n == 8
    then "8"
    else "9"

-- The decimal digits of a number, in front of a text. A number has fewer digits than fuel where
-- the fuel is above it.
decimal_onto : ℕ → ℕ → String → String
unfolding digit_text
decimal_onto zero n s = s
decimal_onto (suc fuel) n s =
    let more = decimal_onto fuel (n / 10) (concat (digit_text (n % 10)) s) in
    if ltb n 10 then concat (digit_text n) s else more

-- `fmt.Sprintf("%04d", sequence)`
unfoldable pub four_digits : ℕ → String
unfolding decimal_onto
four_digits n =
    concat (if ltb n 10 then "000" else if ltb n 100 then "00" else if ltb n 1000 then "0" else "")
      (decimal_onto (suc n) n "")

pub record NamingInput : Type 0 where
  pub identifier : String
  pub exercise : String
  pub category : String
  pub document_type : String
  pub original_filename : String

naming_tokens : Call → Settings → NamingInput → ℕ → List (String × String)
unfolding safe_component four_digits
naming_tokens call settings input sequence =
    ("{identificador}", safe_component call input.identifier)
    ∷ ("{ejercicio}", safe_component call input.exercise)
    ∷ ("{categoria}", safe_component call input.category)
    ∷ ("{tipo_documento}", safe_component call input.document_type)
    ∷ ("{prefijo}", safe_component call settings.filename_prefix)
    ∷ ("{consecutivo}", four_digits sequence)
    ∷ []

-- `strings.TrimSuffix` of ".pdf"
trim_pdf : String → String
trim_pdf String.[] = String.[]
trim_pdf (String.◌∷◌ c s) =
    let rest = trim_pdf s in if String.◌∷◌ c s == ".pdf" then String.[] else String.◌∷◌ c rest

-- `renderNamingSequence`
unfoldable pub render_naming_sequence : Call → Settings → NamingInput → String → ℕ → String
unfolding replace_keys naming_tokens safe_component trim_pdf
render_naming_sequence call settings input stable_id sequence =
    let tokens = naming_tokens call settings input sequence in
    let filename =
      if settings.filename_pattern == "original"
      then safe_component call (trim_pdf input.original_filename)
      else replace_keys tokens 0 settings.filename_pattern in
    concat (replace_keys tokens 0 settings.structure_pattern)
      (concat "/" (concat (safe_component call filename) (concat "_" (concat stable_id ".pdf"))))
