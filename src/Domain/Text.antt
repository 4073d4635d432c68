-- ===== src/Domain/Text.antt =====
-- The text handling of internal/identity/service.go and password.go: normalizeUsername,
-- validateUsername, sanitizeText and ValidatePassword. A text is a sequence of Unicode characters
-- (Go's strings may hold other bytes: `ValidString` refuses them in a password).
pub mod Padding
use Prim.Native.Char.{Char, code}
use expediente.Base.{
  ℕ, zero, suc, ◌+◌, ◌-◌, ◌≤◌, Bool, true, false, ◌&&◌, ◌||◌, not, String, ◌≡◌, refl, arith, leb,
  ltb, ◌==◌, ℕ_eq, String_eq, if◌then◌else◌, Bool-cases, inl, inr,
}

-- `unicode.IsControl`: the control characters, 0 to 31 and 127 to 159.
unfoldable pub is_control : ℕ → Bool
is_control c = leb c 31 || (leb 127 c && leb c 159)

-- `unicode.IsSpace`, the cutset of `strings.TrimSpace`.
unfoldable pub is_space : ℕ → Bool
is_space c =
    (leb 9 c && leb c 13)
    || c == 32
    || c == 0x85
    || c == 0xa0
    || c == 0x1680
    || (leb 0x2000 c && leb c 0x200a)
    || c == 0x2028
    || c == 0x2029
    || c == 0x202f
    || c == 0x205f
    || c == 0x3000

-- `utf8.RuneCountInString`
unfoldable pub rune_count : String → ℕ
rune_count String.[] = 0
rune_count (String.◌∷◌ c s) = suc (rune_count s)

-- The loop of `sanitizeText` with the number of characters that may still be appended. A maximum
-- of 0 takes one character, since the loop tests the length only after it has appended.
unfoldable pub sanitize_text : String → ℕ → String
sanitize_text String.[] room = String.[]
sanitize_text (String.◌∷◌ c s) room = elim (is_control (code c)) [
  | true ↦ elim (leb room 0) [ true ↦ String.[] | false ↦ sanitize_text s room ]
  | false ↦ elim (leb room 1) [
    | true ↦ String.◌∷◌ c String.[]
    | false ↦ String.◌∷◌ c (sanitize_text s (room - 1))
  ]
]

unfoldable pub trim_left : String → String
unfolding is_space
trim_left String.[] = String.[]
trim_left (String.◌∷◌ c s) = elim (is_space (code c)) [
  | true ↦ trim_left s
  | false ↦ String.◌∷◌ c s
]

is_empty : String → Bool
is_empty String.[] = true
is_empty (String.◌∷◌ c s) = false

unfoldable pub trim_right : String → String
unfolding is_space is_empty
trim_right String.[] = String.[]
trim_right (String.◌∷◌ c s) =
    let rest = trim_right s in
    if is_space (code c) && is_empty rest then String.[] else String.◌∷◌ c rest

-- `strings.TrimSpace`
unfoldable pub trim_space : String → String
trim_space s = trim_right (trim_left s)

-- `strings.Map`, by which `strings.ToLower` applies `unicode.ToLower` to each character.
unfoldable pub map_runes : (Char → Char) → String → String
map_runes f String.[] = String.[]
map_runes f (String.◌∷◌ c s) = String.◌∷◌ (f c) (map_runes f s)

-- `unicode.ToLower` is a table of the Unicode standard: the parameter `lower`.
unfoldable pub normalize_username : (Char → Char) → String → String
normalize_username lower username = map_runes lower (trim_space username)

-- The class `[a-z0-9]`, and the class `[a-z0-9._@-]`.
is_word : ℕ → Bool
is_word c = (leb b'a' c && leb c b'z') || (leb b'0' c && leb c b'9')

is_username_rune : ℕ → Bool
unfolding is_word
is_username_rune c = is_word c || c == b'.' || c == b'_' || c == b'@' || c == b'-'

all_username_runes : String → Bool
unfolding is_username_rune
all_username_runes String.[] = true
all_username_runes (String.◌∷◌ c s) = is_username_rune (code c) && all_username_runes s

-- `usernamePattern`: `^[a-z0-9][a-z0-9._@-]{2,79}$`
matches_username : String → Bool
unfolding is_word all_username_runes rune_count
matches_username String.[] = false
matches_username (String.◌∷◌ c s) =
    is_word (code c) && all_username_runes s && leb 2 (rune_count s) && leb (rune_count s) 79

-- `validateUsername(…) == nil`
unfoldable pub valid_username : (Char → Char) → String → Bool
unfolding matches_username normalize_username
valid_username lower username = matches_username (normalize_username lower username)

-- `ValidatePassword(…) == nil`
unfoldable pub valid_password : String → Bool
unfolding rune_count
valid_password password = leb 6 (rune_count password) && leb (rune_count password) 128
