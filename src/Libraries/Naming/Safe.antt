-- ===== src/Libraries/Naming/Safe.antt =====
-- internal/libraries/settings.go: a component of a name is one safe component of a path.
use Prim.Native.Char.{Char, code}
use expediente.Base.{
  ℕ, zero, suc, ◌≤◌, Bool, true, false, ◌||◌, String, String_eq, ℕ_eq, ◌==◌, if◌then◌else◌,
  Bool-cases, ◌≡◌, inl, inr, refl, arith,
}
use expediente.Domain.Text.{map_runes, rune_count, trim_space}
use expediente.Libraries.{Call}
use expediente.Libraries.Naming.{
  before_stop, clean_char, drop_edges, drop_last_edges, first_chars, is_all_edges, is_edge,
  is_reserved, keeps, or_document, safe_component,
}

-- The separators of the paths of the supported systems: / and \.
unfoldable pub is_separator : Char → Bool
is_separator c = code c == 47 || code c == 92

unfoldable pub has_separator : String → Bool
unfolding is_separator
has_separator String.[] = false
has_separator (String.◌∷◌ c s) = is_separator c || has_separator s

kept-free :
    (call : Call) (c : Char)
    → ((c : Char) → is_separator c ≡ true → (call.is_letter c || call.is_digit c) ≡ false)
    → keeps call c ≡ true
    → is_separator c ≡ false
unfolding keeps is_separator
kept-free call c h k = ground (arith, h c)

clean-free :
    (call : Call) (s : String)
    → ((c : Char) → is_separator c ≡ true → (call.is_letter c || call.is_digit c) ≡ false)
    → has_separator (clean_char call s) ≡ false
unfolding has_separator clean_char is_separator
clean-free call String.[] h = refl
clean-free call (String.◌∷◌ c s) h = elim (Bool-cases (keeps call c)) [
  | inr e ↦ rw (clean_char, e) (clean-free call s h)
  | inl e ↦ rw (clean_char, e) (ground (arith, kept-free call c h e, clean-free call s h))
]

drop_edges-free : (s : String) → has_separator s ≡ false → has_separator (drop_edges s) ≡ false
unfolding has_separator drop_edges
drop_edges-free String.[] h = refl
drop_edges-free (String.◌∷◌ c s) h = elim (Bool-cases (is_edge c)) [
  | inl e ↦ rw (drop_edges, e) (drop_edges-free s (ground arith))
  | inr e ↦ rw (drop_edges, e) h
]

drop_last_edges-free :
    (s : String) → has_separator s ≡ false → has_separator (drop_last_edges s) ≡ false
unfolding has_separator drop_last_edges
drop_last_edges-free String.[] h = refl
drop_last_edges-free (String.◌∷◌ c s) h = elim (Bool-cases (is_all_edges (String.◌∷◌ c s))) [
  | inl e ↦ rw (drop_last_edges, e) refl
  | inr e ↦ rw (drop_last_edges, e) (ground (arith, drop_last_edges-free s (ground arith)))
]

first_chars-free :
    (n : ℕ) (s : String) → has_separator s ≡ false → has_separator (first_chars n s) ≡ false
unfolding has_separator first_chars
first_chars-free zero s h = refl
first_chars-free (suc n) String.[] h = refl
first_chars-free (suc n) (String.◌∷◌ c s) h = ground (arith, first_chars-free n s (ground arith))

first_chars-count : (n : ℕ) (s : String) → rune_count (first_chars n s) ≤ n
unfolding rune_count first_chars
first_chars-count zero s = omega arith
first_chars-count (suc n) String.[] = omega arith
first_chars-count (suc n) (String.◌∷◌ c s) = omega (arith, first_chars-count n s)

named :
    (s : String)
    → has_separator s ≡ false
    → rune_count s ≤ 60
    → (has_separator (or_document s) ≡ false)
      × (1 ≤ rune_count (or_document s))
      × (rune_count (or_document s) ≤ 60)
unfolding or_document has_separator rune_count is_separator
named String.[] h le = (refl, omega arith, omega arith)
named (String.◌∷◌ c s) h le = (h, omega arith, le)

marked :
    (b : Bool) (s : String)
    → has_separator s ≡ false
    → 1 ≤ rune_count s
    → rune_count s ≤ 60
    → (has_separator (if b then String.◌∷◌ "_" s else s) ≡ false)
      × (1 ≤ rune_count (if b then String.◌∷◌ "_" s else s))
      × (rune_count (if b then String.◌∷◌ "_" s else s) ≤ 61)
unfolding has_separator rune_count is_separator
marked true s h ge le = (h, omega arith, omega (arith, le))
marked false s h ge le = (h, ge, omega (arith, le))

-- Where no separator of paths is a letter or a digit, a component of a name has no separator, is not
-- empty and has at most 61 characters, whatever the text it was made of.
pub safe_component-safe :
    (call : Call) (value : String)
    → ((c : Char) → is_separator c ≡ true → (call.is_letter c || call.is_digit c) ≡ false)
    → (has_separator (safe_component call value) ≡ false)
      × (1 ≤ rune_count (safe_component call value))
      × (rune_count (safe_component call value) ≤ 61)
unfolding safe_component
safe_component-safe call value h =
    let trimmed = drop_last_edges (drop_edges (clean_char call (trim_space value))) in
    let free = drop_last_edges-free (drop_edges (clean_char call (trim_space value))) (
      drop_edges-free (clean_char call (trim_space value))
        (clean-free call (trim_space value) h)) in
    let (a, b, c) =
      named (first_chars 60 trimmed) (first_chars-free 60 trimmed free)
        (first_chars-count 60 trimmed) in
    marked (is_reserved (map_runes call.upper (before_stop (or_document (first_chars 60 trimmed)))))
      (or_document (first_chars 60 trimmed)) a b c
