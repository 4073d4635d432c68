-- ===== src/Domain/Text/Padding.antt =====
-- What sanitizeText and TrimSpace make of leading spaces, and the bound that sanitizeText keeps.
use Prim.Native.Char.{code}
use expediente.Base.{
  ℕ, zero, suc, ◌-◌, ◌≤◌, max, String, ◌≡◌, refl, ap, ◌∙◌, arith, leb, inl, inr, Bool-cases,
}
use expediente.Domain.Text.{
  is_control, rune_count, sanitize_text, trim_left, trim_right, trim_space,
}

-- A text behind `n` spaces.
abbrev pub padded : ℕ → String → String
padded zero s = s
padded (suc n) s = String.◌∷◌ " " (padded n s)

pub trim_space-padded : (n : ℕ) (s : String) → trim_space (padded n s) ≡ trim_space s
unfolding trim_space trim_left
trim_space-padded zero s = refl
trim_space-padded (suc n) s = trim_space-padded n s

pub trim_space-nil : trim_space "" ≡ ""
unfolding trim_space trim_left trim_right
trim_space-nil = refl

sanitize_text-space :
    (r : ℕ) (s : String)
    → sanitize_text (String.◌∷◌ " " s) (suc (suc r)) ≡ String.◌∷◌ " " (sanitize_text s (suc r))
unfolding sanitize_text is_control
sanitize_text-space r s = ground arith

pub sanitize_text-padded :
    (r : ℕ) (s : String) → sanitize_text (padded (suc r) s) (suc r) ≡ padded (suc r) String.[]
sanitize_text-padded zero s = unfold sanitize_text is_control in refl
sanitize_text-padded (suc r) s =
    sanitize_text-space r (padded (suc r) s) ∙ ap (String.◌∷◌ " ") (sanitize_text-padded r s)

-- At most `room` characters are kept, or one for a maximum of 0.
pub rune_count-sanitize_text :
    (s : String) (room : ℕ) → rune_count (sanitize_text s room) ≤ max room 1
unfolding sanitize_text rune_count
rune_count-sanitize_text String.[] room = omega arith
rune_count-sanitize_text (String.◌∷◌ c s) room = elim (Bool-cases (is_control (code c))) [
  | inl e ↦
      rw (e, sanitize_text)
        (elim (Bool-cases (leb room 0)) [
          | inl done ↦ rw (done, sanitize_text) (omega arith)
          | inr more ↦ rw (more, sanitize_text) (rune_count-sanitize_text s room)
        ])
  | inr e ↦
      rw (e, sanitize_text)
        (elim (Bool-cases (leb room 1)) [
          | inl done ↦ rw (done, sanitize_text) (omega arith)
          | inr more ↦
              rw (more, sanitize_text) (ground (arith, more, rune_count-sanitize_text s (room - 1)))
        ])
]
