-- ===== src/Like/Meaning.antt =====
-- What a pattern means, with no search order in it: on tokens, and on the operand as it is written.
use cyoda_go_spi.Base.{ℕ, ◌≡◌, ◌≢◌, List, [], ◌∷◌, ◌++◌, Bytes}
use cyoda_go_spi.Base.Utf8.{first_rune, rest_rune, skip}
use cyoda_go_spi.Like.{LikeTok, lit, one, any, backslash}

-- The tokens take a front part of the text, and `Q` holds of the rest.
abbrev pub Takes : List LikeTok → (Bytes → Type 0) → Bytes → Type 0
Takes [] Q s = Q s
Takes (lit l ∷ p) Q s = (r : Bytes) × (s ≡ l ++ r) × Takes p Q r
Takes (one ∷ p) Q s = (s ≢ []) × Takes p Q (rest_rune s)
Takes (any ∷ p) Q s = (n : ℕ) × Takes p Q (skip n s)

abbrev pub IsEnd : Bytes → Type 0
IsEnd s = s ≡ []

-- The whole text matches.
abbrev pub Matches : List LikeTok → Bytes → Type 0
Matches p = Takes p IsEnd

-- The operand as a user reads it, and a text that matches it.
pub data Like : Bytes → Bytes → Type 0 where
  end : Like [] []
  percent : {c : ℕ} {op s : Bytes} → c ≡ b'%' → (n : ℕ) → Like op (skip n s) → Like (c ∷ op) s
  underscore : {c : ℕ} {op s : Bytes} → c ≡ b'_' → s ≢ [] → Like op (rest_rune s) → Like (c ∷ op) s
  escaped :
      {b c : ℕ} {op s : Bytes}
      → b ≡ backslash
      → (r : Bytes) → s ≡ first_rune (c ∷ op) ++ r
      → Like (rest_rune (c ∷ op)) r
      → Like (b ∷ c ∷ op) s
  plain :
      {c : ℕ} {op s : Bytes}
      → c ≢ b'%'
      → c ≢ b'_'
      → c ≢ backslash
      → (r : Bytes) → s ≡ first_rune (c ∷ op) ++ r
      → Like (rest_rune (c ∷ op)) r
      → Like (c ∷ op) s
