-- ===== src/Text/Lines.antt =====
-- Text read line by line with `getline`.
use google_cloud_final.Base.{
  ℕ, ◌≡◌, ◌≢◌, refl, ap, ◌∙◌, List, [], ◌∷◌, ◌++◌, append_assoc, arith, ◌==◌, if◌then◌else◌,
  Bool-cases, inl, inr,
}
use google_cloud_final.Text.{Bytes}
use google_cloud_final.Text.Search.{Avoids}

abbrev pub newline : ℕ
newline = 10

-- The first byte joins the line that follows it.
abbrev pub extend : ℕ → List Bytes → List Bytes
extend c [] = (c ∷ []) ∷ []
extend c (l ∷ ls) = (c ∷ l) ∷ ls

-- What the calls of `getline` return; a last line without `\n` counts.
unfoldable pub lines : Bytes → List Bytes
lines [] = []
lines (c ∷ s) = let rest = lines s in if c == newline then [] ∷ rest else extend c rest

abbrev pub unlines : List Bytes → Bytes
unlines [] = []
unlines (l ∷ ls) = l ++ newline ∷ unlines ls

abbrev pub AllAvoid : ℕ → List Bytes → Type 0
AllAvoid c [] = Unit {0}
AllAvoid c (l ∷ ls) = Avoids c l × AllAvoid c ls

-- A line that ends in `\n` is read first, without it.
pub lines-line : (l s : Bytes) → Avoids newline l → lines (l ++ newline ∷ s) ≡ l ∷ lines s
unfolding lines
lines-line [] s h = refl
lines-line (c ∷ l) s h = ground (arith, lines-line l s h.1)

pub lines-unlines-append :
    (ls : List Bytes) (s : Bytes) → AllAvoid newline ls → lines (unlines ls ++ s) ≡ ls ++ lines s
lines-unlines-append [] s h = refl
lines-unlines-append (l ∷ ls) s h =
    rw (append_assoc l (newline ∷ unlines ls) s, lines-line l (unlines ls ++ s) h.0)
      (ap (λ r. l ∷ r) (lines-unlines-append ls s h.1))

pub unlines-append : (xs ys : List Bytes) → unlines (xs ++ ys) ≡ unlines xs ++ unlines ys
unlines-append [] ys = refl
unlines-append (x ∷ xs) ys =
    rw (append_assoc x (newline ∷ unlines xs) (unlines ys))
      (ap (λ r. x ++ newline ∷ r) (unlines-append xs ys))

pub lines-AllAvoid : (s : Bytes) → AllAvoid newline (lines s)
unfolding lines
lines-AllAvoid [] = tt
lines-AllAvoid (c ∷ s) = elim (Bool-cases (c == newline)) [
  | inl e ↦ rw e (tt, lines-AllAvoid s)
  | inr e ↦ rw e (extend-AllAvoid c (lines s) (λ p. ground (arith, p)) (lines-AllAvoid s))
]
  where
    extend-AllAvoid :
        (d : ℕ) (ls : List Bytes)
        → d ≢ newline
        → AllAvoid newline ls
        → AllAvoid newline (extend d ls)
    extend-AllAvoid d [] h k = ((h, tt), tt)
    extend-AllAvoid d (l ∷ ls) h k = ((h, k.0), k.1)

extend-ne-nil : (c : ℕ) (ls : List Bytes) → extend c ls ≢ []
extend-ne-nil c [] e = cc
extend-ne-nil c (l ∷ ls) e = cc

lines-ne-nil : (s : Bytes) → lines (s ++ newline ∷ []) ≢ []
unfolding lines
lines-ne-nil [] = λ p. cc
lines-ne-nil (c ∷ s) = elim (Bool-cases (c == newline)) [
  | inl e ↦ rw e (λ p. cc)
  | inr e ↦ rw e (extend-ne-nil c (lines (s ++ newline ∷ [])))
]

unlines-extend : (c : ℕ) (ls : List Bytes) → ls ≢ [] → unlines (extend c ls) ≡ c ∷ unlines ls
unlines-extend c [] h = absurd (h refl)
unlines-extend c (l ∷ ls) h = refl

-- A text that ends in `\n` is the lines that are read from it.
pub unlines-lines : (s : Bytes) → unlines (lines (s ++ newline ∷ [])) ≡ s ++ newline ∷ []
unfolding lines
unlines-lines [] = refl
unlines-lines (c ∷ s) = elim (Bool-cases (c == newline)) [
  | inl e ↦ rw e (ground (arith, unlines-lines s))
  | inr e ↦ rw e (
      unlines-extend c (lines (s ++ newline ∷ [])) (lines-ne-nil s)
      ∙ ap (λ t. c ∷ t) (unlines-lines s))
]
