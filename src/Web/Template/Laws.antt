-- ===== src/Web/Template/Laws.antt =====
-- `replace` ends if there is something to look for, and what it yields.
use google_cloud_final.Base.{
  ℕ, zero, suc, ◌+◌, ◌-◌, ◌<◌, ◌≤◌, ◌≡◌, refl, ap, ◌∙◌, true, [], ◌∷◌, ◌++◌, none, some, arith,
  length, take, drop, length-append, append_assoc, drop-append, Bool-cases, Option-cases, inl, inr,
}
use google_cloud_final.Text.{Bytes, position, is_prefix}
use google_cloud_final.Text.Search.{drop-append_add, take-append_add}
use google_cloud_final.Outcome.{done}
use google_cloud_final.Web.Template.{place, splice, replace_loop, replace}

-- The text with each occurrence of the target, from the front, replaced: what is left of the text
-- behind an occurrence is replaced in the same way.
pub data Replaced (target replacement : Bytes) : Bytes → Bytes → Type 0 where
  last : {s : Bytes} → position target s ≡ none → Replaced target replacement s s
  next :
      {s t : Bytes} (i : ℕ)
      → position target s ≡ some i
      → Replaced target replacement (drop (i + length target) s) t
      → Replaced target replacement s (take i s ++ (replacement ++ t))

prefix_bound : (t s : Bytes) → is_prefix t s ≡ true → length t ≤ length s
unfolding is_prefix
prefix_bound [] s h = omega arith
prefix_bound (c ∷ t) [] h = cc
prefix_bound (c ∷ t) (d ∷ s) h = ground (arith, prefix_bound t s)

-- An occurrence ends within the text.
position_bound : (t s : Bytes) (i : ℕ) → position t s ≡ some i → i + length t ≤ length s
unfolding position
position_bound t [] i h = ground (arith, prefix_bound t [])
position_bound t (c ∷ s) i h = elim (Bool-cases (is_prefix t (c ∷ s))) [
  | inl e ↦ ground (arith, prefix_bound t (c ∷ s))
  | inr e ↦ elim (Option-cases (position t s)) [
    | inl f ↦ ground (arith)
    | inr (k, f) ↦ ground (arith, position_bound t s k f)
  ]
]

pub length-take : (n : ℕ) (s : Bytes) → n ≤ length s → length (take n s) ≡ n
length-take zero s h = refl
length-take (suc n) [] h = absurd (omega arith)
length-take (suc n) (x ∷ s) h = ap suc (length-take n s (omega arith))

pub length-drop : (n : ℕ) (s : Bytes) → length (drop n s) ≡ length s - n
length-drop zero s = omega arith
length-drop (suc n) [] = omega arith
length-drop (suc n) (x ∷ s) = omega (arith, length-drop n s)

-- What the text is behind a part that is done.
splice-append :
    (pre s text : Bytes) (i n : ℕ)
    → splice (pre ++ s) (length pre + i) n text ≡ (pre ++ (take i s ++ text)) ++ drop (i + n) s
splice-append pre s text i n =
    let e : length pre + i + n ≡ length pre + (i + n) = omega arith in
    rw (take-append_add pre s i, e, drop-append_add pre s (i + n)) (simp (append_assoc))

replace_loop_lem :
    (fuel : ℕ) (pre s target replacement : Bytes)
    → 0 < length target
    → length s < fuel
    → (t : Bytes) × (replace_loop fuel (pre ++ s) target replacement (length pre) ≡ done (pre ++ t))
      × Replaced target replacement s t
unfolding replace_loop
replace_loop_lem zero pre s target replacement h f = absurd (omega arith)
replace_loop_lem (suc fuel) pre s target replacement h f =
    let here : place (pre ++ s) target (length pre) ≡ position target s =
      ap (λ r. position target r) (drop-append pre s) in
    elim (Option-cases (position target s)) [
      | inl e ↦ (s, rw (here ∙ e, replace_loop) refl, last e)
      | inr (i, e) ↦
          let bound = position_bound target s i e in
          let rest = drop (i + length target) s in
          let front = pre ++ (take i s ++ replacement) in
          let (t, runs, by) =
            replace_loop_lem fuel front rest target replacement h
              (omega (arith, length-drop (i + length target) s)) in
          let there : length pre + i + length replacement ≡ length front = omega (
            arith,
            length-append pre (take i s ++ replacement),
            length-append (take i s) replacement,
            length-take i s (omega arith),
          ) in
          (
            take i s ++ (replacement ++ t),
            rw (here ∙ e, replace_loop)
                (ap
                    (λ o.
                      replace_loop fuel o target replacement (length pre + i + length replacement))
                    (splice-append pre s replacement i (length target))
                  ∙ ap (λ n. replace_loop fuel (front ++ rest) target replacement n) there
                  ∙ runs
                  ∙ ap done (simp (append_assoc))),
            next i e by,
          )
    ]

-- If there is something to look for, replace returns, and its result is the text with each
-- occurrence replaced, found from the front and behind the one before it.
pub replace_lem :
    (origin target replacement : Bytes)
    → 0 < length target
    → (t : Bytes) × (replace origin target replacement ≡ done t)
      × Replaced target replacement origin t
unfolding replace
replace_lem origin target replacement h =
    replace_loop_lem (suc (suc (length origin))) [] origin target replacement h (omega arith)
