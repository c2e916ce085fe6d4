-- ===== src/Web/Template.antt =====
-- frontendServer/util.cc: pages with places that are filled in; and `for_display` of
-- frontendServer/response.cc.  A loop whose fuel runs out is `blocked`.
pub mod Laws
use google_cloud_final.Base.{
  ℕ, zero, suc, ◌+◌, List, [], ◌∷◌, ◌++◌, Option, none, some, length, take, drop,
}
use google_cloud_final.Text.{Bytes, codes, position}
use google_cloud_final.Text.Lines.{lines}
use google_cloud_final.Connection.{crlf}
use google_cloud_final.Outcome.{Outcome, done, blocked, ◌>>=◌, or_throw}

-- The first place of the text, from `index` on.
abbrev pub place : Bytes → Bytes → ℕ → Option ℕ
place origin target index = position target (drop index origin)

-- `origin.replace(index, n, text)`
abbrev pub splice : Bytes → ℕ → ℕ → Bytes → Bytes
splice origin index n text = take index origin ++ (text ++ drop (index + n) origin)

-- The loop of `replace`, which goes on behind the new text.
unfoldable pub replace_loop : ℕ → Bytes → Bytes → Bytes → ℕ → Outcome Bytes
unfolding position
replace_loop zero origin target replacement index = blocked
replace_loop (suc fuel) origin target replacement index = elim (place origin target index) [
  | none ↦ done origin
  | some i ↦
      replace_loop fuel (splice origin (index + i) (length target) replacement) target replacement
        (index + i + length replacement)
]

-- There is fuel for each byte of the text; an empty target is found again and again.
unfoldable pub replace : Bytes → Bytes → Bytes → Outcome Bytes
replace origin target replacement =
    replace_loop (suc (suc (length origin))) origin target replacement 0

-- What stands for each name of a page, in the order in which the map is walked.
abbrev pub Replacements : Type 0
Replacements = List (Bytes × Bytes)

unfoldable pub replace_each : Replacements → Bytes → Outcome Bytes
replace_each [] line = done line
replace_each ((target, replacement) ∷ rest) line = do
  line' ← replace line target replacement
  replace_each rest line'

unfoldable pub replace_lines : Replacements → List Bytes → Outcome Bytes
replace_lines replacement [] = done []
replace_lines replacement (line ∷ rest) = do
  line' ← replace_each replacement line
  content ← replace_lines replacement rest
  done (line' ++ content)

-- The pages are given; the server stops if it cannot open one.
unfoldable pub replace_get_html : (Bytes → Option Bytes) → Bytes → Replacements → Outcome Bytes
replace_get_html html filename replacement = do
  web ← or_throw (html filename)
  replace_lines replacement (lines web)

abbrev pub concat : List Bytes → Bytes
concat [] = []
concat (line ∷ rest) = line ++ concat rest

unfoldable pub get_html : (Bytes → Option Bytes) → Bytes → Outcome Bytes
get_html html filename = do web ← or_throw (html filename); done (concat (lines web))

-- The loop of `for_display`, which goes on at the new text.
unfoldable pub display_loop : ℕ → Bytes → ℕ → Outcome Bytes
unfolding position
display_loop zero copy pos = blocked
display_loop (suc fuel) copy pos = elim (place copy crlf pos) [
  | none ↦ done copy
  | some i ↦ display_loop fuel (splice copy (pos + i) 2 (codes "<br>")) (pos + i)
]

unfoldable pub for_display : Bytes → Outcome Bytes
for_display origin = display_loop (suc (length origin)) origin 0
