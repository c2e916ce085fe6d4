-- ===== src/Web/Escape/RoundTrip.antt =====
-- What the browser encodes is read back.
use google_cloud_final.Base.{
  ℕ, ◌+◌, ◌/◌, ◌%◌, ◌<◌, ◌≡◌, ◌≢◌, refl, sym, ap, ◌∙◌, Bool, false, [], ◌∷◌, ◌++◌, some, arith, ltb,
  ◌==◌, if◌then◌else◌, Bool-cases, inl, inr,
}
use google_cloud_final.Text.{Bytes, codes}
use google_cloud_final.Text.Search.{Avoids}
use google_cloud_final.Outcome.{Outcome, done, ◌>>=◌}
use google_cloud_final.Web.Escape.{
  hex_of, scan_hex, extract_hex, convert_hex_to_char, percent, ampersand, equals, unplus,
  parse_path, form_value, last_value, behind, parse_email,
}

abbrev pub hex_char : ℕ → ℕ
hex_char d = if ltb d 10 then b'0' + d else 55 + d

-- A byte as `%` and two digits.
abbrev pub coded : ℕ → Bytes → Bytes
coded c s = percent ∷ hex_char (c / 16) ∷ hex_char (c % 16) ∷ s

-- A text for a path; `keep` says which bytes stand for themselves.
abbrev pub escape : (ℕ → Bool) → Bytes → Bytes
escape keep [] = []
escape keep (c ∷ s) = if keep c then c ∷ escape keep s else coded c (escape keep s)

-- A value of a form.
abbrev pub form_escape : (ℕ → Bool) → Bytes → Bytes
form_escape keep [] = []
form_escape keep (c ∷ s) =
    if c == 32
    then b'+' ∷ form_escape keep s
    else if keep c
    then c ∷ form_escape keep s
    else coded c (form_escape keep s)

abbrev pub AllBytes : Bytes → Type 0
AllBytes [] = Unit {0}
AllBytes (c ∷ s) = (c < 256) × AllBytes s

hex_of-hex_char : (d : ℕ) → d < 16 → hex_of (hex_char d) ≡ some d
unfolding hex_of
hex_of-hex_char d h = ground arith

pub convert-coded :
    (c : ℕ) → c < 256 → convert_hex_to_char (hex_char (c / 16) ∷ hex_char (c % 16) ∷ []) ≡ c
unfolding convert_hex_to_char extract_hex scan_hex
convert-coded c h = ground (arith, hex_of-hex_char (c / 16), hex_of-hex_char (c % 16))

parse-plain :
    (c : ℕ) (s : Bytes)
    → c ≢ percent
    → parse_path (c ∷ s) ≡ (parse_path s >>= λ res. done (c ∷ res))
unfolding parse_path
parse-plain c [] h = ground arith
parse-plain c (a ∷ []) h = ground arith
parse-plain c (a ∷ b ∷ s) h = ground arith

parse-coded :
    (c : ℕ) (s : Bytes)
    → c < 256
    → parse_path (coded c s) ≡ (parse_path s >>= λ res. done (c ∷ res))
unfolding parse_path
parse-coded c s h = ap (λ b. parse_path s >>= λ res. done (b ∷ res)) (convert-coded c h)

keep-ne : (keep : ℕ → Bool) (c d : ℕ) → keep d ≡ false → keep c ≢ false → c ≢ d
keep-ne keep c d h k e = k (ap keep e ∙ h)

-- A path in which the browser has encoded every percent sign, and any other bytes that it chose,
-- is read back as it was.
pub parse_path-escape :
    (keep : ℕ → Bool) (s : Bytes)
    → keep percent ≡ false
    → AllBytes s
    → parse_path (escape keep s) ≡ done s
parse_path-escape keep [] h b = unfold parse_path in refl
parse_path-escape keep (c ∷ s) h b =
    let add = λ (o : Outcome Bytes). o >>= λ res. done (c ∷ res) in
    let rest = ap add (parse_path-escape keep s h b.1) in
    elim (Bool-cases (keep c)) [
      | inl e ↦ rw e (parse-plain c (escape keep s) (keep-ne keep c percent h (λ f. cc)) ∙ rest)
      | inr e ↦ rw e (parse-coded c (escape keep s) b.0 ∙ rest)
    ]

-- A byte is put in front of the value.
abbrev add_front : ℕ → Outcome (Bytes × Bytes) → Outcome (Bytes × Bytes)
add_front c o = o >>= λ p. done (c ∷ p.0, p.1)

value-plain :
    (c : ℕ) (s : Bytes)
    → c ≢ percent
    → c ≢ ampersand
    → form_value (c ∷ s) ≡ add_front (unplus c) (form_value s)
unfolding form_value
value-plain c [] h k = ground arith
value-plain c (a ∷ []) h k = ground arith
value-plain c (a ∷ b ∷ s) h k = ground arith

value-coded : (c : ℕ) (s : Bytes) → c < 256 → form_value (coded c s) ≡ add_front c (form_value s)
unfolding form_value
value-coded c s h = ap (λ b. add_front b (form_value s)) (convert-coded c h)

value-end : (s : Bytes) → form_value (ampersand ∷ s) ≡ done ([], ampersand ∷ s)
unfolding form_value
value-end [] = refl
value-end (a ∷ []) = refl
value-end (a ∷ b ∷ s) = refl

last-plain :
    (c : ℕ) (s : Bytes)
    → c ≢ percent
    → last_value (c ∷ s) ≡ (last_value s >>= λ value. done (unplus c ∷ value))
unfolding last_value
last-plain c [] h = ground arith
last-plain c (a ∷ []) h = ground arith
last-plain c (a ∷ b ∷ s) h = ground arith

last-coded :
    (c : ℕ) (s : Bytes)
    → c < 256
    → last_value (coded c s) ≡ (last_value s >>= λ value. done (c ∷ value))
unfolding last_value
last-coded c s h = ap (λ b. last_value s >>= λ value. done (b ∷ value)) (convert-coded c h)

-- The bytes that a browser encodes in a form: what the server reads otherwise.
pub record EncodesForm (keep : ℕ → Bool) : Type 0 where
  pub percent_sign : keep percent ≡ false
  pub plus_sign : keep b'+' ≡ false
  pub ampersand_sign : keep ampersand ≡ false

unplus-keep : (keep : ℕ → Bool) (c : ℕ) → EncodesForm keep → keep c ≢ false → unplus c ≡ c
unplus-keep keep c f h = ground (arith, keep-ne keep c b'+' f.plus_sign h)

value-escape :
    (keep : ℕ → Bool) (s rest : Bytes)
    → EncodesForm keep
    → AllBytes s
    → form_value (form_escape keep s ++ ampersand ∷ rest) ≡ done (s, ampersand ∷ rest)
value-escape keep [] rest f b = value-end rest
value-escape keep (c ∷ s) rest f b =
    let tail = form_escape keep s ++ ampersand ∷ rest in
    let later = ap (add_front c) (value-escape keep s rest f b.1) in
    elim (Bool-cases (c == 32)) [
      | inl e ↦
          let space : c ≡ 32 = ground arith in
          rw e (
            value-plain b'+' tail (λ q. absurd (omega arith)) (λ q. absurd (omega arith))
            ∙ ap (λ d. add_front d (form_value tail)) (sym space)
            ∙ later)
      | inr e ↦ elim (Bool-cases (keep c)) [
        | inl k ↦
            let kept : keep c ≢ false = (λ q. cc) in
            rw (e, k)
              (value-plain c tail (keep-ne keep c percent f.percent_sign kept)
                  (keep-ne keep c ampersand f.ampersand_sign kept)
                ∙ ap (λ d. add_front d (form_value tail)) (unplus-keep keep c f kept)
                ∙ later)
        | inr k ↦ rw (e, k) (value-coded c tail b.0 ∙ later)
      ]
    ]

last-escape :
    (keep : ℕ → Bool) (s : Bytes)
    → EncodesForm keep
    → AllBytes s
    → last_value (form_escape keep s) ≡ done s
last-escape keep [] f b = unfold last_value in refl
last-escape keep (c ∷ s) f b =
    let tail = form_escape keep s in
    let add = λ (d : ℕ) (o : Outcome Bytes). o >>= λ value. done (d ∷ value) in
    let later = ap (add c) (last-escape keep s f b.1) in
    elim (Bool-cases (c == 32)) [
      | inl e ↦
          let space : c ≡ 32 = ground arith in
          rw e (
            last-plain b'+' tail (λ q. absurd (omega arith))
            ∙ ap (λ d. add d (last_value tail)) (sym space)
            ∙ later)
      | inr e ↦ elim (Bool-cases (keep c)) [
        | inl k ↦
            let kept : keep c ≢ false = (λ q. cc) in
            rw (e, k)
              (last-plain c tail (keep-ne keep c percent f.percent_sign kept)
                ∙ ap (λ d. add d (last_value tail)) (unplus-keep keep c f kept)
                ∙ later)
        | inr k ↦ rw (e, k) (last-coded c tail b.0 ∙ later)
      ]
    ]

behind_lem : (c : ℕ) (pre s : Bytes) → Avoids c pre → behind c (pre ++ c ∷ s) ≡ done s
unfolding behind
behind_lem c [] s h = ground arith
behind_lem c (x ∷ pre) s h = ground (arith, behind_lem c pre s h.1)

-- The form of html/new_email.html as the browser sends it.
abbrev pub mail_form : (ℕ → Bool) → Bytes → Bytes → Bytes → Bytes
mail_form keep recipient subject content =
    codes "recipent"
    ++ equals
      ∷ (form_escape keep recipient
          ++ ampersand
            ∷ (codes "subject"
                ++ equals
                  ∷ (form_escape keep subject
                      ++ ampersand ∷ (codes "message" ++ equals ∷ form_escape keep content))))

-- The form of a new mail, in which every percent sign, plus sign and ampersand of the values is
-- encoded and spaces are plus signs, is read back as its recipient, its subject and its content.
pub parse_email-form :
    (keep : ℕ → Bool) (recipient subject content : Bytes)
    → EncodesForm keep
    → AllBytes recipient
    → AllBytes subject
    → AllBytes content
    → parse_email (mail_form keep recipient subject content) ≡ done (recipient, subject, content)
unfolding parse_email
parse_email-form keep recipient subject content f r s c =
    let third = codes "message" ++ equals ∷ form_escape keep content in
    let second = codes "subject" ++ equals ∷ (form_escape keep subject ++ ampersand ∷ third) in
    let first = form_escape keep recipient ++ ampersand ∷ second in
    rw
      (
        behind_lem equals (codes "recipent") first (omega arith),
        value-escape keep recipient second f r,
        behind_lem equals (codes "subject") (form_escape keep subject ++ ampersand ∷ third)
            (omega arith),
        value-escape keep subject third f s,
        behind_lem equals (codes "message") (form_escape keep content) (omega arith),
        last-escape keep content f c,
      )
      refl
