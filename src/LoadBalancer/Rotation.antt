-- ===== src/LoadBalancer/Rotation.antt =====
-- Which server is chosen, and how the queue turns.
use google_cloud_final.Base.{
  ℕ, zero, suc, ◌+◌, ◌≤◌, ◌<◌, ◌≡◌, ◌≢◌, refl, sym, ap, ◌∙◌, Bool, true, false, List, [], ◌∷◌, ◌++◌,
  length, append_assoc, append-nil, length-append, arith, ◌==◌, if◌then◌else◌, none, some,
}
use google_cloud_final.Outcome.{done, ◌>>=◌}
use google_cloud_final.LoadBalancer.{Server, skip_down, take_front, next_server}

abbrev pub AllDown : List Server → Type 0
AllDown [] = Unit {0}
AllDown (s ∷ rest) = (s.running ≡ false) × AllDown rest

if_true {ℓ} :
    {A : Type ℓ} {b : Bool} {x z : A} (y : A) → b ≡ true → x ≡ z → (if b then x else y) ≡ z
if_true y h e = ground (arith, h, e)

if_false {ℓ} :
    {A : Type ℓ} {b : Bool} {y z : A} (x : A) → b ≡ false → y ≡ z → (if b then x else y) ≡ z
if_false x h e = ground (arith, h, e)

ne_test : (m n : ℕ) → m ≢ n → (m == n) ≡ false
ne_test m n h = ground arith

-- The servers that are down move behind the rest, one by one.
skip_down-running :
    (fuel count : ℕ) (down : List Server) (s : Server) (rest : List Server)
    → AllDown down
    → s.running ≡ true
    → length down < fuel
    → count ≤ length rest
    → skip_down fuel count (down ++ s ∷ rest) ≡ done (count + length down, s ∷ (rest ++ down))
unfolding skip_down
skip_down-running zero count down s rest h on f c = absurd (omega arith)
skip_down-running (suc fuel) count [] s rest h on f c = if_true _ on (
    ap (λ n. done (n, s ∷ rest)) (omega arith)
    ∙ ap (λ q. done (count + 0, s ∷ q)) (sym (append-nil rest)))
skip_down-running (suc fuel) count (d ∷ down) s rest h on f c =
    let moved : (down ++ s ∷ rest) ++ d ∷ [] ≡ down ++ s ∷ (rest ++ d ∷ []) =
      append_assoc down (s ∷ rest) (d ∷ []) in
    let total = length-append (down ++ s ∷ rest) (d ∷ []) in
    let total' = length-append down (s ∷ rest) in
    let grown = length-append rest (d ∷ []) in
    if_false _ h.0 (
      if_false _
        (ne_test (suc count) (length ((down ++ s ∷ rest) ++ d ∷ []))
          (λ e. omega (arith, total, total', c, e)))
        (ap (skip_down fuel (suc count)) moved
          ∙ skip_down-running fuel (suc count) down s (rest ++ d ∷ []) h.1 on (omega arith)
              (omega (arith, grown, c))
          ∙ ap (λ q. done (suc count + length down, s ∷ q)) (append_assoc rest (d ∷ []) down)
          ∙ ap (λ n. done (n, s ∷ (rest ++ d ∷ down))) (omega arith)))

-- If some server runs, the first one that does is chosen; it goes to the back of the queue, behind
-- the servers in front of it, which are down, and the others move up in order.
pub next_server-running :
    (down : List Server) (s : Server) (rest : List Server)
    → AllDown down
    → s.running ≡ true
    → next_server (down ++ s ∷ rest) ≡ done (some s, rest ++ (down ++ s ∷ []))
unfolding next_server
next_server-running down s rest h on =
    let queue = s ∷ (rest ++ down) in
    let total = length-append down (s ∷ rest) in
    let total' = length-append rest down in
    ap (λ o. o >>= λ (count, q). if count == length q then done (none, q) else take_front q)
      (skip_down-running (suc (length (down ++ s ∷ rest))) 0 down s rest h on (omega (arith, total))
        (omega arith))
    ∙ if_false _ (ne_test (0 + length down) (length queue) (λ e. omega (arith, total', e)))
        (ap (λ q. done (some s, q)) (append_assoc rest down (s ∷ [])))

-- If no server runs, all go round.
skip_down-none :
    (fuel count : ℕ) (todo past : List Server)
    → AllDown todo
    → 0 < length todo
    → length todo < fuel
    → count ≡ length past
    → skip_down fuel count (todo ++ past) ≡ done (length todo + length past, past ++ todo)
unfolding skip_down
skip_down-none zero count todo past h some_todo f c = absurd (omega arith)
skip_down-none (suc fuel) count [] past h some_todo f c = absurd (omega arith)
skip_down-none (suc fuel) count (d ∷ []) past h some_todo f c =
    let total = length-append past (d ∷ []) in
    if_false _ h.0 (
      if_true _ (eq_test (suc count) (length (past ++ d ∷ [])) (omega (arith, total, c)))
        (ap (λ n. done (n, past ++ d ∷ [])) (omega (arith, c))))
  where
    eq_test : (m n : ℕ) → m ≡ n → (m == n) ≡ true
    eq_test m n e = ground arith
skip_down-none (suc fuel) count (d ∷ e ∷ todo) past h some_todo f c =
    let total = length-append (e ∷ todo ++ past) (d ∷ []) in
    let total' = length-append (e ∷ todo) past in
    let grown = length-append past (d ∷ []) in
    if_false _ h.0 (
      if_false _
        (ne_test (suc count) (length ((e ∷ todo ++ past) ++ d ∷ []))
          (λ eq. omega (arith, total, total', c, eq)))
        (ap (skip_down fuel (suc count)) (append_assoc (e ∷ todo) past (d ∷ []))
          ∙ skip_down-none fuel (suc count) (e ∷ todo) (past ++ d ∷ []) h.1 (omega arith)
              (omega arith) (omega (arith, grown, c))
          ∙ ap (λ q. done (length (e ∷ todo) + length (past ++ d ∷ []), q))
              (append_assoc past (d ∷ []) (e ∷ todo))
          ∙ ap (λ n. done (n, past ++ d ∷ e ∷ todo)) (omega (arith, grown))))

-- If no server of a queue that is not empty runs, none is chosen, and the queue is as it was.
pub next_server-none :
    (s : Server) (rest : List Server)
    → AllDown (s ∷ rest)
    → next_server (s ∷ rest) ≡ done (none, s ∷ rest)
unfolding next_server
next_server-none s rest h =
    let queue = s ∷ rest in
    ap (λ q. next_server q) (sym (append-nil queue))
    ∙ ap (λ o. o >>= λ (count, q). if count == length q then done (none, q) else take_front q)
        (ap (λ q. skip_down (suc (length q)) 0 q) (append-nil queue)
          ∙ ap (skip_down (suc (length queue)) 0) (sym (append-nil queue))
          ∙ skip_down-none (suc (length queue)) 0 queue [] h (omega arith) (omega arith) refl)
    ∙ if_true _ (eq_test (length queue + 0) (length queue) (omega arith)) refl
  where
    eq_test : (m n : ℕ) → m ≡ n → (m == n) ≡ true
    eq_test m n e = ground arith
