-- ===== src/Worker/Waiting.antt =====
-- The waiting loops: what fuel they need, and that they end when the data comes.
use google_cloud_final.Base.{
  ℕ, zero, suc, ◌+◌, ◌-◌, ◌≤◌, ◌<◌, ◌≡◌, refl, Bool, false, List, [], ◌∷◌, ◌++◌, length, take, drop,
  leb, arith, Bool-cases, Option-cases, inl, inr,
}
use google_cloud_final.Text.{Bytes, position}
use google_cloud_final.Connection.{
  Connection, ReadEvent, got, read_failed, c_str, unread, read_until, do_read_data, dot_line,
}
use google_cloud_final.Outcome.{Outcome, done, abort, blocked, ◌>>=◌, Ensures}
use google_cloud_final.Worker.Input.{rlen, budget, await, await_data}

abbrev Shorter : List ReadEvent → Bool × Bytes × List ReadEvent → Type 0
Shorter events p = budget p.2 < budget events

length-drop-le : (n : ℕ) (s : Bytes) → length (drop n s) ≤ length s
length-drop-le zero s = omega arith
length-drop-le (suc n) [] = omega arith
length-drop-le (suc n) (c ∷ s) = omega (arith, length-drop-le n s)

budget-unread :
    (s : Bytes) (events : List ReadEvent) → budget (unread s events) ≤ length s + 1 + budget events
budget-unread [] events = omega arith
budget-unread (c ∷ s) events = omega arith

-- What is left of a chunk is less than the chunk.
unread-Shorter :
    (room : ℕ) (chunk : Bytes) (events : List ReadEvent)
    → 0 < room
    → budget (unread (drop room chunk) events) < budget (got chunk ∷ events)
unread-Shorter zero chunk events h = absurd (omega arith)
unread-Shorter (suc room) [] events h = omega arith
unread-Shorter (suc room) (c ∷ chunk) events h =
    omega (arith, budget-unread (drop room chunk) events, length-drop-le room chunk)

Ensures-weaken :
    (events events' : List ReadEvent) (m : Outcome (Bool × Bytes × List ReadEvent))
    → budget events ≤ budget events'
    → Ensures (Shorter events) m
    → Ensures (Shorter events') m
Ensures-weaken events events' (done p) le h = omega arith
Ensures-weaken events events' abort le h = tt
Ensures-weaken events events' blocked le h = tt

-- A read with room in the buffer takes a byte or an event.
read_until-Shorter :
    (terminate : Bool) (needle : Bytes) (len : ℕ) (buf : Bytes) (events : List ReadEvent)
    → length buf < len
    → Ensures (Shorter events) (read_until terminate needle len buf events)
unfolding read_until
read_until-Shorter terminate needle len buf [] h = ground arith
read_until-Shorter terminate needle len buf (read_failed ∷ events) h = ground arith
read_until-Shorter terminate needle len buf (got chunk ∷ events) h =
    let room = len - length buf in
    let buf' = buf ++ take room chunk in
    let short = unread-Shorter room chunk events (omega arith) in
    elim (Bool-cases (leb len (length buf'))) [
      | inl full ↦ ground (arith, short, full)
      | inr open_end ↦
          let more =
            Ensures-weaken events (got chunk ∷ events) (read_until terminate needle len buf' events)
              (omega arith)
              (read_until-Shorter terminate needle len buf' events (ground (arith, open_end))) in
          ground (arith, short, open_end, more)
    ]

bind-cong {ℓ κ ι} :
    {A : Type ℓ} {B : Type κ} (Q : A → Type ι) (m : Outcome A) (f g : A → Outcome B)
    → Ensures Q m
    → ((a : A) → Q a → f a ≡ g a)
    → (m >>= f) ≡ (m >>= g)
bind-cong Q (done a) f g h k = k a h
bind-cong Q abort f g h k = refl
bind-cong Q blocked f g h k = refl

await-same :
    (fuel fuel' : ℕ) (needle buffer : Bytes) (task : Connection)
    → budget task.incoming < fuel
    → budget task.incoming < fuel'
    → await fuel needle buffer task ≡ await fuel' needle buffer task
unfolding await do_read_data
await-same zero fuel' needle buffer task h k = absurd (omega arith)
await-same (suc fuel) zero needle buffer task h k = absurd (omega arith)
await-same (suc fuel) (suc fuel') needle buffer task h k =
    elim (Option-cases (position needle buffer)) [
      | inl e ↦
          rw (e, await)
            (bind-cong (Shorter task.incoming) (do_read_data rlen task.incoming)
              (λ p. await fuel needle (buffer ++ c_str p.1) (record task { incoming = p.2 }))
              (λ p. await fuel' needle (buffer ++ c_str p.1) (record task { incoming = p.2 }))
              (read_until-Shorter false dot_line rlen [] task.incoming (omega arith))
              λ p less.
                await-same fuel fuel' needle (buffer ++ c_str p.1) (record task { incoming = p.2 })
                  (omega arith) (omega arith))
      | inr (at_end, e) ↦ rw (e, await) refl
    ]

-- With fuel for each byte and each event that is left to read, a waiting loop gives what it gives
-- with any more fuel.
pub await_lem :
    (fuel : ℕ) (needle buffer : Bytes) (task : Connection)
    → budget task.incoming < fuel
    → await fuel needle buffer task ≡ await_data needle buffer task
unfolding await_data
await_lem fuel needle buffer task h =
    await-same fuel (suc (budget task.incoming)) needle buffer task h (omega arith)
