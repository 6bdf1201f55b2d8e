-- ===== src/Cron/Queue.antt =====
-- The outbox as a queue: what the relay does when nothing fails, and when old events were given up.
use lurus_identity.Base.{
  ℕ, suc, zero, ◌≡◌, refl, ap, ◌∙◌, true, false, none, List, [], ◌∷◌, ◌++◌, map, arith, leb, inl,
  inr, Bool-cases, sym, subst,
}
use mathlib.Core.List.{append-nil, append_assoc}
use lurus_identity.Table.{first, select, update, limit, offset, insert}
use lurus_identity.Table.Laws.{All, All-limit, update-none}
use lurus_identity.Table.Keyed.{IsKeyed, IsKeyed-update}
use lurus_identity.Store.{Tables, Db, OutboxEvent, ok, pure, ◌>>=◌, follow, sql, ignore, try}
use lurus_identity.Store.Run.{run, calm}
use lurus_identity.Outbox.{send}
use lurus_identity.Cron.Relay.{
  is_unpublished, list_unpublished, mark_published, has_id, set_published, batch_size, max_attempts,
  publish_one, record_attempt, relay_row, relay_rows, relay_batch, poll_and_publish,
}

-- The events that wait, oldest first.
abbrev pub waiting : Tables → List OutboxEvent
waiting t = select is_unpublished t.outbox

abbrev pub IsGivenUp : OutboxEvent → Type 0
IsGivenUp r = leb max_attempts r.attempts ≡ true

relay_rows-given_up :
    (clock : OutboxEvent → ℕ) (rs : List OutboxEvent) (s : Db)
    → All IsGivenUp rs
    → relay_rows clock rs s ≡ (ok tt, s)
unfolding relay_rows relay_row pure follow ◌>>=◌
relay_rows-given_up clock [] s h = refl
relay_rows-given_up clock (r ∷ rs) s h = rw (h.0) (relay_rows-given_up clock rs s h.1)

-- When the oldest fifty waiting events have used up their attempts, a poll sends nothing and changes
-- nothing, however many events wait behind them.
pub poll-given_up :
    (clock : OutboxEvent → ℕ) (t : Tables)
    → All IsGivenUp (limit batch_size (waiting t))
    → run (poll_and_publish clock) t ≡ (ok tt, t)
unfolding run poll_and_publish list_unpublished relay_batch sql try follow ◌>>=◌
poll-given_up clock t h = rw (relay_rows-given_up clock (limit batch_size (waiting t)) (calm t) h)

-- The tables after the event of row `r` was sent and the row marked at `now`.
abbrev relayed : ℕ → OutboxEvent → Tables → Tables
relayed now r t = record t {
  sent = insert r.payload t.sent;
  outbox = update (has_id r.id) (set_published now) t.outbox;
}

abbrev IsUntired : OutboxEvent → Type 0
IsUntired r = leb max_attempts r.attempts ≡ false

relay_row-calm :
    (now : ℕ) (r : OutboxEvent) (t : Tables)
    → IsUntired r
    → relay_row now r (calm t) ≡ (ok tt, calm (relayed now r t))
unfolding relay_row publish_one send record_attempt mark_published sql ignore try follow ◌>>=◌
relay_row-calm now r t h = rw h refl

-- Marking the oldest waiting row leaves the others waiting.
select-relayed :
    (n now : ℕ) (xs : List OutboxEvent) {r : OutboxEvent} {ws : List OutboxEvent}
    → IsKeyed (λ (x : OutboxEvent). x.id) n xs
    → select is_unpublished xs ≡ r ∷ ws
    → select is_unpublished (update (has_id r.id) (set_published now) xs) ≡ ws
unfolding select update
select-relayed n now [] k h = cc
select-relayed n now (x ∷ xs) {r} {ws} k h = elim (Bool-cases (is_unpublished x)) [
  | inl e ↦
      let same : x ∷ select is_unpublished xs ≡ r ∷ ws = rw e at h in
      let row : x ≡ r = cc in
      let others : first (has_id r.id) xs ≡ none =
        subst (λ (y : OutboxEvent). first (has_id y.id) xs ≡ none) row k.1 in
      let left : update (has_id r.id) (set_published now) xs ≡ xs =
        update-none (has_id r.id) (set_published now) xs others in
      rw left (ground (arith, ap (λ (y : OutboxEvent). y.id) row))
  | inr e ↦
      let later : select is_unpublished xs ≡ r ∷ ws = rw e at h in
      let ih = select-relayed n now xs k.2 later in ground arith
]

limit-offset : (n : ℕ) (xs : List OutboxEvent) → xs ≡ limit n xs ++ offset n xs
unfolding limit offset
limit-offset zero xs = refl
limit-offset (suc n) [] = refl
limit-offset (suc n) (x ∷ xs) = ap (λ ys. x ∷ ys) (limit-offset n xs)

-- The tables after a batch was relayed.
relayed_all : (OutboxEvent → ℕ) → List OutboxEvent → Tables → Tables
relayed_all clock [] t = t
relayed_all clock (r ∷ rs) t = relayed_all clock rs (relayed (clock r) r t)

relay_rows-calm :
    (clock : OutboxEvent → ℕ) (rs : List OutboxEvent) (t : Tables)
    → All IsUntired rs
    → relay_rows clock rs (calm t) ≡ (ok tt, calm (relayed_all clock rs t))
unfolding relay_rows pure follow relayed_all ◌>>=◌
relay_rows-calm clock [] t h = refl
relay_rows-calm clock (r ∷ rs) t h =
    rw (relay_row-calm (clock r) r t h.0) (relay_rows-calm clock rs (relayed (clock r) r t) h.1)

sent-relayed_all :
    (clock : OutboxEvent → ℕ) (rs : List OutboxEvent) (t : Tables)
    → (relayed_all clock rs t).sent ≡ t.sent ++ map (λ r. r.payload) rs
unfolding relayed_all
sent-relayed_all clock [] t = sym (append-nil t.sent)
sent-relayed_all clock (r ∷ rs) t =
    sent-relayed_all clock rs (relayed (clock r) r t)
    ∙ append_assoc t.sent (r.payload ∷ []) (map (λ x. x.payload) rs)

waiting-relayed_all :
    (clock : OutboxEvent → ℕ) (rs ws : List OutboxEvent) (t : Tables)
    → IsKeyed (λ (r : OutboxEvent). r.id) t.next_id t.outbox
    → waiting t ≡ rs ++ ws
    → waiting (relayed_all clock rs t) ≡ ws
unfolding relayed_all
waiting-relayed_all clock [] ws t k h = h
waiting-relayed_all clock (r ∷ rs) ws t k h =
    waiting-relayed_all clock rs ws (relayed (clock r) r t)
      (IsKeyed-update (λ (x : OutboxEvent). x.id) t.next_id (has_id r.id) (set_published (clock r))
        t.outbox (λ x. refl) k)
      (select-relayed t.next_id (clock r) t.outbox k h)

run-poll :
    (clock : OutboxEvent → ℕ) (t : Tables)
    → All IsUntired (waiting t)
    → run (poll_and_publish clock) t ≡ (ok tt, relayed_all clock (limit batch_size (waiting t)) t)
unfolding run poll_and_publish list_unpublished relay_batch sql try follow ◌>>=◌
run-poll clock t h =
    rw
      (relay_rows-calm clock (limit batch_size (waiting t)) t
        (All-limit IsUntired batch_size (waiting t) h))
      refl

-- When no statement and no send fails, ids are distinct and none of the waiting events used up its
-- attempts, a poll sends the oldest fifty waiting events in their order, and the others stay waiting
-- in theirs.
pub poll-fifo :
    (clock : OutboxEvent → ℕ) (t : Tables)
    → IsKeyed (λ (r : OutboxEvent). r.id) t.next_id t.outbox
    → All IsUntired (waiting t)
    → ((run (poll_and_publish clock) t).1.sent
        ≡ t.sent ++ map (λ r. r.payload) (limit batch_size (waiting t)))
      × (waiting (run (poll_and_publish clock) t).1 ≡ offset batch_size (waiting t))
poll-fifo clock t k h = rw (run-poll clock t h) (
  sent-relayed_all clock (limit batch_size (waiting t)) t,
  waiting-relayed_all clock (limit batch_size (waiting t)) (offset batch_size (waiting t)) t k
      (limit-offset batch_size (waiting t)),
)
