-- ===== src/Cron/Delivery.antt =====
-- At-least-once delivery: whatever the relay does, an event of the outbox stays there until it was
-- sent.
use lurus_identity.Base.{
  ℕ, suc, zero, ◌+◌, ◌≤◌, ◌≡◌, refl, ap, sym, Bool, true, false, Option, none, some, List, [], ◌∷◌,
  arith, ◌==◌,
}
use lurus_identity.Table.{first, select, count, insert, delete}
use lurus_identity.Table.Laws.{All, All-update, All-insert, All-map, All-zip, All-select, All-limit}
use lurus_identity.Table.Count.{count-insert, count-update}
use lurus_identity.Table.Keyed.{
  IsKeyed, IsKeyed-update, IsKeyed-insert, IsKeyed-select, IsKeyed-found,
}
use lurus_identity.Store.{Tables, Db, Event, OutboxEvent, Result, ok, err, M, ⊤}
use lurus_identity.Store.Keeps.{
  Keeps, Keeps-sql, Keeps-if, Keeps-pure, Keeps-ignore, Keeps-bind, keeps_rules,
}
use lurus_identity.Store.Leads.{
  Leads, Leads-Keeps, Leads-sql, Leads-bind, Leads-try, Leads-ignore, Tried, Keeps-Leads,
  Leads-weaken,
}
use lurus_identity.Outbox.{insert_event, send, fall_back, publish_event, new_row}
use lurus_identity.Cron.Relay.{
  is_unpublished, list_unpublished, mark_published, has_id, set_published, one_more,
  increment_attempts, is_before, delete_published_before, publish_one, record_attempt, relay_row,
  relay_rows, relay_batch, poll_and_publish, cleanup,
}

kept_after : (s a b : ℕ) → 1 ≤ s + a → (s ≡ 0 → a ≤ b) → 1 ≤ s + b
kept_after zero a b h k = omega (arith, h, k refl)
kept_after (suc s) a b h k = omega arith

module _ (q : Event → Bool) where
  abbrev pub about : OutboxEvent → Bool
  about r = q r.payload

  -- A published row that `q` describes means that an event that `q` describes was sent.
  abbrev pub IsBacked : Tables → OutboxEvent → Type 0
  IsBacked t r = is_unpublished r ≡ false → about r ≡ true → 1 ≤ count q t.sent

  -- An event that `q` describes was sent or waits in the outbox.
  pub record IsKept (t : Tables) : Type 0 where
    pub keyed : IsKeyed (λ (r : OutboxEvent). r.id) t.next_id t.outbox
    pub backed : All (IsBacked t) t.outbox
    pub kept : 1 ≤ count q t.sent + count about t.outbox

  more_sent :
      (t : Tables) (ev : Event) (r : OutboxEvent)
      → IsBacked t r
      → IsBacked (record t { sent = insert ev t.sent }) r
  more_sent t ev r h e f = ground (arith, h e f, count-insert q ev t.sent)

  pub send-IsKept : (ev : Event) → Keeps IsKept (send ev)
  unfolding send
  send-IsKept ev = Keeps-sql _ (λ t h. record {
    keyed = h.keyed;
    backed = All-map t.outbox (more_sent t ev) h.backed;
    kept = ground (arith, h.kept, count-insert q ev t.sent);
  })

  pub insert_event-IsKept : (ev : Event) → Keeps IsKept (insert_event ev)
  unfolding insert_event
  insert_event-IsKept ev = Keeps-sql _ (λ t h. record {
    keyed =
        IsKeyed-insert (λ (r : OutboxEvent). r.id) t.next_id (suc t.next_id) _ t.outbox refl
          (omega arith) h.keyed;
    backed = All-insert (IsBacked t) (new_row t.next_id ev) t.outbox (λ e f. absurd (cc)) h.backed;
    kept = ground (arith, h.kept, count-insert about (new_row t.next_id ev) t.outbox);
  })

  -- Rows that nothing was sent for are unpublished, and so they are not deleted.
  still_there :
      (cutoff : ℕ) (t : Tables) (rs : List OutboxEvent)
      → count q t.sent ≡ 0
      → All (IsBacked t) rs
      → count about rs ≤ count about (delete (is_before cutoff) rs)
  unfolding select count
  still_there cutoff t [] e b = omega arith
  still_there cutoff t (r ∷ rs) e b = ground (arith, still_there cutoff t rs e b.1, b.0)

  pub delete_published_before-IsKept : (cutoff : ℕ) → Keeps IsKept (delete_published_before cutoff)
  unfolding delete_published_before
  delete_published_before-IsKept cutoff = Keeps-sql _ (λ t h. record {
    keyed = IsKeyed-select (λ (r : OutboxEvent). r.id) t.next_id _ t.outbox h.keyed;
    backed = All-select (IsBacked t) _ t.outbox h.backed;
    kept = kept_after (count q t.sent) _ _ h.kept (λ e. still_there cutoff t t.outbox e h.backed);
  })

  -- What `q` says of a row is known from its id.
  abbrev IsNamed : (ℕ → Bool) → OutboxEvent → Type 0
  IsNamed f r = about r ≡ f r.id

  -- The state while the rows of a batch are sent.
  record IsNaming (f : ℕ → Bool) (t : Tables) : Type 0 where
    keyed : IsKeyed (λ (r : OutboxEvent). r.id) t.next_id t.outbox
    rows : All (λ r. IsBacked t r × IsNamed f r) t.outbox
    kept : 1 ≤ count q t.sent + count about t.outbox

  forget : (f : ℕ → Bool) (t : Tables) → IsNaming f t → IsKept t
  forget f t h = record {
    keyed = h.keyed;
    backed = All-map t.outbox (λ r p. p.0) h.rows;
    kept = h.kept;
  }

  -- The state after an event was sent and before its row `i` is marked.
  record IsSent (f : ℕ → Bool) (i : ℕ) (t : Tables) : Type 0 where
    all : IsNaming f t
    some_sent : f i ≡ true → 1 ≤ count q t.sent

  send-leads :
      (f : ℕ → Bool) (r : OutboxEvent)
      → IsNamed f r
      → Leads (IsNaming f) (publish_one r) (λ _. IsSent f r.id) (IsNaming f)
  unfolding publish_one send
  send-leads f r e =
      Leads-sql _
        (λ t faults h. record {
          all = record {
            keyed = h.keyed;
            rows = All-map t.outbox (λ x p. (more_sent t r.payload x p.0, p.1)) h.rows;
            kept = ground (arith, h.kept, count-insert q r.payload t.sent);
          };
          some_sent = λ k. ground (arith, e, count-insert q r.payload t.sent);
        })
        (λ t h. h)

  mark_published-leads :
      (f : ℕ → Bool) (now i : ℕ)
      → Leads (IsSent f i) (mark_published now i) (λ _. IsNaming f) (IsNaming f)
  unfolding mark_published
  mark_published-leads f now i =
      Leads-sql _
        (λ t faults h. record {
          keyed =
              IsKeyed-update (λ (r : OutboxEvent). r.id) t.next_id (has_id i) _ t.outbox (λ r. refl)
                h.all.keyed;
          rows =
              All-update (λ r. IsBacked t r × IsNamed f r) (has_id i) (set_published now) t.outbox
                (λ r e p. (λ _ k. h.some_sent (ground (arith, p.1)), p.1)) h.all.rows;
          kept = omega (
            arith,
            h.all.kept,
            count-update about (has_id i) (set_published now) t.outbox (λ r. refl),
          );
        })
        (λ t h. h.all)

  increment_attempts-IsNaming : (f : ℕ → Bool) (i : ℕ) → Keeps (IsNaming f) (increment_attempts i)
  unfolding increment_attempts
  increment_attempts-IsNaming f i = Keeps-sql _ (λ t h. record {
    keyed =
        IsKeyed-update (λ (r : OutboxEvent). r.id) t.next_id (has_id i) _ t.outbox (λ r. refl)
          h.keyed;
    rows =
        All-update (λ r. IsBacked t r × IsNamed f r) (has_id i) one_more t.outbox (λ r e b. b)
          h.rows;
    kept = omega (arith, h.kept, count-update about (has_id i) one_more t.outbox (λ r. refl));
  })

  record_attempt-leads :
      (f : ℕ → Bool) (now : ℕ) (r : OutboxEvent) (sent : Result ⊤)
      → Leads
          (Tried (λ _. IsSent f r.id) (IsNaming f) sent)
          (record_attempt now r sent)
          (λ _. IsNaming f)
          (IsNaming f)
  unfolding record_attempt
  record_attempt-leads f now r (ok x) = Leads-ignore _ (mark_published-leads f now r.id)
  record_attempt-leads f now r (err e) =
      Leads-Keeps _ (Keeps-ignore _ (increment_attempts-IsNaming f r.id)) (λ t h. h)

  relay_row-IsNaming :
      (f : ℕ → Bool) (now : ℕ) (r : OutboxEvent)
      → IsNamed f r
      → Keeps (IsNaming f) (relay_row now r)
  unfolding relay_row
  relay_row-IsNaming f now r e =
      Keeps-if _ _ _ (λ _. Keeps-pure _)
        λ _.
          Keeps-Leads _
            (Leads-bind _ _ (Leads-try _ (send-leads f r e)) (record_attempt-leads f now r))

  relay_rows-IsNaming :
      (f : ℕ → Bool) (clock : OutboxEvent → ℕ) (rs : List OutboxEvent)
      → All (IsNamed f) rs
      → Keeps (IsNaming f) (relay_rows clock rs)
  unfolding relay_rows
  relay_rows-IsNaming f clock [] h = Keeps-pure _
  relay_rows-IsNaming f clock (r ∷ rs) h =
      Keeps-bind _ _ (relay_row-IsNaming f (clock r) r h.0)
        (λ _. relay_rows-IsNaming f clock rs h.1)

  -- The name that the tables give to an id.
  abbrev name_in : List OutboxEvent → ℕ → Bool
  name_in rs i = elim (first (λ r. r.id == i) rs) [ some r ↦ about r | none ↦ false ]

  named :
      (n : ℕ) (rs : List OutboxEvent)
      → IsKeyed (λ (r : OutboxEvent). r.id) n rs
      → All (IsNamed (name_in rs)) rs
  named n rs k =
      All-map rs
        (λ r e. ap (λ (o : Option OutboxEvent). elim o [ some x ↦ about x | none ↦ false ]) (sym e))
        (IsKeyed-found (λ (r : OutboxEvent). r.id) n rs k)

  list_unpublished-leads :
      (n : ℕ)
      → Leads IsKept
          (list_unpublished n)
          (λ rs t. (f : ℕ → Bool) × IsNaming f t × All (IsNamed f) rs)
          IsKept
  unfolding list_unpublished
  list_unpublished-leads n =
      Leads-sql _
        (λ t faults h.
          let names = named t.next_id t.outbox h.keyed in
          (
            name_in t.outbox,
            record {
              keyed = h.keyed;
              rows = All-zip (IsBacked t) (IsNamed (name_in t.outbox)) t.outbox h.backed names;
              kept = h.kept;
            },
            All-limit _ n _ (All-select _ is_unpublished t.outbox names),
          ))
        (λ t h. h)

  relay_batch-leads :
      (clock : OutboxEvent → ℕ) (out : Result (List OutboxEvent))
      → Leads
          (Tried (λ rs t. (f : ℕ → Bool) × IsNaming f t × All (IsNamed f) rs) IsKept out)
          (relay_batch clock out)
          (λ _. IsKept)
          IsKept
  unfolding relay_batch
  relay_batch-leads clock (ok rs) = record {
    at = λ s h.
        let (f, n, a) = h in
        (Leads-weaken _ (Leads-Keeps _ (relay_rows-IsNaming f clock rs a) (forget f))
            (λ x. forget f)).at
          s n;
  }
  relay_batch-leads clock (err e) = Leads-Keeps _ (Keeps-pure _) (λ t h. h)

  pub poll_and_publish-IsKept : (clock : OutboxEvent → ℕ) → Keeps IsKept (poll_and_publish clock)
  unfolding poll_and_publish
  poll_and_publish-IsKept clock =
      Keeps-Leads _
        (Leads-bind _ _ (Leads-try _ (list_unpublished-leads _)) (relay_batch-leads clock))

  pub cleanup-IsKept : (now : ℕ) → Keeps IsKept (cleanup now)
  unfolding cleanup
  cleanup-IsKept now = search (keeps_rules, delete_published_before-IsKept)

  fall_back-IsKept : (ev : Event) (r : Result ⊤) → Keeps IsKept (fall_back ev r)
  unfolding fall_back
  fall_back-IsKept ev (ok x) = Keeps-pure _
  fall_back-IsKept ev (err e) = search (keeps_rules, send-IsKept)

  pub publish_event-IsKept : (ev : Event) → Keeps IsKept (publish_event ev)
  unfolding publish_event
  publish_event-IsKept ev = search (keeps_rules, insert_event-IsKept, fall_back-IsKept)

pub data Call : Type 0 where
  publish : Event → Call
  poll : (OutboxEvent → ℕ) → Call
  sweep : ℕ → Call

unfoldable pub perform : Call → M ⊤
perform (Call.publish ev) = publish_event ev
perform (Call.poll clock) = poll_and_publish clock
perform (Call.sweep now) = cleanup now

-- The state after the calls, in turn; a call that fails is followed by the next one.
unfoldable pub after : List Call → Db → Db
after [] s = s
after (c ∷ cs) s = after cs (perform c s).1

perform-IsKept : (q : Event → Bool) (c : Call) → Keeps (IsKept q) (perform c)
unfolding perform
perform-IsKept q (Call.publish ev) = publish_event-IsKept q ev
perform-IsKept q (Call.poll clock) = poll_and_publish-IsKept q clock
perform-IsKept q (Call.sweep now) = cleanup-IsKept q now

-- However often events are published, batches are relayed and old rows are swept, and whichever
-- statements and sends fail: when an event that `q` describes was sent or waits in the outbox, ids of
-- rows are distinct, and each published row that `q` describes means that such an event was sent,
-- the same holds afterwards.
pub after-IsKept :
    (q : Event → Bool) (cs : List Call) (s : Db) → IsKept q s.tables → IsKept q (after cs s).tables
unfolding after
after-IsKept q [] s h = h
after-IsKept q (c ∷ cs) s h = after-IsKept q cs (perform c s).1 ((perform-IsKept q c).at s h)
