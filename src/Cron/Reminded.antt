-- ===== src/Cron/Reminded.antt =====
-- A reminder that was sent is not sent again while its key lives.
use lurus_identity.Base.{
  ℕ, ◌*◌, ◌≡◌, refl, ◌∙◌, inl, inr, Bool, true, false, not, ◌&&◌, Option, none, some, List, [], ◌∷◌,
  ◌==◌, arith, Bool-cases,
}
use lurus_identity.Table.{first, select, count}
use lurus_identity.Table.Laws.{first-insert}
use lurus_identity.Table.Count.{count-insert}
use lurus_identity.Entity.Identity.{Account, Subscription}
use lurus_identity.Store.{ReminderKey, Mail, Tables, Result, ok, err, ⊤}
use lurus_identity.Store.Keeps.{
  Keeps, Keeps-sql, Keeps-query, Keeps-bind, Keeps-try, Keeps-pure, Keeps-ignore,
}
use lurus_identity.Store.Leads.{
  Leads, Tried, Keeps-Leads, Leads-bind, Leads-query, Leads-try, Leads-Keeps, Leads-pure,
}
use lurus_identity.Referral.{get_account}
use lurus_identity.Cron.Notification.{
  list_expiring, is_key, is_live_key, find_key, set_key, send_reminder, Tally, after_send,
  to_account, unless_sent, remind, remind_all, over, run_days, run_notifications, reminder_days,
}

abbrev pub is_mail : ℕ → ℕ → Mail → Bool
is_mail i d m = m.sub_id == i && m.days == d

-- The key of the reminder lives, and `n` such mails were sent.
pub record IsReminded (now i d n : ℕ) (t : Tables) : Type 0 where
  pub key : ReminderKey
  pub live : first (is_live_key now i d) t.reminders ≡ some key
  pub mails : count (is_mail i d) t.mails ≡ n

first-select :
    {A : Type 0} (p q : A → Bool) (xs : List A)
    → ((x : A) → p x ≡ true → q x ≡ true)
    → first p (select q xs) ≡ first p xs
unfolding first select
first-select p q [] h = refl
first-select p q (x ∷ xs) h = ground (arith, h x, first-select p q xs h)

module _ (now i d n : ℕ) where
  abbrev P : Tables → Type 0
  P = IsReminded now i d n

  -- Another reminder.
  abbrev Other : ℕ → ℕ → Type 0
  Other sub days = (sub == i && days == d) ≡ false

  Other-key :
      (sub days : ℕ)
      → Other sub days
      → (k : ReminderKey) → is_live_key now i d k ≡ true
      → not (is_key sub days k) ≡ true
  Other-key sub days o k h = ground arith

  send-IsReminded :
      (a : Account) (sub : Subscription) (days : ℕ)
      → Other sub.id days
      → Keeps P (send_reminder a sub days)
  unfolding send_reminder
  send-IsReminded a sub days o = Keeps-sql _ λ t h. record {
    key = h.key;
    live = h.live;
    mails = count-insert (is_mail i d) _ t.mails ∙ rw o (omega (arith, h.mails));
  }

  set_key-IsReminded : (until sub days : ℕ) → Other sub days → Keeps P (set_key until sub days)
  unfolding set_key
  set_key-IsReminded until sub days o = Keeps-sql _ λ t h. record {
    key = h.key;
    live =
        first-insert (is_live_key now i d) _ _
        ∙ rw
            (first-select (is_live_key now i d) (λ k. not (is_key sub days k)) t.reminders
                (Other-key sub days o)
              ∙ h.live)
            refl;
    mails = h.mails;
  }

  sent-IsReminded :
      (expires : ℕ) (sub : Subscription) (days : ℕ) (c : Tally) (r : Result ⊤)
      → Other sub.id days
      → Keeps P (after_send now expires sub days c r)
  sent-IsReminded expires sub days c (err e) o = Keeps-pure _
  sent-IsReminded expires sub days c (ok u) o =
      Keeps-bind _ _ (Keeps-ignore _ (set_key-IsReminded _ sub.id days o)) (λ v. Keeps-pure _)

  found-IsReminded :
      (expires : ℕ) (sub : Subscription) (days : ℕ) (c : Tally) (r : Result (Option Account))
      → Other sub.id days
      → Keeps P (to_account now expires sub days c r)
  found-IsReminded expires sub days c (err e) o = Keeps-pure _
  found-IsReminded expires sub days c (ok none) o = Keeps-pure _
  found-IsReminded expires sub days c (ok (some a)) o =
      Keeps-bind _ _ (Keeps-try _ (send-IsReminded a sub days o))
        (λ r. sent-IsReminded expires sub days c r o)

  get_account-IsReminded : (a : ℕ) → Keeps P (get_account a)
  unfolding get_account
  get_account-IsReminded a = Keeps-query _

  -- The reminder itself is skipped, since its key is found; another one leaves both as they are.
  unless_sent-Leads :
      (expires : ℕ) (sub : Subscription) (days : ℕ) (c : Tally) (r : Result (Option ReminderKey))
      → Leads
          (Tried (λ o t. P t × (first (is_live_key now sub.id days) t.reminders ≡ o)) P r)
          (unless_sent now expires sub days c r)
          (λ _. P)
          P
  unless_sent-Leads expires sub days c (err e) = Leads-pure _ (λ t h. h)
  unless_sent-Leads expires sub days c (ok (some k)) = Leads-pure _ (λ t h. h.0)
  unless_sent-Leads expires sub days c (ok none) = elim (Bool-cases (sub.id == i && days == d)) [
    | inl same ↦
        let e : sub.id ≡ i = ground arith in
        let f : days ≡ d = ground arith in
        record {
          at = λ s h. absurd (
              let gone = h.1 in
              let there : first (is_live_key now sub.id days) s.tables.reminders ≡ some h.0.key =
                rw e (rw f h.0.live) in
              cc);
        }
    | inr other ↦
        let k =
          Keeps-bind _ _ (Keeps-try _ (get_account-IsReminded sub.account_id))
            (λ r. found-IsReminded expires sub days c r other) in
        record { at = λ s h. (Leads-Keeps _ k (λ t g. g)).at s h.0 }
  ]

  remind-IsReminded :
      (days : ℕ) (c : Tally) (sub : Subscription) (e : Option ℕ) → Keeps P (remind now days c sub e)
  unfolding find_key
  remind-IsReminded days c sub none = Keeps-pure _
  remind-IsReminded days c sub (some expires) = Keeps-Leads _ (
      Leads-bind _ _
        (Leads-try _
          (Leads-query (λ t. first (is_live_key now sub.id days) t.reminders) (λ t h. h)))
        (unless_sent-Leads expires sub days c))

  remind_all-IsReminded :
      (days : ℕ) (c : Tally) (subs : List Subscription) → Keeps P (remind_all now days c subs)
  unfolding remind_all
  remind_all-IsReminded days c [] = Keeps-pure _
  remind_all-IsReminded days c (sub ∷ subs) =
      Keeps-bind _ _ (remind-IsReminded days c sub sub.expires_at)
        (λ c'. remind_all-IsReminded days c' subs)

  over-IsReminded :
      (days : ℕ) (c : Tally) (r : Result (List Subscription)) → Keeps P (over now days c r)
  over-IsReminded days c (err e) = Keeps-pure _
  over-IsReminded days c (ok subs) = remind_all-IsReminded days c subs

  list_expiring-IsReminded : (hours : ℕ) → Keeps P (list_expiring now hours)
  unfolding list_expiring
  list_expiring-IsReminded hours = Keeps-query _

  run_days-IsReminded : (c : Tally) (days : List ℕ) → Keeps P (run_days now c days)
  unfolding run_days
  run_days-IsReminded c [] = Keeps-pure _
  run_days-IsReminded c (day ∷ days) =
      Keeps-bind _ _ (Keeps-try _ (list_expiring-IsReminded (day * 24)))
        λ r. Keeps-bind _ _ (over-IsReminded day c r) (λ c'. run_days-IsReminded c' days)

  -- While a reminder has a key that lives, a run, whichever statements fail, leaves it one and sends no further
  -- mail of that subscription and that number of days.
  pub run_notifications-IsReminded : Keeps (IsReminded now i d n) (run_notifications now)
  unfolding run_notifications
  run_notifications-IsReminded = run_days-IsReminded _ reminder_days
