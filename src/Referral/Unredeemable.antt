-- ===== src/Referral/Unredeemable.antt =====
-- The codes of a batch and the wallet's redemption of codes.
use lurus_identity.Base.{
  ℕ, zero, suc, ◌≤◌, ◌≡◌, ◌≢◌, refl, ◌∙◌, inl, inr, String, Bool, false, Option, none, some, List,
  [], ◌∷◌, ◌++◌, map, str_eq, eq_iff, arith, Option-cases,
}
use lurus_identity.Text.{Text}
use lurus_identity.Table.{first, limit, offset}
use lurus_identity.Table.Laws.{All, All-limit, first-insert}
use lurus_identity.Table.Parts.{All-append, All_front, All_back, All_limit-offset, All_offset}
use lurus_identity.Entity.Billing.{RedemptionCode, WalletTransaction}
use lurus_identity.Store.{Tables, Db, Error, ok, ⊤, raise}
use lurus_identity.Store.Run.{run}
use lurus_identity.Store.Leads.{
  Leads, Leads-bind, Leads-pure, Leads-sql, Leads-transaction, Leads-raise_if, Leads-weaken,
  Outcome,
}
use lurus_identity.Wallet.Repo.{has_code, redeem_code}
use lurus_identity.Wallet.Postings.{redeem_error}
use lurus_identity.Wallet.Invariant.{redeem_code-IsSound}
use lurus_identity.Referral.Bulk.{
  Drawn, drawn, unread, out_of_bytes, trial_code, with_row, inserted, insert_answer, insert_batch,
  create_in_batches, bulk_create, store_drawn, length, bulk_generate_codes,
}

-- The row that a redemption of `code` finds gives no credits.
abbrev pub Blocked : Tables → String → Type 0
Blocked t code =
    (rc : RedemptionCode) × (first (has_code code) t.codes ≡ some rc)
    × (str_eq rc.reward_type "credits" ≡ false)

abbrev IsTrial : RedemptionCode → Type 0
IsTrial rc = str_eq rc.reward_type "credits" ≡ false

abbrev BlockedRow : Tables → RedemptionCode → Type 0
BlockedRow t rc = Blocked t rc.code

-- Such a code is never redeemed.
redeem-Blocked :
    (now a : ℕ) (code : String) (s : Db) (tx : WalletTransaction)
    → Blocked s.tables code
    → (redeem_code now a code s).0 ≢ ok tx
unfolding run
redeem-Blocked now a code s tx (rc, found, trial) h =
    let quiet = (redeem_code-IsSound now a code).at s h in
    elim (redeem_error now a code s.tables) [
      | inl (x, e) ↦ absurd (cc)
      | inr (rc', w, found', v, h') ↦
          let same : rc ≡ rc' = (let e : some rc ≡ some rc' = cc in ground arith) in
          absurd (let k = v.credits in let k' = rw same at trial in cc)
    ]

with_row-Blocked :
    (code : String) (rc : RedemptionCode) (t : Tables)
    → Blocked t code
    → Blocked (with_row rc t) code
with_row-Blocked code rc t (row, found, trial) =
    (row, first-insert (has_code code) _ t.codes ∙ rw found refl, trial)

new_row-Blocked :
    (rc : RedemptionCode) (t : Tables)
    → IsTrial rc
    → first (has_code rc.code) t.codes ≡ none
    → Blocked (with_row rc t) rc.code
new_row-Blocked rc t trial absent = (
  record rc { id = t.next_id },
  first-insert (has_code rc.code) _ t.codes ∙ rw absent (rw ((eq_iff rc.code rc.code).1 refl) refl),
  trial,
)

length-offset : (n : ℕ) (rcs : List RedemptionCode) → length (offset n rcs) ≤ length rcs
unfolding offset
length-offset zero rcs = omega arith
length-offset (suc n) [] = omega arith
length-offset (suc n) (rc ∷ rcs) = omega (arith, length-offset n rcs)

offset_shorter :
    (rc : RedemptionCode) (rcs : List RedemptionCode) {n : ℕ}
    → length (rc ∷ rcs) ≤ suc n
    → length (offset 100 (rc ∷ rcs)) ≤ n
unfolding offset
offset_shorter rc rcs l = omega (arith, length-offset 99 rcs)

All-Blocked :
    (rcs : List RedemptionCode) (t t' : Tables)
    → ((code : String) → Blocked t code → Blocked t' code)
    → All (BlockedRow t) rcs
    → All (BlockedRow t') rcs
All-Blocked [] t t' k h = tt
All-Blocked (rc ∷ rcs) t t' k h = (k rc.code h.0, All-Blocked rcs t t' k h.1)

-- What an INSERT that succeeds leaves.
record Added (rcs : List RedemptionCode) (t t' : Tables) : Type 0 where
  keeps : (code : String) → Blocked t code → Blocked t' code
  added : All (BlockedRow t') rcs

inserted-Added :
    (rcs : List RedemptionCode) (t t' : Tables)
    → All IsTrial rcs
    → inserted rcs t ≡ some t'
    → Added rcs t t'
unfolding inserted
inserted-Added [] t t' h e =
    let same : t ≡ t' = cc in record { keeps = λ code b. rw same at b; added = tt }
inserted-Added (rc ∷ rcs) t t' h e = elim (Option-cases (first (has_code rc.code) t.codes)) [
  | inr (x, there) ↦ absurd (let e' = rw there at e in cc)
  | inl absent ↦
      let rest = inserted-Added rcs (with_row rc t) t' h.1 (rw absent at e) in
      record {
        keeps = λ code b. rest.keeps code (with_row-Blocked code rc t b);
        added = (rest.keeps rc.code (new_row-Blocked rc t h.0 absent), rest.added);
      }
]

answer-Added :
    (done rcs : List RedemptionCode) (t : Tables) (faults : List Bool) (o : Option Tables)
    → All IsTrial rcs
    → inserted rcs t ≡ o
    → All (BlockedRow t) done
    → Outcome
        (λ u t'. All (BlockedRow t') (rcs ++ done))
        (λ _. ⊤)
        ((insert_answer o t).0, record { tables = (insert_answer o t).1; faults = faults })
answer-Added done rcs t faults none h e d = tt
answer-Added done rcs t faults (some t') h e d =
    let a = inserted-Added rcs t t' h e in
    All-append (BlockedRow t') rcs done a.added (All-Blocked done t t' a.keeps d)

insert_batch-Leads :
    (done rcs : List RedemptionCode)
    → All IsTrial rcs
    → Leads
        (λ t. All (BlockedRow t) done)
        (insert_batch rcs)
        (λ u t'. All (BlockedRow t') (rcs ++ done))
        (λ _. ⊤)
unfolding insert_batch
insert_batch-Leads done rcs h =
    Leads-sql _ (λ t faults d. answer-Added done rcs t faults (inserted rcs t) h refl d) (λ t d. tt)

create_in_batches-Leads :
    (n : ℕ) (done rcs : List RedemptionCode)
    → All IsTrial rcs
    → length rcs ≤ n
    → Leads
        (λ t. All (BlockedRow t) done)
        (create_in_batches n rcs)
        (λ u t'. All (BlockedRow t') rcs × All (BlockedRow t') done)
        (λ _. ⊤)
unfolding create_in_batches
create_in_batches-Leads zero done [] h l = Leads-pure _ (λ t d. (tt, d))
create_in_batches-Leads zero done (rc ∷ rcs) h l = absurd (omega arith)
create_in_batches-Leads (suc n) done [] h l = Leads-pure _ (λ t d. (tt, d))
create_in_batches-Leads (suc n) done (rc ∷ rcs) h l =
    let batch = limit 100 (rc ∷ rcs) in
    let later = offset 100 (rc ∷ rcs) in
    Leads-bind _ _ (insert_batch-Leads done batch (All-limit IsTrial 100 (rc ∷ rcs) h)) λ u.
      Leads-weaken _
        (create_in_batches-Leads n (batch ++ done) later (All_offset IsTrial 100 (rc ∷ rcs) h)
          (offset_shorter rc rcs l))
        λ v t' k. (
          All_limit-offset (BlockedRow t') 100 (rc ∷ rcs) (All_front (BlockedRow t') batch done k.1)
              k.0,
          All_back (BlockedRow t') batch done k.1,
        )

trials :
    (product : String) (days : ℕ) (expires_at : Option ℕ) (codes : List String)
    → All IsTrial (map (trial_code product days expires_at) codes)
trials product days expires_at [] = tt
trials product days expires_at (c ∷ cs) = (refl, trials product days expires_at cs)

abbrev AllBlocked : Option (List RedemptionCode) → Tables → Type 0
AllBlocked none t = ⊤
AllBlocked (some rcs) t = All (BlockedRow t) rcs

Leads-raise :
    {A : Type 0} {P R : Tables → Type 0} {Q : A → Tables → Type 0} (e : Error)
    → ((t : Tables) → P t → R t)
    → Leads P (raise e) Q R
unfolding raise
Leads-raise e k = record { at = λ s h. k s.tables h }

store_drawn-Leads :
    (product : String) (days : ℕ) (expires_at : Option ℕ) (d : Drawn)
    → Leads (λ t. ⊤) (store_drawn (trial_code product days expires_at) d) AllBlocked (λ _. ⊤)
unfolding bulk_create
store_drawn-Leads product days expires_at unread = Leads-raise _ (λ t h. tt)
store_drawn-Leads product days expires_at out_of_bytes = Leads-pure _ (λ t h. tt)
store_drawn-Leads product days expires_at (drawn codes) =
    let rcs = map (trial_code product days expires_at) codes in
    Leads-bind _ _
      (Leads-transaction _
        (create_in_batches-Leads (length rcs) [] rcs (trials product days expires_at codes)
          (omega arith))
        (λ t h. tt))
      (λ u. Leads-pure _ (λ t h. h.0))

-- A redemption of the code never succeeds.
abbrev pub Refused : Tables → RedemptionCode → Type 0
Refused t rc =
    (now a : ℕ) (faults : List Bool) (tx : WalletTransaction)
    → (redeem_code now a rc.code (record { tables = t; faults = faults })).0 ≢ ok tx

never_redeemed :
    (rcs : List RedemptionCode) (t : Tables) → All (BlockedRow t) rcs → All (Refused t) rcs
never_redeemed [] t h = tt
never_redeemed (rc ∷ rcs) t h =
    (λ now a faults tx. redeem-Blocked now a rc.code _ tx h.0, never_redeemed rcs t h.1)

module _ (hex : Text → String) (to_upper : String → String) where
  bulk_generate_codes-Leads :
      (product : String) (days : ℕ) (expires_at : Option ℕ) (count : ℕ) (reads : List (Option Text))
      → Leads
          (λ t. ⊤)
          (bulk_generate_codes hex to_upper product days expires_at count reads)
          AllBlocked
          (λ _. ⊤)
  unfolding bulk_generate_codes
  bulk_generate_codes-Leads product days expires_at count reads =
      Leads-bind _ _ (Leads-raise_if {S = λ t. ⊤} _ _ (λ t h e. tt) (λ t h e. tt))
        (λ u. store_drawn-Leads product days expires_at _)

  -- No code of a batch that was generated can be redeemed: once the batch is stored, the redemption of each
  -- of its codes, at any time, by any account and whichever statements fail, is refused.
  pub bulk_generate_codes-Refused :
      (product : String) (days : ℕ) (expires_at : Option ℕ) (count : ℕ) (reads : List (Option Text))
      (s s' : Db) (rcs : List RedemptionCode)
      → bulk_generate_codes hex to_upper product days expires_at count reads s ≡ (ok (some rcs), s')
      → All (Refused s'.tables) rcs
  bulk_generate_codes-Refused product days expires_at count reads s s' rcs e =
      never_redeemed rcs s'.tables
        (rw e at ((bulk_generate_codes-Leads product days expires_at count reads).at s tt))
