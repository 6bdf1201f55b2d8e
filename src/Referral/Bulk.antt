-- ===== src/Referral/Bulk.antt =====
-- The generation of redemption codes of internal/app/referral_service.go, with `BulkCreate` of
-- internal/adapter/repo/wallet.go. The bytes that crypto/rand delivers are an argument, with a failure as
-- `none`; when there are no more of them, the answer is `none`. `hex` and `to_upper` are the Go library's.
-- The metadata and the batch of a code are left out, and the returned rows have no ids.
use lurus_identity.Base.{
  ℕ, zero, suc, ◌*◌, String, Bool, false, ◌||◌, Option, none, some, List, [], ◌∷◌, ◌++◌, map,
  str_eq, ltb, pos, if◌then◌else◌,
}
use lurus_identity.Text.{Text}
use lurus_identity.Table.{first, insert, limit, offset}
use lurus_identity.Entity.Billing.{RedemptionCode}
use lurus_identity.Store.{
  Tables, Error, Result, ok, err, M, ⊤, pure, raise, ◌>>◌, raise_if, sql, transaction,
}
use lurus_identity.Wallet.Repo.{has_code}

abbrev pub bulk_generate_max_count : ℕ
bulk_generate_max_count = 1000

-- The codes of a batch; a read that failed; or no bytes were left.
pub data Drawn : Type 0 where
  drawn : List String → Drawn
  unread out_of_bytes : Drawn

unfoldable pub is_seen : String → List String → Bool
is_seen code [] = false
is_seen code (c ∷ cs) = str_eq c code || is_seen code cs

module _ (hex : Text → String) (to_upper : String → String) where
  unfoldable pub generate_code : Text → String
  generate_code bytes = to_upper (hex bytes)

  -- The loop, with the number of codes that are missing and those drawn so far.
  unfoldable pub draw_codes : ℕ → List String → List (Option Text) → Drawn
  unfolding is_seen generate_code
  draw_codes zero codes reads = drawn codes
  draw_codes (suc n) codes [] = out_of_bytes
  draw_codes (suc n) codes (none ∷ reads) = unread
  draw_codes (suc n) codes (some bytes ∷ reads) =
      let code = generate_code bytes in
      let again = draw_codes (suc n) codes reads in
      let next = draw_codes n (codes ++ code ∷ []) reads in
      if is_seen code codes then again else next

-- "subscription_trial" with the days as its value, for one use
abbrev pub trial_code : String → ℕ → Option ℕ → String → RedemptionCode
trial_code product days expires_at code = record {
  id = 0;
  code = code;
  product_id = product;
  reward_type = "subscription_trial";
  reward_value = pos (10000 * days);
  max_uses = 1;
  used_count = 0;
  expires_at = expires_at;
}

abbrev pub with_row : RedemptionCode → Tables → Tables
with_row rc t = record t {
  next_id = suc t.next_id;
  codes = insert (record rc { id = t.next_id }) t.codes;
}

abbrev pub if_absent : Option RedemptionCode → Option Tables → Option Tables
if_absent none rest = rest
if_absent (some _) rest = none

-- The rows of one INSERT: none of their codes may be there already.
unfoldable pub inserted : List RedemptionCode → Tables → Option Tables
inserted [] t = some t
inserted (rc ∷ rcs) t =
    let rest = inserted rcs (with_row rc t) in if_absent (first (has_code rc.code) t.codes) rest

abbrev pub insert_answer : Option Tables → Tables → Result ⊤ × Tables
insert_answer none t = (err Error.unique_violation, t)
insert_answer (some t') t = (ok tt, t')

unfoldable pub insert_batch : List RedemptionCode → M ⊤
unfolding inserted
insert_batch rcs = sql (λ t. insert_answer (inserted rcs t) t)

-- 100 rows to a statement. The fuel is the number of rows, which is at least that of the batches.
unfoldable pub create_in_batches : ℕ → List RedemptionCode → M ⊤
unfolding insert_batch limit offset
create_in_batches zero rcs = pure tt
create_in_batches (suc n) [] = pure tt
create_in_batches (suc n) (rc ∷ rcs) =
    insert_batch (limit 100 (rc ∷ rcs)) >> create_in_batches n (offset 100 (rc ∷ rcs))

abbrev pub length : List RedemptionCode → ℕ
length [] = 0
length (rc ∷ rcs) = suc (length rcs)

unfoldable pub bulk_create : List RedemptionCode → M ⊤
unfolding create_in_batches
bulk_create rcs = transaction (create_in_batches (length rcs) rcs)

abbrev pub store_drawn : (String → RedemptionCode) → Drawn → M (Option (List RedemptionCode))
store_drawn row (drawn codes) = bulk_create (map row codes) >> pure (some (map row codes))
store_drawn row unread = raise Error.no_code
store_drawn row out_of_bytes = pure none

module _ (hex : Text → String) (to_upper : String → String) where
  unfoldable pub bulk_generate_codes :
      String → ℕ → Option ℕ → ℕ → List (Option Text) → M (Option (List RedemptionCode))
  unfolding draw_codes bulk_create
  bulk_generate_codes product days expires_at count reads = do
    raise_if (ltb count 1 || ltb bulk_generate_max_count count) Error.bad_count
    store_drawn (trial_code product days expires_at) (draw_codes hex to_upper count [] reads)
