-- ===== src/AdminConfig/History.antt =====
-- A process that starts and then serves any sequence of requests, with any failing statements.
use lurus_identity.Base.{
  ℕ, ◌≡◌, ap, String, Bool, true, false, Option, none, some, List, [], ◌∷◌, if◌then◌else◌,
}
use lurus_identity.Table.{first}
use lurus_identity.Text.{Text}
use lurus_identity.Store.{Db, Result, ok, err, M, pure, ◌>>=◌}
use lurus_identity.Store.Leads.{Leads, Outcome, Tried, Leads-bind, Leads-pure, Leads-try}
use lurus_identity.Auth.{Claims}
use lurus_identity.AdminConfig.{has_key, ConfigCache, load, effective, get_effective, cached}
use lurus_identity.AdminConfig.Handler.{
  update_items, then_rest, update_settings, updated_by, upload_qr_code, upload_to, upload_valid,
  saved, decode_image, qr_key, get_public_qr_code, public_of, answered,
}
use lurus_identity.AdminConfig.Synced.{IsKeyed, Synced, set-Leads}
use lurus_identity.AdminConfig.Reads.{load-Leads, get-Leads}

-- A request of an admin or of the public, with what its middleware found.
pub data Request : Type 0 where
  update : Option Claims → List (String × String) → Request
  upload : Option Claims → String → String → Request
  public : String → Request

-- A request that fails leaves the copy in memory as it was.
abbrev pub kept_cache : ConfigCache → Result ConfigCache × Db → ConfigCache × Db
kept_cache c (ok c', s) = (c', s)
kept_cache c (err _, s) = (c, s)

-- From a copy that is synced, a call answers with one that is, and does not fail.
abbrev Serves : {A : Type 0} → ConfigCache → M (A × ConfigCache) → Type 0
Serves c m = Leads (Synced c) m (λ r t. Synced r.1 t) (λ t. ⊥)

then_rest-Serves :
    (c : ConfigCache) (rest : ConfigCache → M (ℕ × ConfigCache)) (r : Result ConfigCache)
    → ((c' : ConfigCache) → Serves c' (rest c'))
    → Leads
        (Tried (λ c' t. Synced c' t) (Synced c) r)
        (then_rest c rest r)
        (λ r t. Synced r.1 t)
        (λ t. ⊥)
then_rest-Serves c rest (ok c') k = k c'
then_rest-Serves c rest (err e) k = Leads-pure _ (λ t h. h)

update_items-Serves :
    (by : String) (items : List (String × String)) (c : ConfigCache)
    → Serves c (update_items by items c)
unfolding update_items
update_items-Serves by [] c = Leads-pure _ (λ t h. h)
update_items-Serves by ((k, value) ∷ items) c =
    Leads-bind _ _ (Leads-try _ (set-Leads k value by c))
      (λ r. then_rest-Serves c _ r (λ c'. update_items-Serves by items c'))

saved-Serves :
    (c : ConfigCache) (r : Result ConfigCache)
    → Leads (Tried (λ c' t. Synced c' t) (Synced c) r) (saved c r) (λ r t. Synced r.1 t) (λ t. ⊥)
saved-Serves c (ok c') = Leads-pure _ (λ t h. h)
saved-Serves c (err e) = Leads-pure _ (λ t h. h)

module _ (std_decode raw_decode : String → Option Text) where
  upload_valid-Serves :
      (claims : Option Claims) (k image : String) (bytes : Option Text) (c : ConfigCache)
      → Serves c (upload_valid std_decode raw_decode claims k image bytes c)
  upload_valid-Serves claims k image none c = Leads-pure _ (λ t h. h)
  upload_valid-Serves claims k image (some b) c =
      Leads-bind _ _ (Leads-try _ (set-Leads k image (updated_by claims) c)) (saved-Serves c)

  upload_to-Serves :
      (claims : Option Claims) (k : Option String) (image : String) (c : ConfigCache)
      → Serves c (upload_to std_decode raw_decode claims k image c)
  upload_to-Serves claims none image c = Leads-pure _ (λ t h. h)
  upload_to-Serves claims (some k) image c =
      upload_valid-Serves claims k image (decode_image std_decode raw_decode image) c

  either :
      {A : Type 0} (b : Bool) (c : ConfigCache) (m n : M (A × ConfigCache))
      → Serves c m
      → Serves c n
      → Serves c (if b then m else n)
  either true c m n hm hn = hm
  either false c m n hm hn = hn

  upload_qr_code-Serves :
      (claims : Option Claims) (t image : String) (c : ConfigCache)
      → Serves c (upload_qr_code std_decode raw_decode claims t image c)
  unfolding upload_qr_code
  upload_qr_code-Serves claims t image c =
      either _ c _ _ (Leads-pure _ (λ u h. h)) (upload_to-Serves claims (qr_key t) image c)

  answered-Serves :
      (c : ConfigCache) (r : Result (String × ConfigCache))
      → Leads
          (Tried (λ r t. Synced r.1 t) (Synced c) r)
          (answered std_decode raw_decode c r)
          (λ r t. Synced r.1 t)
          (λ t. ⊥)
  answered-Serves c (ok (value, c')) = Leads-pure _ (λ t h. h)
  answered-Serves c (err e) = Leads-pure _ (λ t h. h)

  public_of-Serves :
      (k : Option String) (c : ConfigCache) → Serves c (public_of std_decode raw_decode k c)
  public_of-Serves none c = Leads-pure _ (λ t h. h)
  public_of-Serves (some k) c = Leads-bind _ _ (Leads-try _ (get-Leads k c)) (answered-Serves c)

  -- The copy in memory after a request.
  unfoldable pub perform : Request → ConfigCache → M ConfigCache
  unfolding update_settings upload_qr_code get_public_qr_code ◌>>=◌ pure
  perform (Request.update claims items) c = update_settings claims items c >>= λ r. pure r.1
  perform (Request.upload claims t image) c =
      upload_qr_code std_decode raw_decode claims t image c >>= λ r. pure r.1
  perform (Request.public t) c = get_public_qr_code std_decode raw_decode t c >>= λ r. pure r.1

  unfoldable pub after : List Request → ConfigCache × Db → ConfigCache × Db
  unfolding perform
  after [] p = p
  after (r ∷ rs) (c, s) = after rs (kept_cache c (perform r c s))

  then_cache :
      {A : Type 0} (c : ConfigCache) (m : M (A × ConfigCache))
      → Serves c m
      → Leads (Synced c) (m >>= λ r. pure r.1) (λ c' t. Synced c' t) (λ t. ⊥)
  then_cache c m h = Leads-bind _ _ h (λ r. Leads-pure _ (λ t k. k))

  perform-Leads :
      (r : Request) (c : ConfigCache)
      → Leads (Synced c) (perform r c) (λ c' t. Synced c' t) (λ t. ⊥)
  unfolding perform update_settings get_public_qr_code
  perform-Leads (Request.update claims items) c =
      then_cache c _ (update_items-Serves (updated_by claims) items c)
  perform-Leads (Request.upload claims t image) c =
      then_cache c _ (upload_qr_code-Serves claims t image c)
  perform-Leads (Request.public t) c = then_cache c _ (public_of-Serves (qr_key t) c)

  abbrev SyncedPair : ConfigCache × Db → Type 0
  SyncedPair p = Synced p.0 p.1.tables

  kept-Synced :
      (c : ConfigCache) (out : Result ConfigCache × Db)
      → Outcome (λ c' t. Synced c' t) (λ t. ⊥) out
      → SyncedPair (kept_cache c out)
  kept-Synced c (ok c', s) h = h
  kept-Synced c (err e, s) h = absurd h

  after-Synced : (rs : List Request) (p : ConfigCache × Db) → SyncedPair p → SyncedPair (after rs p)
  unfolding after
  after-Synced [] p h = h
  after-Synced (r ∷ rs) (c, s) h =
      after-Synced rs (kept_cache c (perform r c s)) (kept-Synced c _ ((perform-Leads r c).at s h))

  -- After the copy was loaded at the start, and after any requests, whichever statements failed, the
  -- effective value of every key is that of the database: the value of its row, or the given one when
  -- there is no row or its value is empty.
  pub after-IsEffective :
      (rs : List Request) (s s' : Db) (c : ConfigCache) (k env : String)
      → IsKeyed s.tables.settings
      → load [] s ≡ (ok c, s')
      → get_effective k env (after rs (c, s')).0
        ≡ effective (first (has_key k) (after rs (c, s')).1.tables.settings) env
  unfolding get_effective cached
  after-IsEffective rs s s' c k env h l =
      let start = rw l at (load-Leads.at s h) in
      let e = (after-Synced rs (c, s') start).agrees k in ap (λ o. effective o env) e
