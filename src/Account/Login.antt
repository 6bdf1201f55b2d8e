-- ===== src/Account/Login.antt =====
-- The account that a registration creates, and the token that it returns.
use lurus_identity.Base.{
  ℕ, ◌+◌, ◌/◌, ◌≤◌, ◌<◌, ◌≡◌, refl, ◌∙◌, inl, inr, String, Bool, true, Option, none, some, List, [],
  ◌∷◌, arith, Bool-cases, ltb, if◌then◌else◌,
}
use lurus_identity.Text.{Text, max_int64}
use lurus_identity.Table.{first, update}
use lurus_identity.Table.Laws.{All, first-insert}
use lurus_identity.Entity.Identity.{Account}
use lurus_identity.Username.{generate_lurus_id}
use lurus_identity.Store.{Tables, Db, Result, ok, err, M, ⊤, lift, ◌>>◌}
use lurus_identity.Store.Keeps.{Keeps, Keeps-ignore, keeps_rules}
use lurus_identity.Store.Leads.{
  Leads, Outcome, Leads-Keeps, Keeps-Leads, Leads-bind, Leads-sql, Leads-pure,
}
use lurus_identity.Session.{
  IsCodec, Answer, SessionError, second, issue_session_token, validate_session_token,
}
use lurus_identity.Session.RoundTrip.{validate-issue}
use lurus_identity.Account.Repo
use lurus_identity.Account.Repo.{has_id, insert_account, save_account, get_by_aff_code}
use lurus_identity.Account.Service.{create_numbered, bootstrap}
use lurus_identity.Account.Frame.{
  refuse_taken-Keeps, check_email-Keeps, check_phone-Keeps, get_by_username-Keeps,
  zitadel_user-Keeps, bootstrap-Keeps, on_signup-Keeps,
}
use lurus_identity.Account.Registration.{
  Registrar, RegisterRequest, RegistrationResult, session_token_ttl, token_of, issue_token,
  register, reward_signup, set_referrer, process_referral,
}

abbrev pub Anything : Tables → Type 0
Anything t = Unit

-- The ids of accounts are below the next one, which is an int64 above zero and not below `n`.
pub record IsFresh (n : ℕ) (t : Tables) : Type 0 where
  pub ids : All (λ (a : Account). a.id < t.next_id) t.accounts
  pub after : n ≤ t.next_id
  pub positive : 0 < t.next_id
  pub small : t.next_id ≤ max_int64

-- The id, not below `n`, finds a row of this user name and Lurus id.
pub record IsUser (n : ℕ) (u : String) (i : ℕ) (l : Text) (rows : List Account) : Type 0 where
  pub row : Account
  pub found : first (has_id i) rows ≡ some row
  pub named : row.username ≡ u
  pub numbered : row.lurus_id ≡ l
  pub after : n ≤ i
  pub positive : 0 < i
  pub small : i ≤ max_int64

-- The token opens a session of the account for seven days.
abbrev pub Opens : Registrar → ℕ → RegistrationResult → Type 0
Opens r now out =
    (later : ℕ)
    → validate_session_token r.codec later out.token r.secret ≡ (
        if ltb ((now + session_token_ttl) / second) (later / second)
        then Answer.refused SessionError.expired
        else Answer.granted out.account_id)

-- What a registration with the user name `u` answers and leaves behind.
pub record IsRegistered (r : Registrar) (now n : ℕ) (u : String) (out : RegistrationResult)
    (t : Tables) : Type 0 where
  pub user : IsUser n u out.account_id out.lurus_id t.accounts
  pub lurus_id : out.lurus_id ≡ generate_lurus_id out.account_id
  pub opens : Opens r now out

no_id :
    (n : ℕ) (xs : List Account) → All (λ (a : Account). a.id < n) xs → first (has_id n) xs ≡ none
unfolding first
no_id n [] h = refl
no_id n (x ∷ xs) h = let rest = no_id n xs h.1 in let low = h.0 in ground (arith, rest, low)

-- A row that is saved is the one that its id finds.
first-saved :
    (i : ℕ) (a : Account) (xs : List Account) {x : Account}
    → a.id ≡ i
    → first (has_id i) xs ≡ some x
    → first (has_id i) (update (has_id i) (λ _. a) xs) ≡ some a
unfolding first update
first-saved i a [] e h = cc
first-saved i a (y ∷ ys) e h = elim (Bool-cases (has_id i y)) [
  | inl own ↦ let same : has_id i a ≡ true = ground (arith, e) in rw own (rw same refl)
  | inr other ↦ rw other (rw other (first-saved i a ys e (rw other at h)))
]

module _ (lower : String → String) (n : ℕ) where
  abbrev User : String → ℕ → Text → Tables → Type 0
  User u i l t = IsUser n u i l t.accounts

  -- The row of `a`, under its id.
  abbrev IsMade : Account → Account → Tables → Type 0
  IsMade a made t = User a.username made.id a.lurus_id t × (made.username ≡ a.username)

  inserted :
      (a : Account) (o : Option Account) (t : Tables) (faults : List Bool)
      → IsFresh n t
      → Outcome (IsMade a) Anything (
          let out = insert_account (record a { id = t.next_id }) o t in
          (out.0, record { tables = out.1; faults = faults }))
  unfolding insert_account
  inserted a (some x) t faults h = tt
  inserted a none t faults h = (
    record {
      row = record a { id = t.next_id };
      found =
          first-insert (has_id t.next_id) _ t.accounts
          ∙ rw (no_id t.next_id t.accounts h.ids) (ground arith);
      named = refl;
      numbered = refl;
      after = h.after;
      positive = h.positive;
      small = h.small;
    },
    refl,
  )

  create-leads : (a : Account) → Leads (IsFresh n) (Repo.create lower a) (IsMade a) Anything
  unfolding Repo.create
  create-leads a = Leads-sql _ (λ t faults h. inserted a _ t faults h) (λ t h. tt)

  saved :
      {R : Tables → Type 0} (a : Account) (u : String) (l : Text) (o : Option Account) (t : Tables)
      (faults : List Bool)
      → a.username ≡ u
      → ((t : Tables) → User u a.id l t → R t)
      → User u a.id l t
      → Outcome
          (λ (_ : ⊤). User u a.id a.lurus_id)
          R
          (let out = save_account a o t in (out.0, record { tables = out.1; faults = faults }))
  unfolding save_account
  saved a u l (some x) t faults e weaken h = weaken t h
  saved a u l none t faults e weaken h = record {
    row = a;
    found = first-saved a.id a t.accounts refl h.found;
    named = e;
    numbered = refl;
    after = h.after;
    positive = h.positive;
    small = h.small;
  }

  save-leads :
      {R : Tables → Type 0} (a : Account) (u : String) (l : Text)
      → a.username ≡ u
      → ((t : Tables) → User u a.id l t → R t)
      → Leads (User u a.id l) (Repo.save lower a) (λ _. User u a.id a.lurus_id) R
  unfolding Repo.save
  save-leads a u l e weaken = Leads-sql _ (λ t faults h. saved a u l _ t faults e weaken h) weaken

  -- The new account, as it is returned and as it is stored.
  abbrev IsNumbered : String → Account → Tables → Type 0
  IsNumbered u a t =
      User u a.id a.lurus_id t × (a.lurus_id ≡ generate_lurus_id a.id) × (a.username ≡ u)

  create_numbered-leads :
      (a : Account) → Leads (IsFresh n) (create_numbered lower a) (IsNumbered a.username) Anything
  unfolding create_numbered
  create_numbered-leads a = Leads-bind _ _ (create-leads a) λ made. record {
    at = λ s h.
        (Leads-bind _ _
            (save-leads (record made { lurus_id = generate_lurus_id made.id }) a.username a.lurus_id
              h.1 (λ t g. tt))
            (λ _. Leads-pure _ (λ t g. (g, refl, h.1)))).at
          s h.0;
  }

module _ (r : Registrar) (n : ℕ) where
  reward_signup-Keeps :
      {u : String} {l : Text} {i : ℕ} (a referrer : ℕ) (o : Result ⊤)
      → Keeps (User r.lower n u i l) (reward_signup r a referrer o)
  unfolding reward_signup
  reward_signup-Keeps {u} {l} {i} a referrer (ok x) =
      Keeps-ignore _ (on_signup-Keeps (IsUser n u i l) a referrer)
  reward_signup-Keeps a referrer (err e) = search keeps_rules

  module _ (a : Account) (u : String) (named : a.username ≡ u) where
    abbrev Same : Tables → Type 0
    Same = User r.lower n u a.id a.lurus_id

    linked-Keeps :
        (referrer : ℕ) → Keeps Same (Repo.save r.lower (record a { referrer_id = some referrer }))
    linked-Keeps referrer = Keeps-Leads _ (
        save-leads r.lower n (record a { referrer_id = some referrer }) u a.lurus_id named
          (λ t h. h))

    set_referrer-Keeps : (found : Result (Option Account)) → Keeps Same (set_referrer r a found)
    unfolding set_referrer
    set_referrer-Keeps (ok (some x)) = search (keeps_rules, linked-Keeps, reward_signup-Keeps)
    set_referrer-Keeps (ok none) = search keeps_rules
    set_referrer-Keeps (err e) = search keeps_rules

    process_referral-Keeps : (aff : String) → Keeps Same (process_referral r a aff)
    unfolding process_referral get_by_aff_code
    process_referral-Keeps aff = search (keeps_rules, set_referrer-Keeps)

module _ (r : Registrar) (laws : IsCodec r.codec) (now n : ℕ) (u : String) where
  -- What holds of the account when its token is issued.
  abbrev Issues : Account → Tables → Type 0
  Issues = IsNumbered r.lower n u

  granted :
      (a : Account) (answer : Answer Text) (s : Db)
      → Issues a s.tables
      → issue_session_token r.codec now a.id session_token_ttl r.secret ≡ answer
      → Outcome (IsRegistered r now n u) Anything (token_of r a answer, s)
  granted a (Answer.refused e) s h k = tt
  granted a (Answer.granted token) s h k = record {
    user = h.0;
    lurus_id = h.1;
    opens = λ later.
        validate-issue r.codec laws now session_token_ttl a.id later r.secret h.0.positive h.0.small
          k;
  }

  issue_token-leads :
      (a : Account) → Leads (Issues a) (issue_token r now a) (IsRegistered r now n u) Anything
  unfolding issue_token lift
  issue_token-leads a = record { at = λ s h. granted a _ s h refl }

  -- After the account was created.
  opened-leads :
      (a : Account) (aff : String)
      → Leads
          (Issues a)
          (bootstrap a >> (process_referral r a aff >> issue_token r now a))
          (IsRegistered r now n u)
          Anything
  opened-leads a aff = record {
    at = λ s h.
        (Leads-bind _ _ (Leads-Keeps _ (bootstrap-Keeps (IsUser n u a.id a.lurus_id) a) (λ t g. tt))
            λ _.
              Leads-bind _ _ (Leads-Keeps _ (process_referral-Keeps r n a u h.2 aff) (λ t g. tt))
                λ _. record { at = λ s' g. (issue_token-leads a).at s' (g, h.1, h.2) }).at
          s h.0;
  }

kept :
    {n : ℕ} {A : Type 0} (m : M A)
    → Keeps (IsFresh n) m
    → Leads (IsFresh n) m (λ _. IsFresh n) Anything
kept m k = Leads-Keeps m k (λ t h. tt)

-- Whichever statements fail, where the ids of accounts are below the next one, which is an int64 above
-- zero and not below `n`: when a registration succeeds, the id that it returns is not below `n`, and it
-- finds a stored account with the user name that was asked for and the Lurus id that is returned, which
-- is the one made of the id; and the token is granted to that account until its seven days have passed,
-- and refused as expired afterwards.
pub register-opens :
    (r : Registrar) (laws : IsCodec r.codec) (now n : ℕ) (aff : String) (req : RegisterRequest)
    → Leads
        (IsFresh n)
        (register r now aff req)
        (IsRegistered r now n (r.trim req.username))
        Anything
unfolding register
register-opens r laws now n aff req = Leads-bind _ _ (kept _ (search keeps_rules)) λ _.
    Leads-bind _ _ (kept _ (search keeps_rules)) λ _.
      Leads-bind _ _ (kept _ (get_by_username-Keeps r.lower _)) λ known.
        Leads-bind _ _ (kept _ (refuse_taken-Keeps known _)) λ _.
          Leads-bind _ _ (kept _ (check_email-Keeps r req.email)) λ email.
            Leads-bind _ _ (kept _ (check_phone-Keeps r req.phone)) λ given.
              Leads-bind _ _ (kept _ (zitadel_user-Keeps r r.create_user _ req.password email))
                λ sub.
                  Leads-bind _ _ (create_numbered-leads r.lower n _)
                    λ a. opened-leads r laws now n (r.trim req.username) a req.aff_code
