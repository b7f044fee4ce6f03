-- ===== src/Demo/Store/Frames.antt =====
-- services/demo_engine/repository.py: what an update of one row leaves alone.
use mrrik_ai_bot.Prelude.{
  ◌+◌, if-holds, subst, All-append, ℕ, suc, ◌≤◌, ◌<◌, ◌≡◌, ◌≢◌, refl, sym, Bool, true, false, List,
  [], ◌∷◌, ◌++◌, some, ◌==◌, arith, any, All, keep_if, length, if◌then◌else◌,
}
use mrrik_ai_bot.Demo.Store.{
  DemoAccount, DemoTrade, find_account, find_trade, update_account, update_trade,
}

pub find_trade-id :
    (i : ℕ) (ts : List DemoTrade) (t : DemoTrade) → find_trade i ts ≡ some t → t.id ≡ i
unfolding find_trade
find_trade-id i [] t h = cc
find_trade-id i (x ∷ ts) t h = ground (arith, find_trade-id i ts t)

pub find_trade-append :
    (i : ℕ) (ts us : List DemoTrade) (t : DemoTrade)
    → find_trade i ts ≡ some t
    → find_trade i (ts ++ us) ≡ some t
unfolding find_trade
find_trade-append i [] us t h = cc
find_trade-append i (x ∷ ts) us t h = ground (arith, find_trade-append i ts us t)

module _ (f : DemoTrade → DemoTrade) (keeps : (t : DemoTrade) → (f t).id ≡ t.id) where
  pub find_trade-updated :
      (i : ℕ) (ts : List DemoTrade) (t : DemoTrade)
      → find_trade i ts ≡ some t
      → find_trade i (update_trade i f ts) ≡ some (f t)
  unfolding find_trade update_trade
  find_trade-updated i [] t h = cc
  find_trade-updated i (x ∷ ts) t h = ground (arith, keeps x, find_trade-updated i ts t)

  pub find_trade-other :
      (i j : ℕ) (ts : List DemoTrade) → i ≢ j → find_trade j (update_trade i f ts) ≡ find_trade j ts
  unfolding find_trade update_trade
  find_trade-other i j [] h = refl
  find_trade-other i j (x ∷ ts) h = ground (arith, keeps x, find_trade-other i j ts h)

pub find_account-id :
    (u : ℕ) (accounts : List DemoAccount) (a : DemoAccount)
    → find_account u accounts ≡ some a
    → a.user_id ≡ u
unfolding find_account
find_account-id u [] a h = cc
find_account-id u (x ∷ accounts) a h = ground (arith, find_account-id u accounts a)

module _ (f : DemoAccount → DemoAccount)
    (keeps : (a : DemoAccount) → (f a).user_id ≡ a.user_id) where
  pub find_account-updated :
      (u : ℕ) (accounts : List DemoAccount) (a : DemoAccount)
      → find_account u accounts ≡ some a
      → find_account u (update_account u f accounts) ≡ some (f a)
  unfolding find_account update_account
  find_account-updated u [] a h = cc
  find_account-updated u (x ∷ accounts) a h =
      ground (arith, keeps x, find_account-updated u accounts a)

  pub find_account-other :
      (u v : ℕ) (accounts : List DemoAccount)
      → u ≢ v
      → find_account v (update_account u f accounts) ≡ find_account v accounts
  unfolding find_account update_account
  find_account-other u v [] h = refl
  find_account-other u v (x ∷ accounts) h =
      ground (arith, keeps x, find_account-other u v accounts h)

-- How many rows pass the test.
abbrev pub count_if : (DemoTrade → Bool) → List DemoTrade → ℕ
count_if p ts = length (keep_if p ts)

pub count_if-append :
    (p : DemoTrade → Bool) (ts us : List DemoTrade)
    → count_if p (ts ++ us) ≡ count_if p ts + count_if p us
count_if-append p [] us = omega arith
count_if-append p (x ∷ ts) us = ground (arith, count_if-append p ts us)

pub not_any-count_if :
    (p : DemoTrade → Bool) (ts : List DemoTrade) → any p ts ≡ false → count_if p ts ≡ 0
not_any-count_if p [] h = refl
not_any-count_if p (x ∷ ts) h = ground (arith, not_any-count_if p ts)

-- An update that makes no row pass the test does not make more rows pass it.
pub count_if-update :
    (p : DemoTrade → Bool) (i : ℕ) (f : DemoTrade → DemoTrade) (ts : List DemoTrade)
    → ((t : DemoTrade) → p (f t) ≡ true → p t ≡ true)
    → count_if p (update_trade i f ts) ≤ count_if p ts
unfolding update_trade
count_if-update p i f [] h = omega arith
count_if-update p i f (x ∷ ts) h = ground (arith, count_if-update p i f ts h, h x)

-- The keys grow from row to row, and are below a bound.
abbrev pub Rising : ℕ → List DemoTrade → Type 0
Rising n [] = Unit
Rising n (t ∷ ts) = (t.id < n) × All (λ (u : DemoTrade). t.id < u.id) ts × Rising n ts

pub Rising-append :
    (ts : List DemoTrade) (t : DemoTrade) (n : ℕ)
    → t.id ≡ n
    → Rising n ts
    → Rising (suc n) (ts ++ t ∷ [])
Rising-append [] t n e h = (omega arith, tt, tt)
Rising-append (x ∷ ts) t n e h = (
  omega (arith, h.0),
  All-append _ ts (t ∷ []) h.1 (omega (arith, h.0), tt),
  Rising-append ts t n e h.2,
)

module _ (i : ℕ) (f : DemoTrade → DemoTrade) (keeps : (t : DemoTrade) → (f t).id ≡ t.id) where
  updated-id : (t : DemoTrade) → (if t.id == i then f t else t).id ≡ t.id
  updated-id t =
      if-holds (λ (u : DemoTrade). u.id ≡ t.id) (t.id == i) (f t) t (λ _. keeps t) λ _. refl

  above-update :
      (k : ℕ) (ts : List DemoTrade)
      → All (λ (u : DemoTrade). k < u.id) ts
      → All (λ (u : DemoTrade). k < u.id) (update_trade i f ts)
  unfolding update_trade
  above-update k [] h = tt
  above-update k (x ∷ ts) h = (subst (λ j. k < j) (sym (updated-id x)) h.0, above-update k ts h.1)

  pub Rising-update : (n : ℕ) (ts : List DemoTrade) → Rising n ts → Rising n (update_trade i f ts)
  unfolding update_trade
  Rising-update n [] h = tt
  Rising-update n (x ∷ ts) h = (
    subst (λ j. j < n) (sym (updated-id x)) h.0,
    subst (λ j. All (λ (u : DemoTrade). j < u.id) (update_trade i f ts)) (sym (updated-id x))
        (above-update x.id ts h.1),
    Rising-update n ts h.2,
  )
