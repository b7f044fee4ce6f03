-- ===== src/Core/Engine/Untouched.antt =====
-- services/core_engine/engine.py: without every check passed there is no order.
use mrrik_ai_bot.Prelude.{
  ℕ, ◌≡◌, refl, ◌⊎◌, inl, inr, Bool, true, false, not, ◌&&◌, Option, none, some, Result, ok, err,
  leb, and_elim, ◌∙◌, if◌then◌else◌,
}
use mrrik_ai_bot.Exchange.{Exchange}
use mrrik_ai_bot.Exchange.Action.{pure, Keeps, >>=-Keeps}
use mrrik_ai_bot.Core.Repository.{Signal, count_open_trades, has_open_trade_for_signal}
use mrrik_ai_bot.Core.Engine.{
  CoreEngineConfig, User, Credentials, Rows, SkipReason, credentials_not_valid, Event, Bus,
  kill_switch_enabled, maximum_of, precheck_reason, Desk, publish, sent, publish_skip, passed_over,
  skip_notice, trade_error_event,
}
use mrrik_ai_bot.Core.Engine.Users.{
  counted_skipped, trade_for, skip_user, with_credentials, unless_refused, handle_user,
}

-- Neither the tables nor any account on the exchange changed.
pub record Untouched {E : Exchange} (d d' : Desk E) : Type 0 where
  pub tables : d'.tables ≡ d.tables
  pub accounts : d'.accounts ≡ d.accounts

-- Everything that has to be so before there is any call to the exchange for the user.
pub record Cleared {E : Exchange} (config : CoreEngineConfig) (rows : Rows) (user : User) (k : ℕ)
    (d : Desk E) : Type 0 where
  pub running : kill_switch_enabled rows.global_kill_switch ≡ false
  pub user_running : kill_switch_enabled (rows.user_kill_switch user.id) ≡ false
  pub not_blocked : user.is_blocked ≡ false
  pub subscribed : rows.has_subscription user.id ≡ true
  pub first_trade : has_open_trade_for_signal user.id k d.tables ≡ false
  pub below_maximum :
      leb (maximum_of config (rows.settings user.id)) (count_open_trades user.id d.tables) ≡ false
  pub credentials : Credentials
  pub has_credentials : rows.credentials user.id ≡ some credentials
  pub valid : credentials.is_valid ≡ true
  pub scoped : credentials.scope_verified ≡ true

pub Untouched-refl : {E : Exchange} (d : Desk E) → Untouched d d
Untouched-refl d = record { tables = refl; accounts = refl }

pub Untouched-trans :
    {E : Exchange} (a b c : Desk E) → Untouched a b → Untouched b c → Untouched a c
Untouched-trans a b c h k = record {
  tables = k.tables ∙ h.tables;
  accounts = k.accounts ∙ h.accounts;
}

pub publish-Untouched : (E : Exchange) (bus : Bus) (e : Event) → Keeps Untouched (publish E bus e)
unfolding publish
publish-Untouched E bus e d = go (bus d.published e)
  where
    go : (r : Result (Unit {0})) → Untouched d (sent E d e r).1
    go (ok u) = record { tables = refl; accounts = refl }
    go (err x) = Untouched-refl d

pub publish_skip-Untouched :
    (E : Exchange) (bus : Bus) (u : ℕ) (reason : SkipReason)
    → Keeps Untouched (publish_skip E bus u reason)
unfolding publish_skip
publish_skip-Untouched E bus u reason =
    >>=-Keeps Untouched Untouched-trans (publish E bus (trade_error_event u (passed_over reason)))
      (λ _. publish E bus (skip_notice u reason)) (publish-Untouched E bus _)
      λ _. publish-Untouched E bus _

passed_test :
    (b : Bool) (r : SkipReason) (rest : Option SkipReason)
    → (if b then some r else rest) ≡ none
    → (b ≡ false) × (rest ≡ none)
passed_test true r rest h = cc
passed_test false r rest h = (refl, h)

not-false : (b : Bool) → not b ≡ false → b ≡ true
not-false true h = refl
not-false false h = cc

cleared :
    {E : Exchange} (config : CoreEngineConfig) (rows : Rows) (user : User) (k : ℕ) (d : Desk E)
    (c : Credentials)
    → precheck_reason config rows user k d.tables ≡ none
    → rows.credentials user.id ≡ some c
    → (c.is_valid && c.scope_verified) ≡ true
    → Cleared config rows user k d
unfolding precheck_reason
cleared config rows user k d c e has usable =
    let (a, e1) = passed_test (kill_switch_enabled rows.global_kill_switch) _ _ e in
    let (b, e2) = passed_test (kill_switch_enabled (rows.user_kill_switch user.id)) _ _ e1 in
    let (n, e3) = passed_test user.is_blocked _ _ e2 in
    let (s, e4) = passed_test (not (rows.has_subscription user.id)) _ _ e3 in
    let (o, e5) = passed_test (has_open_trade_for_signal user.id k d.tables) _ _ e4 in
    let (m, e6) = passed_test _ _ _ e5 in
    let (v, w) = and_elim c.is_valid c.scope_verified usable in
    record {
      running = a;
      user_running = b;
      not_blocked = n;
      subscribed = not-false _ s;
      first_trade = o;
      below_maximum = m;
      credentials = c;
      has_credentials = has;
      valid = v;
      scoped = w;
    }

module _ (E : Exchange) (config : CoreEngineConfig) (rows : Rows) (bus : Bus) where
  pub skip_user-Untouched :
      (u : ℕ) (reason : SkipReason) → Keeps Untouched (skip_user E config rows bus u reason)
  skip_user-Untouched u reason =
      >>=-Keeps Untouched Untouched-trans (publish_skip E bus u reason) (λ _. pure counted_skipped)
        (publish_skip-Untouched E bus u reason) λ _. Untouched-refl

  abbrev Guarded : User → ℕ → Desk E → Desk E → Type 0
  Guarded user k d d' = Untouched d d' ⊎ Cleared config rows user k d

  Guarded-credentials :
      (k : ℕ) (signal : Signal) (user : User) (d : Desk E) (c : Option Credentials)
      → rows.credentials user.id ≡ c
      → precheck_reason config rows user k d.tables ≡ none
      → Guarded user k d (with_credentials E config rows bus user.id signal c d).1
  Guarded-credentials k signal user d none e clear = inl (skip_user-Untouched user.id _ d)
  Guarded-credentials k signal user d (some c) e clear = go (c.is_valid && c.scope_verified) refl
    where
      go :
          (b : Bool)
          → (c.is_valid && c.scope_verified) ≡ b
          → Guarded user k d
              ((if b
                  then trade_for E config rows bus user.id signal c
                  else skip_user E config rows bus user.id credentials_not_valid)
                d).1
      go true usable = inr (cleared config rows user k d c clear e usable)
      go false usable = inl (skip_user-Untouched user.id credentials_not_valid d)

  -- For a user there is no call to the exchange, on whoever's account, and no change of a table,
  -- unless: both kill switches are off, the user is not blocked and has an active subscription, has
  -- no active trade of the signal and fewer active trades than the maximum, and has credentials
  -- that are valid and whose scope is verified.
  pub handle_user-Guarded :
      (k : ℕ) (signal : Signal) (user : User) (d : Desk E)
      → Guarded user k d (handle_user E config rows bus k signal user d).1
  unfolding handle_user
  handle_user-Guarded k signal user d = go (precheck_reason config rows user k d.tables) refl
    where
      go :
          (r : Option SkipReason)
          → precheck_reason config rows user k d.tables ≡ r
          → Guarded user k d (unless_refused E config rows bus user.id signal r d).1
      go (some reason) e = inl (skip_user-Untouched user.id reason d)
      go none e = Guarded-credentials k signal user d (rows.credentials user.id) refl e
