-- ===== src/Core/Reconciliation/Passes.antt =====
-- services/core_engine/reconciliation.py: what a whole pass does to the accounts.
use mrrik_ai_bot.Prelude.{
  ℕ, arith, ◌≡◌, refl, sym, Bool, true, false, List, [], ◌∷◌, Result, ok, err, subst, ◌==◌,
  if◌then◌else◌,
}
use mrrik_ai_bot.Exchange.{Exchange, World}
use mrrik_ai_bot.Exchange.Trace.{Adds, Adds-refl, Adds-trans}
use mrrik_ai_bot.Core.Trades.{Trade}
use mrrik_ai_bot.Core.Repository.{is_active}
use mrrik_ai_bot.Core.Reconciliation.{
  Round, account_key, set_account, bench, visit, reconcile_from, reconcile_open_trades,
}
use mrrik_ai_bot.Core.Reconciliation.Quiet.{Repairing, reconcile_trade-Reviewed}

same_key : (u k : ℕ) → (u == k) ≡ true → u ≡ k
same_key u k e = ground arith

module _ (E : Exchange) where
  -- How the pass changes an account.
  abbrev pub Repaired : (accounts accounts' : ℕ → World E) → Type 0
  Repaired accounts accounts' = (u : ℕ) → Adds E Repairing (accounts u) (accounts' u)

  Repaired-trans : (f g h : ℕ → World E) → Repaired f g → Repaired g h → Repaired f h
  Repaired-trans f g h p q u = Adds-trans E Repairing (f u) (g u) (h u) (p u) (q u)

  set_account-Repaired :
      (k : ℕ) (w : World E) (accounts : ℕ → World E)
      → Adds E Repairing (accounts k) w
      → Repaired accounts (set_account E k w accounts)
  set_account-Repaired k w accounts p u = go (u == k) refl
    where
      go : (c : Bool) → (u == k) ≡ c → Adds E Repairing (accounts u) (if c then w else accounts u)
      go true e = subst (λ v. Adds E Repairing (accounts v) w) (sym (same_key u k e)) p
      go false e = Adds-refl E Repairing (accounts u)

  pub visit-Repaired :
      (o : Result (Unit {0})) (t : Trade) (r : Round E)
      → Repaired r.accounts (visit E o t r).1.accounts
  visit-Repaired (err e) t r u = Adds-refl E Repairing (r.accounts u)
  visit-Repaired (ok client) t r u =
      let reviewed = reconcile_trade-Reviewed E t (bench E r t) in
      set_account-Repaired (account_key E t.user_id) _ r.accounts reviewed.calls u

  pub step-Repaired :
      (active : Bool) (connect : Trade → Result (Unit {0})) (t : Trade) (r : Round E)
      → Repaired r.accounts (if active then visit E (connect t) t r else (t, r)).1.accounts
  step-Repaired true connect t r u = visit-Repaired (connect t) t r u
  step-Repaired false connect t r u = Adds-refl E Repairing (r.accounts u)

  pub reconcile_from-Repaired :
      (connect : Trade → Result (Unit {0})) (ts : List Trade) (r : Round E)
      → Repaired r.accounts (reconcile_from E connect ts r).1.accounts
  unfolding reconcile_from
  reconcile_from-Repaired connect [] r u = Adds-refl E Repairing (r.accounts u)
  reconcile_from-Repaired connect (t ∷ ts) r u =
      let next = if is_active t.status then visit E (connect t) t r else (t, r) in
      Repaired-trans r.accounts next.1.accounts _ (step-Repaired (is_active t.status) connect t r)
        (reconcile_from-Repaired connect ts next.1) u

  -- Whatever the exchange answers, a pass only looks at the accounts and places stop losses and
  -- take-profits on them: it cancels nothing, closes no position and enters none.
  pub reconcile_open_trades-Repaired :
      (connect : Trade → Result (Unit {0})) (trades : List Trade) (accounts : ℕ → World E)
      → Repaired accounts (reconcile_open_trades E connect trades accounts).1.accounts
  unfolding reconcile_open_trades
  reconcile_open_trades-Repaired connect trades accounts = reconcile_from-Repaired connect trades _
