-- ===== src/Core/Engine/Settled/Runs.antt =====
-- services/core_engine/engine.py: the trades that a whole run of `handle_signal_created` adds.
use mrrik_ai_bot.Prelude.{
  ℕ, ◌+◌, ◌≤◌, ◌≡◌, ◌≢◌, inl, inr, refl, sym, ◌∙◌, ap, subst, true, false, List, ◌∷◌, [], ◌++◌,
  some, ok, All, All-append, All-map, arith, length, keep_if, if◌then◌else◌, ok-injective,
}
use mrrik_ai_bot.Exchange.{Exchange}
use mrrik_ai_bot.Exchange.Action.{>>=-ok}
use mrrik_ai_bot.Core.Trades.{
  Trade, TradeStatus, trade_pending_entry, trade_open, trade_closed, trade_skipped, trade_error,
}
use mrrik_ai_bot.Core.Repository.{Signal, Tables}
use mrrik_ai_bot.Core.Engine.{CoreEngineConfig, User, Rows, Bus, Desk}
use mrrik_ai_bot.Core.Engine.Users.{
  Counted, counted_opened, counted_skipped, counted_error, is_open, handle_user,
}
use mrrik_ai_bot.Core.Engine.Signals.{Tally, count_user, handle_users}
use mrrik_ai_bot.Core.Engine.Held.{IsFresh, with_trade, Final}
use mrrik_ai_bot.Core.Engine.Settled.Rounds.{Round, Rounds, handle_user-Rounds}

abbrev pub open_rows : List Trade → ℕ
open_rows rows = length (keep_if (λ (t : Trade). is_open (some t.status)) rows)

-- The tables with more trades, none of which waits for its entry, and at least `n` of which are open.
pub record Added (n : ℕ) (s s' : Tables) : Type 0 where
  pub rows : List Trade
  pub trades : s'.trades ≡ s.trades ++ rows
  pub ended : All (λ (t : Trade). t.status ≢ trade_pending_entry) rows
  pub opened : n ≤ open_rows rows
  pub fresh : IsFresh s'
  pub processed : s'.processed_events ≡ s.processed_events

append_assoc : {A : Type 0} (xs ys zs : List A) → (xs ++ ys) ++ zs ≡ xs ++ (ys ++ zs)
append_assoc [] ys zs = refl
append_assoc (x ∷ xs) ys zs = ap (λ r. x ∷ r) (append_assoc xs ys zs)

append_nil : {A : Type 0} (xs : List A) → xs ++ [] ≡ xs
append_nil [] = refl
append_nil (x ∷ xs) = ap (λ r. x ∷ r) (append_nil xs)

open_rows-append : (xs ys : List Trade) → open_rows (xs ++ ys) ≡ open_rows xs + open_rows ys
open_rows-append [] ys = omega arith
open_rows-append (x ∷ xs) ys = ground (arith, open_rows-append xs ys)

pub Added-none : (s s' : Tables) → IsFresh s → s' ≡ s → Added 0 s s'
Added-none s s' fresh e = record {
  rows = [];
  trades = ap (λ (x : Tables). x.trades) e ∙ sym (append_nil s.trades);
  ended = tt;
  opened = omega arith;
  fresh = subst IsFresh (sym e) fresh;
  processed = ap (λ (x : Tables). x.processed_events) e;
}

Added-trans : (m n : ℕ) (a b c : Tables) → Added m a b → Added n b c → Added (m + n) a c
Added-trans m n a b c h k = record {
  rows = h.rows ++ k.rows;
  trades = k.trades ∙ ap (λ ts. ts ++ k.rows) h.trades ∙ append_assoc a.trades h.rows k.rows;
  ended = All-append _ h.rows k.rows h.ended k.ended;
  opened = omega (arith, h.opened, k.opened, open_rows-append h.rows k.rows);
  fresh = k.fresh;
  processed = k.processed ∙ h.processed;
}

IsFresh-with :
    (s : Tables) (t : Trade) → IsFresh s → t.id ≡ s.next_trade_id → IsFresh (with_trade s t)
IsFresh-with s t fresh e =
    All-append _ s.trades (t ∷ []) (All-map s.trades (λ x h. omega (arith, h)) fresh)
      (omega (arith, e), tt)

one_row :
    (n : ℕ) (s s' : Tables) (t : Trade)
    → IsFresh s
    → t.id ≡ s.next_trade_id
    → s' ≡ with_trade s t
    → t.status ≢ trade_pending_entry
    → n ≤ open_rows (t ∷ [])
    → Added n s s'
one_row n s s' t fresh at e ended open_t = record {
  rows = t ∷ [];
  trades = ap (λ (x : Tables). x.trades) e;
  ended = (ended, tt);
  opened = open_t;
  fresh = subst IsFresh (sym e) (IsFresh-with s t fresh at);
  processed = ap (λ (x : Tables). x.processed_events) e;
}

opens : Counted → ℕ
opens (counted_opened b) = 1
opens _ = 0

status-ended :
    (t : Trade) (status : TradeStatus)
    → t.status ≡ status
    → status ≢ trade_pending_entry
    → t.status ≢ trade_pending_entry
status-ended t status e h p = h (sym e ∙ p)

error-ended : (t : Trade) → Final counted_error t → t.status ≢ trade_pending_entry
error-ended t (inl (closed, why)) = status-ended t trade_closed closed λ p. cc
error-ended t (inr (inl (bare, no_stop))) = status-ended t trade_open bare λ p. cc
error-ended t (inr (inr failed)) = status-ended t trade_error failed λ p. cc

open-counts : (t : Trade) → t.status ≡ trade_open → 1 ≤ open_rows (t ∷ [])
open-counts t e =
    subst (λ st. 1 ≤ length (if is_open (some st) then t ∷ [] else [])) (sym e) (omega arith)

module _ (E : Exchange) (config : CoreEngineConfig) (rows : Rows) (bus : Bus) where
  Round-Added :
      (s : Tables) (fresh : IsFresh s) (c : Counted) (d : Desk E)
      → Round E config rows bus s fresh c d
      → Added (opens c) s d.tables
  unfolding opens
  Round-Added s fresh (counted_opened b) d h =
      one_row 1 s d.tables h.trade fresh h.id h.tables
        (status-ended h.trade trade_open h.so λ p. cc) (open-counts h.trade h.so)
  Round-Added s fresh counted_skipped d (inl same) = Added-none s d.tables fresh same
  Round-Added s fresh counted_skipped d (inr h) =
      one_row 0 s d.tables h.trade fresh h.id h.tables
        (status-ended h.trade trade_skipped h.so λ p. cc) (omega arith)
  Round-Added s fresh counted_error d (inl same) = Added-none s d.tables fresh same
  Round-Added s fresh counted_error d (inr h) =
      one_row 0 s d.tables h.trade fresh h.id h.tables (error-ended h.trade h.so) (omega arith)

  handle_user-Added :
      (k : ℕ) (signal : Signal) (user : User) (c : Counted) (d d' : Desk E)
      → IsFresh d.tables
      → handle_user E config rows bus k signal user d ≡ (ok c, d')
      → Added (opens c) d.tables d'.tables
  handle_user-Added k signal user c d d' fresh e = Round-Added d.tables fresh c d' (
      subst (Rounds E config rows bus d.tables fresh) e
        (handle_user-Rounds E config rows bus d.tables fresh k signal user d refl))

  count-opens : (c : Counted) (t : Tally) → (count_user c t).opened_count ≡ opens c + t.opened_count
  unfolding opens
  count-opens (counted_opened false) t = omega arith
  count-opens (counted_opened true) t = omega arith
  count-opens counted_skipped t = omega arith
  count-opens counted_error t = omega arith

  -- As many trades as were counted as opened since are open.
  pub handle_users-Added :
      (k : ℕ) (signal : Signal) (users : List User) (before after : Tally) (d d' : Desk E)
      → IsFresh d.tables
      → handle_users E config rows bus k signal users before d ≡ (ok after, d')
      → (n : ℕ) × (before.opened_count + n ≡ after.opened_count) × Added n d.tables d'.tables
  unfolding handle_users
  handle_users-Added k signal [] before after d d' fresh e = (
    0,
    omega (arith, ap (λ (t : Tally). t.opened_count) (ok-injective (ap (λ o. o.0) e))),
    Added-none d.tables d'.tables fresh (ap (λ (x : Desk E). x.tables) (sym (ap (λ o. o.1) e))),
  )
  handle_users-Added k signal (user ∷ users) before after d d' fresh e =
      let (c, x, e1, k1) =
        >>=-ok (handle_user E config rows bus k signal user)
          (λ c. handle_users E config rows bus k signal users (count_user c before)) d after d' e in
      let first = handle_user-Added k signal user c d x fresh e1 in
      let (n, sum, rest) =
        handle_users-Added k signal users (count_user c before) after x d' first.fresh k1 in
      (
        opens c + n,
        omega (arith, count-opens c before, sum),
        Added-trans (opens c) n d.tables x.tables d'.tables first rest,
      )
