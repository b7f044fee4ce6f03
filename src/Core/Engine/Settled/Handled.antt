-- ===== src/Core/Engine/Settled/Handled.antt =====
-- services/core_engine/engine.py: what `handle_signal_created` leaves in the tables, and what it does
-- with an event that it has handled before.
use mrrik_ai_bot.Prelude.{
  ℕ, ◌≤◌, ◌≡◌, ◌≢◌, refl, sym, ◌∙◌, ap, subst, Bool, true, false, ◌||◌, List, ◌∷◌, [], ◌++◌, Option,
  none, some, ok, All, arith, if-holds, if◌then◌else◌, ok-injective, any,
}
use mrrik_ai_bot.Prelude.Text.{Text, text_eq, text_eq_refl}
use mrrik_ai_bot.Exchange.{Exchange}
use mrrik_ai_bot.Exchange.Action.{pure, >>=-ok}
use mrrik_ai_bot.Core.Trades.{Trade, trade_pending_entry}
use mrrik_ai_bot.Core.Repository.{Signal, Tables, mark_event_processed}
use mrrik_ai_bot.Core.Engine.{CoreEngineConfig, User, Rows, Bus, Desk}
use mrrik_ai_bot.Core.Engine.Signals.{
  Tally, no_users, HandleSignalResult, ignored, duplicate_event, signal_not_accepted, processed,
  PayloadValue, positive_int, handle_users, handle_eligible, handle_first, handle_found, handle_id,
  handle_signal_created,
}
use mrrik_ai_bot.Core.Engine.Held.{IsFresh}
use mrrik_ai_bot.Core.Engine.Settled.Runs.{Added, Added-none, open_rows, handle_users-Added}

abbrev pub opened_of : HandleSignalResult → ℕ
opened_of (processed tally) = tally.opened_count
opened_of _ = 0

mark-trades :
    (id : Text) (s : Tables)
    → ((mark_event_processed id s).1.trades ≡ s.trades)
      × (IsFresh s → IsFresh (mark_event_processed id s).1)
unfolding mark_event_processed
mark-trades id s =
    if-holds (λ (o : Bool × Tables). (o.1.trades ≡ s.trades) × (IsFresh s → IsFresh o.1))
      (any (text_eq id) s.processed_events) _ _ (λ _. (refl, λ h. h)) (λ _. (refl, λ h. h))

-- Once an event is marked it is known.
mark-known :
    (id : Text) (s : Tables)
    → any (text_eq id) (mark_event_processed id s).1.processed_events ≡ true
unfolding mark_event_processed
mark-known id s =
    if-holds (λ (o : Bool × Tables). any (text_eq id) o.1.processed_events ≡ true)
      (any (text_eq id) s.processed_events) _ _ (λ h. h)
      λ _. ap (λ b. b || any (text_eq id) s.processed_events) (text_eq_refl id)

mark-again :
    (id : Text) (s : Tables)
    → any (text_eq id) s.processed_events ≡ true
    → mark_event_processed id s ≡ (false, s)
unfolding mark_event_processed
mark-again id s h =
    ap
      (λ b.
        if b then (false, s) else (true, record s { processed_events = id ∷ s.processed_events }))
      h

module _ (E : Exchange) (config : CoreEngineConfig) (rows : Rows) (bus : Bus) where
  -- What a run adds to the trades, as far as its result tells.
  abbrev pub Grown : HandleSignalResult → Tables → Tables → Type 0
  Grown r s s' = Added (opened_of r) s s'

  returned-Grown :
      (r q : HandleSignalResult) (d d' : Desk E)
      → IsFresh d.tables
      → opened_of q ≡ 0
      → pure {W = Desk E} q d ≡ (ok r, d')
      → Grown r d.tables d'.tables
  returned-Grown r q d d' fresh none_opened e =
      subst (λ x. Added x d.tables d'.tables)
        (sym none_opened ∙ ap opened_of (ok-injective (ap (λ o. o.0) e)))
        (Added-none d.tables d'.tables fresh
          (ap (λ (x : Desk E). x.tables) (sym (ap (λ o. o.1) e))))

  eligible-Grown :
      (k : ℕ) (signal : Signal) (users : List User) (r : HandleSignalResult) (d d' : Desk E)
      → IsFresh d.tables
      → handle_eligible E config rows bus k signal users d ≡ (ok r, d')
      → Grown r d.tables d'.tables
  eligible-Grown k signal [] r d d' fresh e = returned-Grown r _ d d' fresh refl e
  eligible-Grown k signal (user ∷ users) r d d' fresh e =
      let (tally, x, e1, k1) =
        >>=-ok (handle_users E config rows bus k signal (user ∷ users) no_users)
          (λ tally. pure (processed tally)) d r d' e in
      let (n, sum, added) =
        handle_users-Added E config rows bus k signal (user ∷ users) no_users tally d x fresh e1 in
      subst (λ (y : Desk E). Grown r d.tables y.tables) (ap (λ o. o.1) k1)
        (subst (λ m. Added m d.tables x.tables)
          (omega (arith, sum) ∙ ap opened_of (ok-injective (ap (λ o. o.0) k1))) added)

  first-Grown :
      (k : ℕ) (signal : Signal) (first : Bool) (r : HandleSignalResult) (d d' : Desk E)
      → IsFresh d.tables
      → handle_first E config rows bus k signal first d ≡ (ok r, d')
      → Grown r d.tables d'.tables
  first-Grown k signal false r d d' fresh e = returned-Grown r _ d d' fresh refl e
  first-Grown k signal true r d d' fresh e = go signal.is_accepted e
    where
      go :
          (b : Bool)
          → (if b
                then handle_eligible E config rows bus k signal rows.eligible_users
                else pure (ignored signal_not_accepted))
              d
            ≡ (ok r, d')
          → Grown r d.tables d'.tables
      go true e = eligible-Grown k signal rows.eligible_users r d d' fresh e
      go false e = returned-Grown r _ d d' fresh refl e

  -- The trades after a run.
  pub record Handled (r : HandleSignalResult) (d d' : Desk E) : Type 0 where
    pub added : List Trade
    pub trades : d'.tables.trades ≡ d.tables.trades ++ added
    pub ended : All (λ (t : Trade). t.status ≢ trade_pending_entry) added
    pub opened : opened_of r ≤ open_rows added

  Grown-Handled :
      (r : HandleSignalResult) (d x d' : Desk E)
      → x.tables.trades ≡ d.tables.trades
      → Grown r x.tables d'.tables
      → Handled r d d'
  Grown-Handled r d x d' same g = record {
    added = g.rows;
    trades = g.trades ∙ ap (λ ts. ts ++ g.rows) same;
    ended = g.ended;
    opened = g.opened;
  }

  found-Handled :
      (event_id : Text) (k : ℕ) (found : Option Signal) (r : HandleSignalResult) (d d' : Desk E)
      → IsFresh d.tables
      → handle_found E config rows bus event_id k found d ≡ (ok r, d')
      → Handled r d d'
  found-Handled event_id k none r d d' fresh e =
      Grown-Handled r d d d' refl (returned-Grown r _ d d' fresh refl e)
  found-Handled event_id k (some signal) r d d' fresh e =
      let x = record d { tables = (mark_event_processed event_id d.tables).1 } in
      let (same, keeps) = mark-trades event_id d.tables in
      Grown-Handled r d x d' same (first-Grown k signal _ r x d' (keeps fresh) e)

  -- When `handle_signal_created` returns, the trades are those from before and some new ones, none
  -- of which still waits for its entry, and at least as many of the new ones are open as the result
  -- says were opened; whatever the exchange and the bus answered or raised. The keys of the trades
  -- must be below the next key.
  pub handle_signal_created-Handled :
      (event_id : Text) (payload : PayloadValue) (r : HandleSignalResult) (d d' : Desk E)
      → IsFresh d.tables
      → handle_signal_created E config rows bus event_id payload d ≡ (ok r, d')
      → Handled r d d'
  unfolding handle_signal_created
  handle_signal_created-Handled event_id payload r d d' fresh = go (positive_int payload)
    where
      go : (id : Option ℕ) → handle_id E config rows bus event_id id d ≡ (ok r, d') → Handled r d d'
      go none e = Grown-Handled r d d d' refl (returned-Grown r _ d d' fresh refl e)
      go (some k) e = found-Handled event_id k _ r d d' fresh e

  again-found :
      (event_id : Text) (k : ℕ) (found : Option Signal) (tally : Tally) (d d' : Desk E)
      → IsFresh d.tables
      → handle_found E config rows bus event_id k found d ≡ (ok (processed tally), d')
      → handle_found E config rows bus event_id k found d' ≡ (ok (ignored duplicate_event), d')
  again-found event_id k none tally d d' fresh e = cc (ap (λ o. o.0) e)
  again-found event_id k (some signal) tally d d' fresh e =
      let x = record d { tables = (mark_event_processed event_id d.tables).1 } in
      let (same, keeps) = mark-trades event_id d.tables in
      let g = first-Grown k signal _ (processed tally) x d' (keeps fresh) e in
      let known = ap (any (text_eq event_id)) g.processed ∙ mark-known event_id d.tables in
      ap
        (λ (o : Bool × Tables).
          handle_first E config rows bus k signal o.0 (record d' { tables = o.1 }))
        (mark-again event_id d'.tables known)

  -- Handling an event again does nothing: once a run has gone through the users, a further run for
  -- the same event ignores it as a duplicate, and changes no table, no account on the exchange and
  -- publishes nothing. The keys of the trades must be below the next key.
  pub handle_signal_created-again :
      (event_id : Text) (payload : PayloadValue) (tally : Tally) (d d' : Desk E)
      → IsFresh d.tables
      → handle_signal_created E config rows bus event_id payload d ≡ (ok (processed tally), d')
      → handle_signal_created E config rows bus event_id payload d'
        ≡ (ok (ignored duplicate_event), d')
  unfolding handle_signal_created
  handle_signal_created-again event_id payload tally d d' fresh = go (positive_int payload)
    where
      go :
          (id : Option ℕ)
          → handle_id E config rows bus event_id id d ≡ (ok (processed tally), d')
          → handle_id E config rows bus event_id id d' ≡ (ok (ignored duplicate_event), d')
      go none e = cc (ap (λ o. o.0) e)
      go (some k) e = again-found event_id k _ tally d d' fresh e
