-- ===== src/Demo/Engine/Refines/NewSignals.antt =====
-- services/demo_engine/engine.py: `handle_signal_created` makes allowed moves.
use mrrik_ai_bot.Prelude.{
  ℕ, suc, ◌≡◌, refl, sym, ap, subst, Bool, true, false, List, [], ◌∷◌, Option, none, some, Result,
  ok, err, if-holds, length, ◌∙◌, inl, inr, Option-cases,
}
use mrrik_ai_bot.Decimal.{Decimal}
use mrrik_ai_bot.Exchange.Action.{Keeps, Steps, >>=-Steps, pure, >>=-at, >>=-Keeps}
use mrrik_ai_bot.Signal.Types.{SignalSide}
use mrrik_ai_bot.Demo.TradeLogic.Opening.{DemoOpenPlan}
use mrrik_ai_bot.Demo.Store.{
  DemoAccount, DemoTrade, Signal, has_open_demo_trade, create_open_demo_trade, opened_trade,
}
use mrrik_ai_bot.Demo.Store.Moves.{Reach, stay, one_move, opens}
use mrrik_ai_bot.Demo.Engine.{
  DemoEngineConfig, Rows, Bus, Event, World, DemoHandleResult, Message, demo_opened,
  demo_open_message, change, publish, notify, effective_leverage,
}
use mrrik_ai_bot.Demo.Engine.Signals.{
  PayloadValue, positive_int, get_signal_with_retry, readable_targets, Tally, no_rounds,
  count_round, announce_opened, open_and_announce, with_plan, unless_duplicate, open_one, open_all,
  open_readable, open_for, handle_signal, handle_id, handle_signal_created, round_opened, result_of,
}
use mrrik_ai_bot.Demo.Engine.Refines.{Moved, Moved-trans, publish-same, notify-same}

-- A row is found under its own key.
abbrev pub IsKeyed : Rows → Type 0
IsKeyed rows = (n k : ℕ) (signal : Signal) → rows.signals n k ≡ some signal → signal.id ≡ k

pub get_signal_with_retry-id :
    (rows : Rows) (keyed : IsKeyed rows) (delays : List ℕ) (n k : ℕ) (signal : Signal)
    → get_signal_with_retry rows n k delays ≡ some signal
    → signal.id ≡ k
unfolding get_signal_with_retry
get_signal_with_retry-id rows keyed [] n k signal e = keyed n k signal e
get_signal_with_retry-id rows keyed (d ∷ delays) n k signal e =
    elim (Option-cases (rows.signals n k)) [
      | inl missing ↦
          get_signal_with_retry-id rows keyed delays (suc n) k signal
            (rw (get_signal_with_retry, missing) at e)
      | inr (found, is_found) ↦
          keyed n k signal (is_found ∙ rw (get_signal_with_retry, is_found) at e)
    ]

publish-Moved : (bus : Bus) (e : Event) → Keeps Moved (publish bus e)
publish-Moved bus e w = subst (Reach w.store) (sym (publish-same bus e w)) stay

notify-Moved : (bus : Bus) (u : Option ℕ) (m : Message) → Keeps Moved (notify bus u m)
notify-Moved bus u m w = subst (Reach w.store) (sym (notify-same bus u m w)) stay

module _ (config : DemoEngineConfig) (rows : Rows) (bus : Bus) where
  announce_opened-Moved :
      (u : ℕ) (t : DemoTrade) → Steps Moved (announce_opened config rows bus u t)
  unfolding announce_opened
  announce_opened-Moved u t =
      >>=-Steps Moved-trans (publish bus (demo_opened t)) (publish-Moved bus (demo_opened t)) λ _.
        >>=-Steps Moved-trans (notify bus (rows.telegram_id u) (demo_open_message t))
          {k = λ _. pure round_opened} (notify-Moved bus (rows.telegram_id u) (demo_open_message t))
          λ _. record { at = λ w. stay }

  open_and_announce-Moved :
      (signal : Signal) (side : SignalSide) (u k : ℕ) (plan : DemoOpenPlan) (w : World)
      → signal.id ≡ k
      → has_open_demo_trade u k w.store ≡ false
      → Moved w (open_and_announce config rows bus signal side u plan w).1
  unfolding open_and_announce create_open_demo_trade opened_trade
  open_and_announce-Moved signal side u k plan w at none_open =
      let leverage = effective_leverage signal.leverage (rows.settings u) in
      let t = opened_trade w.store.next_trade_id u signal leverage side plan in
      >>=-at Moved Moved-trans (change (create_open_demo_trade u signal leverage side plan))
        (λ made. announce_opened config rows bus u made) w
        (one_move (opens u k t) w.store (refl, refl, ap some at, refl, none_open))
        λ made v e h. (announce_opened-Moved u made).at v

  with_plan-Moved :
      (signal : Signal) (side : SignalSide) (u k : ℕ) (plan : Result DemoOpenPlan) (w : World)
      → signal.id ≡ k
      → has_open_demo_trade u k w.store ≡ false
      → Moved w (with_plan config rows bus signal side u plan w).1
  with_plan-Moved signal side u k (err x) w at none_open = stay
  with_plan-Moved signal side u k (ok plan) w at none_open =
      open_and_announce-Moved signal side u k plan w at none_open

  open_one-Moved :
      (k : ℕ) (signal : Signal) (side : SignalSide) (targets : List Decimal) (u : ℕ)
      → signal.id ≡ k
      → Keeps Moved (open_one config rows bus k signal side targets u)
  unfolding open_one
  open_one-Moved k signal side targets u at w = go (has_open_demo_trade u k w.store) refl
    where
      go :
          (b : Bool)
          → has_open_demo_trade u k w.store ≡ b
          → Moved w (unless_duplicate config rows bus signal side targets u b w).1
      go true e = stay
      go false e = with_plan-Moved signal side u k _ w at e

  open_all-Moved :
      (k : ℕ) (signal : Signal) (side : SignalSide) (targets : List Decimal)
      (accounts : List DemoAccount) (tally : Tally)
      → signal.id ≡ k
      → Keeps Moved (open_all config rows bus k signal side targets accounts tally)
  unfolding open_all
  open_all-Moved k signal side targets [] tally at w = stay
  open_all-Moved k signal side targets (a ∷ accounts) tally at w =
      >>=-Keeps Moved Moved-trans (open_one config rows bus k signal side targets a.user_id)
        (λ round. open_all config rows bus k signal side targets accounts (count_round round tally))
        (open_one-Moved k signal side targets a.user_id at)
        (λ round. open_all-Moved k signal side targets accounts (count_round round tally) at) w

  open_readable-Moved :
      (k : ℕ) (signal : Signal) (accounts : List DemoAccount) (side : Option SignalSide)
      (targets : Option (List Decimal))
      → signal.id ≡ k
      → Keeps Moved (open_readable config rows bus k signal accounts side targets)
  open_readable-Moved k signal accounts none targets at w = stay
  open_readable-Moved k signal accounts (some side) none at w = stay
  open_readable-Moved k signal accounts (some side) (some targets) at w =
      >>=-Keeps Moved Moved-trans
        (open_all config rows bus k signal side targets accounts no_rounds)
        (λ tally. pure (result_of (length accounts) tally))
        (open_all-Moved k signal side targets accounts no_rounds at) (λ _ v. stay) w

  open_for-Moved :
      (k : ℕ) (signal : Signal) (accounts : List DemoAccount)
      → signal.id ≡ k
      → Keeps Moved (open_for config rows bus k signal accounts)
  open_for-Moved k signal [] at w = stay
  open_for-Moved k signal (a ∷ accounts) at w =
      open_readable-Moved k signal (a ∷ accounts) signal.side
        (readable_targets signal.targets_clean) at w

  handle_signal-Moved :
      (k : ℕ) (found : Option Signal)
      → ((signal : Signal) → found ≡ some signal → signal.id ≡ k)
      → Keeps Moved (handle_signal config rows bus k found)
  handle_signal-Moved k none at w = stay
  handle_signal-Moved k (some signal) at w =
      if-holds (λ (o : Result DemoHandleResult × World). Moved w o.1) signal.is_accepted _ _
        (λ _. open_for-Moved k signal w.store.accounts (at signal refl) w) λ _. stay

  pub handle_signal_created-Moved :
      (payload : PayloadValue)
      → IsKeyed rows
      → Keeps Moved (handle_signal_created config rows bus payload)
  unfolding handle_signal_created
  handle_signal_created-Moved payload keyed = go (positive_int payload)
    where
      go : (id : Option ℕ) → Keeps Moved (handle_id config rows bus id)
      go none w = stay
      go (some k) w =
          handle_signal-Moved k _
            (get_signal_with_retry-id rows keyed config.signal_lookup_retry_delays 0 k) w
