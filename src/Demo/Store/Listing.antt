-- ===== src/Demo/Store/Listing.antt =====
-- services/demo_engine/repository.py: the trades that `list_open_demo_trades_by_symbol` lists.
use mrrik_ai_bot.Prelude.{
  ℕ, ◌<◌, ◌≡◌, ◌≢◌, refl, Bool, true, ◌&&◌, List, [], ◌∷◌, some, arith, All, All-map, map, keep_if,
  if-holds, and_elim,
}
use mrrik_ai_bot.Prelude.Text.{Text, text_eq}
use mrrik_ai_bot.Demo.Store.{
  DemoTrade, TradeStatus, trade_open, trade_closed, Store, is_open, find_trade,
  list_open_demo_trades_by_symbol,
}
use mrrik_ai_bot.Demo.Store.Frames.{Rising}
use mrrik_ai_bot.Demo.Store.Frozen.{IsStore}
use mrrik_ai_bot.Demo.Store.Moves.{OpenTradeOf}

abbrev pub Distinct : List ℕ → Type 0
Distinct [] = Unit
Distinct (i ∷ is) = All (λ j. i ≢ j) is × Distinct is

abbrev OpenIn : List DemoTrade → ℕ → Type 0
OpenIn ts i = (t : DemoTrade) × (find_trade i ts ≡ some t) × (t.status ≡ trade_open)

open-status : (s : TradeStatus) → is_open s ≡ true → s ≡ trade_open
open-status trade_open h = refl
open-status trade_closed h = cc

abbrev id_of : DemoTrade → ℕ
id_of t = t.id

module _ (symbol : Text) where
  abbrev wanted : DemoTrade → Bool
  wanted t = text_eq t.symbol symbol && is_open t.status

  -- The listed keys are among the keys.
  listed-above :
      (k : ℕ) (ts : List DemoTrade)
      → All (λ (u : DemoTrade). k < u.id) ts
      → All (λ j. k < j) (map id_of (keep_if wanted ts))
  listed-above k [] h = tt
  listed-above k (t ∷ ts) h =
      if-holds (λ (us : List DemoTrade). All (λ j. k < j) (map id_of us)) (wanted t) _ _
        (λ _. (h.0, listed-above k ts h.1)) (λ _. listed-above k ts h.1)

  listed-Distinct :
      (n : ℕ) (ts : List DemoTrade) → Rising n ts → Distinct (map id_of (keep_if wanted ts))
  listed-Distinct n [] h = tt
  listed-Distinct n (t ∷ ts) h =
      if-holds (λ (us : List DemoTrade). Distinct (map id_of us)) (wanted t) _ _
        (λ _. (
          All-map _ (λ j l. omega (arith, l)) (listed-above t.id ts h.1),
          listed-Distinct n ts h.2,
        ))
        (λ _. listed-Distinct n ts h.2)

  OpenIn-later :
      (t : DemoTrade) (ts : List DemoTrade) (j : ℕ) → t.id < j → OpenIn ts j → OpenIn (t ∷ ts) j
  unfolding find_trade
  OpenIn-later t ts j l (u, found, h) = (u, ground (arith, found), h)

  listed-Open :
      (n : ℕ) (ts : List DemoTrade) → Rising n ts → All (OpenIn ts) (map id_of (keep_if wanted ts))
  unfolding find_trade
  listed-Open n [] h = tt
  listed-Open n (t ∷ ts) h =
      let later =
        later_all (map id_of (keep_if wanted ts)) (listed-above t.id ts h.1)
          (listed-Open n ts h.2) in
      if-holds (λ (us : List DemoTrade). All (OpenIn (t ∷ ts)) (map id_of us)) (wanted t) _ _
        (λ passes. (
          (t, ground arith, open-status t.status (and_elim (text_eq t.symbol symbol) _ passes).1),
          later,
        ))
        (λ _. later)
    where
      later_all :
          (js : List ℕ) → All (λ j. t.id < j) js → All (OpenIn ts) js → All (OpenIn (t ∷ ts)) js
      later_all [] l o = tt
      later_all (j ∷ js) l o = (OpenIn-later t ts j l.0 o.0, later_all js l.1 o.1)

  pub list_open_demo_trades-Open :
      (s : Store)
      → IsStore s
      → All (λ i. OpenTradeOf i s) (list_open_demo_trades_by_symbol symbol s)
  unfolding list_open_demo_trades_by_symbol
  list_open_demo_trades-Open s h = listed-Open s.next_trade_id s.trades h.keys

  pub list_open_demo_trades-Distinct :
      (s : Store) → IsStore s → Distinct (list_open_demo_trades_by_symbol symbol s)
  unfolding list_open_demo_trades_by_symbol
  list_open_demo_trades-Distinct s h = listed-Distinct s.next_trade_id s.trades h.keys
