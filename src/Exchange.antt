-- ===== src/Exchange.antt =====
-- shared/exchange: the operations of `ExchangeClient` (client.py) and its types (types.py), and the
-- side mappings of binance.py. What stands behind the client, the exchange and its network, is the
-- parameter `Exchange`: a state, the outcome of each call, and the passing of time. A call may
-- raise. A world is that state with every call made so far, the latest first.
pub mod Action
pub mod Trace
use mrrik_ai_bot.Prelude.{ℕ, Bool, String, List, ◌∷◌, Option, Result, ok, err, any}
use mrrik_ai_bot.Prelude.Text.{Text, text_eq}
use mrrik_ai_bot.Decimal.{Decimal}
use mrrik_ai_bot.Signal.Types.{SignalSide, long, short}
use mrrik_ai_bot.Signal.Sizing.{SymbolFilters}

pub data OrderSide : Type 0 where
  buy sell : OrderSide

pub data OrderStatus : Type 0 where
  new partially_filled filled canceled expired rejected : OrderStatus

pub record ExchangeOrder : Type 0 where
  pub client_order_id : Text
  pub status : OrderStatus

pub record PositionSnapshot : Type 0 where
  pub qty : Decimal
  pub mark_price : Option Decimal

-- `to_binance_order_side(trade_side, action)`
pub data SideAction : Type 0 where
  to_open to_close : SideAction

unfoldable pub to_binance_order_side : SignalSide → SideAction → OrderSide
to_binance_order_side long to_open = buy
to_binance_order_side long to_close = sell
to_binance_order_side short to_open = sell
to_binance_order_side short to_close = buy

-- `to_binance_position_side(trade_side)` is the side itself.
unfoldable pub to_binance_position_side : SignalSide → SignalSide
to_binance_position_side side = side

-- An order of the bot, as far as all the placing calls share it.
pub record OrderRequest : Type 0 where
  pub symbol : String
  pub side : OrderSide
  pub position_side : SignalSide
  pub client_order_id : Text

pub data Call : Type 0 where
  verify_credentials : Call
  verify_withdrawals_disabled : Call
  get_usdt_balance : Call
  get_symbol_filters : String → Call
  set_leverage : String → ℕ → Call
  set_margin_type_isolated : String → Call
  place_entry_limit : OrderRequest → Decimal → Decimal → Call
  place_entry_market : OrderRequest → Decimal → Call
  place_stop_market : OrderRequest → Decimal → Decimal → Call
  place_take_profit_market : OrderRequest → Decimal → Decimal → Call
  close_position_market : OrderRequest → Option Decimal → Call
  cancel_order : String → Text → Call
  cancel_algo_order : Text → Call
  cancel_open_orders : String → Call
  cancel_all_algo_orders : String → Call
  get_position : String → SignalSide → Call
  get_open_orders : String → Call
  get_open_algo_orders : String → Call

abbrev pub Reply : Call → Type 0
Reply verify_credentials = Bool
Reply verify_withdrawals_disabled = Bool
Reply get_usdt_balance = Decimal
Reply (get_symbol_filters symbol) = SymbolFilters
Reply (get_position symbol side) = Option PositionSnapshot
Reply (get_open_orders symbol) = List ExchangeOrder
Reply (get_open_algo_orders symbol) = List ExchangeOrder
Reply (place_entry_limit r qty price) = ExchangeOrder
Reply (place_entry_market r qty) = ExchangeOrder
Reply (place_stop_market r qty price) = ExchangeOrder
Reply (place_take_profit_market r qty price) = ExchangeOrder
Reply (close_position_market r qty) = ExchangeOrder
Reply _ = Unit {0}

-- `pause ms` is `asyncio.sleep`, `now` reads `time.monotonic` in milliseconds, and `latest_mark` is
-- the price that the task watching the mark price stream has stored last.
pub record Exchange : Type 1 where
  pub State : Type 0
  pub perform : (c : Call) → State → Result (Reply c) × State
  pub pause : ℕ → State → State
  pub now : State → ℕ
  pub latest_mark : State → Option Decimal

pub record World (E : Exchange) : Type 0 where
  pub state : E.State
  pub calls : List Call

module _ (E : Exchange) where
  unfoldable pub call : (c : Call) → World E → Result (Reply c) × World E
  call c w = let (r, s) = E.perform c w.state in (r, record w { state = s; calls = c ∷ w.calls })

  unfoldable pub sleep : ℕ → World E → World E
  sleep ms w = record w { state = E.pause ms w.state }

-- `any(order.client_order_id == id for order in orders)`
abbrev pub is_listed : Text → List ExchangeOrder → Bool
is_listed id = any λ o. text_eq o.client_order_id id
