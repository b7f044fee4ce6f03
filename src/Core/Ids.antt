-- ===== src/Core/Ids.antt =====
-- services/core_engine/ids.py. An id is the list of its code points.
pub mod Injective
pub mod Bounds
use mrrik_ai_bot.Prelude.{
  ℕ, ◌+◌, ◌≤◌, ◌<◌, Bool, true, false, not, ◌&&◌, ◌||◌, List, [], ◌∷◌, ◌++◌, Option, none, some,
  Result, ok, err, ◌>>=◌, ◌>>◌, raise_if, ltb, leb, ◌==◌, length, all,
}
use mrrik_ai_bot.Prelude.Text.{Text, codes, print}

-- `_PURPOSES`: a purpose outside of the set is refused by the type.
pub data Purpose : Type 0 where
  entry sl tp be_sl model3_exit close emergency_close : Purpose

-- `_PURPOSE_TOKENS.get(purpose, purpose)`
unfoldable pub purpose_token : Purpose → Text
purpose_token entry = codes "entry"
purpose_token sl = codes "sl"
purpose_token tp = codes "tp"
purpose_token be_sl = codes "be_sl"
purpose_token model3_exit = codes "model3_exit"
purpose_token close = codes "close"
purpose_token emergency_close = codes "emergency"

abbrev pub max_id_length : ℕ
max_id_length = 36

-- `[A-Za-z0-9_-]`
unfoldable pub is_safe : ℕ → Bool
is_safe c =
    (leb b'A' c && leb c b'Z')
    || (leb b'a' c && leb c b'z')
    || (leb b'0' c && leb c b'9')
    || c == b'_'
    || c == b'-'

abbrev pub leg_suffix : Option ℕ → Text
leg_suffix none = []
leg_suffix (some leg) = b'-' ∷ print leg

-- The text of an id, before its checks.
unfoldable pub id_text : ℕ → Purpose → Option ℕ → Text
id_text trade_id purpose leg_index =
    codes "m7" ++ b'-' ∷ (print trade_id ++ b'-' ∷ (purpose_token purpose ++ leg_suffix leg_index))

abbrev pub needs_leg : Purpose → Option ℕ → Bool
needs_leg tp none = true
needs_leg _ _ = false

abbrev pub leg_is_zero : Option ℕ → Bool
leg_is_zero none = false
leg_is_zero (some leg) = leg == 0

-- `client_order_id(trade_id, purpose, leg_index)`
unfoldable pub client_order_id : ℕ → Purpose → Option ℕ → Result Text
client_order_id trade_id purpose leg_index = do
  raise_if (trade_id == 0) "trade_id must be positive"
  raise_if (needs_leg purpose leg_index) "TP order ids require leg_index"
  raise_if (leg_is_zero leg_index) "leg_index must be positive"
  raise_if (ltb max_id_length (length (id_text trade_id purpose leg_index)))
      "trade id is too long for a Binance client order id"
  raise_if (not (all is_safe (id_text trade_id purpose leg_index)))
      "client order id contains an unsafe character"
  ok (id_text trade_id purpose leg_index)
