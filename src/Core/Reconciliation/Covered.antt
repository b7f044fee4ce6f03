-- ===== src/Core/Reconciliation/Covered.antt =====
-- services/core_engine/reconciliation.py: the orders that repairing a trade looks for or places.
use mrrik_ai_bot.Prelude.{
  ◌≡◌, refl, ap, ◌⊎◌, inl, inr, Bool, true, false, List, [], ◌∷◌, none, ok, All, subst,
  if◌then◌else◌,
}
use mrrik_ai_bot.Prelude.Text.{Text}
use mrrik_ai_bot.Decimal.{of_ℕ, lt}
use mrrik_ai_bot.Exchange.{Exchange, World, Call, Reply, ExchangeOrder, call, is_listed}
use mrrik_ai_bot.Exchange.Action.{pure, lift, >>=-ok, ◌>>◌}
use mrrik_ai_bot.Exchange.Trace.{Adds, Adds-refl, Adds-trans}
use mrrik_ai_bot.Core.Ids.{Purpose, client_order_id}
use mrrik_ai_bot.Core.Trades.{Trade, TradeLeg, LegStatus, leg_open, set_trade_sl_order}
use mrrik_ai_bot.Core.Repository.{set_leg_tp_order}
use mrrik_ai_bot.Core.Lifecycle.{remaining_qty}
use mrrik_ai_bot.Core.Reconciliation.{
  stop_id, leg_id, stop_call, leg_call, Bench, on_exchange, note, place_stop, repair_stop,
  place_leg, repair_leg, is_open, repair_legs,
}
use mrrik_ai_bot.Core.Reconciliation.Quiet.{Repairing, repair_legs-Quiet}

module _ (E : Exchange) where
  -- The exchange accepted the call, and since then nothing was canceled.
  pub record Accepted (c : Call) (w : World E) : Type 0 where
    pub before : World E
    pub reply : Reply c
    pub after : World E
    pub answer : call E c before ≡ (ok reply, after)
    pub since : Adds E Repairing after w

  later : (c : Call) (v w : World E) → Accepted c v → Adds E Repairing v w → Accepted c w
  later c v w a p = record {
    before = a.before;
    reply = a.reply;
    after = a.after;
    answer = a.answer;
    since = Adds-trans E Repairing a.after v w a.since p;
  }

  -- The take-profit of a leg is among the orders, or the exchange accepted it.
  pub record LegCovered (t : Trade) (orders : List ExchangeOrder) (w : World E) (leg : TradeLeg)
      : Type 0 where
    pub id : Text
    pub is_its_id : leg_id t.id leg ≡ ok id
    pub covered : (is_listed id orders ≡ true) ⊎ Accepted (leg_call t leg id) w

  -- The same of each leg that is open.
  abbrev pub LegsCovered : Trade → List ExchangeOrder → World E → List TradeLeg → Type 0
  LegsCovered t orders w = All λ leg. leg.status ≡ leg_open → LegCovered t orders w leg

  leg-later :
      (t : Trade) (orders : List ExchangeOrder) (v w : World E) (leg : TradeLeg)
      → LegCovered t orders v leg
      → Adds E Repairing v w
      → LegCovered t orders w leg
  leg-later t orders v w leg c p = record {
    id = c.id;
    is_its_id = c.is_its_id;
    covered = elim c.covered [ inl l ↦ inl l | inr a ↦ inr (later _ v w a p) ];
  }

  -- A call and the note of it in the database that returned.
  then_note-Accepted :
      (c : Call) (f : Trade → Trade) (b : Bench E) (v : Bench E)
      → (on_exchange E (call E c) >> note E f) b ≡ (ok tt, v)
      → Accepted c v.world
  then_note-Accepted c f b v e =
      let (o, x, called, noted) = >>=-ok (on_exchange E (call E c)) (λ _. note E f) b tt v e in
      record {
        before = b.world;
        reply = o;
        after = x.world;
        answer = ap (λ p. (p.0, p.1.world)) called;
        since =
            subst (λ w. Adds E Repairing x.world w) (ap (λ p. p.1.world) noted)
              (Adds-refl E Repairing x.world);
      }

  place_leg-Accepted :
      (t : Trade) (leg : TradeLeg) (id : Text) (b v : Bench E)
      → place_leg E t leg id b ≡ (ok tt, v)
      → Accepted (leg_call t leg id) v.world
  unfolding place_leg
  place_leg-Accepted t leg id b v e =
      then_note-Accepted (leg_call t leg id) (set_leg_tp_order leg.leg_index id) b v e

  listed_or_placed :
      (t : Trade) (orders : List ExchangeOrder) (leg : TradeLeg) (id : Text) (c : Bool)
      → is_listed id orders ≡ c
      → (b v : Bench E) → (if c then pure tt else place_leg E t leg id) b ≡ (ok tt, v)
      → (is_listed id orders ≡ true) ⊎ Accepted (leg_call t leg id) v.world
  listed_or_placed t orders leg id true l b v e = inl l
  listed_or_placed t orders leg id false l b v e = inr (place_leg-Accepted t leg id b v e)

  repair_leg-LegCovered :
      (t : Trade) (orders : List ExchangeOrder) (leg : TradeLeg) (b v : Bench E)
      → repair_leg E t orders leg b ≡ (ok tt, v)
      → LegCovered t orders v.world leg
  unfolding repair_leg
  repair_leg-LegCovered t orders leg b v e =
      let (id, x, given, went_on) =
        >>=-ok (lift (leg_id t.id leg))
          (λ id. if is_listed id orders then pure tt else place_leg E t leg id) b tt v e in
      record {
        id = id;
        is_its_id = ap (λ p. p.0) given;
        covered = listed_or_placed t orders leg id (is_listed id orders) refl x v went_on;
      }

  turn-LegCovered :
      (t : Trade) (orders : List ExchangeOrder) (leg : TradeLeg) (s : LegStatus) (b v : Bench E)
      → (if is_open E s then repair_leg E t orders leg else pure tt) b ≡ (ok tt, v)
      → s ≡ leg_open
      → LegCovered t orders v.world leg
  turn-LegCovered t orders leg s b v e o =
      repair_leg-LegCovered t orders leg b v (
        subst (λ s. (if is_open E s then repair_leg E t orders leg else pure tt) b ≡ (ok tt, v)) o
          e)

  pub repair_legs-LegsCovered :
      (t : Trade) (orders : List ExchangeOrder) (legs : List TradeLeg) (b v : Bench E)
      → repair_legs E t orders legs b ≡ (ok tt, v)
      → LegsCovered t orders v.world legs
  unfolding repair_legs
  repair_legs-LegsCovered t orders [] b v e = tt
  repair_legs-LegsCovered t orders (leg ∷ legs) b v e =
      let (u, x, turned, rest) =
        >>=-ok (if is_open E leg.status then repair_leg E t orders leg else pure tt)
          (λ _. repair_legs E t orders legs) b tt v e in
      (
        λ o.
            leg-later t orders x.world v.world leg
              (turn-LegCovered t orders leg leg.status b x turned o)
              (subst (λ w. Adds E Repairing x.world w) (ap (λ p. p.1.world) rest)
                (repair_legs-Quiet E t orders legs x).calls),
        repair_legs-LegsCovered t orders legs x v rest,
      )

  -- The stop loss was placed, at the entry if it is the break-even stop of the trade.
  pub record StopPlaced (t : Trade) (id : Text) (w : World E) : Type 0 where
    pub be_id : Text
    pub is_break_even : client_order_id t.id Purpose.be_sl none ≡ ok be_id
    pub accepted : Accepted (stop_call t be_id id) w

  -- The stop loss is among the orders, or it was placed.
  pub record StopCovered (t : Trade) (orders : List ExchangeOrder) (w : World E) : Type 0 where
    pub id : Text
    pub is_its_id : stop_id t ≡ ok id
    pub covered : (is_listed id orders ≡ true) ⊎ StopPlaced t id w

  place_stop-StopPlaced :
      (t : Trade) (id : Text) (b v : Bench E)
      → place_stop E t id b ≡ (ok tt, v)
      → StopPlaced t id v.world
  unfolding place_stop
  place_stop-StopPlaced t id b v e =
      let (be_id, x, given, went_on) =
        >>=-ok (lift (client_order_id t.id Purpose.be_sl none))
          (λ be_id.
            on_exchange E (call E (stop_call t be_id id))
            >> note E (λ trade. set_trade_sl_order trade id))
          b tt v e in
      record {
        be_id = be_id;
        is_break_even = ap (λ p. p.0) given;
        accepted =
            then_note-Accepted (stop_call t be_id id) (λ trade. set_trade_sl_order trade id) x v
              went_on;
      }

  stop_listed_or_placed :
      (t : Trade) (orders : List ExchangeOrder) (id : Text) (c left : Bool)
      → is_listed id orders ≡ c
      → (b v : Bench E)
      → (if c then pure tt else if left then place_stop E t id else pure tt) b ≡ (ok tt, v)
      → left ≡ true
      → (is_listed id orders ≡ true) ⊎ StopPlaced t id v.world
  stop_listed_or_placed t orders id true left l b v e h = inl l
  stop_listed_or_placed t orders id false true l b v e h = inr (place_stop-StopPlaced t id b v e)
  stop_listed_or_placed t orders id false false l b v e h = cc

  pub repair_stop-StopCovered :
      (t : Trade) (orders : List ExchangeOrder) (b v : Bench E)
      → repair_stop E t orders b ≡ (ok tt, v)
      → lt (of_ℕ 0) (remaining_qty t) ≡ true
      → StopCovered t orders v.world
  unfolding repair_stop
  repair_stop-StopCovered t orders b v e h =
      let (id, x, given, went_on) =
        >>=-ok (lift (stop_id t))
          (λ id.
            if is_listed id orders
            then pure tt
            else if lt (of_ℕ 0) (remaining_qty t)
            then place_stop E t id
            else pure tt)
          b tt v e in
      record {
        id = id;
        is_its_id = ap (λ p. p.0) given;
        covered =
            stop_listed_or_placed t orders id (is_listed id orders) (lt (of_ℕ 0) (remaining_qty t))
              refl x v went_on h;
      }

  pub stop-later :
      (t : Trade) (orders : List ExchangeOrder) (v w : World E)
      → StopCovered t orders v
      → Adds E Repairing v w
      → StopCovered t orders w
  stop-later t orders v w c p = record {
    id = c.id;
    is_its_id = c.is_its_id;
    covered = elim c.covered [
      | inl l ↦ inl l
      | inr s ↦ inr (record {
        be_id = s.be_id;
        is_break_even = s.is_break_even;
        accepted = later _ v w s.accepted p;
      })
    ];
  }
