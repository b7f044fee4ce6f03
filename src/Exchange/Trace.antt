-- ===== src/Exchange/Trace.antt =====
-- What an action adds to the calls made so far.
use mrrik_ai_bot.Prelude.{ℕ, ◌≡◌, refl, ap, sym, ◌∙◌, List, [], ◌∷◌, ◌++◌, All, All-append, All-map}
use mathlib.Core.List.{append_assoc}
use mrrik_ai_bot.Exchange.{Exchange, World, Call, call, sleep}

module _ (E : Exchange) where
  -- Only calls of the given kind were made from the first world to the second.
  pub record Adds (P : Call → Type 0) (v w : World E) : Type 0 where
    pub made : List Call
    pub is_history : w.calls ≡ made ++ v.calls
    pub kinds : All P made

  module _ (P : Call → Type 0) where
    pub Adds-refl : (w : World E) → Adds P w w
    Adds-refl w = record { made = []; is_history = refl; kinds = tt }

    pub Adds-trans : (u v w : World E) → Adds P u v → Adds P v w → Adds P u w
    Adds-trans u v w p q = record {
      made = q.made ++ p.made;
      is_history =
          q.is_history
          ∙ ap (λ l. q.made ++ l) p.is_history
          ∙ sym (append_assoc q.made p.made u.calls);
      kinds = All-append P q.made p.made q.kinds p.kinds;
    }

    pub call-Adds : (c : Call) (w : World E) → P c → Adds P w (call E c w).1
    unfolding call
    call-Adds c w p = record { made = c ∷ []; is_history = refl; kinds = (p, tt) }

    -- A pause makes no call.
    pub sleep-Adds : (ms : ℕ) (v w : World E) → Adds P v w → Adds P v (sleep E ms w)
    unfolding sleep
    sleep-Adds ms v w p = record { made = p.made; is_history = p.is_history; kinds = p.kinds }

  pub Adds-weaken :
      (P Q : Call → Type 0) (v w : World E) → ((c : Call) → P c → Q c) → Adds P v w → Adds Q v w
  Adds-weaken P Q v w f p = record {
    made = p.made;
    is_history = p.is_history;
    kinds = All-map p.made f p.kinds;
  }
