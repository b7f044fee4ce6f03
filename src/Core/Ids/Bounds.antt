-- ===== src/Core/Ids/Bounds.antt =====
-- services/core_engine/ids.py: no trade of the database is refused an id.
use mrrik_ai_bot.Prelude.{
  ℕ, ◌^◌, ◌≤◌, ◌<◌, ◌≡◌, refl, true, false, [], ◌∷◌, ◌++◌, Option, none, some, ok, arith, length,
  length-append, all,
}
use mrrik_ai_bot.Prelude.Text.{Text, print, length-print, AllDigits, print-AllDigits}
use mrrik_ai_bot.Core.Ids.{
  Purpose, entry, purpose_token, is_safe, leg_suffix, needs_leg, leg_is_zero, max_id_length,
  id_text, client_order_id,
}

all-append :
    (a b : Text) → all is_safe a ≡ true → all is_safe b ≡ true → all is_safe (a ++ b) ≡ true
all-append [] b h k = k
all-append (x ∷ a) b h k = ground (arith, all-append a b)

AllDigits-safe : (a : Text) → AllDigits a → all is_safe a ≡ true
unfolding is_safe
AllDigits-safe [] h = refl
AllDigits-safe (x ∷ a) h = ground (arith, AllDigits-safe a h.1)

purpose_token-safe : (p : Purpose) → all is_safe (purpose_token p) ≡ true
unfolding purpose_token is_safe
purpose_token-safe entry = refl
purpose_token-safe _ = refl

leg_suffix-safe : (l : Option ℕ) → all is_safe (leg_suffix l) ≡ true
unfolding is_safe
leg_suffix-safe none = refl
leg_suffix-safe (some k) = AllDigits-safe (print k) (print-AllDigits k)

-- Every id is made of characters that the exchange takes.
pub id_text-safe : (t : ℕ) (p : Purpose) (l : Option ℕ) → all is_safe (id_text t p l) ≡ true
unfolding id_text is_safe
id_text-safe t p l =
    all-append (print t) _ (AllDigits-safe (print t) (print-AllDigits t))
      (all-append (purpose_token p) (leg_suffix l) (purpose_token-safe p) (leg_suffix-safe l))

length-purpose_token : (p : Purpose) → length (purpose_token p) ≤ 11
unfolding purpose_token
length-purpose_token entry = omega arith
length-purpose_token _ = omega arith

-- Legs are numbered below 100.
abbrev pub LegBelow : Option ℕ → Type 0
LegBelow none = Unit
LegBelow (some k) = (0 < k) × (k < 100)

length-leg_suffix : (l : Option ℕ) → LegBelow l → length (leg_suffix l) ≤ 3
length-leg_suffix none h = omega arith
length-leg_suffix (some k) h = omega (arith, length-print k 1 h.1)

length-id_text :
    (t : ℕ) (p : Purpose) (l : Option ℕ)
    → t < 10 ^ 18
    → LegBelow l
    → length (id_text t p l) ≤ max_id_length
unfolding id_text
length-id_text t p l h k = omega (
  arith,
  length-append (print t) (b'-' ∷ (purpose_token p ++ leg_suffix l)),
  length-append (purpose_token p) (leg_suffix l),
  length-print t 17 h,
  length-purpose_token p,
  length-leg_suffix l k,
)

leg-positive : (l : Option ℕ) → LegBelow l → leg_is_zero l ≡ false
leg-positive none h = refl
leg-positive (some k) h = ground arith

passes :
    (t : ℕ) (p : Purpose) (l : Option ℕ)
    → 0 < t
    → leg_is_zero l ≡ false
    → needs_leg p l ≡ false
    → length (id_text t p l) ≤ max_id_length
    → all is_safe (id_text t p l) ≡ true
    → client_order_id t p l ≡ ok (id_text t p l)
unfolding client_order_id
passes t p l pos leg given fits safe = ground arith

-- For a positive trade id of at most 18 digits and a leg below 100, given where the order is a
-- take-profit, an id is made, and it is never longer than the exchange allows.
pub client_order_id-total :
    (t : ℕ) (p : Purpose) (l : Option ℕ)
    → 0 < t
    → t < 10 ^ 18
    → LegBelow l
    → needs_leg p l ≡ false
    → (id : Text) × (client_order_id t p l ≡ ok id)
      × (length id ≤ max_id_length)
      × (all is_safe id ≡ true)
client_order_id-total t p l pos small leg given =
    let fits = length-id_text t p l small leg in
    let made = passes t p l pos (leg-positive l leg) given fits (id_text-safe t p l) in
    (id_text t p l, made, fits, id_text-safe t p l)
