-- ===== src/Core/Ids/Injective.antt =====
-- services/core_engine/ids.py: two orders of the bot never share a client order id.
use mrrik_ai_bot.Prelude.{
  ℕ, ◌≡◌, ◌≢◌, refl, ap, sym, ◌∙◌, [], ◌∷◌, ◌++◌, Option, none, some, ok, arith, ◌==◌,
  if◌then◌else◌,
}
use mathlib.Core.List.{append-nil, append_cancel_left}
use mrrik_ai_bot.Prelude.Text.{Text, codes, print, print-injective, AllDigits, print-AllDigits}
use mrrik_ai_bot.Core.Ids.{
  Purpose, entry, sl, tp, be_sl, model3_exit, close, emergency_close, purpose_token, leg_suffix,
  id_text, client_order_id,
}

-- The text up to the first dash, and what stands behind it.
cut : Text → Text × Text
cut [] = ([], [])
cut (c ∷ s) = if c == b'-' then ([], s) else (let (a, b) = cut s in (c ∷ a, b))

abbrev NoDash : Text → Type 0
NoDash [] = Unit
NoDash (c ∷ s) = (c ≢ b'-') × NoDash s

cut-append : (a b : Text) → NoDash a → cut (a ++ b'-' ∷ b) ≡ (a, b)
unfolding cut
cut-append [] b h = refl
cut-append (c ∷ a) b h = ground (arith, cut-append a b h.1)

cut-all : (a : Text) → NoDash a → cut a ≡ (a, [])
unfolding cut
cut-all [] h = refl
cut-all (c ∷ a) h = ground (arith, cut-all a h.1)

AllDigits→NoDash : (a : Text) → AllDigits a → NoDash a
AllDigits→NoDash [] h = tt
AllDigits→NoDash (c ∷ a) h = (omega arith, AllDigits→NoDash a h.1)

purpose_token-NoDash : (p : Purpose) → NoDash (purpose_token p)
unfolding purpose_token
purpose_token-NoDash entry = omega arith
purpose_token-NoDash sl = omega arith
purpose_token-NoDash _ = omega arith

-- Reading a token back.
purpose_of : Text → Option Purpose
purpose_of (a ∷ b ∷ []) = if a == b's' then some sl else some tp
purpose_of (a ∷ b ∷ c ∷ d ∷ e ∷ []) =
    if a == b'e' then some entry else if a == b'b' then some be_sl else some close
purpose_of (a ∷ b ∷ c ∷ d ∷ e ∷ f ∷ s) =
    if a == b'm' then some model3_exit else some emergency_close
purpose_of _ = none

purpose_of-token : (p : Purpose) → purpose_of (purpose_token p) ≡ some p
unfolding purpose_of purpose_token
purpose_of-token entry = refl
purpose_of-token sl = refl
purpose_of-token _ = refl

leg_suffix-injective : (l k : Option ℕ) → leg_suffix l ≡ leg_suffix k → l ≡ k
leg_suffix-injective none none e = refl
leg_suffix-injective none (some k) e = cc
leg_suffix-injective (some l) none e = cc
leg_suffix-injective (some l) (some k) e = ap some (print-injective l k (cc))

cut-token :
    (p : Purpose) (l : Option ℕ) → (cut (purpose_token p ++ leg_suffix l)).0 ≡ purpose_token p
cut-token p none =
    rw append-nil (ap (λ c. c.0) (cut-all (purpose_token p) (purpose_token-NoDash p)))
cut-token p (some k) =
    ap (λ c. c.0) (cut-append (purpose_token p) (print k) (purpose_token-NoDash p))

purpose-injective :
    (p q : Purpose) (l k : Option ℕ)
    → purpose_token p ++ leg_suffix l ≡ purpose_token q ++ leg_suffix k
    → p ≡ q
purpose-injective p q l k e = cc (
  ap (λ s. purpose_of (cut s).0) e,
  ap purpose_of (cut-token p l),
  ap purpose_of (cut-token q k),
  purpose_of-token p,
  purpose_of-token q,
)

token_and_leg-injective :
    (p q : Purpose) (l k : Option ℕ)
    → purpose_token p ++ leg_suffix l ≡ purpose_token q ++ leg_suffix k
    → (p ≡ q) × (l ≡ k)
token_and_leg-injective p q l k e =
    let same = purpose-injective p q l k e in
    (
      same,
      leg_suffix-injective l k
          (append_cancel_left (purpose_token q) (leg_suffix l) (leg_suffix k) (rw same at e)),
    )

id_text-injective :
    (t u : ℕ) (p q : Purpose) (l k : Option ℕ)
    → id_text t p l ≡ id_text u q k
    → (t ≡ u) × (p ≡ q) × (l ≡ k)
unfolding id_text
id_text-injective t u p q l k e =
    let tail = append_cancel_left (codes "m7-") _ _ e in
    let cut_t =
      cut-append (print t) (purpose_token p ++ leg_suffix l)
        (AllDigits→NoDash _ (print-AllDigits t)) in
    let cut_u =
      cut-append (print u) (purpose_token q ++ leg_suffix k)
        (AllDigits→NoDash _ (print-AllDigits u)) in
    let same = ap cut tail in
    let rest =
      token_and_leg-injective p q l k
        (cc (ap (λ c. c.1) same, ap (λ c. c.1) cut_t, ap (λ c. c.1) cut_u)) in
    (
      print-injective t u (cc (ap (λ c. c.0) same, ap (λ c. c.0) cut_t, ap (λ c. c.0) cut_u)),
      rest.0,
      rest.1,
    )

client_order_id-text :
    (t : ℕ) (p : Purpose) (l : Option ℕ) (id : Text)
    → client_order_id t p l ≡ ok id
    → id_text t p l ≡ id
unfolding client_order_id
client_order_id-text t p l id e = ground arith

-- Orders that differ in their trade, their purpose or their leg have different ids.
pub client_order_id-injective :
    (t u : ℕ) (p q : Purpose) (l k : Option ℕ) (id : Text)
    → client_order_id t p l ≡ ok id
    → client_order_id u q k ≡ ok id
    → (t ≡ u) × (p ≡ q) × (l ≡ k)
client_order_id-injective t u p q l k id e f =
    id_text-injective t u p q l k
      (client_order_id-text t p l id e ∙ sym (client_order_id-text u q k id f))
