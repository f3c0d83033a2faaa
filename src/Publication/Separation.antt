-- ===== src/Publication/Separation.antt =====
-- The parts of an idempotency key (publication_seed.py) can be told apart.
use mathlib.Core.Path.{subst}
use agent00x.Prelude.{
  ℕ, Text, text, true, Option, none, some, List, [], ◌∷◌, ◌++◌, ok, ◌≡◌, ◌≢◌, refl, arith,
  bind_returns, ok_injective, Bool-cases, inl, inr, ap, sym, ◌∙◌, remove_prefix,
}
use agent00x.Digests.Encoding.{utf8}
use agent00x.Publication.Keys.{publication_idempotency_key, branch_namespace}
use agent00x.Publication.Percent.{
  quote, quoted_or_raise, quote_bytes, quote_byte, unreserved, upper_hex,
}

-- No code point of the text is a `/`.
data Slashless : Text → Type 0 where
  nil : Slashless []
  cons : {c : ℕ} {s : Text} → c ≢ 47 → Slashless s → Slashless (c ∷ s)

Slashless-++ : {s t : Text} → Slashless s → Slashless t → Slashless (s ++ t)
Slashless-++ nil ht = ht
Slashless-++ (cons h hs) ht = cons h (Slashless-++ hs ht)

upper_hex-slashless : (n : ℕ) → upper_hex n ≢ 47
unfolding upper_hex
upper_hex-slashless n = ground arith

unreserved-slashless : (b : ℕ) → unreserved b ≡ true → b ≢ 47
unfolding unreserved
unreserved-slashless b h = ground arith

quote_byte-Slashless : (b : ℕ) → Slashless (quote_byte b)
unfolding quote_byte
quote_byte-Slashless b = elim (Bool-cases (unreserved b)) [
  | inl h ↦ rw h (cons (unreserved-slashless b h) nil)
  | inr h ↦
      rw h (cons (ground arith) (cons (upper_hex-slashless _) (cons (upper_hex-slashless _) nil)))
]

quote_bytes-Slashless : (bs : List ℕ) → Slashless (quote_bytes bs)
unfolding quote_bytes
quote_bytes-Slashless [] = nil
quote_bytes-Slashless (b ∷ bs) = Slashless-++ (quote_byte-Slashless b) (quote_bytes-Slashless bs)

quoted-Slashless : (bytes : Option (List ℕ)) (q : Text) → quoted_or_raise bytes ≡ ok q → Slashless q
unfolding quoted_or_raise
quoted-Slashless none q h = cc
quoted-Slashless (some bytes) q h =
    subst Slashless (ok_injective _ _ h) (quote_bytes-Slashless bytes)

quote-Slashless : (s q : Text) → quote s ≡ ok q → Slashless q
unfolding quote
quote-Slashless s q h = quoted-Slashless (utf8 s) q h

head_of : Text → ℕ
head_of [] = 0
head_of (c ∷ s) = c

tail_of : Text → Text
tail_of [] = []
tail_of (c ∷ s) = s

∷-equal : {c d : ℕ} {s t : Text} → c ≡ d → s ≡ t → c ∷ s ≡ d ∷ t
∷-equal h h' = cc

-- A text is cut in one way at its first `/`.
cut_once :
    (a b s t : Text) → Slashless a → Slashless b → a ++ 47 ∷ s ≡ b ++ 47 ∷ t → (a ≡ b) × (s ≡ t)
unfolding head_of tail_of
cut_once [] [] s t nil nil h = (refl, ap tail_of h)
cut_once [] (c ∷ b) s t nil (cons hc hb) h = absurd (hc (sym (ap head_of h)))
cut_once (c ∷ a) [] s t (cons hc ha) nil h = absurd (hc (ap head_of h))
cut_once (c ∷ a) (d ∷ b) s t (cons hc ha) (cons hd hb) h =
    let (e, e') = cut_once a b s t ha hb (ap tail_of h) in (∷-equal (ap head_of h) e, e')

past_prefix : {s t : Text} → text "publish/" ++ s ≡ text "publish/" ++ t → s ≡ t
unfolding text tail_of
past_prefix h =
    ap (λ u. tail_of (tail_of (tail_of (tail_of (tail_of (tail_of (tail_of (tail_of u)))))))) h

-- Two idempotency keys that are the same text were made from the same parts: the escaped branch
-- without its namespace, the escaped base branch, and the digest are equal each to each.
pub key-parts :
    (branch base digest branch' base' digest' key : Text)
    → publication_idempotency_key branch base digest ≡ ok key
    → publication_idempotency_key branch' base' digest' ≡ ok key
    → (quote (remove_prefix branch_namespace branch)
        ≡ quote (remove_prefix branch_namespace branch'))
      × (quote base ≡ quote base')
      × (digest ≡ digest')
unfolding publication_idempotency_key text
key-parts branch base digest branch' base' digest' key h h' =
    let (head, eh, h1) = bind_returns (quote (remove_prefix branch_namespace branch)) _ h in
    let (tail, et, h2) = bind_returns (quote base) _ h1 in
    let (head', eh', h1') = bind_returns (quote (remove_prefix branch_namespace branch')) _ h' in
    let (tail', et', h2') = bind_returns (quote base') _ h1' in
    let (e, rest) =
      cut_once head head' _ _ (quote-Slashless (remove_prefix branch_namespace branch) head eh)
        (quote-Slashless (remove_prefix branch_namespace branch') head' eh')
        (past_prefix (ok_injective _ _ (h2 ∙ sym h2'))) in
    let (e', same) =
      cut_once tail tail' _ _ (quote-Slashless base tail et) (quote-Slashless base' tail' et')
        rest in
    (eh ∙ ap ok e ∙ sym eh', et ∙ ap ok e' ∙ sym et', same)
