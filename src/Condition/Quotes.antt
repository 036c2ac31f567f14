-- ===== src/Condition/Quotes.antt =====
-- Which quote is open behind a text, and the texts whose quotes are all closed.
use mathlib.Core.List.{reverse, reverse-append, reverse-reverse}
use leafmask.Prelude.{
  ℕ, Text, true, false, Option, none, some, [], ◌∷◌, ◌++◌, ◌≡◌, refl, sym, ap, ◌∙◌, inl, inr, arith,
  nat_eq, nat_eq_iff, trim, trim_start, is_whitespace, All, Bool-cases,
}
use leafmask.Condition.Scan.{is_quote, next_quote}

abbrev pub quote_after : Option ℕ → Text → Option ℕ
quote_after q [] = q
quote_after q (c ∷ s) = quote_after (next_quote q c) s

-- Every quote that the text opens is closed in it.
abbrev pub Closed : Text → Type 0
Closed s = quote_after none s ≡ none

-- No quote, or one of the two characters that open one.
abbrev pub Proper : Option ℕ → Type 0
Proper none = Unit
Proper (some q) = is_quote q ≡ true

abbrev pub Plain : Text → Type 0
Plain s = All (λ c. is_quote c ≡ false) s

pub quote_after-append :
    (q : Option ℕ) (s t : Text) → quote_after q (s ++ t) ≡ quote_after (quote_after q s) t
quote_after-append q [] t = refl
quote_after-append q (c ∷ s) t = quote_after-append (next_quote q c) s t

next_quote-Proper : (q : Option ℕ) (c : ℕ) → Proper q → Proper (next_quote q c)
next_quote-Proper none c h = elim (Bool-cases (is_quote c)) [ inl e ↦ rw e e | inr e ↦ rw e tt ]
next_quote-Proper (some q) c h = elim (Bool-cases (nat_eq c q)) [ inl e ↦ rw e tt | inr e ↦ rw e h ]

pub quote_after-Proper : (q : Option ℕ) (s : Text) → Proper q → Proper (quote_after q s)
quote_after-Proper q [] h = h
quote_after-Proper q (c ∷ s) h = quote_after-Proper (next_quote q c) s (next_quote-Proper q c h)

next_quote-plain : (q : Option ℕ) (c : ℕ) → Proper q → is_quote c ≡ false → next_quote q c ≡ q
next_quote-plain none c h p = rw p
next_quote-plain (some q) c h p = ground (arith, nat_eq_iff c q)

pub quote_after-Plain : (q : Option ℕ) (s : Text) → Proper q → Plain s → quote_after q s ≡ q
quote_after-Plain q [] h p = refl
quote_after-Plain q (c ∷ s) h p = rw (next_quote-plain q c h p.0) (quote_after-Plain q s h p.1)

-- Plain characters at the end do not change what is open.
pub quote_after-append-Plain :
    (s t : Text) → Plain t → quote_after none (s ++ t) ≡ quote_after none s
quote_after-append-Plain s t p =
    quote_after-append none s t
    ∙ quote_after-Plain (quote_after none s) t (quote_after-Proper none s tt) p

whitespace-plain : (c : ℕ) → is_whitespace c ≡ true → is_quote c ≡ false
whitespace-plain c h = ground (arith, nat_eq_iff c b'\'', nat_eq_iff c b'"')

-- What `trim_start` cuts off.
trim_start-eq : (s : Text) → (w : Text) × Plain w × (w ++ trim_start s ≡ s)
unfolding trim_start
trim_start-eq [] = ([], tt, refl)
trim_start-eq (x ∷ s) = elim (Bool-cases (is_whitespace x)) [
  | inl e ↦
      let (w, p, same) = trim_start-eq s in
      (x ∷ w, (whitespace-plain x e, p), rw e (ap (λ r. x ∷ r) same))
  | inr e ↦ ([], tt, rw e)
]

Plain-append : (s t : Text) → Plain s → Plain t → Plain (s ++ t)
Plain-append [] t p q = q
Plain-append (c ∷ s) t p q = (p.0, Plain-append s t p.1 q)

Plain-reverse : (s : Text) → Plain s → Plain (reverse s)
Plain-reverse [] p = tt
Plain-reverse (c ∷ s) p =
    rw (reverse-append (c ∷ []) s)
      (Plain-append (reverse s) (c ∷ []) (Plain-reverse s p.1) (p.0, tt))

quote_after-trim_start : (s : Text) → quote_after none (trim_start s) ≡ quote_after none s
quote_after-trim_start s =
    let (w, p, same) = trim_start-eq s in
    let rest = trim_start s in
    sym (
      ap (λ r. quote_after none r) (sym same)
      ∙ quote_after-append none w rest
      ∙ ap (λ q. quote_after q rest) (quote_after-Plain none w tt p))

-- What the cut at the end leaves.
trim_end-eq : (t : Text) → (w : Text) × Plain w × (reverse (trim_start (reverse t)) ++ w ≡ t)
trim_end-eq t =
    let (w, p, same) = trim_start-eq (reverse t) in
    (
      reverse w,
      Plain-reverse w p,
      sym (reverse-append w (trim_start (reverse t))) ∙ ap reverse same ∙ reverse-reverse t,
    )

-- `trim` changes no quote.
pub quote_after-trim : (s : Text) → quote_after none (trim s) ≡ quote_after none s
unfolding trim
quote_after-trim s =
    let (w, p, same) = trim_end-eq (trim_start s) in
    sym (quote_after-append-Plain (reverse (trim_start (reverse (trim_start s)))) w p)
    ∙ ap (λ r. quote_after none r) same
    ∙ quote_after-trim_start s
