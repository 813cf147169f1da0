-- ===== src/Coins/Lookup.antt =====
-- Maps from outpoints, as lists without order.
use xbtc.Base.{
  ◌≡◌, refl, sym, ◌∙◌, Bool, true, false, ◌&&◌, Option, none, some, List, [], ◌∷◌, ◌==◌, ==_refl,
  if◌then◌else◌, Bool-cases, inl, inr, arith,
}
use xbtc.Data.Transaction.{TransactionOutPoint}

abbrev pub eq_out : TransactionOutPoint → TransactionOutPoint → Bool
eq_out a b = (a.hash == b.hash) && (a.index == b.index)

abbrev pub Table : Type 0 → Type 0
Table A = List (TransactionOutPoint × A)

pub eq_out_refl : (a : TransactionOutPoint) → eq_out a a ≡ true
eq_out_refl a = rw (==_refl a.hash, ==_refl a.index) refl

pub eq_out-eq : (a b : TransactionOutPoint) → eq_out a b ≡ true → a ≡ b
eq_out-eq a b e =
    let hash : a.hash ≡ b.hash = ground arith in
    let index : a.index ≡ b.index = ground arith in rw (hash, index) refl

apart :
    (k' k x : TransactionOutPoint) → eq_out k' k ≡ false → eq_out k' x ≡ true → eq_out k x ≡ false
apart k' k x e f = elim (Bool-cases (eq_out k x)) [
  | inr g ↦ g
  | inl g ↦
      let same : k' ≡ k = eq_out-eq k' x f ∙ sym (eq_out-eq k x g) in
      absurd (clash (sym e ∙ rw same (eq_out_refl k)))
]
  where
    clash : false ≡ true → ⊥
    clash h = cc

module _ {A : Type 0} where
  unfoldable pub find : Table A → TransactionOutPoint → Option A
  find [] k = none
  find ((k', a) ∷ t) k = if eq_out k' k then some a else find t k

  unfoldable pub erase : TransactionOutPoint → Table A → Table A
  erase k [] = []
  erase k ((k', a) ∷ t) = let rest = erase k t in if eq_out k' k then rest else (k', a) ∷ rest

  unfoldable pub insert : TransactionOutPoint → A → Table A → Table A
  unfolding erase
  insert k a t = (k, a) ∷ erase k t

  pub find-erase :
      (t : Table A) (k x : TransactionOutPoint)
      → find (erase k t) x ≡ (if eq_out k x then none else find t x)
  unfolding find erase
  find-erase [] k x = elim (Bool-cases (eq_out k x)) [ inl e ↦ rw e refl | inr e ↦ rw e refl ]
  find-erase ((k', a) ∷ t) k x = elim (Bool-cases (eq_out k' k)) [
    | inl e ↦
        let same : k' ≡ k = eq_out-eq k' k e in
        rw e (
          find-erase t k x
          ∙ elim (Bool-cases (eq_out k x)) [ inl f ↦ rw f refl | inr f ↦ rw (f, same, f) refl ])
    | inr e ↦ elim (Bool-cases (eq_out k' x)) [
      | inr f ↦ rw (e, f, find) (find-erase t k x)
      | inl f ↦ rw (e, f, apart k' k x e f, find) refl
    ]
  ]

  pub find-insert :
      (t : Table A) (k x : TransactionOutPoint) (a : A)
      → find (insert k a t) x ≡ (if eq_out k x then some a else find t x)
  unfolding find insert
  find-insert t k x a = elim (Bool-cases (eq_out k x)) [
    | inl e ↦ rw (e, find) refl
    | inr e ↦ rw (e, find) (find-erase t k x ∙ rw e refl)
  ]
