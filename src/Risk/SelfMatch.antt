-- ===== src/Risk/SelfMatch.antt =====
-- Self-match prevention: what the check finds, against what matching would reach.
use beta_trader.Prelude.{
  ◌≡◌, refl, sym, ◌∙◌, ◌≢◌, inl, inr, Bool, true, false, false≢true, not, ◌&&◌, some, List, [], ◌∷◌,
  find, str_eq, eq_iff, All, All-map, All-append_left, All-append_right, arith, Bool-cases,
  Option-cases,
}
use beta_trader.Common.Types.{OrderId, Price}
use beta_trader.Common.Order.{Order}
use beta_trader.Book.{Store, PriceLevel, LevelMap, pointers}
use beta_trader.Book.Sorted.{Behind, IsSorted}
use beta_trader.Book.Sound.{AllRest}
use beta_trader.Matcher.{out_of_reach}
use beta_trader.Matcher.Run.{Has}
use beta_trader.Matcher.Prices.{opposite, out_of_reach-before}
use beta_trader.Risk.{is_limit, crosses, has_sender, check_for_self_match}

-- The order that `r` points to is another trader's.
abbrev pub OtherSender : Order → Store → OrderId → Type 0
OtherSender o orders r =
    (res : Order) × (find r orders ≡ some res) × (res.sender_comp_id ≢ o.sender_comp_id)

pub has_sender-total :
    (o : Order) (level : PriceLevel) (orders : Store)
    → All (Has orders) level
    → (b : Bool) × (has_sender o level orders ≡ some b)
unfolding has_sender
has_sender-total o [] orders h = (false, refl)
has_sender-total o (r ∷ rs) orders ((res, e), h) =
    let (b, e') = has_sender-total o rs orders h in
    elim (Bool-cases (str_eq res.sender_comp_id o.sender_comp_id)) [
      | inl hit ↦ (true, rw e (rw hit refl))
      | inr miss ↦ (b, rw e (rw miss e'))
    ]

has_sender-OtherSender :
    (o : Order) (level : PriceLevel) (orders : Store)
    → has_sender o level orders ≡ some false
    → All (OtherSender o orders) level
unfolding has_sender
has_sender-OtherSender o [] orders h = tt
has_sender-OtherSender o (r ∷ rs) orders h = elim (Option-cases (find r orders)) [
  | inl gone ↦ absurd (ground arith)
  | inr (res, e) ↦ (
    (res, e, ground (arith, eq_iff res.sender_comp_id o.sender_comp_id)),
    has_sender-OtherSender o rs orders (ground (arith, eq_iff res.sender_comp_id o.sender_comp_id)),
  )
]

-- The test that ends the check is the test that ends matching.
pub breaks-out_of_reach :
    (o : Order) (p : Price) → (is_limit o.order_type && not (crosses o p)) ≡ out_of_reach o p
unfolding is_limit crosses out_of_reach
breaks-out_of_reach o p = ground arith

pub check_for_self_match-total :
    (o : Order) (m : LevelMap) (orders : Store)
    → All (Has orders) (pointers m)
    → (b : Bool) × (check_for_self_match o m orders ≡ some b)
unfolding check_for_self_match
check_for_self_match-total o [] orders h = (false, refl)
check_for_self_match-total o ((p, level) ∷ m) orders h =
    let (b, e) = has_sender-total o level orders (All-append_left _ level (pointers m) h) in
    let (b', e') =
      check_for_self_match-total o m orders (All-append_right _ level (pointers m) h) in
    elim (Bool-cases (is_limit o.order_type && not (crosses o p))) [
      | inl stop ↦ (false, rw stop refl)
      | inr go ↦ elim (Bool-cases b) [
        | inl hit ↦ (true, rw go (rw e (rw hit refl)))
        | inr miss ↦ (b', rw go (rw e (rw miss e')))
      ]
    ]

-- If the check finds nothing in a map that is in order, every order at a price within reach is
-- another trader's.
pub check_for_self_match-AllRest :
    (o : Order) (m : LevelMap) (orders : Store)
    → IsSorted (opposite o.order_side) m
    → check_for_self_match o m orders ≡ some false
    → AllRest (λ p r. out_of_reach o p ≡ false → OtherSender o orders r) m
unfolding check_for_self_match
check_for_self_match-AllRest o [] orders sorted h = tt
check_for_self_match-AllRest o ((p, []) ∷ m) orders sorted h = absurd sorted
check_for_self_match-AllRest o ((p, r ∷ rs) ∷ m) orders (behind, sorted) h =
    elim (Bool-cases (is_limit o.order_type && not (crosses o p))) [
      | inl stop ↦
          let far = sym (breaks-out_of_reach o p) ∙ stop in
          (
            All-map _ _ (r ∷ rs) (λ k _ near. absurd (false≢true (sym near ∙ far)))
                (all_tt (r ∷ rs)),
            beyond far m behind,
          )
      | inr go ↦ elim (Option-cases (has_sender o (r ∷ rs) orders)) [
        | inl gone ↦ absurd (ground arith)
        | inr (true, e) ↦ absurd (ground arith)
        | inr (false, e) ↦ (
          All-map _ _ (r ∷ rs) (λ k d _. d) (has_sender-OtherSender o (r ∷ rs) orders e),
          check_for_self_match-AllRest o m orders sorted (ground arith),
        )
      ]
    ]
  where
    all_tt : (ks : List OrderId) → All (λ _. Unit {0}) ks
    all_tt [] = tt
    all_tt (k ∷ ks) = (tt, all_tt ks)

    beyond :
        out_of_reach o p ≡ true
        → (n : LevelMap) → Behind (opposite o.order_side) p n
        → AllRest (λ q k. out_of_reach o q ≡ false → OtherSender o orders k) n
    beyond far [] b = tt
    beyond far ((q, level) ∷ n) b = (
      All-map _ _ level
          (λ k _ near. absurd (false≢true (sym near ∙ out_of_reach-before o p q b.0 far)))
          (all_tt level),
      beyond far n b.1,
    )
