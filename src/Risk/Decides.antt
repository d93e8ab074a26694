-- ===== src/Risk/Decides.antt =====
-- `preCheck` against a description of what it refuses.
use beta_trader.Prelude.{◌≡◌, ◌*◌, ◌<◌, ◌⊎◌, some, [], ◌∷◌, find}
use beta_trader.Common.Types.{limit, OrderId, Price}
use beta_trader.Common.Order.{Order}
use beta_trader.Book.{Store, PriceLevel, LevelMap}
use beta_trader.Matcher.Prices.{WithinLimit}

-- The order that `r` points to is of the same trader.
abbrev pub SameSender : Order → Store → OrderId → Type 0
SameSender o orders r =
    (res : Order) × (find r orders ≡ some res) × (res.sender_comp_id ≡ o.sender_comp_id)

-- An order of the level is of the same trader.
abbrev pub HasOwn : Order → Store → PriceLevel → Type 0
HasOwn o orders [] = ⊥
HasOwn o orders (r ∷ rs) = SameSender o orders r ⊎ HasOwn o orders rs

-- At a price that the order may trade at, an order of the same trader rests.
abbrev pub MeetsOwn : Order → Store → LevelMap → Type 0
MeetsOwn o orders [] = ⊥
MeetsOwn o orders ((p, level) ∷ m) =
    (WithinLimit o.order_type o.order_side o.price p × HasOwn o orders level) ⊎ MeetsOwn o orders m

-- The price is more than a tenth away from the best price of the map, if that is not 0.
abbrev pub IsFar : Price → LevelMap → Type 0
IsFar price [] = ⊥
IsFar price ((top, level) ∷ m) = (0 < top) × ((11 * top < 10 * price) ⊎ (10 * price < 9 * top))

-- Why a new order is refused: it is for nothing, or it has a limit that is 0 or far from the best
-- price of the other side, or it would meet an order of the same trader.
abbrev pub IsRefused : Order → LevelMap → Store → Type 0
IsRefused o m orders =
    (o.original_quantity ≡ 0)
    ⊎ ((o.order_type ≡ limit) × ((o.price ≡ 0) ⊎ IsFar o.price m))
    ⊎ MeetsOwn o orders m
