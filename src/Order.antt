-- ===== src/Order.antt =====
-- src/order.rs: the side of an order, the order itself, and its checked constructor.
use velocity_match.Common.{ℕ, ℤ, Bool, true, false, Option, none, some, ◌==◌, if◌then◌else◌}

pub data Side : Type 0 where
  bid ask : Side

abbrev pub same_side : Side → Side → Bool
same_side bid bid = true
same_side ask ask = true
same_side bid ask = false
same_side ask bid = false

-- `u64` fields are numbers, and `price` is an `i64`.
pub record Order : Type 0 where
  pub id : ℕ
  pub trader_id : ℕ
  pub side : Side
  pub price : ℤ
  pub quantity : ℕ
  pub timestamp : ℕ

pub new : (id trader_id : ℕ) (side : Side) (price : ℤ) (quantity timestamp : ℕ) → Option Order
new id trader_id side price quantity timestamp =
    if quantity == 0
    then none
    else some (record {
      id = id;
      trader_id = trader_id;
      side = side;
      price = price;
      quantity = quantity;
      timestamp = timestamp;
    })
