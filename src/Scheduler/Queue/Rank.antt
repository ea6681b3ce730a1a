-- ===== src/Scheduler/Queue/Rank.antt =====
-- internal/hivemind/service/scheduler/queue.go: the order of the items.
use echoryn.Prelude.{
  ℤ, int_ltb, int_same, int_ltb_asym, int_le_trans, int_same_le, int_same_sym, int_antisym, ◌≡◌,
  Bool, true, false, arith, if◌then◌else◌,
}
use echoryn.Scheduler.Heap.Order.{IsOrder}
use echoryn.Scheduler.Queue.{HeapItem, item_less}

-- The order of the pairs of a priority and a number.
abbrev before : ℤ → ℤ → ℤ → ℤ → Bool
before p s q t = if int_same p q then int_ltb s t else int_ltb q p

before_asym : (p s q t : ℤ) → before p s q t ≡ true → before q t p s ≡ false
before_asym p s q t h =
    ground (arith, int_ltb_asym s t, int_ltb_asym q p, int_same_sym p q, int_same_sym q p)

before_trans :
    (p s q t r u : ℤ) → before q t p s ≡ false → before r u q t ≡ false → before r u p s ≡ false
before_trans p s q t r u h k = ground (
  arith,
  int_le_trans s t u,
  int_le_trans r q p,
  int_same_sym q p,
  int_same_sym r q,
  int_same_sym r p,
  int_same_le q p,
  int_same_le r q,
  int_same_le p q,
  int_same_le q r,
  int_same_le p r,
  int_same_le r p,
  int_antisym r p,
  int_antisym q p,
  int_antisym r q,
  int_le_trans p q r,
)

pub item_less-IsOrder : IsOrder item_less
unfolding item_less
item_less-IsOrder = record {
  asym = λ x y h. before_asym x.priority x.seq y.priority y.seq h;
  trans = λ x y z h k. before_trans x.priority x.seq y.priority y.seq z.priority z.seq h k;
}

-- `y` does not have a higher priority than `x`, nor the same one with a lower number.
pub record InOrder (x y : HeapItem) : Type 0 where
  pub urgent : int_ltb x.priority y.priority ≡ false
  pub fair : int_same x.priority y.priority ≡ true → int_ltb y.seq x.seq ≡ false

pub item_less-InOrder : (x y : HeapItem) → item_less y x ≡ false → InOrder x y
unfolding item_less
item_less-InOrder x y h = record {
  urgent = ground (arith, int_same_le x.priority y.priority, int_same_sym y.priority x.priority);
  fair = λ e. ground (arith, int_same_sym x.priority y.priority);
}
