-- ===== src/Queue/Spec.antt =====
-- What a bounded queue promises: a list of values with a bound, and four statistics.
use osi.Base.{ℕ, Option, none, some, List, [], ◌∷◌, ◌++◌, ◌==◌, if◌then◌else◌, length, inc_long}

pub record Fifo : Type 0 where
  pub items : List ℕ
  pub cap : ℕ
  pub add_attempts : ℕ
  pub get_attempts : ℕ
  pub add_count : ℕ
  pub get_count : ℕ

abbrev pub empty : ℕ → Fifo
empty cap = record {
  items = [];
  cap = cap;
  add_attempts = 0;
  get_attempts = 0;
  add_count = 0;
  get_count = 0;
}

abbrev pub tried_add : Fifo → Fifo
tried_add f = record f { add_attempts = inc_long f.add_attempts }

abbrev pub tried_get : Fifo → Fifo
tried_get f = record f { get_attempts = inc_long f.get_attempts }

-- A value goes in at the back.
abbrev pub push : ℕ → Fifo → Fifo
push v f = record f { items = f.items ++ v ∷ []; add_count = inc_long f.add_count }

-- What is left behind the first value.
abbrev pub left : List ℕ → Fifo → Fifo
left rest f = record f { items = rest; get_count = inc_long f.get_count }

-- The call that refuses at the bound: 0 and no change but the statistics, or 1.
unfoldable pub add : ℕ → Fifo → ℕ × Fifo
add v f = if length f.items == f.cap then (0, tried_add f) else (1, push v (tried_add f))

-- The call that refuses at an empty queue.
abbrev pub get_from : List ℕ → Fifo → Option ℕ × Fifo
get_from [] f = (none, tried_get f)
get_from (v ∷ rest) f = (some v, left rest (tried_get f))

unfoldable pub get : Fifo → Option ℕ × Fifo
get f = get_from f.items f
