-- ===== src/Ring.antt =====
-- The ring buffers of scheduler.cpp (log and Gantt chart) and of the dashboard's log: an array of
-- `limit` cells, `head` the number of records ever added, `count` the number still held. `head` does
-- not wrap here: the source's `int` holds it for the first 2^31 - 1 records.
pub mod History
use Prim.Native.Nat.{min}
use tensor_sched.Prelude.{
  ℕ, zero, suc, ◌+◌, ◌-◌, ◌%◌, List, [], ◌∷◌, ltb, if◌then◌else◌, get_or, set, replicate,
}

pub record Ring {ℓ} (A : Type ℓ) : Type ℓ where
  pub buf : List A
  pub head : ℕ
  pub count : ℕ

module _ {ℓ} {A : Type ℓ} where
  -- `blank` is the cell as the constructor leaves it.
  unfoldable pub new_ring : ℕ → A → Ring A
  new_ring limit blank = record { buf = replicate limit blank; head = 0; count = 0 }

  unfoldable pub add : ℕ → A → Ring A → Ring A
  add limit x r = record {
    buf = set r.buf (r.head % limit) x;
    head = r.head + 1;
    count = if ltb r.count limit then r.count + 1 else r.count;
  }

  -- The copying loop: `n` cells from index `i` on, going round at `limit`.
  unfoldable pub copy : ℕ → A → List A → ℕ → ℕ → List A
  copy limit blank buf i zero = []
  copy limit blank buf i (suc n) = get_or buf (i % limit) blank ∷ copy limit blank buf (i + 1) n

  -- `count ≤ limit`, so the difference is the source's.
  unfoldable pub snapshot : ℕ → A → ℕ → Ring A → List A
  unfolding copy
  snapshot limit blank max_count r =
      let count = if ltb r.count max_count then r.count else max_count in
      copy limit blank r.buf ((r.head + limit - count) % limit) count
