-- ===== src/Script/Lines.antt =====
-- The output ring of `Entry` in script/registry.go: the last `n` lines, where `n` is `maxOutputLines`.
use go_cli_server.Prelude.{
  ℕ, zero, suc, ◌+◌, ◌%◌, List, [], ◌∷◌, ltb, if◌then◌else◌, set, get_or, replicate,
}
use go_cli_server.Text.{Bytes}

-- `maxOutputLines`.
abbrev pub max_output_lines : ℕ
max_output_lines = 2000

-- `outputLines`, `outputHead` and `outputLen`.
pub record Lines : Type 0 where
  pub slots : List Bytes
  pub head : ℕ
  pub count : ℕ

module _ (n : ℕ) where
  unfoldable pub new_lines : Lines
  new_lines = record { slots = replicate n []; head = 0; count = 0 }

  -- `appendOutput`.
  unfoldable pub append_output : Lines → Bytes → Lines
  append_output r line =
      let written = set r.slots ((r.head + r.count) % n) line in
      if ltb r.count n
      then record r { slots = written; count = suc r.count }
      else record r { slots = written; head = (r.head + 1) % n }

  -- The loop of `OutputLines` over `k` lines, the first in slot `at` modulo `n`.
  unfoldable pub collect : ℕ → ℕ → List Bytes → List Bytes
  collect zero at slots = []
  collect (suc k) at slots = get_or slots (at % n) [] ∷ collect k (at + 1) slots

  -- `OutputLines`.
  unfoldable pub output_lines : Lines → List Bytes
  unfolding collect
  output_lines r = collect r.count r.head r.slots
