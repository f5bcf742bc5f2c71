-- ===== src/Script/ProcessId.antt =====
-- `MakeProcessID` and `entryKey` of script/registry.go. `clean` and `base` are those of path/filepath.
use Prim.Native.Nat.{bit_xor}
use go_cli_server.Prelude.{ℕ, zero, suc, ◌+◌, ◌*◌, ◌/◌, ◌%◌, ◌^◌, [], ◌∷◌, ◌++◌, ltb, if◌then◌else◌}
use go_cli_server.Text.{Bytes, is_empty}

-- One byte into an FNV-1a hash of 32 bits.
unfoldable pub fnv_step : ℕ → ℕ → ℕ
fnv_step h b = bit_xor h b * 16777619 % 2 ^ 32

unfoldable pub fnv_from : ℕ → Bytes → ℕ
unfolding fnv_step
fnv_from h [] = h
fnv_from h (b ∷ s) = fnv_from (fnv_step h b) s

-- `fnv.New32a`, `Write`, `Sum32`.
unfoldable pub fnv_32a : Bytes → ℕ
unfolding fnv_from
fnv_32a s = fnv_from 2166136261 s

abbrev hex_digit : ℕ → ℕ
hex_digit d = if ltb d 10 then 48 + d else 87 + d

-- The last `k` hexadecimal digits.
unfoldable pub hex : ℕ → ℕ → Bytes
hex zero n = []
hex (suc k) n = hex k (n / 16) ++ hex_digit (n % 16) ∷ []

-- `shortPathHash`, `%08x`.
unfoldable pub short_path_hash : Bytes → Bytes
unfolding fnv_32a hex
short_path_hash path = hex 8 (fnv_32a path)

module _ (clean : Bytes → Bytes) where
  -- `normalizeProjectPath`.
  unfoldable pub normalize_project_path : Bytes → Bytes
  normalize_project_path path = if is_empty path then [] else clean path

  -- `entryKey`.
  unfoldable pub entry_key : Bytes → Bytes → Bytes
  unfolding normalize_project_path
  entry_key path name = normalize_project_path path ++ 0 ∷ name

module _ (clean base : Bytes → Bytes) where
  -- `MakeProcessID`.
  unfoldable pub make_process_id : Bytes → Bytes → Bytes
  unfolding normalize_project_path short_path_hash
  make_process_id path name =
      let p = normalize_project_path clean path in
      if is_empty path then name else base p ++ b'-' ∷ (short_path_hash p ++ b':' ∷ name)
