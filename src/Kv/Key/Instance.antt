-- ===== src/Kv/Key/Instance.antt =====
-- The key of the benchmarks as the key type of the wrappers.
use sidle.Base.{◌≡◌, true, length}
use sidle.Kv.Format.{KeyFormat}
use sidle.Kv.Key.{Key, to_str_key, in_memory, read_key}
use sidle.Kv.Key.Laws.{to_str_key_lem, little}

pub str_key_length : (k : Key) → length (to_str_key true (in_memory k)) ≡ 8
str_key_length k = rw little at (to_str_key_lem k k).1

pub str_key_read : (k : Key) → read_key (to_str_key true (to_str_key true (in_memory k))) ≡ k
str_key_read k = rw little at (to_str_key_lem k k).0

abbrev pub key_format : KeyFormat Key
key_format = record {
  key_size = 8;
  to_str_key = λ k. to_str_key true (in_memory k);
  to_normal_key = λ bs. read_key (to_str_key true bs);
  length-to_str_key = str_key_length;
  to_normal_key-to_str_key = str_key_read;
}
