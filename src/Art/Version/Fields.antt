-- ===== src/Art/Version/Fields.antt =====
-- The version word as a record of its fields: each setter writes its field and no other.
use sidle.Base.{ℕ, ◌/◌, ◌%◌, ◌^◌, ◌<◌, ◌≡◌, arith}
use sidle.Art.Version.{
  get_offset, get_prefix_len, get_count, set_old, set_lock, set_expand, unset_lock, unset_expand,
  get_vexpand, incr_vexpand, get_vinsert,
}

pub record Fields : Type 0 where
  pub offset : ℕ
  pub count : ℕ
  pub prefix_len : ℕ
  pub type : ℕ
  pub old : ℕ
  pub lock : ℕ
  pub insert : ℕ
  pub expand : ℕ
  pub vinsert : ℕ
  pub vexpand : ℕ

unfoldable pub fields : ℕ → Fields
unfolding get_offset get_count get_prefix_len get_vexpand get_vinsert
fields v = record {
  offset = get_offset v;
  count = get_count v;
  prefix_len = get_prefix_len v;
  type = v / 2 ^ 20 % 4;
  old = v / 2 ^ 19 % 2;
  lock = v / 2 ^ 18 % 2;
  insert = v / 2 ^ 17 % 2;
  expand = v / 2 ^ 16 % 2;
  vinsert = get_vinsert v;
  vexpand = get_vexpand v;
}

-- Equal field by field.
record Same (a b : Fields) : Type 0 where
  offset : a.offset ≡ b.offset
  count : a.count ≡ b.count
  prefix_len : a.prefix_len ≡ b.prefix_len
  type : a.type ≡ b.type
  old : a.old ≡ b.old
  lock : a.lock ≡ b.lock
  insert : a.insert ≡ b.insert
  expand : a.expand ≡ b.expand
  vinsert : a.vinsert ≡ b.vinsert
  vexpand : a.vexpand ≡ b.vexpand

abbrev pub Word : ℕ → Type 0
Word v = v < 2 ^ 64

flags-Word :
    (v : ℕ)
    → Word v
    → Word (set_old v)
      × Word (set_lock v)
      × Word (set_expand v)
      × Word (unset_lock v)
      × Word (unset_expand v)
      × Word (incr_vexpand v)
unfolding set_old set_lock set_expand unset_lock unset_expand incr_vexpand
flags-Word v h = omega arith
