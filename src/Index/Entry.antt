-- ===== src/Index/Entry.antt =====
-- crates/sitas-core/src/mailbox_index.rs: the entries of the index, the pairs in the heap of the
-- coordinator, and their orders.
use sitas.Common.{ℕ, Bool, true, ◌&&◌, false, ltb, leb, ◌==◌, if◌then◌else◌, ◌≡◌, arith, ==_refl}
use sitas.Kv.Keys.{Key}

pub record IndexEntry : Type 0 where
  pub key : ℕ
  pub offset : ℕ

-- The derived order: by the key, and for the same key by the offset.
abbrev pub same_entry : IndexEntry → IndexEntry → Bool
same_entry a b = (a.key == b.key) && (a.offset == b.offset)

abbrev pub entry_le : IndexEntry → IndexEntry → Bool
entry_le a b = if a.key == b.key then leb a.offset b.offset else ltb a.key b.key

pub same_entry_refl : (a : IndexEntry) → same_entry a a ≡ true
same_entry_refl a = ground (arith, ==_refl a.key, ==_refl a.offset)

pub same_entry_eq : (a b : IndexEntry) → same_entry a b ≡ true → a ≡ b
same_entry_eq a b h = ground arith

pub entry_le_trans :
    (a b c : IndexEntry) → entry_le a b ≡ true → entry_le b c ≡ true → entry_le a c ≡ true
entry_le_trans a b c p q = ground arith

pub entry_le_antisymm : (a b : IndexEntry) → entry_le a b ≡ true → entry_le b a ≡ true → a ≡ b
entry_le_antisymm a b p q = ground arith

pub entry_le_total : (a b : IndexEntry) → entry_le a b ≡ false → entry_le b a ≡ true
entry_le_total a b p = ground arith

instance abbrev pub entry_key : Key IndexEntry
entry_key = record {
  same = same_entry;
  le = entry_le;
  same_refl = same_entry_refl;
  same_eq = same_entry_eq;
  le_trans = entry_le_trans;
  le_antisymm = entry_le_antisymm;
  le_total = entry_le_total;
}

-- A pair in the heap: an entry, and the run that it is from.
pub record HeapItem : Type 0 where
  pub entry : IndexEntry
  pub run_idx : ℕ

abbrev same_item : HeapItem → HeapItem → Bool
same_item a b = same_entry a.entry b.entry && (a.run_idx == b.run_idx)

abbrev item_le : HeapItem → HeapItem → Bool
item_le a b =
    if same_entry a.entry b.entry then leb a.run_idx b.run_idx else entry_le a.entry b.entry

pub same_item_refl : (a : HeapItem) → same_item a a ≡ true
same_item_refl a = ground (arith, ==_refl a.entry.key, ==_refl a.entry.offset, ==_refl a.run_idx)

pub same_item_eq : (a b : HeapItem) → same_item a b ≡ true → a ≡ b
same_item_eq a b h = ground arith

pub item_le_trans :
    (a b c : HeapItem) → item_le a b ≡ true → item_le b c ≡ true → item_le a c ≡ true
item_le_trans a b c p q = ground arith

pub item_le_antisymm : (a b : HeapItem) → item_le a b ≡ true → item_le b a ≡ true → a ≡ b
item_le_antisymm a b p q = ground arith

pub item_le_total : (a b : HeapItem) → item_le a b ≡ false → item_le b a ≡ true
item_le_total a b p = ground arith

instance abbrev pub item_key : Key HeapItem
item_key = record {
  same = same_item;
  le = item_le;
  same_refl = same_item_refl;
  same_eq = same_item_eq;
  le_trans = item_le_trans;
  le_antisymm = item_le_antisymm;
  le_total = item_le_total;
}
