-- ===== src/Msgpack/Canonical.antt =====
-- What the decoder makes of an encoded value, and which values it can read back.
use aerospike_client_rust.Base.{
  ℕ, suc, ◌+◌, ◌^◌, ◌<◌, ◌≡◌, refl, true, length, ltb, if◌then◌else◌, IsI64, pos, and_parts,
  and_intro, Bool-cases, inl, inr,
}
use Prim.Native.Nat.{max}
use aerospike_client_rust.Buffer.Reads.{is_utf8}
use aerospike_client_rust.Value.{
  FloatValue, Value, Values, no_values, values, Entries, no_entries, entry, length_values,
  length_entries,
}
use aerospike_client_rust.Value.Convert.{from_f32, from_f64, is_hashable, are_hashable, put}

-- The entries put one by one into a map.
unfoldable pub put_all : Entries → Entries → Entries
put_all no_entries map = map
put_all (entry k v es) map = put_all es (put k v map)

-- An unsigned integer that fits 63 bits comes back signed, an HLL value as a blob, a NaN as the
-- one NaN, and a map as the map with its entries put in.
unfoldable mutual
  pub canonical : Value → Value
  canonical (Value.uint n) = if ltb n (2 ^ 63) then Value.int (pos n) else Value.uint n
  canonical (Value.float (FloatValue.f64 bits)) = Value.float (from_f64 bits)
  canonical (Value.float (FloatValue.f32 bits)) = Value.float (from_f32 bits)
  canonical (Value.hll bs) = Value.blob bs
  canonical (Value.list vs) = Value.list (canonical_values vs)
  canonical (Value.hash_map es) = Value.hash_map (put_all (canonical_entries es) no_entries)
  canonical Value.nil = Value.nil
  canonical (Value.bool b) = Value.bool b
  canonical (Value.int z) = Value.int z
  canonical (Value.string s) = Value.string s
  canonical (Value.blob bs) = Value.blob bs
  canonical (Value.ordered_map es) = Value.ordered_map es
  canonical (Value.geo_json s) = Value.geo_json s

  pub canonical_values : Values → Values
  canonical_values no_values = no_values
  canonical_values (values v vs) = values (canonical v) (canonical_values vs)

  pub canonical_entries : Entries → Entries
  canonical_entries no_entries = no_entries
  canonical_entries (entry k v es) = entry (canonical k) (canonical v) (canonical_entries es)

-- The types of the source bound words and texts; lengths fit the 32 bits of a header; the keys of
-- a map can be hashed; there is no ordered map.
unfoldable mutual
  pub IsSendable : Value → Type 0
  IsSendable Value.nil = Unit {0}
  IsSendable (Value.bool b) = Unit {0}
  IsSendable (Value.int z) = IsI64 z
  IsSendable (Value.uint n) = n < 2 ^ 64
  IsSendable (Value.float (FloatValue.f64 bits)) = bits < 2 ^ 64
  IsSendable (Value.float (FloatValue.f32 bits)) = bits < 2 ^ 32
  IsSendable (Value.string s) = (is_utf8 s ≡ true) × (length s + 1 < 2 ^ 32)
  IsSendable (Value.blob bs) = length bs + 1 < 2 ^ 32
  IsSendable (Value.hll bs) = length bs + 1 < 2 ^ 32
  IsSendable (Value.geo_json s) = (is_utf8 s ≡ true) × (length s + 1 < 2 ^ 32)
  IsSendable (Value.list vs) = (length_values vs < 2 ^ 32) × AreSendable vs
  IsSendable (Value.hash_map es) = (length_entries es < 2 ^ 32) × EntriesSendable es
  IsSendable (Value.ordered_map es) = ⊥

  pub AreSendable : Values → Type 0
  AreSendable no_values = Unit {0}
  AreSendable (values v vs) = IsSendable v × AreSendable vs

  pub EntriesSendable : Entries → Type 0
  EntriesSendable no_entries = Unit {0}
  EntriesSendable (entry k v es) =
      IsSendable k × (is_hashable k ≡ true) × IsSendable v × EntriesSendable es

-- How deep the decoder's recursion goes on a value.
unfoldable mutual
  pub nesting : Value → ℕ
  nesting (Value.list vs) = suc (nesting_values vs)
  nesting (Value.hash_map es) = suc (nesting_entries es)
  nesting _ = 1

  pub nesting_values : Values → ℕ
  nesting_values no_values = 0
  nesting_values (values v vs) = max (nesting v) (nesting_values vs)

  pub nesting_entries : Entries → ℕ
  nesting_entries no_entries = 0
  nesting_entries (entry k v es) = max (max (nesting k) (nesting v)) (nesting_entries es)

uint-hashable : (n : ℕ) → is_hashable (canonical (Value.uint n)) ≡ true
unfolding canonical is_hashable
uint-hashable n = elim (Bool-cases (ltb n (2 ^ 63))) [ inl e ↦ rw e refl | inr e ↦ rw e refl ]

mutual
  unfolding canonical is_hashable

  hashable_canonical : (v : Value) → is_hashable v ≡ true → is_hashable (canonical v) ≡ true
  hashable_canonical (Value.uint n) h = uint-hashable n
  hashable_canonical (Value.float (FloatValue.f64 bits)) h = refl
  hashable_canonical (Value.float (FloatValue.f32 bits)) h = refl
  hashable_canonical (Value.hll bs) h = refl
  hashable_canonical (Value.list vs) h = hashables_canonical vs h
  hashable_canonical (Value.hash_map es) h = h
  hashable_canonical Value.nil h = refl
  hashable_canonical (Value.bool b) h = refl
  hashable_canonical (Value.int z) h = refl
  hashable_canonical (Value.string s) h = refl
  hashable_canonical (Value.blob bs) h = refl
  hashable_canonical (Value.ordered_map es) h = h
  hashable_canonical (Value.geo_json s) h = refl

  hashables_canonical :
      (vs : Values) → are_hashable vs ≡ true → are_hashable (canonical_values vs) ≡ true
  hashables_canonical no_values h = refl
  hashables_canonical (values v vs) h =
      let (p, q) = and_parts (is_hashable v) (are_hashable vs) h in
      and_intro (hashable_canonical v p) (hashables_canonical vs q)

-- A key that can be hashed can be hashed after the journey too.
pub is_hashable-canonical : (v : Value) → is_hashable v ≡ true → is_hashable (canonical v) ≡ true
is_hashable-canonical v h = hashable_canonical v h
