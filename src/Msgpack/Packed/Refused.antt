-- ===== src/Msgpack/Packed/Refused.antt =====
-- msgpack/encoder.rs: what the encoder does with the values that it refuses.
use aerospike_client_rust.Base.{ℕ, ◌≡◌, refl, sym, ◌∙◌, ◌⊎◌, inl, inr, none, List, length}
use aerospike_client_rust.Outcome.{ok, panic, no_panic, ◌>>=◌}
use aerospike_client_rust.Buffer.Endian.{Endian}
use aerospike_client_rust.Value.{Value, Values, no_values, values, Entries, no_entries, entry}
use aerospike_client_rust.Msgpack.Pack.{Pack, Packs, ◌+?◌}
use aerospike_client_rust.Msgpack.Encoder.{pack_value, pack_each, pack_each_entry}
use aerospike_client_rust.Msgpack.Format.{encode, IsPackable, ArePackable, EntriesPackable}
use aerospike_client_rust.Msgpack.Packed.Words.{Packs-array_begin, Packs-map_begin}
use aerospike_client_rust.Msgpack.Packed.Values.{pack_value-Packs}

first-panics : (p q : Pack) → p none ≡ panic → (p +? q) none ≡ panic
unfolding ◌+?◌ ◌>>=◌
first-panics p q e = rw (e, ◌>>=◌) refl

second-panics : (p q : Pack) {bs : List ℕ} → Packs p bs → q none ≡ panic → (p +? q) none ≡ panic
unfolding ◌+?◌ ◌>>=◌
second-panics p q h e = rw (h.dry, e, ◌>>=◌) refl

module _ ⦃endian : Endian⦄ where
  mutual
    unfolding IsPackable pack_value

    decided : (v : Value) → IsPackable v ⊎ (pack_value v none ≡ panic)
    decided (Value.list vs) = elim (each_decided vs) [
      | inl h ↦ inl h
      | inr e ↦ inr (second-panics _ (pack_each vs) (Packs-array_begin _) e)
    ]
    decided (Value.hash_map es) = elim (entries_decided es) [
      | inl h ↦ inl h
      | inr e ↦ inr (second-panics _ (pack_each_entry es) (Packs-map_begin _) e)
    ]
    decided (Value.ordered_map es) = inr refl
    decided _ = inl tt

    each_decided : (vs : Values) → ArePackable vs ⊎ (pack_each vs none ≡ panic)
    each_decided no_values = inl tt
    each_decided (values v vs) = elim (decided v) [
      | inr e ↦ inr (first-panics (pack_value v) (pack_each vs) e)
      | inl h ↦ elim (each_decided vs) [
        | inl hs ↦ inl (h, hs)
        | inr e ↦ inr (second-panics (pack_value v) (pack_each vs) (pack_value-Packs v h) e)
      ]
    ]

    entries_decided : (es : Entries) → EntriesPackable es ⊎ (pack_each_entry es none ≡ panic)
    entries_decided no_entries = inl tt
    entries_decided (entry k v es) = elim (decided k) [
      | inr e ↦ inr (first-panics (pack_value k) (pack_value v +? pack_each_entry es) e)
      | inl h ↦ elim (decided v) [
        | inr e ↦ inr (
            second-panics (pack_value k) (pack_value v +? pack_each_entry es) (pack_value-Packs k h)
              (first-panics (pack_value v) (pack_each_entry es) e))
        | inl l ↦ elim (entries_decided es) [
          | inl hs ↦ inl (h, l, hs)
          | inr e ↦ inr (
              second-panics (pack_value k) (pack_value v +? pack_each_entry es)
                (pack_value-Packs k h)
                (second-panics (pack_value v) (pack_each_entry es) (pack_value-Packs v l) e))
        ]
      ]
    ]

  -- The size of a value is either counted or refused by a panic, and which of them is decided by
  -- the value alone: a value without an ordered map at any depth is counted with the length of its
  -- encoding, and every other value makes the count panic.
  pub pack_value-refused :
      (v : Value)
      → (IsPackable v × (pack_value v none ≡ ok (length (encode v), none)))
        ⊎ ((IsPackable v → ⊥) × (pack_value v none ≡ panic))
  pack_value-refused v = elim (decided v) [
    | inl h ↦ inl (h, (pack_value-Packs v h).dry)
    | inr e ↦ inr (λ h. no_panic (sym e ∙ (pack_value-Packs v h).dry), e)
  ]
