-- ===== src/Commands/Built/BatchHeaders.antt =====
-- batch/batch_read.rs: when a read of a batch has the header of the one before.
use aerospike_client_rust.Base.{
  ℕ, ◌≡◌, refl, ap, ap₂, ◌↔◌, Bool, true, false, ◌&&◌, if◌then◌else◌, ==_iff, and_parts, and_intro,
  Option, none, some, List, [], ◌∷◌,
}
use mathlib.Core.Path.{subst}
use aerospike_client_rust.Policy.{Bins}
use aerospike_client_rust.Commands.Batch.{
  BatchRead, same_text, same_names, same_bins, match_header, repeats,
}

-- The names of sets are sent, and the two reads have the same namespace, set and bins.
unfoldable pub Repeats : BatchRead → Option BatchRead → Bool → Type 0
Repeats batch_read none send_set_name = ⊥
Repeats batch_read (some prev) send_set_name =
    (send_set_name ≡ true)
    × (batch_read.key.namespace ≡ prev.key.namespace)
    × (batch_read.key.set_name ≡ prev.key.set_name)
    × (batch_read.bins ≡ prev.bins)

same_text_sound : (xs ys : List ℕ) → same_text xs ys ≡ true → xs ≡ ys
unfolding same_text
same_text_sound [] [] h = refl
same_text_sound [] (y ∷ ys) h = cc
same_text_sound (x ∷ xs) [] h = cc
same_text_sound (x ∷ xs) (y ∷ ys) h =
    let (first, rest) = and_parts _ _ h in
    ap₂ ◌∷◌ ((==_iff x y).0 first) (same_text_sound xs ys rest)

same_text_self : (xs : List ℕ) → same_text xs xs ≡ true
unfolding same_text
same_text_self [] = refl
same_text_self (x ∷ xs) = and_intro ((==_iff x x).1 refl) (same_text_self xs)

same_text_same : {xs ys : List ℕ} → xs ≡ ys → same_text xs ys ≡ true
same_text_same {xs = xs} e = subst (λ other. same_text xs other ≡ true) e (same_text_self xs)

same_names_sound : (xs ys : List (List ℕ)) → same_names xs ys ≡ true → xs ≡ ys
unfolding same_names
same_names_sound [] [] h = refl
same_names_sound [] (y ∷ ys) h = cc
same_names_sound (x ∷ xs) [] h = cc
same_names_sound (x ∷ xs) (y ∷ ys) h =
    let (first, rest) = and_parts _ _ h in
    ap₂ ◌∷◌ (same_text_sound x y first) (same_names_sound xs ys rest)

same_names_self : (xs : List (List ℕ)) → same_names xs xs ≡ true
unfolding same_names
same_names_self [] = refl
same_names_self (x ∷ xs) = and_intro (same_text_self x) (same_names_self xs)

same_bins_sound : (xs ys : Bins) → same_bins xs ys ≡ true → xs ≡ ys
unfolding same_bins
same_bins_sound Bins.all Bins.all h = refl
same_bins_sound Bins.none Bins.none h = refl
same_bins_sound (Bins.names xs) (Bins.names ys) h = ap Bins.names (same_names_sound xs ys h)
same_bins_sound Bins.all Bins.none h = cc
same_bins_sound Bins.all (Bins.names ys) h = cc
same_bins_sound Bins.none Bins.all h = cc
same_bins_sound Bins.none (Bins.names ys) h = cc
same_bins_sound (Bins.names xs) Bins.all h = cc
same_bins_sound (Bins.names xs) Bins.none h = cc

same_bins_self : (bins : Bins) → same_bins bins bins ≡ true
unfolding same_bins
same_bins_self Bins.all = refl
same_bins_self Bins.none = refl
same_bins_self (Bins.names names) = same_names_self names

-- The test of the code is this condition.
pub repeats-Repeats :
    (batch_read : BatchRead) (prev : Option BatchRead) (send_set_name : Bool)
    → (repeats batch_read prev send_set_name ≡ true) ↔ Repeats batch_read prev send_set_name
unfolding repeats match_header Repeats
repeats-Repeats batch_read none send_set_name = (λ h. cc, λ h. absurd h)
repeats-Repeats batch_read (some prev) send_set_name = (sound, complete)
  where
    sound :
        (same_text batch_read.key.namespace prev.key.namespace
            && (send_set_name && same_text batch_read.key.set_name prev.key.set_name)
            && same_bins batch_read.bins prev.bins)
          ≡ true
        → Repeats batch_read (some prev) send_set_name
    sound h =
        let (front, bins) = and_parts _ _ h in
        let (name, sets) = and_parts _ _ front in
        let (sent, set) = and_parts _ _ sets in
        (sent, same_text_sound _ _ name, same_text_sound _ _ set, same_bins_sound _ _ bins)

    complete :
        Repeats batch_read (some prev) send_set_name
        → (same_text batch_read.key.namespace prev.key.namespace
            && (send_set_name && same_text batch_read.key.set_name prev.key.set_name)
            && same_bins batch_read.bins prev.bins)
          ≡ true
    complete (sent, name, set, bins) =
        and_intro (and_intro (same_text_same name) (and_intro sent (same_text_same set))) (
          subst (λ other. same_bins batch_read.bins other ≡ true) bins
            (same_bins_self batch_read.bins))

-- A condition that a test stands for is decided by it.
unfoldable pub decided : {P : Type 0} (test : Bool) → (test ≡ true) ↔ P → Dec P
decided true h = yes (h.0 refl)
decided false h = no (λ p. subst (λ b. if b then ⊥ else Unit {0}) (h.1 p) tt)

unfoldable pub repeats? :
    (batch_read : BatchRead) (prev : Option BatchRead) (send_set_name : Bool)
    → Dec (Repeats batch_read prev send_set_name)
repeats? batch_read prev send_set_name =
    decided (repeats batch_read prev send_set_name) (repeats-Repeats batch_read prev send_set_name)
