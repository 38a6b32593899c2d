-- ===== src/Base/Map.antt =====
-- `BTreeMap`: an association list in the order of its keys.
use Prim.Native.Nat.{ℕ}
use mathlib.Core.Path.{◌≡◌, refl}
use mathlib.Core.Logic.{◌↔◌}
use mathlib.Core.Bool.{Bool, true, false}
use mathlib.Core.Option.{Option, none, some}
use mathlib.Core.List.{List, [], ◌∷◌, map}
use native.Mathlib.Omega.{arith}
use alaphi_os.Base.Tests.{ltb, ◌==◌ as nat_eq, ==_iff, if◌then◌else◌}

-- Rust's `Ord`, as far as the map uses it.
pub record Key {ℓ} (K : Type ℓ) : Type ℓ where
  pub beq : K → K → Bool
  pub lt : K → K → Bool
  pub beq_iff : (a b : K) → (beq a b ≡ true) ↔ (a ≡ b)

instance abbrev pub nat_key : Key ℕ
nat_key = record { beq = nat_eq; lt = ltb; beq_iff = ==_iff }

abbrev pub Map {ℓ κ} : Type ℓ → Type κ → Type (ℓ ⊔ κ)
Map K V = List (K × V)

module _ {ℓ κ} {K : Type ℓ} {V : Type κ} ⦃e : Key K⦄ where
  abbrev pub get : K → Map K V → Option V
  get k [] = none
  get k ((j, v) ∷ m) = if e.beq k j then some v else get k m

  abbrev pub insert : K → V → Map K V → Map K V
  insert k v [] = (k, v) ∷ []
  insert k v ((j, w) ∷ m) =
      if e.beq k j
      then (k, v) ∷ m
      else (if e.lt k j then (k, v) ∷ (j, w) ∷ m else (j, w) ∷ insert k v m)

  abbrev pub remove : K → Map K V → Map K V
  remove k [] = []
  remove k ((j, w) ∷ m) = let rest = remove k m in if e.beq k j then rest else (j, w) ∷ rest

  -- `get_mut` followed by a write.
  abbrev pub modify : K → (V → V) → Map K V → Map K V
  modify k f [] = []
  modify k f ((j, w) ∷ m) = if e.beq k j then (j, f w) ∷ m else (j, w) ∷ modify k f m

  pub get-insert :
      (k j : K) (v : V) (m : Map K V)
      → get j (insert k v m) ≡ (if e.beq j k then some v else get j m)
  get-insert k j v [] = refl
  get-insert k j v ((i, w) ∷ m) =
      ground (arith, e.beq_iff j k, e.beq_iff k i, e.beq_iff j i, get-insert k j v m)

  pub get-remove :
      (k j : K) (m : Map K V) → get j (remove k m) ≡ (if e.beq j k then none else get j m)
  get-remove k j [] = ground arith
  get-remove k j ((i, w) ∷ m) =
      ground (arith, e.beq_iff j k, e.beq_iff k i, e.beq_iff j i, get-remove k j m)

  pub insert-insert : (k : K) (v w : V) (m : Map K V) → insert k v (insert k w m) ≡ insert k v m
  insert-insert k v w [] = ground (arith, e.beq_iff k k)
  insert-insert k v w ((i, u) ∷ m) = ground (arith, e.beq_iff k k, insert-insert k v w m)

  pub get-insert_here :
      (k j : K) (v : V) (m : Map K V) → e.beq j k ≡ true → get j (insert k v m) ≡ some v
  get-insert_here k j v m h = rw (get-insert k j v m, h) refl

  pub get-insert_apart :
      (k j : K) (v : V) (m : Map K V) → e.beq j k ≡ false → get j (insert k v m) ≡ get j m
  get-insert_apart k j v m h = rw (get-insert k j v m, h) refl

  pub get-remove_apart : (k j : K) (m : Map K V) → e.beq j k ≡ false → get j (remove k m) ≡ get j m
  get-remove_apart k j m h = rw (get-remove k j m, h) refl

  pub get-remove_here : (k j : K) (m : Map K V) → e.beq j k ≡ true → get j (remove k m) ≡ none
  get-remove_here k j m h = rw (get-remove k j m, h) refl

abbrev pub keys {ℓ κ} : {K : Type ℓ} {V : Type κ} → Map K V → List K
keys m = map (λ p. p.0) m
