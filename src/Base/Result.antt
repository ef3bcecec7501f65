-- ===== src/Base/Result.antt =====
-- A Go function's `(value, error)` pair of which one half counts.
use mathlib.Core.List.{List, [], ◌∷◌, map}
use mathlib.Core.Path.{◌≡◌, refl}
use mathlib.Core.Logic.{◌⊎◌, inl, inr}
use native.Mathlib.Omega.{arith}
use go_sentinel.Base.Lists.{All}

pub data Result {ℓ κ} (E : Type ℓ) (A : Type κ) : Type (ℓ ⊔ κ) where
  ok : A → Result E A
  err : E → Result E A

infixl 5 ◌>>=◌ ◌>>◌
abbrev pub ◌>>=◌ {ℓ κ μ} :
    {E : Type ℓ} {A : Type κ} {B : Type μ} → Result E A → (A → Result E B) → Result E B
ok a >>= f = f a
err e >>= f = err e

abbrev pub ◌>>◌ {ℓ κ} : {E : Type ℓ} {B : Type κ} → Result E (Unit {0}) → Result E B → Result E B
m >> k = m >>= λ _. k

-- A loop that appends what `f` returns for each element and returns at the first error.
unfoldable pub collect {ℓ κ μ} :
    {E : Type ℓ} {A : Type κ} {B : Type μ} → (A → Result E B) → List A → Result E (List B)
collect f [] = ok []
collect f (x ∷ xs) = do y ← f x; ys ← collect f xs; ok (y ∷ ys)

pub bind_ok {ℓ} :
    {E : Type ℓ} {A : Type ℓ} {B : Type ℓ} (m : Result E A) (f : A → Result E B) (b : B)
    → (m >>= f) ≡ ok b
    → (a : A) × (m ≡ ok a) × (f a ≡ ok b)
bind_ok (ok a) f b e = (a, refl, e)
bind_ok (err x) f b e = ground arith

-- What each step keeps of its element, the loop keeps of the list.
pub map-collect :
    {E : Type 0} {A : Type 0} {B : Type 0} {C : Type 0} (f : A → Result E B) (p : A → C) (q : B → C)
    → ((x : A) (y : B) → f x ≡ ok y → q y ≡ p x)
    → (xs : List A) (ys : List B) → collect f xs ≡ ok ys
    → map q ys ≡ map p xs
unfolding collect
map-collect f p q keeps [] ys e = ground arith
map-collect f p q keeps (x ∷ xs) ys e =
    let (y, fx, e') = bind_ok (f x) (λ y. collect f xs >>= λ ys. ok (y ∷ ys)) ys e in
    let (zs, fxs, e'') = bind_ok (collect f xs) (λ zs. ok (y ∷ zs)) ys e' in
    ground (arith, keeps x y fx, map-collect f p q keeps xs zs fxs)

-- A loop whose every step succeeds returns what the steps return.
pub collect-map :
    {E : Type 0} {A : Type 0} {B : Type 0} {C : Type 0} (f : B → Result E C) (p : A → B) (q : A → C)
    (P : A → Type 0)
    → ((x : A) → P x → f (p x) ≡ ok (q x))
    → (xs : List A) → All P xs
    → collect f (map p xs) ≡ ok (map q xs)
unfolding collect
collect-map f p q P step [] h = refl
collect-map f p q P step (x ∷ xs) h = rw (step x h.0, collect-map f p q P step xs h.1)

pub unit-cases : {E : Type 0} (r : Result E (Unit {0})) → (r ≡ ok tt) ⊎ ((e : E) × (r ≡ err e))
unit-cases (ok tt) = inl refl
unit-cases (err e) = inr (e, refl)

pub Result-cases :
    {E : Type 0} {A : Type 0} (r : Result E A) → ((a : A) × (r ≡ ok a)) ⊎ ((e : E) × (r ≡ err e))
Result-cases (ok a) = inl (a, refl)
Result-cases (err e) = inr (e, refl)

pub ok_inj : {E : Type 0} {A : Type 0} {a b : A} → Path (Result E A) (ok a) (ok b) → a ≡ b
ok_inj e = ground arith
