-- ===== src/Prelude/FilterMap.antt =====
-- `iter().filter_map(f)`: the elements with what becomes of each, those at `none` left out.
use mathlib.Core.Option.{Option, none, some, bind}
use mathlib.Core.Path.{◌≡◌, refl, ap, ◌∙◌}
use mathlib.Core.Logic.{inl, inr}
use mathlib.Core.Bool.{Bool}
use mathlib.Core.List.{List, [], ◌∷◌, map}
use timelord.Prelude.Tests.{if◌then◌else◌, Bool-cases}
use timelord.Prelude.Lists.{keep}

module _ {ℓ} {A : Type ℓ} where
  abbrev pub cons_some : Option A → List A → List A
  cons_some none l = l
  cons_some (some a) l = a ∷ l

  abbrev pub filter_map : (A → Option A) → List A → List A
  filter_map f [] = []
  filter_map f (a ∷ l) = cons_some (f a) (filter_map f l)

  pub filter_map-same :
      (f g : A → Option A) → ((a : A) → f a ≡ g a) → (l : List A) → filter_map f l ≡ filter_map g l
  filter_map-same f g h [] = refl
  filter_map-same f g h (a ∷ l) = rw (h a) (ap (cons_some (g a)) (filter_map-same f g h l))

  pub filter_map-some : (l : List A) → filter_map (λ a. some a) l ≡ l
  filter_map-some [] = refl
  filter_map-some (a ∷ l) = ap (λ k. a ∷ k) (filter_map-some l)

  filter_map-cons_some :
      (g : A → Option A) (o : Option A) (l : List A)
      → filter_map g (cons_some o l) ≡ cons_some (bind o g) (filter_map g l)
  unfolding bind
  filter_map-cons_some g none l = refl
  filter_map-cons_some g (some a) l = refl

  pub filter_map-filter_map :
      (f g : A → Option A) (l : List A)
      → filter_map g (filter_map f l) ≡ filter_map (λ a. bind (f a) g) l
  filter_map-filter_map f g [] = refl
  filter_map-filter_map f g (a ∷ l) =
      filter_map-cons_some g (f a) (filter_map f l)
      ∙ ap (cons_some (bind (f a) g)) (filter_map-filter_map f g l)

  pub keep-filter_map :
      (p : A → Bool) (l : List A) → keep p l ≡ filter_map (λ a. if p a then some a else none) l
  keep-filter_map p [] = refl
  keep-filter_map p (a ∷ l) = elim (Bool-cases (p a)) [
    | inl kept ↦ rw kept (ap (λ k. a ∷ k) (keep-filter_map p l))
    | inr dropped ↦ rw dropped (keep-filter_map p l)
  ]

  pub map-filter_map : (f : A → A) (l : List A) → map f l ≡ filter_map (λ a. some (f a)) l
  map-filter_map f [] = refl
  map-filter_map f (a ∷ l) = ap (λ k. f a ∷ k) (map-filter_map f l)
