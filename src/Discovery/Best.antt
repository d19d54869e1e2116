-- ===== src/Discovery/Best.antt =====
-- The controller that discovery takes.
use mathlib.Core.Path.{subst}
use timelord.Prelude.{
  ◌≡◌, refl, sym, ap, true, false, Option, none, some, List, [], ◌∷◌, ◌++◌, All, arith, Bool-cases,
  inl, inr,
}
use timelord.Discovery.{DiscoveredController, is_better, best_of, select_best}

abbrev pub IsAmong : DiscoveredController → List DiscoveredController → Type 0
IsAmong c cs =
    (front : List DiscoveredController) × (back : List DiscoveredController) × (cs
      ≡ front ++ c ∷ back)

-- One of the candidates, and none of them is better; none only when there is none.
abbrev pub IsBest : List DiscoveredController → Option DiscoveredController → Type 0
IsBest cs none = cs ≡ []
IsBest cs (some b) = IsAmong b cs × All (λ c. is_better c b ≡ false) cs

beaten :
    (b c r : DiscoveredController)
    → is_better c b ≡ true
    → is_better c r ≡ false
    → is_better b r ≡ false
unfolding is_better
beaten b c r h k = ground (arith, h, k)

passed_over :
    (b c r : DiscoveredController)
    → is_better c b ≡ false
    → is_better b r ≡ false
    → is_better c r ≡ false
unfolding is_better
passed_over b c r h k = ground (arith, h, k)

is_better_self : (a : DiscoveredController) → is_better a a ≡ false
unfolding is_better
is_better_self a = ground arith

list_head : DiscoveredController → List DiscoveredController → DiscoveredController
list_head d [] = d
list_head d (c ∷ cs) = c

list_tail : List DiscoveredController → List DiscoveredController
list_tail [] = []
list_tail (c ∷ cs) = cs

skip_second :
    (r b c : DiscoveredController) (cs : List DiscoveredController)
    → IsAmong r (b ∷ cs)
    → IsAmong r (b ∷ c ∷ cs)
unfolding list_head list_tail
skip_second r b c cs ([], back, e) = ([], c ∷ cs, ap (λ l. list_head b l ∷ c ∷ cs) e)
skip_second r b c cs (f ∷ front, back, e) =
    (f ∷ c ∷ front, back, ap (λ l. list_head b l ∷ c ∷ list_tail l) e)

module _ (best c : DiscoveredController) (cs : List DiscoveredController) where
  best_of-better : is_better c best ≡ true → best_of best (c ∷ cs) ≡ best_of c cs
  unfolding best_of
  best_of-better h = rw h refl

  best_of-worse : is_better c best ≡ false → best_of best (c ∷ cs) ≡ best_of best cs
  unfolding best_of
  best_of-worse h = rw h refl

best_of-IsBest :
    (best : DiscoveredController) (cs : List DiscoveredController)
    → IsBest (best ∷ cs) (some (best_of best cs))
unfolding best_of
best_of-IsBest best [] = (([], [], refl), (is_better_self best, tt))
best_of-IsBest best (c ∷ cs) = elim (Bool-cases (is_better c best)) [
  | inl better ↦
      let ((front, back, e), none_better) = best_of-IsBest c cs in
      subst (λ r. IsBest (best ∷ c ∷ cs) (some r)) (sym (best_of-better best c cs better))
        (
          (best ∷ front, back, ap (λ l. best ∷ l) e),
          (beaten best c (best_of c cs) better none_better.0, none_better),
        )
  | inr worse ↦
      let (among, none_better) = best_of-IsBest best cs in
      subst (λ r. IsBest (best ∷ c ∷ cs) (some r)) (sym (best_of-worse best c cs worse))
        (
          skip_second (best_of best cs) best c cs among,
          (
            none_better.0,
            (passed_over best c (best_of best cs) worse none_better.0, none_better.1),
          ),
        )
]

-- Discovery takes one of the controllers that answered, and none of them is better: none has a higher
-- priority, or the same and a faster response, or the same of both and a smaller id. It takes none only
-- if none answered.
pub select_best-IsBest : (cs : List DiscoveredController) → IsBest cs (select_best cs)
unfolding select_best
select_best-IsBest [] = refl
select_best-IsBest (c ∷ cs) = best_of-IsBest c cs
