-- ===== src/LeaderRotation/Carousel/Candidates.antt =====
-- Whom RemoveActive (leaderrotation/carousel.go) leaves as candidates for the next leader.
use hotstuff_repbased_leader.Prelude.{
  ℕ, suc, ◌≡◌, ap, refl, true, not, ◌&&◌, ◌||◌, List, [], ◌∷◌, map, arith, ◌==◌, if◌then◌else◌,
  length, elem, ◌∙◌,
}
use hotstuff_repbased_leader.LeaderRotation.Carousel.{last_or, overwrite, remove_active}

abbrev put : ℕ → ℕ → List ℕ → List ℕ
put id l xs = map (λ y. if y == id then l else y) xs

length-put : (id l : ℕ) (xs : List ℕ) → length (put id l xs) ≡ length xs
length-put id l [] = refl
length-put id l (x ∷ xs) = ap suc (length-put id l xs)

last_or-put :
    (id l d e x : ℕ) (xs : List ℕ) → last_or d (x ∷ xs) ≡ l → last_or e (put id l (x ∷ xs)) ≡ l
unfolding last_or
last_or-put id l d e x [] h = ground arith
last_or-put id l d e x (y ∷ ys) h = last_or-put id l x (if x == id then l else x) y ys h

elem-put :
    (id l j : ℕ) (xs : List ℕ)
    → elem j (put id l xs)
      ≡ (if l == j then (elem j xs || elem id xs) else (elem j xs && not (id == j)))
elem-put id l j [] = ground arith
elem-put id l j (x ∷ xs) = ground (arith, elem-put id l j xs)

elem-last_or : (d x : ℕ) (xs : List ℕ) → elem (last_or d (x ∷ xs)) (x ∷ xs) ≡ true
unfolding last_or
elem-last_or d x [] = ground arith
elem-last_or d x (y ∷ ys) = ground (arith, elem-last_or x y ys)

-- RemoveActive shortens no list, and what it leaves of the voters is: the last voter, whether it is
-- one of the authors to remove or not, and of the other voters those that are no authors. There must
-- be a voter.
pub remove_active_lem :
    (x : ℕ) (active authors : List ℕ)
    → (length (remove_active (x ∷ active) authors) ≡ suc (length active))
      × ((j : ℕ)
          → elem j (remove_active (x ∷ active) authors) ≡ (
              if last_or 0 (x ∷ active) == j
              then true
              else (elem j (x ∷ active) && not (elem j authors))))
unfolding remove_active overwrite
remove_active_lem x active [] = (refl, λ j. ground (arith, elem-last_or 0 x active))
remove_active_lem x active (id ∷ authors) =
    let l = last_or 0 (x ∷ active) in
    let (len, mem) = remove_active_lem (if x == id then l else x) (put id l active) authors in
    let last = last_or-put id l 0 0 x active refl in
    (
      len ∙ ap suc (length-put id l active),
      λ j. mem j ∙ rw (last, elem-put id l j (x ∷ active)) ground arith,
    )
