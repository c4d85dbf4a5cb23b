-- ===== src/Config/Ascending.antt =====
-- Sorted lists of slave indices, for the sort in src/functional_model/configuration.py.
use ethercat_device_simulato.Prelude.{
  ℕ, zero, suc, ◌+◌, ◌≤◌, ◌<◌, ◌≡◌, refl, ap, ◌∙◌, arith, Bool, true, false, not, ◌&&◌, ◌||◌, some,
  List, [], ◌∷◌, if◌then◌else◌, ltb, leb, ◌==◌, length, get_elem?,
}
use ethercat_device_simulato.Config.{every, member}

unfoldable pub insert_index : ℕ → List ℕ → List ℕ
insert_index x [] = x ∷ []
insert_index x (y ∷ ys) = if leb x y then x ∷ y ∷ ys else y ∷ insert_index x ys

unfoldable pub sort_indices : List ℕ → List ℕ
unfolding insert_index
sort_indices [] = []
sort_indices (x ∷ xs) = insert_index x (sort_indices xs)

-- Strictly ascending from `k` on.
unfoldable pub ascending : ℕ → List ℕ → Bool
ascending k [] = true
ascending k (x ∷ xs) = leb k x && ascending (suc x) xs

-- No value occurs twice, or in `seen`.
unfoldable pub fresh : List ℕ → List ℕ → Bool
unfolding member
fresh seen [] = true
fresh seen (x ∷ xs) = not (member x seen) && fresh (x ∷ seen) xs

pub fresh-member :
    (x : ℕ) (seen xs : List ℕ) → member x seen ≡ true → fresh seen xs ≡ true → member x xs ≡ false
unfolding fresh member
fresh-member x seen [] m f = refl
fresh-member x seen (y ∷ ys) m f = ground (arith, fresh-member x (y ∷ seen) ys)

pub member-insert_index :
    (y x : ℕ) (xs : List ℕ) → member y (insert_index x xs) ≡ ((y == x) || member y xs)
unfolding member insert_index
member-insert_index y x [] = refl
member-insert_index y x (z ∷ zs) = ground (arith, member-insert_index y x zs)

pub member-sort_indices : (y : ℕ) (xs : List ℕ) → member y (sort_indices xs) ≡ member y xs
unfolding member sort_indices
member-sort_indices y [] = refl
member-sort_indices y (x ∷ xs) =
    member-insert_index y x (sort_indices xs) ∙ ap (λ b. (y == x) || b) (member-sort_indices y xs)

pub ascending-insert_index :
    (k x : ℕ) (xs : List ℕ)
    → k ≤ x
    → member x xs ≡ false
    → ascending k xs ≡ true
    → ascending k (insert_index x xs) ≡ true
unfolding ascending insert_index member
ascending-insert_index k x [] h m a = ground arith
ascending-insert_index k x (y ∷ ys) h m a = ground (arith, ascending-insert_index (suc y) x ys)

pub every-insert_index :
    (n x : ℕ) (xs : List ℕ)
    → every (λ i. ltb i n) (insert_index x xs) ≡ (ltb x n && every (λ i. ltb i n) xs)
unfolding every insert_index
every-insert_index n x [] = refl
every-insert_index n x (y ∷ ys) = ground (arith, every-insert_index n x ys)

pub every-sort_indices :
    (n : ℕ) (xs : List ℕ) → every (λ i. ltb i n) (sort_indices xs) ≡ every (λ i. ltb i n) xs
unfolding every sort_indices
every-sort_indices n [] = refl
every-sort_indices n (x ∷ xs) =
    every-insert_index n x (sort_indices xs) ∙ ap (λ b. ltb x n && b) (every-sort_indices n xs)

pub length-insert_index : (x : ℕ) (xs : List ℕ) → length (insert_index x xs) ≡ suc (length xs)
unfolding insert_index
length-insert_index x [] = refl
length-insert_index x (y ∷ ys) = ground (arith, length-insert_index x ys)

pub length-sort_indices : (xs : List ℕ) → length (sort_indices xs) ≡ length xs
unfolding sort_indices
length-sort_indices [] = refl
length-sort_indices (x ∷ xs) =
    length-insert_index x (sort_indices xs) ∙ ap suc (length-sort_indices xs)

pub ascending-sort_indices :
    (seen xs : List ℕ) → fresh seen xs ≡ true → ascending 0 (sort_indices xs) ≡ true
unfolding sort_indices fresh member ascending
ascending-sort_indices seen [] f = refl
ascending-sort_indices seen (x ∷ xs) f =
    let later : fresh (x ∷ seen) xs ≡ true = ground arith in
    let head : member x (x ∷ seen) ≡ true = ground arith in
    ascending-insert_index 0 x (sort_indices xs) (omega arith)
      (member-sort_indices x xs ∙ fresh-member x (x ∷ seen) xs head later)
      (ascending-sort_indices (x ∷ seen) xs later)

-- An ascending list below `n` from `k` on is not longer than the room there.
pub length_bound :
    (k n : ℕ) (xs : List ℕ)
    → k ≤ n
    → ascending k xs ≡ true
    → every (λ i. ltb i n) xs ≡ true
    → k + length xs ≤ n
unfolding ascending every
length_bound k n [] h a e = omega (arith, h)
length_bound k n (x ∷ xs) h a e = ground (arith, length_bound (suc x) n xs)

pub get_elem?-ascending :
    (k n i : ℕ) (xs : List ℕ)
    → n ≡ k + length xs
    → ascending k xs ≡ true
    → every (λ j. ltb j n) xs ≡ true
    → i < length xs
    → get_elem? xs i ≡ some (k + i)
unfolding ascending every
get_elem?-ascending k n i [] b a e h = elim h [ ]
get_elem?-ascending k n zero (x ∷ xs) b a e h = ap some (ground (arith, length_bound (suc x) n xs))
get_elem?-ascending k n (suc i) (x ∷ xs) b a e h =
    let first : x ≡ k = ground (arith, length_bound (suc x) n xs) in
    let later : ascending (suc x) xs ≡ true = ground arith in
    let below : every (λ j. ltb j n) xs ≡ true = ground arith in
    get_elem?-ascending (suc x) n i xs (omega (arith, b, first)) later below (omega (arith, h))
    ∙ ap some (omega (arith, first))
