-- ===== src/Crypto/Cache/Bounded.antt =====
-- The size of the cache of crypto/cache.go, and its evictions.
use mathlib.Core.Path.{subst}
use hotstuff_repbased_leader.Prelude.{
  ℕ, ◌≡◌, ◌≤◌, ◌<◌, refl, ap, ◌∙◌, Bool, true, false, not, ◌&&◌, ◌||◌, some, List, [], ◌∷◌, arith,
  ltb, ◌==◌, elem, length, Bool-cases, inl, inr,
}
use hotstuff_repbased_leader.Crypto.Cache.{
  Cache, without, move_to_front, remove_back, evict, insert_key, check, verify_with,
}
use hotstuff_repbased_leader.Crypto.Cache.Sound.{evict-elem}

-- No key occurs twice.
abbrev IsDistinct : List ℕ → Type 0
IsDistinct [] = Unit
IsDistinct (x ∷ xs) = (elem x xs ≡ false) × IsDistinct xs

-- The keys of the map are those of the access order, which has each once, and there are no more than
-- the capacity.
pub record IsBounded (c : Cache) : Type 0 where
  pub room : length c.entries ≤ c.capacity
  pub once : IsDistinct c.access_order
  pub same : (j : ℕ) → elem j c.entries ≡ elem j c.access_order

elem-without : (k j : ℕ) (xs : List ℕ) → elem j (without k xs) ≡ (elem j xs && not (k == j))
unfolding without
elem-without k j [] = refl
elem-without k j (x ∷ xs) = ground (arith, elem-without k j xs)

without-IsDistinct : (k : ℕ) (xs : List ℕ) → IsDistinct xs → IsDistinct (without k xs)
unfolding without
without-IsDistinct k [] h = tt
without-IsDistinct k (x ∷ xs) h =
    ground (arith, without-IsDistinct k xs h.1, elem-without k x xs, h.0)

length-without_le : (k : ℕ) (xs : List ℕ) → length (without k xs) ≤ length xs
unfolding without
length-without_le k [] = omega arith
length-without_le k (x ∷ xs) = ground (arith, length-without_le k xs)

length-without : (k : ℕ) (xs : List ℕ) → elem k xs ≡ true → length (without k xs) < length xs
unfolding without
length-without k [] h = ground arith
length-without k (x ∷ xs) h = ground (arith, length-without k xs, length-without_le k xs)

-- The last key and the others.
remove_back_lem :
    (x : ℕ) (xs : List ℕ)
    → (y : ℕ) × (rest : List ℕ) × (remove_back (x ∷ xs) ≡ some (y, rest))
      × ((j : ℕ) → elem j (x ∷ xs) ≡ (elem j rest || (y == j)))
      × (IsDistinct (x ∷ xs) → (elem y rest ≡ false) × IsDistinct rest)
unfolding remove_back
remove_back_lem x [] = (x, [], refl, λ j. ground arith, λ h. (refl, tt))
remove_back_lem x (z ∷ zs) =
    let (y, rest, removed, members, distinct) = remove_back_lem z zs in
    (
      y,
      x ∷ rest,
      ground arith,
      λ j. ground (arith, members j),
      λ h. ground (arith, distinct h.1, members x, h.0),
    )

move_to_front-IsBounded :
    (k : ℕ) (c : Cache) → elem k c.entries ≡ true → IsBounded c → IsBounded (move_to_front k c)
unfolding move_to_front
move_to_front-IsBounded k c there h = record {
  room = h.room;
  once =
      (ground (arith, elem-without k k c.access_order), without-IsDistinct k c.access_order h.once);
  same = λ j. ground (arith, elem-without k j c.access_order, h.same j, h.same k, there);
}

-- An eviction that makes room.
record Evicted (c : Cache) : Type 0 where
  cache : Cache
  done : evict c ≡ some cache
  smaller : length cache.entries < cache.capacity
  bounded : IsBounded cache
  capacity_same : cache.capacity ≡ c.capacity

first_of :
    (entries order : List ℕ)
    → 0 < length entries
    → ((j : ℕ) → elem j entries ≡ elem j order)
    → (x : ℕ) × (xs : List ℕ) × (order ≡ x ∷ xs)
first_of [] order pos same = absurd (omega arith)
first_of (e ∷ es) [] pos same = absurd (ground (arith, same e))
first_of (e ∷ es) (x ∷ xs) pos same = (x, xs, refl)

without_last :
    (y j : ℕ) (a : Bool) (rest : List ℕ)
    → a ≡ (elem j rest || (y == j))
    → elem y rest ≡ false
    → (a && not (y == j)) ≡ elem j rest
without_last y j a rest split alone = elim (Bool-cases (y == j)) [
  | inl same ↦ ground arith
  | inr other ↦ ground arith
]

evict_lem : (c : Cache) → 0 < c.capacity → IsBounded c → Evicted c
unfolding evict
evict_lem c pos h = elim (Bool-cases (ltb (length c.entries) c.capacity)) [
  | inl free ↦ record {
    cache = c;
    done = ground arith;
    smaller = ground arith;
    bounded = h;
    capacity_same = refl;
  }
  | inr full ↦
      let (x, xs, order) = first_of c.entries c.access_order (ground arith) h.same in
      let (y, rest, removed, members, distinct) = remove_back_lem x xs in
      let back : remove_back c.access_order ≡ some (y, rest) = ap remove_back order ∙ removed in
      let (alone, once) = distinct (subst IsDistinct order h.once) in
      let held : elem y c.entries ≡ true = ground (arith, h.same y, members y) in
      record {
        cache = record c { entries = without y c.entries; access_order = rest };
        done = ground arith;
        smaller = ground (arith, length-without y c.entries held, h.room);
        bounded = record {
          room = ground (arith, length-without y c.entries held, h.room);
          once = once;
          same = λ j.
              elem-without y j c.entries
              ∙ without_last y j _ rest (h.same j ∙ ap (elem j) order ∙ members j) alone;
        };
        capacity_same = refl;
      }
]

insert_key_lem :
    (k : ℕ) (c : Cache)
    → 0 < c.capacity
    → elem k c.entries ≡ false
    → IsBounded c
    → (d : Cache) × (insert_key k c ≡ some d) × IsBounded d × (d.capacity ≡ c.capacity)
unfolding insert_key
insert_key_lem k c pos new h =
    let e = evict_lem c pos h in
    (
      record e.cache { entries = k ∷ e.cache.entries; access_order = k ∷ e.cache.access_order },
      ground (arith, e.done),
      record {
        room = ground (arith, e.smaller);
        once = (ground (arith, evict-elem c e.cache k e.done, e.bounded.same k), e.bounded.once);
        same = λ j. ground (arith, e.bounded.same j);
      },
      e.capacity_same,
    )

-- With room for at least one key no check through the cache fails: the eviction that it may need
-- finds a key, and afterwards the cache again holds no more keys than its capacity, each once in
-- the order of access. What it answers is a hit, or the answer of the scheme.
pub verify_with-IsBounded :
    (k : ℕ) (answer : Bool) (c : Cache)
    → 0 < c.capacity
    → IsBounded c
    → (d : Cache) × (verify_with k answer c ≡ some (d, elem k c.entries || answer))
      × IsBounded d
      × (d.capacity ≡ c.capacity)
unfolding verify_with check move_to_front
verify_with-IsBounded k answer c pos h = elim (Bool-cases (elem k c.entries)) [
  | inl hit ↦ (move_to_front k c, ground arith, move_to_front-IsBounded k c hit h, refl)
  | inr new ↦ elim (Bool-cases answer) [
    | inr refused ↦ (c, ground arith, h, refl)
    | inl accepted ↦
        let (d, inserted, bounded, same) = insert_key_lem k c pos new h in
        (d, ground (arith, inserted), bounded, same)
  ]
]
