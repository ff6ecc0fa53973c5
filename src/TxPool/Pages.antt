-- ===== src/TxPool/Pages.antt =====
-- mempool_txs.go: what the readers of the pool return. A slot of the result is `none` for a nil
-- pointer, on which the conversion would fail.
use idena_indexer.Base.{
  ℕ, zero, suc, ◌+◌, ◌<◌, ◌≡◌, refl, ap, sym, ◌∙◌, Option, none, some, List, [], ◌∷◌, ◌++◌, arith,
  length, set, replicate, take, min, map, length-map, length-take, length-append, append_assoc,
}
use idena_indexer.Base.Int.{pos, negsuc}
use idena_indexer.Base.Map.{Map}
use idena_indexer.Node.{Hash, Transaction}
use idena_indexer.TxPool.ByHash

-- The transactions of an index, in the order of its iteration.
abbrev pub values : Map Hash Transaction → List Transaction
values [] = []
values ((_, tx) ∷ m) = tx ∷ values m

set-append :
    (pre : List (Option Transaction)) (x y : Option Transaction) (post : List (Option Transaction))
    → set (pre ++ x ∷ post) (length pre) y ≡ pre ++ y ∷ post
set-append [] x y post = refl
set-append (p ∷ pre) x y post = ap (λ t. p ∷ t) (set-append pre x y post)

set_slot :
    (i : ℕ) (pre post res : List (Option Transaction)) (y : Option Transaction)
    → i ≡ length pre
    → res ≡ pre ++ none ∷ post
    → set res i y ≡ pre ++ y ∷ post
set_slot i pre post res y e r = rw (e, r) (set-append pre none y post)

-- The loop overwrites the nil slots from the left, and stops at the last.
fill_lem :
    (k i size : ℕ) (pre : List (Option Transaction)) (m : Map Hash Transaction)
    (res : List (Option Transaction))
    → i ≡ length pre
    → size ≡ i + suc k
    → res ≡ pre ++ replicate (suc k) none
    → k < length m
    → ByHash.fill i size m res ≡ pre ++ map some (take (suc k) (values m))
unfolding ByHash.fill
fill_lem k i size pre [] res e s r h = absurd (omega arith)
fill_lem zero i size pre ((g, tx) ∷ m) res e s r h =
    ground (arith, set_slot i pre [] res (some tx) e r)
fill_lem (suc k) i size pre ((g, tx) ∷ m) res e s r h =
    let slot = set_slot i pre (replicate (suc k) none) res (some tx) e r in
    let pre' : List (Option Transaction) = pre ++ some tx ∷ [] in
    let e' : i + 1 ≡ length pre' = rw length-append (omega arith) in
    let r' : set res i (some tx) ≡ pre' ++ replicate (suc k) none =
      slot ∙ sym (append_assoc pre (some tx ∷ []) (replicate (suc k) none)) in
    let rest =
      fill_lem k (i + 1) size pre' m (set res i (some tx)) e' (omega arith) r' (omega arith) in
    ground (arith, rest ∙ append_assoc pre (some tx ∷ []) (map some (take (suc k) (values m))))

length-values : (m : Map Hash Transaction) → length (values m) ≡ length m
length-values [] = refl
length-values ((_, _) ∷ m) = ap suc (length-values m)

take-min :
    (count : ℕ) (m : Map Hash Transaction)
    → take (min count (length m)) (values m) ≡ take count (values m)
take-min zero m = let e : min 0 (length m) ≡ 0 = omega arith in rw e
take-min (suc count) [] = let e : min (suc count) 0 ≡ 0 = omega arith in rw e
take-min (suc count) ((_, tx) ∷ m) =
    let e : min (suc count) (suc (length m)) ≡ suc (min count (length m)) = omega arith in
    rw e (ap (λ t. tx ∷ t) (take-min count m))

all-eq-take :
    (count : ℕ) (m : Map Hash Transaction)
    → ByHash.all (pos count) m ≡ map some (take count (values m))
unfolding ByHash.all
all-eq-take zero m = refl
all-eq-take (suc count) [] = ground arith
all-eq-take (suc count) (x ∷ m) =
    let size = min (suc count) (length (x ∷ m)) in
    let k = min count (length m) in
    let e : size ≡ suc k = omega arith in
    let filled =
      fill_lem k 0 size [] (x ∷ m) (replicate size none) refl (omega arith)
        (ap (λ s. replicate s none) e) (omega arith) in
    let page : take (suc k) (values (x ∷ m)) ≡ take (suc count) (values (x ∷ m)) =
      (ap (λ s. take s (values (x ∷ m))) (sym e)) ∙ take-min (suc count) (x ∷ m) in
    ground (arith, filled, ap (map some) page)

-- A request for `count` transactions returns `count` of them, or all if there are fewer, none for a
-- count of zero or less, and no nil pointer.
pub all_lem :
    (count : ℕ) (m : Map Hash Transaction)
    → (ByHash.all (pos count) m ≡ map some (take count (values m)))
      × (length (ByHash.all (pos count) m) ≡ min count (length m))
      × (ByHash.all (negsuc count) m ≡ [])
unfolding ByHash.all
all_lem count m =
    (all-eq-take count m, rw (all-eq-take, length-map, length-take, length-values), refl)
