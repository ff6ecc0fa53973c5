-- ===== src/Timestamps/Conserve.antt =====
-- mempool.go: `saveData` loses no timestamp and hands none to the database twice, whatever fails and whoever adds
-- timestamps meanwhile.
use mathlib.Core.List.{Perm, perm_append_comm}
use mathlib.Core.List.Perm
use idena_indexer.Base.{
  ℕ, ◌≡◌, refl, ap, ◌⊎◌, inl, inr, Bool, true, false, List, [], ◌∷◌, ◌++◌, arith, append_assoc,
  append-nil, leb, length, Bool-cases, if◌then◌else◌,
}
use idena_indexer.Timestamps.{
  MemPoolActionTimestamp, Kind, flip_private_keys_package, flip_key, answers_hash_tx,
  short_answers_tx, Timestamps, no_timestamps, list_of, set_list, is_empty,
}
use idena_indexer.Timestamps.Steps.{
  Phase, idle, taking, saving, returning, System, init, hand_over, take_kind, save, return_kind,
  save_data_at, observe, Event, observed, advanced, step, run,
}

abbrev pub index : Kind → ℕ
index flip_private_keys_package = 0
index flip_key = 1
index answers_hash_tx = 2
index short_answers_tx = 3

-- What `saveData` holds of a kind, neither cached nor handed over.
abbrev pub in_flight : Kind → Phase → List MemPoolActionTimestamp
in_flight j idle = []
in_flight j (taking k d) = list_of j d
in_flight j (saving d) = list_of j d
in_flight j (returning k d) = if leb (index k) (index j) then list_of j d else []

-- What the system knows of a kind, at a phase.
abbrev pub held_at : Kind → Phase → System → List MemPoolActionTimestamp
held_at j phase s = list_of j s.handed_over ++ (in_flight j phase ++ list_of j s.cache)

abbrev pub held : Kind → System → List MemPoolActionTimestamp
held j s = held_at j s.phase s

-- The lists that are still to be taken are empty in `data`.
abbrev IsFresh : Kind → Phase → Type 0
IsFresh j (taking k d) = leb (index k) (index j) ≡ true → list_of j d ≡ []
IsFresh j _ = Unit

take_kind-held :
    (j k : Kind) (d : Timestamps) (s : System)
    → (leb (index k) (index j) ≡ true → list_of j d ≡ [])
    → (in_flight j (take_kind k d s).phase ++ list_of j (take_kind k d s).cache
        ≡ list_of j d ++ list_of j s.cache)
unfolding take_kind set_list
take_kind-held flip_private_keys_package flip_private_keys_package d s fresh =
    ground (arith, fresh refl, append-nil s.cache.flip_private_keys_package_timestamps)
take_kind-held j k d s fresh = ground (arith, fresh, append-nil (list_of j s.cache))

take_kind-IsFresh :
    (j k : Kind) (d : Timestamps) (s : System)
    → (leb (index k) (index j) ≡ true → list_of j d ≡ [])
    → IsFresh j (take_kind k d s).phase
unfolding take_kind set_list
take_kind-IsFresh flip_private_keys_package flip_private_keys_package d s fresh = λ e. cc
take_kind-IsFresh j flip_private_keys_package d s fresh = λ e. ground (arith, fresh)
take_kind-IsFresh j flip_key d s fresh = λ e. ground (arith, fresh)
take_kind-IsFresh j answers_hash_tx d s fresh = λ e. ground (arith, fresh)
take_kind-IsFresh j short_answers_tx d s fresh = tt

nil_of_length {ℓ} : {A : Type ℓ} (xs : List A) → length xs ≡ 0 → xs ≡ []
nil_of_length [] h = refl
nil_of_length (x ∷ xs) h = absurd (omega arith)

is_empty-list_of : (j : Kind) (d : Timestamps) → is_empty d ≡ true → list_of j d ≡ []
unfolding is_empty
is_empty-list_of flip_private_keys_package d h = nil_of_length _ (ground arith)
is_empty-list_of flip_key d h = nil_of_length _ (ground arith)
is_empty-list_of answers_hash_tx d h = nil_of_length _ (ground arith)
is_empty-list_of short_answers_tx d h = nil_of_length _ (ground arith)

save-held :
    (j : Kind) (failed : Bool) (d : Timestamps) (s : System)
    → held j (save failed d s) ≡ held_at j (saving d) s
unfolding save hand_over
save-held flip_private_keys_package failed d s = ground (
  arith,
  is_empty-list_of flip_private_keys_package d,
  append_assoc (list_of flip_private_keys_package s.handed_over)
      (list_of flip_private_keys_package d) (list_of flip_private_keys_package s.cache),
)
save-held j failed d s = ground (
  arith,
  is_empty-list_of j d,
  append_assoc (list_of j s.handed_over) (list_of j d) (list_of j s.cache),
)

append_last :
    (j : Kind) (t : MemPoolActionTimestamp) (s : System)
    → list_of j s.handed_over ++ (in_flight j s.phase ++ (list_of j s.cache ++ t ∷ []))
      ≡ list_of j s.handed_over ++ (in_flight j s.phase ++ list_of j s.cache) ++ t ∷ []
append_last j t s = simp append_assoc

-- Of the kind that goes back, the list moves behind what came in meanwhile.
return_kind-lists :
    (j k : Kind) (d : Timestamps) (s : System)
    → let s' = return_kind k d s in
      (list_of j s'.handed_over ≡ list_of j s.handed_over)
      × ((in_flight j s'.phase ++ list_of j s'.cache
            ≡ in_flight j (returning k d) ++ list_of j s.cache)
          ⊎ (in_flight j s'.phase ++ list_of j s'.cache
              ≡ list_of j s.cache ++ in_flight j (returning k d)))
unfolding return_kind set_list
return_kind-lists flip_private_keys_package flip_private_keys_package d s = ground arith
return_kind-lists j k d s = ground arith

return_kind-held :
    (j k : Kind) (d : Timestamps) (s : System)
    → Perm (held_at j (returning k d) s) (held j (return_kind k d s))
return_kind-held j k d s =
    let (kept, moved) = return_kind-lists j k d s in
    rw kept (elim moved [
      | inl same ↦ rw same (Perm.refl _)
      | inr behind ↦ rw behind (
          Perm.append_left (list_of j s.handed_over)
            (perm_append_comm (in_flight j (returning k d)) (list_of j s.cache)))
    ])

-- A new timestamp of kind `k` comes last in the list of its kind, and changes no other list.
observe-lists :
    (j k : Kind) (t : MemPoolActionTimestamp) (s : System)
    → let s' = observe k t s in
      (held j s' ≡ held j s ++ t ∷ []) × (list_of j s'.seen ≡ list_of j s.seen ++ t ∷ [])
      ⊎ (held j s' ≡ held j s) × (list_of j s'.seen ≡ list_of j s.seen)
unfolding observe set_list
observe-lists flip_private_keys_package flip_private_keys_package t s =
    ground (arith, append_last flip_private_keys_package t s)
observe-lists j k t s = ground (arith, append_last j t s)

observe-held :
    (j k : Kind) (t : MemPoolActionTimestamp) (s : System)
    → Perm (list_of j s.seen) (held j s)
    → Perm (list_of j (observe k t s).seen) (held j (observe k t s))
observe-held j k t s h = elim (observe-lists j k t s) [
  | inl (p, q) ↦ rw (p, q) (Perm.append_right (t ∷ []) h)
  | inr (p, q) ↦ rw (p, q) h
]

observe-IsFresh :
    (j k : Kind) (t : MemPoolActionTimestamp) (s : System)
    → IsFresh j s.phase
    → IsFresh j (observe k t s).phase
unfolding observe
observe-IsFresh j k t s h = h

record IsConserved (s : System) : Type 0 where
  balance : (j : Kind) → Perm (list_of j s.seen) (held j s)
  fresh : (j : Kind) → IsFresh j s.phase

-- The statements of `saveData` leave what was seen alone.
save_data_at-seen :
    (p : Phase) (failed : Bool) (s : System) → (save_data_at p failed s).seen ≡ s.seen
unfolding save_data_at take_kind save return_kind
save_data_at-seen idle failed s = refl
save_data_at-seen (taking k d) failed s = refl
save_data_at-seen (saving d) failed s = ground arith
save_data_at-seen (returning k d) failed s = refl

list_of-no_timestamps : (j : Kind) → list_of j no_timestamps ≡ []
list_of-no_timestamps flip_private_keys_package = refl
list_of-no_timestamps j = refl

held-take_kind :
    (j k : Kind) (d : Timestamps) (s : System)
    → IsFresh j (taking k d)
    → held j (take_kind k d s) ≡ held_at j (taking k d) s
unfolding take_kind
held-take_kind j k d s fresh = ap (λ l. list_of j s.handed_over ++ l) (take_kind-held j k d s fresh)

save_data_at-held :
    (j : Kind) (p : Phase) (failed : Bool) (s : System)
    → IsFresh j p
    → Perm (held_at j p s) (held j (save_data_at p failed s))
unfolding save_data_at
save_data_at-held j idle failed s fresh = rw (list_of-no_timestamps j) (Perm.refl _)
save_data_at-held j (taking k d) failed s fresh = rw (held-take_kind j k d s fresh) (Perm.refl _)
save_data_at-held j (saving d) failed s fresh = rw (save-held j failed d s) (Perm.refl _)
save_data_at-held j (returning k d) failed s fresh = return_kind-held j k d s

save-IsFresh :
    (j : Kind) (failed : Bool) (d : Timestamps) (s : System) → IsFresh j (save failed d s).phase
unfolding save
save-IsFresh j failed d s = elim (Bool-cases (is_empty d)) [
  | inl nothing ↦ rw nothing tt
  | inr some_data ↦
      rw some_data
        (elim (Bool-cases failed) [ inl error ↦ rw error tt | inr stored ↦ rw stored tt ])
]

return_kind-IsFresh :
    (j k : Kind) (d : Timestamps) (s : System) → IsFresh j (return_kind k d s).phase
unfolding return_kind
return_kind-IsFresh j flip_private_keys_package d s = tt
return_kind-IsFresh j short_answers_tx d s = tt
return_kind-IsFresh j k d s = tt

save_data_at-IsFresh :
    (j : Kind) (p : Phase) (failed : Bool) (s : System)
    → IsFresh j p
    → IsFresh j (save_data_at p failed s).phase
unfolding save_data_at
save_data_at-IsFresh j idle failed s fresh = λ _. list_of-no_timestamps j
save_data_at-IsFresh j (taking k d) failed s fresh = take_kind-IsFresh j k d s fresh
save_data_at-IsFresh j (saving d) failed s fresh = save-IsFresh j failed d s
save_data_at-IsFresh j (returning k d) failed s fresh = return_kind-IsFresh j k d s

step-IsConserved : (e : Event) (s : System) → IsConserved s → IsConserved (step e s)
unfolding step
step-IsConserved (observed k t) s c = record {
  balance = λ j. observe-held j k t s (c.balance j);
  fresh = λ j. observe-IsFresh j k t s (c.fresh j);
}
step-IsConserved (advanced failed) s c = record {
  balance = λ j.
      rw (save_data_at-seen s.phase failed s)
        (Perm.trans (c.balance j) (save_data_at-held j s.phase failed s (c.fresh j)));
  fresh = λ j. save_data_at-IsFresh j s.phase failed s (c.fresh j);
}

run-IsConserved : (es : List Event) (s : System) → IsConserved s → IsConserved (run es s)
unfolding run
run-IsConserved [] s c = c
run-IsConserved (e ∷ es) s c = run-IsConserved es (step e s) (step-IsConserved e s c)

init-IsConserved : IsConserved init
init-IsConserved = record {
  balance = λ j. rw (list_of-no_timestamps j) (Perm.refl []);
  fresh = λ j. tt;
}

-- After any interleaving of listeners with `saveData`, whose database calls may fail, the timestamps
-- seen of each kind are those handed to the database in calls without an error, those that `saveData`
-- holds and those cached, each as often.
pub run_conserves :
    (es : List Event) (j : Kind) → Perm (list_of j (run es init).seen) (held j (run es init))
run_conserves es j = (run-IsConserved es init init-IsConserved).balance j

-- The statements of one call of `saveData` that the database accepts: four lists are taken.
abbrev pub round : List Event
round =
    advanced false
    ∷ advanced false
    ∷ advanced false
    ∷ advanced false
    ∷ advanced false
    ∷ advanced false
    ∷ []

round_from :
    (c saved seen : Timestamps) (j : Kind)
    → let s' = run round (record { cache = c; phase = idle; handed_over = saved; seen = seen }) in
      (s'.phase ≡ idle)
      × (list_of j s'.handed_over ≡ list_of j saved ++ list_of j c)
      × (list_of j s'.cache ≡ [])
unfolding run take_kind save set_list hand_over
round_from c saved seen flip_private_keys_package = ground (
  arith,
  is_empty-list_of flip_private_keys_package c,
  append-nil (list_of flip_private_keys_package saved),
)
round_from c saved seen j = ground (arith, is_empty-list_of j c, append-nil (list_of j saved))

-- One undisturbed call of `saveData` that the database accepts hands all that was cached to it, in
-- order, behind what it got before, and leaves the cache empty.
pub run-round :
    (s : System)
    → s.phase ≡ idle
    → (j : Kind)
    → let s' = run round s in
      (s'.phase ≡ idle)
      × (list_of j s'.handed_over ≡ list_of j s.handed_over ++ list_of j s.cache)
      × (list_of j s'.cache ≡ [])
run-round s h j =
    let now : s ≡ record s { phase = idle } = λ i. record s { phase = h i } in
    rw now (round_from s.cache s.handed_over s.seen j)
