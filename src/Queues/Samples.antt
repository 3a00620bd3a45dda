-- ===== src/Queues/Samples.antt =====
-- queues.py: runs on concrete queues.
use radical_orbit.Prelude.{ℕ, ◌≡◌, refl, true, List, [], ◌∷◌, nat_eq, string_eq, option_eq, pair_eq}
use radical_orbit.Prelude.Int.{int_eq}
use radical_orbit.Queues.{BoundedDropOldestQueue, Turn, pushes, resumes, fresh, push, turn, turns}
use radical_orbit.Queues.Order.{IsConsistent, turns-IsConsistent, push_lem}

abbrev slow_consumer : List (Turn ℕ)
slow_consumer = pushes 1 ∷ pushes 2 ∷ pushes 3 ∷ resumes ∷ resumes ∷ pushes 4 ∷ resumes ∷ []

abbrev full_queue : BoundedDropOldestQueue ℕ
full_queue = record { maxlen = 2; buf = 1 ∷ 2 ∷ []; dropped = 0; wake = true }

slow_consumer_yields : (turns slow_consumer (fresh 2)).yielded ≡ 2 ∷ 3 ∷ []
unfolding turns turn fresh
slow_consumer_yields = refl

turns-IsConsistent_example : IsConsistent (turns slow_consumer (fresh 2))
turns-IsConsistent_example = turns-IsConsistent 2 slow_consumer

push_lem_example : (push 3 full_queue).buf ≡ 2 ∷ 3 ∷ []
push_lem_example = ((push_lem 3 1 full_queue (2 ∷ [])).1 refl refl).0
